-- ===== src/Csv/Process/Missing.antt =====
-- CSV jobs on a file without a record.
use file_forge.Base.{ℕ, ◌≡◌, refl, Option, none, some, Option-cases, inl, inr, ◌++◌}
use file_forge.Base.Text.{Text, codes}
use file_forge.Storage.{Disk, FilePath}
use file_forge.Files.Records.{Redis, get}
use file_forge.Jobs.{JobPayload, invalid_options, new_missing_file}
use file_forge.Jobs.Context.{as_outcome}
use file_forge.Jobs.Context.Missing.{
  FailsForGood, load_missing, new_missing_file_permanent, invalid_options_permanent,
}
use file_forge.Jobs.Options.{Zod, options_or_raise}
use file_forge.Csv.Process.{
  CsvLibrary, W, parse_validate, parse_transform, validate_with, transform_with, validate_csv,
  transform_csv,
}

module _ (Z : Zod) (D : Disk) (L : CsvLibrary D) (R : Redis)
    (report : ℕ → R.Store → Option (Unit {0}) × R.Store) (root : FilePath) (uuid : Text)
    (p : JobPayload) (w : W Z D L R report root uuid)
    (missing : get R p.file_id w.1 ≡ some none) where
  pub csv_missing :
      FailsForGood (validate_csv Z D L R report root uuid p w) w
      × FailsForGood (transform_csv Z D L R report root uuid p w) w
  unfolding validate_csv transform_csv options_or_raise validate_with transform_with as_outcome
  csv_missing =
      let gone = load_missing D R report p.file_id w missing in
      let final = new_missing_file_permanent p.file_id in
      (
        elim (Option-cases (parse_validate Z p.options)) [
          | inl bad ↦
              let m = codes "Invalid validate options: " ++ Z.first_issue p.options in
              (invalid_options m, rw bad refl, invalid_options_permanent m)
          | inr (o, good) ↦ (new_missing_file p.file_id, rw good (rw gone refl), final)
        ],
        elim (Option-cases (parse_transform Z p.options)) [
          | inl bad ↦
              let m = codes "Invalid transform options: " ++ Z.first_issue p.options in
              (invalid_options m, rw bad refl, invalid_options_permanent m)
          | inr (o, good) ↦ (new_missing_file p.file_id, rw good (rw gone refl), final)
        ],
      )
