-- ===== src/Jobs/Images/Process/Missing.antt =====
-- Image jobs on a file without a record.
use file_forge.Base.{ℕ, ◌≡◌, refl, Option, none, some, Option-cases, inl, inr, ◌++◌}
use file_forge.Base.Text.{Text, codes}
use file_forge.Storage.{Disk, FilePath}
use file_forge.Files.Records.{Redis, get}
use file_forge.Jobs.{JobPayload, invalid_options, new_missing_file}
use file_forge.Jobs.Context.{as_outcome}
use file_forge.Jobs.Context.Missing.{
  FailsForGood, load_missing, new_missing_file_permanent, invalid_options_permanent,
}
use file_forge.Jobs.Options.{Zod, options_or_raise}
use file_forge.Jobs.Images.{parse_resize, parse_convert, parse_thumbnail}
use file_forge.Jobs.Images.Process.{
  Here, Sharp, resize_with, convert_with, thumbnail_with, open_image, resize_image, convert_image,
  thumbnail_image,
}

module _ (Z : Zod) (D : Disk) (S : Sharp D) (R : Redis)
    (report : ℕ → R.Store → Option (Unit {0}) × R.Store) (root : FilePath) (extname : Text → Text)
    (uuid : Text) (p : JobPayload) (w : Here Z D S R report root extname uuid)
    (missing : get R p.file_id w.1 ≡ some none) where
  pub images_missing :
      FailsForGood (resize_image Z D S R report root extname uuid p w) w
      × FailsForGood (convert_image Z D S R report root extname uuid p w) w
      × FailsForGood (thumbnail_image Z D S R report root extname uuid p w) w
  unfolding resize_image convert_image thumbnail_image options_or_raise resize_with convert_with
      thumbnail_with open_image as_outcome
  images_missing =
      let gone = load_missing D R report p.file_id w missing in
      let final = new_missing_file_permanent p.file_id in
      (
        elim (Option-cases (parse_resize Z p.options)) [
          | inl bad ↦
              let m = codes "Invalid resize options: " ++ Z.first_issue p.options in
              (invalid_options m, rw bad refl, invalid_options_permanent m)
          | inr (o, good) ↦ (new_missing_file p.file_id, rw good (rw gone refl), final)
        ],
        elim (Option-cases (parse_convert Z p.options)) [
          | inl bad ↦
              let m = codes "Invalid convert options: " ++ Z.first_issue p.options in
              (invalid_options m, rw bad refl, invalid_options_permanent m)
          | inr ((f, q), good) ↦ (new_missing_file p.file_id, rw good (rw gone refl), final)
        ],
        elim (Option-cases (parse_thumbnail Z p.options)) [
          | inl bad ↦
              let m = codes "Invalid thumbnail options: " ++ Z.first_issue p.options in
              (invalid_options m, rw bad refl, invalid_options_permanent m)
          | inr (n, good) ↦ (new_missing_file p.file_id, rw good (rw gone refl), final)
        ],
      )
