-- ===== src/Jobs/Registry.antt =====
-- jobs/processors.ts: the registry of the program's own processors, and a job through it, the retry
-- policy and the worker.
mod Tests
use file_forge.Base.{
  ℕ, ◌≡◌, refl, sym, ◌∙◌, ap, Bool, true, false, ◌||◌, Option, none, some, List, [], ◌∷◌, leb, map,
  ◌+◌,
}
use file_forge.Base.Text.{Text}
use file_forge.Storage.{Disk, FilePath}
use file_forge.Files.Records.{Redis, get}
use file_forge.Jobs.{
  JobError, JobPayload, Operation, image_resize, image_convert, image_thumbnail, csv_validate,
  csv_transform, Outcome, threw, is_permanent_failure, is_unrecoverable, Processors, run_job,
  retry_policy, run_job_with_retry_policy, run_job_some, run_job_with_retry_policy_lem,
}
use file_forge.Jobs.Policy.{NotUnrecoverable, retry_policy_lem, permanent-NotUnrecoverable}
use file_forge.Jobs.Context.{World}
use file_forge.Jobs.Context.Missing.{FailsForGood}
use file_forge.Jobs.Options.{Zod}
use file_forge.Jobs.Images.Process.{Sharp, resize_image, convert_image, thumbnail_image}
use file_forge.Jobs.Images.Process.Missing.{images_missing}
use file_forge.Csv.Process.{CsvLibrary, validate_csv, transform_csv}
use file_forge.Csv.Process.Missing.{csv_missing}
use file_forge.Jobs.Worker.{EventState, JobEvent, processing, failed, Job, attempt, attempts_or_one}
use file_forge.Jobs.Worker.Life.{attempt_final}

module _ (Z : Zod) (D : Disk) (S : Sharp D) (L : CsvLibrary D) (R : Redis)
    (report : ℕ → R.Store → Option (Unit {0}) × R.Store) (root : FilePath) (extname : Text → Text)
    (uuid : Text) where
  -- `processors`
  abbrev pub registry : Processors (World D R report)
  registry = record {
    resize_image = resize_image Z D S R report root extname uuid;
    convert_image = convert_image Z D S R report root extname uuid;
    thumbnail_image = thumbnail_image Z D S R report root extname uuid;
    validate_csv = validate_csv Z D L R report root uuid;
    transform_csv = transform_csv Z D L R report root uuid;
  }

  run_missing :
      (p : JobPayload) (w : World D R report)
      → get R p.file_id w.1 ≡ some none
      → FailsForGood (run_job registry (some p) w) w
  run_missing p w gone =
      let images = images_missing Z D S R report root extname uuid p w gone in
      let tables = csv_missing Z D L R report root uuid p w gone in
      run_job_some registry p w (λ x. FailsForGood x w) images.0 images.1 images.2 tables.0 tables.1

  -- A job on a file that has no record, whatever its operation and options are, fails with an error
  -- that is not retried and leaves storage and records as they were; and whatever attempt it is, its
  -- watchers are told that it failed.
  pub missing_file_fails_once :
      (p : JobPayload) (job : Job) (w : World D R report)
      → get R p.file_id w.1 ≡ some none
      → let out = run_job_with_retry_policy registry (some p) w in
        (f : JobError) × (out ≡ (threw f, w))
        × (is_unrecoverable f ≡ true)
        × (map (λ (e : JobEvent). e.state) (attempt job out.0).events ≡ processing ∷ failed ∷ [])
  missing_file_fails_once p job w gone =
      let (e, ran, permanent) = run_missing p w gone in
      let (f, policy, kind, _) = retry_policy_lem e (permanent-NotUnrecoverable e permanent) in
      let final : is_unrecoverable f ≡ true = kind ∙ permanent in
      let all : run_job_with_retry_policy registry (some p) w ≡ (threw f, w) =
        run_job_with_retry_policy_lem registry (some p) w (threw e) w ran
        ∙ ap (λ (o : Outcome). (o, w)) policy in
      (
        f,
        all,
        final,
        ap
              (λ (o : Outcome × World D R report).
                map (λ (x : JobEvent). x.state) (attempt job o.0).events)
              all
            ∙ attempt_final job f (rw final refl),
      )
