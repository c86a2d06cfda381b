-- ===== src/Jobs/Registry/Tests.antt =====
-- A job on a file that was never uploaded.
use file_forge.Base.{◌≡◌, refl, true, some, [], ◌∷◌, map}
use file_forge.Base.Text.{codes}
use file_forge.Storage.Memory.{memory, root}
use file_forge.Files.Records.{get}
use file_forge.Jobs.{JobError, csv_validate, threw, is_unrecoverable, run_job_with_retry_policy}
use file_forge.Jobs.Worker.{JobEvent, Job, processing, failed, attempt}
use file_forge.Jobs.Registry.{registry, missing_file_fails_once}
use file_forge.Jobs.Sample.{zod, sharp, tables, keeper, report, payload, no_records, extname}

abbrev job : Job
job = record { id = codes "j"; operation = csv_validate; attempts_made = 0; attempts = some 3 }

missing_file_fails_once_example :
    let out =
      run_job_with_retry_policy
        (registry zod memory sharp tables keeper report root extname [])
        (some (payload csv_validate))
        no_records in
    (f : JobError) × (out ≡ (threw f, no_records))
    × (is_unrecoverable f ≡ true)
    × (map (λ (e : JobEvent). e.state) (attempt job out.0).events ≡ processing ∷ failed ∷ [])
unfolding get
missing_file_fails_once_example =
    missing_file_fails_once zod memory sharp tables keeper report root extname []
      (payload csv_validate) job no_records refl
