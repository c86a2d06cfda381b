-- ===== src/Jobs/Kinds.antt =====
-- shared/contract.ts: which kind of job a type of file allows; and jobs/queue.ts: the options that
-- every job is added with.
use file_forge.Base.{
  ℕ, ◌*◌, ◌≡◌, refl, Bool, true, false, ◌||◌, Option, none, some, [], ◌∷◌, All, if◌then◌else◌,
}
use file_forge.Base.Text.{Text, codes, text_eq}
use file_forge.Upload.{allowed_mime_types}
use file_forge.Storage.{starts_with}
use file_forge.Jobs.{Kind, image, csv}

unfoldable pub includes : Text → Text → Bool
includes [] part = starts_with [] part
includes (c ∷ s) part = starts_with (c ∷ s) part || includes s part

unfoldable pub kind_for_mime_type : Text → Option Kind
unfolding includes
kind_for_mime_type mime_type =
    if starts_with mime_type (codes "image/")
    then some image
    else if includes mime_type (codes "csv") || text_eq mime_type (codes "text/plain")
    then some csv
    else none

unfoldable pub has_kind : Option Kind → Bool
has_kind none = false
has_kind (some kind) = true

-- Every type that an upload may have allows some kind of job.
pub allowed_types_kind : All (λ t. has_kind (kind_for_mime_type t) ≡ true) allowed_mime_types
unfolding kind_for_mime_type includes has_kind starts_with text_eq
allowed_types_kind = (refl, (refl, (refl, (refl, (refl, (refl, (refl, (refl, tt))))))))

pub record JobsOptions : Type 0 where
  pub attempts : ℕ
  pub backoff_delay_ms : ℕ  -- doubled at each attempt
  pub keep_completed_seconds : ℕ
  pub keep_completed_count : ℕ
  pub keep_failed_seconds : ℕ

abbrev pub default_job_options : JobsOptions
default_job_options = record {
  attempts = 3;
  backoff_delay_ms = 1000;
  keep_completed_seconds = 24 * 60 * 60;
  keep_completed_count = 1000;
  keep_failed_seconds = 7 * 24 * 60 * 60;
}
