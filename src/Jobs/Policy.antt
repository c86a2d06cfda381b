-- ===== src/Jobs/Policy.antt =====
-- Which failures are retried.
use file_forge.Base.{◌≡◌, refl, true, false, arith}
use file_forge.Jobs.{
  JobError, missing_file, invalid_image, invalid_options, invalid_csv, unrecoverable, other,
  is_permanent_failure, is_unrecoverable, message_of, threw, retry_policy, wrap_csv,
  new_invalid_csv,
}

abbrev pub NotUnrecoverable : JobError → Type 0
NotUnrecoverable e = is_unrecoverable e ≡ false

-- A processor's failure leaves the policy as unrecoverable exactly if it is one of the permanent
-- kinds, with its message kept, and unchanged otherwise; a result passes unchanged.
pub retry_policy_lem :
    (e : JobError)
    → NotUnrecoverable e
    → (f : JobError) × (retry_policy (threw e) ≡ threw f)
      × (is_unrecoverable f ≡ is_permanent_failure e)
      × (message_of f ≡ message_of e)
unfolding retry_policy is_permanent_failure message_of
retry_policy_lem (missing_file m) n = (unrecoverable m, refl, refl, refl)
retry_policy_lem (invalid_image m) n = (unrecoverable m, refl, refl, refl)
retry_policy_lem (invalid_options m) n = (unrecoverable m, refl, refl, refl)
retry_policy_lem (invalid_csv m) n = (unrecoverable m, refl, refl, refl)
retry_policy_lem (unrecoverable m) n = cc
retry_policy_lem (other m) n = (other m, refl, refl, refl)

-- Whatever goes wrong in a CSV pipeline, the disk included, reaches the policy as a permanent
-- failure, so that no failure of that kind is ever retried.
pub csv_failure_permanent :
    (e : JobError)
    → (f : JobError) × (retry_policy (threw (wrap_csv e)) ≡ threw f) × (is_unrecoverable f ≡ true)
unfolding retry_policy is_permanent_failure wrap_csv message_of new_invalid_csv
csv_failure_permanent e = (unrecoverable (message_of (wrap_csv e)), ground arith, refl)

pub permanent-NotUnrecoverable : (e : JobError) → is_permanent_failure e ≡ true → NotUnrecoverable e
unfolding is_permanent_failure
permanent-NotUnrecoverable (missing_file m) h = refl
permanent-NotUnrecoverable (invalid_image m) h = refl
permanent-NotUnrecoverable (invalid_options m) h = refl
permanent-NotUnrecoverable (invalid_csv m) h = refl
permanent-NotUnrecoverable (unrecoverable m) h = cc
permanent-NotUnrecoverable (other m) h = refl
