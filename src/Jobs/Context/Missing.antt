-- ===== src/Jobs/Context/Missing.antt =====
-- A file without a record.
use file_forge.Base.{ℕ, ◌≡◌, refl, true, Option, none, some}
use file_forge.Base.Text.{Text}
use file_forge.Storage.{Disk}
use file_forge.Files.Records.{Redis, get}
use file_forge.Jobs.{JobError, Outcome, threw, is_permanent_failure, new_missing_file}
use file_forge.Jobs.Context.{raised, World, load_record, found_or_missing}

-- The job fails in a way that no retry can fix, and has changed nothing.
abbrev pub FailsForGood : {W : Type 0} → Outcome × W → W → Type 0
FailsForGood out w = (e : JobError) × (out ≡ (threw e, w)) × (is_permanent_failure e ≡ true)

module _ (D : Disk) (R : Redis) (report : ℕ → R.Store → Option (Unit {0}) × R.Store) where
  pub load_missing :
      (id : Text) (w : World D R report)
      → get R id w.1 ≡ some none
      → load_record D R report id w ≡ (raised (new_missing_file id), w)
  unfolding load_record found_or_missing
  load_missing id w e = rw e refl

pub new_missing_file_permanent : (id : Text) → is_permanent_failure (new_missing_file id) ≡ true
unfolding is_permanent_failure new_missing_file
new_missing_file_permanent id = refl

pub invalid_options_permanent :
    (m : Text) → is_permanent_failure (JobError.invalid_options m) ≡ true
unfolding is_permanent_failure
invalid_options_permanent m = refl
