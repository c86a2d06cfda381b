-- ===== src/Jobs/Context.antt =====
-- jobs/processors.ts: what a processor works with (ProcessorContext, ProcessorArgs): the storage, the
-- file records and the job's progress. A processor is a chain of awaited calls, the first of which
-- that rejects ends it.
pub mod Returned
pub mod Missing
use file_forge.Base.{ℕ, Option, none, some, [], ◌++◌}
use file_forge.Base.Text.{Text, codes}
use file_forge.Storage
use file_forge.Storage.{Disk, Failure, escapes_root, io_error, Result}
use file_forge.Files.Records.{FileRecord, Redis, get}
use file_forge.Jobs.{JobError, other, new_missing_file, ProcessorResult, Outcome, done, threw}

pub data Ran (A : Type 0) : Type 0 where
  returned : A → Ran A
  raised : JobError → Ran A

-- A computation over the world.
abbrev pub Run : Type 0 → Type 0 → Type 0
Run W A = W → Ran A × W

abbrev pub and_then : {W A B : Type 0} → Ran A × W → (A → Run W B) → Ran B × W
and_then (returned a, w) k = k a w
and_then (raised e, w) k = (raised e, w)

infixl 5 ◌>>=◌ ◌>>◌
abbrev pub ◌>>=◌ : {W A B : Type 0} → Run W A → (A → Run W B) → Run W B
m >>= k = λ w. and_then (m w) k

abbrev pub ◌>>◌ : {W A B : Type 0} → Run W A → Run W B → Run W B
m >> k = m >>= λ _. k

abbrev pub return : {W A : Type 0} → A → Run W A
return a w = (returned a, w)

abbrev pub raise : {W A : Type 0} → JobError → Run W A
raise e w = (raised e, w)

-- `catch (error) { throw f(error) }`
abbrev pub rethrown : {W A : Type 0} → (JobError → JobError) → Ran A × W → Ran A × W
rethrown f (returned a, w) = (returned a, w)
rethrown f (raised e, w) = (raised (f e), w)

unfoldable pub as_outcome : {W : Type 0} → Ran ProcessorResult × W → Outcome × W
as_outcome (returned r, w) = (done r, w)
as_outcome (raised e, w) = (threw e, w)

-- What is not worded by this program is thrown with an empty message.
pub storage_error : Failure → JobError
storage_error escapes_root = other (codes "Refusing key that escapes storage root")
storage_error io_error = other []

-- `report` is `job.updateProgress`, which writes to Redis.
module _ (D : Disk) (R : Redis) (report : ℕ → R.Store → Option (Unit {0}) × R.Store) where
  abbrev pub World : Type 0
  World = D.State × R.Store

  on_disk_end : {A : Type 0} → Result A × D.State → R.Store → Ran A × World
  unfolding storage_error
  on_disk_end (Storage.ok a, d) s = (returned a, (d, s))
  on_disk_end (Storage.err e, d) s = (raised (storage_error e), (d, s))

  unfoldable pub on_disk : {A : Type 0} → (D.State → Result A × D.State) → Run World A
  unfolding on_disk_end
  on_disk f (d, s) = on_disk_end (f d) s

  progressed : D.State → Option (Unit {0}) × R.Store → Ran (Unit {0}) × World
  progressed d (none, s) = (raised (other []), (d, s))
  progressed d (some _, s) = (returned tt, (d, s))

  unfoldable pub update_progress : ℕ → Run World (Unit {0})
  unfolding progressed
  update_progress n (d, s) = progressed d (report n s)

  found_or_missing : Text → Option (Option FileRecord) → Ran FileRecord
  found_or_missing id none = raised (other [])
  found_or_missing id (some none) = raised (new_missing_file id)
  found_or_missing id (some (some r)) = returned r

  -- `files.get`, and the error where there is no record.
  unfoldable pub load_record : Text → Run World FileRecord
  unfolding found_or_missing
  load_record id (d, s) = (found_or_missing id (get R id s), (d, s))
