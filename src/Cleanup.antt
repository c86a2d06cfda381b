-- ===== src/Cleanup.antt =====
-- jobs/cleanup.ts: the sweep of files that are older than the retention time. The disk is a
-- parameter; a path is the list of its names below the storage root, and times are whole
-- milliseconds.
mod Maintenance
mod Sweep
mod Complete
mod Tests
use file_forge.Base.{
  ℕ, ◌+◌, ◌*◌, Bool, true, false, not, Option, none, some, List, [], ◌∷◌, leb, if◌then◌else◌,
}
use file_forge.Base.Text.{Text}

pub record Stats : Type 0 where
  pub is_directory : Bool
  pub is_file : Bool
  pub mtime_ms : ℕ
  pub size : ℕ

-- What the sweep uses of the disk; `none` is a promise that rejects.
pub record Disk : Type 1 where
  pub State : Type 0
  pub readdir : List Text → State → Option (List Text)
  pub stat : List Text → State → Option Stats
  pub remove : List Text → State → Option (Unit {0}) × State

pub record CleanupResult : Type 0 where
  pub scanned : ℕ
  pub deleted : ℕ
  pub bytes_freed : ℕ
  pub errors : ℕ

pub nothing_yet : CleanupResult
nothing_yet = record { scanned = 0; deleted = 0; bytes_freed = 0; errors = 0 }

pub failed : CleanupResult → CleanupResult
failed r = record r { errors = r.errors + 1 }

-- mtime >= now - age, without leaving the natural numbers.
pub is_recent : ℕ → ℕ → Stats → Bool
is_recent max_age_hours now stats = leb now (stats.mtime_ms + max_age_hours * 60 * 60 * 1000)

module _ (D : Disk) (max_age_hours now : ℕ) where
  open D use {State, readdir, stat, remove}

  pub removed : Stats → CleanupResult → Option (Unit {0}) × State → CleanupResult × State
  unfolding failed
  removed stats r (none, d) = (failed r, d)
  removed stats r (some _, d) =
      (record r { deleted = r.deleted + 1; bytes_freed = r.bytes_freed + stats.size }, d)

  -- The `try` block, on a file that was counted.
  pub sweep_counted : List Text → CleanupResult → State → CleanupResult × State
  unfolding removed is_recent failed
  sweep_counted path r d = elim (stat path d) [
    | none ↦ (failed r, d)
    | some stats ↦
        if not stats.is_file
        then (r, d)
        else if is_recent max_age_hours now stats
        then (r, d)
        else removed stats r (remove path d)
  ]

  sweep_file : List Text → CleanupResult × State → CleanupResult × State
  unfolding sweep_counted
  sweep_file path (r, d) = sweep_counted path (record r { scanned = r.scanned + 1 }) d

  pub sweep_files : Text → List Text → CleanupResult × State → CleanupResult × State
  unfolding sweep_file
  sweep_files entry [] acc = acc
  sweep_files entry (name ∷ names) acc =
      sweep_files entry names (sweep_file (entry ∷ name ∷ []) acc)

  sweep_listed : Text → Option (List Text) → CleanupResult × State → CleanupResult × State
  unfolding sweep_files
  sweep_listed entry none acc = acc
  sweep_listed entry (some names) acc = sweep_files entry names acc

  sweep_entry : Text → CleanupResult × State → CleanupResult × State
  unfolding sweep_listed
  sweep_entry entry (r, d) = elim (stat (entry ∷ []) d) [
    | none ↦ (r, d)
    | some stats ↦
        if not stats.is_directory
        then (r, d)
        else sweep_listed entry (readdir (entry ∷ []) d) (r, d)
  ]

  sweep_entries : List Text → CleanupResult × State → CleanupResult × State
  unfolding sweep_entry
  sweep_entries [] acc = acc
  sweep_entries (entry ∷ entries) acc = sweep_entries entries (sweep_entry entry acc)

  sweep_root : Option (List Text) → State → CleanupResult × State
  unfolding sweep_entries nothing_yet
  sweep_root none d = (nothing_yet, d)
  sweep_root (some entries) d = sweep_entries entries (nothing_yet, d)

  pub cleanup_old_files : State → CleanupResult × State
  unfolding sweep_root
  cleanup_old_files d = sweep_root (readdir [] d) d
