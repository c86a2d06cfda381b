-- ===== src/Cleanup/Maintenance.antt =====
-- jobs/worker.ts: what the maintenance worker does with one job of its queue. The log is left out.
mod Tests
use file_forge.Base.{
  ℕ, ◌*◌, ◌+◌, suc, ◌≡◌, refl, Bool, true, Option, none, some, List, [], ◌∷◌, arith,
}
use file_forge.Base.Text.{Text}
use file_forge.Cleanup
use file_forge.Cleanup.{
  Stats, CleanupResult, nothing_yet, failed, removed, sweep_counted, cleanup_old_files,
}
use file_forge.Cleanup.Sweep.{IsOld, sweep_counted_cases, cleanup_keeps}
use file_forge.Files.Records
use file_forge.Files.Records.{Redis, files_cleaned_total, counter_key, increment_counter}

-- `every`, of the scheduler that upsertJobScheduler is given
abbrev pub sweep_every_ms : ℕ → ℕ
sweep_every_ms cleanup_interval_minutes = cleanup_interval_minutes * 60 * 1000

module _ (D : Cleanup.Disk) (R : Redis) where
  pub maintain : ℕ → ℕ → D.State × R.Store → CleanupResult × (D.State × R.Store)
  maintain retention_hours now (d, s) =
      let swept = cleanup_old_files D retention_hours now d in
      (swept.0, (swept.1, increment_counter R true files_cleaned_total swept.0.deleted s))

-- A disk of which the files can be counted: a file that stands at a path is one less once it has been
-- removed, and a removal that fails removes none. Of a removal where nothing stands nothing is said.
pub record Tally (D : Cleanup.Disk) : Type 0 where
  pub files : D.State → ℕ
  pub one_less :
      (path : List Text) (stats : Stats) (d e : D.State)
      → D.stat path d ≡ some stats
      → stats.is_file ≡ true
      → D.remove path d ≡ (some tt, e)
      → files d ≡ files e + 1
  pub none_less :
      (path : List Text) (d e : D.State) → D.remove path d ≡ (none, e) → files e ≡ files d

-- INCRBY raises the number under a key, while Redis answers.
pub record Sums (R : Redis) : Type 0 where
  pub value : Text → R.Store → ℕ
  pub raised : (k : Text) (n : ℕ) (s : R.Store) → value k (R.incrby k n s).1 ≡ value k s + n

module _ (D : Cleanup.Disk) (law : Tally D) (age now : ℕ) where
  abbrev Balanced : ℕ → CleanupResult → D.State → Type 0
  Balanced n r d = law.files d + r.deleted ≡ n

  removed-Balanced :
      (n : ℕ) (r : CleanupResult) (path : List Text) (d : D.State) (old : IsOld D age now path d)
      (o : Option (Unit {0}) × D.State)
      → D.remove path d ≡ o
      → Balanced n r d
      → Balanced n (removed D age now old.stats r o).0 (removed D age now old.stats r o).1
  unfolding removed failed
  removed-Balanced n r path d old (none, e) eq h =
      let same : law.files e ≡ law.files d = law.none_less path d e eq in omega (arith, same, h)
  removed-Balanced n r path d old (some _, e) eq h =
      let less : law.files d ≡ law.files e + 1 =
        law.one_less path old.stats d e old.found old.regular eq in
      omega (arith, less, h)

  swept-Balanced :
      (d : D.State)
      → Balanced (law.files d) (cleanup_old_files D age now d).0 (cleanup_old_files D age now d).1
  unfolding failed nothing_yet
  swept-Balanced d =
      cleanup_keeps D age now (Balanced (law.files d))
        (λ r entry name s b.
          let path : List Text = entry ∷ name ∷ [] in
          let r' : CleanupResult = record r { scanned = r.scanned + 1 } in
          sweep_counted_cases D age now path r' s (Balanced (law.files d)) b b
            (λ old. removed-Balanced (law.files d) r' path s old (D.remove path s) refl b))
        d (omega arith)

module _ (D : Cleanup.Disk) (R : Redis) (law : Tally D) (sums : Sums R) where
  -- Whatever the sweep meets, failures included, a run of maintenance raises `files_cleaned_total` by
  -- exactly the number of files that it takes off the disk, which is the number that it reports; on a
  -- disk whose files can be counted and that nobody else changes during the sweep, and while Redis
  -- answers.
  pub maintenance_balanced :
      (retention_hours now : ℕ) (d : D.State) (s : R.Store)
      → let ran = maintain D R retention_hours now (d, s) in
        let cleaned : R.Store → ℕ = sums.value (counter_key files_cleaned_total) in
        (law.files ran.1.0 + ran.0.deleted ≡ law.files d)
        × (cleaned ran.1.1 + law.files ran.1.0 ≡ cleaned s + law.files d)
  unfolding maintain increment_counter
  maintenance_balanced retention_hours now d s =
      let swept = cleanup_old_files D retention_hours now d in
      let left = swept-Balanced D law retention_hours now d in
      let told = sums.raised (counter_key files_cleaned_total) swept.0.deleted s in
      (left, omega (arith, left, told))
