-- ===== src/Cleanup/Sweep.antt =====
-- What the sweep deletes, leaves and counts.
use file_forge.Base.{
  ℕ, suc, ◌+◌, ◌*◌, ◌≤◌, ◌<◌, ◌≡◌, true, false, Option, none, some, List, [], ◌∷◌, arith, inl, inr,
  Bool-cases, Option-cases,
}
use file_forge.Base.Text.{Text}
use file_forge.Cleanup.{
  Stats, Disk, CleanupResult, nothing_yet, failed, is_recent, removed, sweep_counted, sweep_file,
  sweep_files, sweep_listed, sweep_entry, sweep_entries, sweep_root, cleanup_old_files,
}

-- A regular file stands at the path that was last written before the retention time, in hours, began.
pub record IsOld (D : Disk) (max_age_hours now : ℕ) (path : List Text) (d : D.State) : Type 0 where
  pub stats : Stats
  pub found : D.stat path d ≡ some stats
  pub regular : stats.is_file ≡ true
  pub old : stats.mtime_ms + max_age_hours * 60 * 60 * 1000 < now

-- Every deletion or failure belongs to a scanned file.
pub record Counted (r : CleanupResult) : Type 0 where
  pub accounted : r.deleted + r.errors ≤ r.scanned

module _ (D : Disk) (age now : ℕ) (P : CleanupResult → D.State → Type 0)
    (keeps : (r : CleanupResult) (entry name : Text) (d : D.State)
      → P r d
      → P
          (sweep_counted D age now (entry ∷ name ∷ []) (record r { scanned = r.scanned + 1 }) d).0
          (sweep_counted D age now
            (entry ∷ name ∷ [])
            (record r { scanned = r.scanned + 1 })
            d).1) where
  abbrev Both : CleanupResult × D.State → Type 0
  Both acc = P acc.0 acc.1

  files_keep :
      (entry : Text) (names : List Text) (acc : CleanupResult × D.State)
      → Both acc
      → Both (sweep_files D age now entry names acc)
  unfolding sweep_files sweep_file
  files_keep entry [] acc h = h
  files_keep entry (name ∷ names) (r, d) h = files_keep entry names _ (keeps r entry name d h)

  entry_keeps :
      (entry : Text) (acc : CleanupResult × D.State)
      → Both acc
      → Both (sweep_entry D age now entry acc)
  unfolding sweep_entry sweep_listed
  entry_keeps entry (r, d) h = elim (Option-cases (D.stat (entry ∷ []) d)) [
    | inl gone ↦ rw (gone, sweep_entry) h
    | inr (stats, there) ↦ elim (Bool-cases stats.is_directory) [
      | inr file ↦ rw (there, file, sweep_entry) h
      | inl directory ↦ elim (Option-cases (D.readdir (entry ∷ []) d)) [
        | inl unreadable ↦ rw (there, directory, unreadable, sweep_entry) h
        | inr (names, listed) ↦
            rw (there, directory, listed, sweep_entry) (files_keep entry names (r, d) h)
      ]
    ]
  ]

  entries_keep :
      (entries : List Text) (acc : CleanupResult × D.State)
      → Both acc
      → Both (sweep_entries D age now entries acc)
  unfolding sweep_entries
  entries_keep [] acc h = h
  entries_keep (entry ∷ entries) acc h = entries_keep entries _ (entry_keeps entry acc h)

  pub cleanup_keeps : (d : D.State) → P nothing_yet d → Both (cleanup_old_files D age now d)
  unfolding cleanup_old_files sweep_root
  cleanup_keeps d h = elim (Option-cases (D.readdir [] d)) [
    | inl missing ↦ rw (missing, sweep_root) h
    | inr (entries, listed) ↦ rw (listed, sweep_root) (entries_keep entries (nothing_yet, d) h)
  ]

module _ (D : Disk) (age now : ℕ) where
  pub old-is_recent :
      (stats : Stats)
      → stats.mtime_ms + age * 60 * 60 * 1000 < now
      → is_recent age now stats ≡ false
  unfolding is_recent
  old-is_recent stats e = ground arith

  not_recent :
      (stats : Stats)
      → is_recent age now stats ≡ false
      → stats.mtime_ms + age * 60 * 60 * 1000 < now
  unfolding is_recent
  not_recent stats e = ground arith

  -- The four ways of a scanned file.
  pub sweep_counted_cases :
      (path : List Text) (r : CleanupResult) (d : D.State) (P : CleanupResult → D.State → Type 0)
      → P r d
      → P (failed r) d
      → ((old : IsOld D age now path d)
          → P
              (removed D age now old.stats r (D.remove path d)).0
              (removed D age now old.stats r (D.remove path d)).1)
      → P (sweep_counted D age now path r d).0 (sweep_counted D age now path r d).1
  unfolding sweep_counted
  sweep_counted_cases path r d P kept lost gone = elim (Option-cases (D.stat path d)) [
    | inl missing ↦ rw (missing, sweep_counted) lost
    | inr (stats, there) ↦ elim (Bool-cases stats.is_file) [
      | inr other ↦ rw (there, other, sweep_counted) kept
      | inl file ↦ elim (Bool-cases (is_recent age now stats)) [
        | inl recent ↦ rw (there, file, recent, sweep_counted) kept
        | inr old ↦
            rw (there, file, old, sweep_counted)
              (gone (record {
                stats = stats;
                found = there;
                regular = file;
                old = not_recent stats old;
              }))
      ]
    ]
  ]

  -- Whatever holds of the disk and survives the removal of a regular file two levels below the root
  -- whose last write is longer ago than the retention hours holds after the sweep: nothing else is ever
  -- removed, no directory, no younger file, no file at the root's own level and none further down.
  pub cleanup_removes_only_old :
      (Q : D.State → Type 0)
      → ((entry name : Text) (d : D.State)
          → IsOld D age now (entry ∷ name ∷ []) d
          → Q d
          → Q (D.remove (entry ∷ name ∷ []) d).1)
      → (d : D.State) → Q d
      → Q (cleanup_old_files D age now d).1
  unfolding removed
  cleanup_removes_only_old Q step d h =
      cleanup_keeps D age now (λ r s. Q s)
        (λ r entry name s q.
          sweep_counted_cases (entry ∷ name ∷ []) (record r { scanned = r.scanned + 1 }) s
            (λ _ t. Q t) q q
            (λ old.
              after old.stats (record r { scanned = r.scanned + 1 }) _ (step entry name s old q)))
        d h
    where
      after :
          (stats : Stats) (r : CleanupResult) (o : Option (Unit {0}) × D.State)
          → Q o.1
          → Q (removed D age now stats r o).1
      after stats r (none, s) q = q
      after stats r (some _, s) q = q

  removed_counts :
      (stats : Stats) (r : CleanupResult) (o : Option (Unit {0}) × D.State)
      → suc (r.deleted + r.errors) ≤ r.scanned
      → Counted (removed D age now stats r o).0
  unfolding removed failed
  removed_counts stats r (none, s) h = record { accounted = omega arith }
  removed_counts stats r (some _, s) h = record { accounted = omega arith }

  -- The report never claims more deletions and failures than files scanned.
  pub cleanup-Counted : (d : D.State) → Counted (cleanup_old_files D age now d).0
  unfolding nothing_yet failed
  cleanup-Counted d =
      cleanup_keeps D age now (λ r s. Counted r)
        (λ r entry name s c.
          let r' : CleanupResult = record r { scanned = r.scanned + 1 } in
          sweep_counted_cases (entry ∷ name ∷ []) r' s (λ t _. Counted t)
            (record { accounted = omega (arith, c.accounted) })
            (record { accounted = omega (arith, c.accounted) })
            (λ old. removed_counts old.stats r' _ (omega (arith, c.accounted))))
        d (record { accounted = omega arith })
