-- ===== src/Cleanup/Complete.antt =====
-- What is left of a directory after a sweep without failures.
use file_forge.Base.{
  ℕ, ◌+◌, ◌≤◌, ◌≡◌, refl, sym, ◌∙◌, ap, true, false, Option, none, some, List, [], ◌∷◌, arith, ◌⊎◌,
  inl, inr, All, Bool-cases, Option-cases,
}
use mathlib.Core.Bool.{false≢true}
use mathlib.Core.Path.{subst}
use file_forge.Base.Text.{Text}
use file_forge.Cleanup.{
  Stats, Disk, CleanupResult, failed, is_recent, removed, sweep_counted, sweep_file, sweep_files,
}
use file_forge.Cleanup.Sweep.{IsOld, old-is_recent}

-- A removal that succeeds takes the file away; none brings a file or changes another one.
pub record Removes (D : Disk) : Type 0 where
  pub removed_gone :
      (p : List Text) (d : D.State) → (D.remove p d).0 ≡ some tt → D.stat p (D.remove p d).1 ≡ none
  pub others_kept :
      (p q : List Text) (d : D.State)
      → (D.stat q (D.remove p d).1 ≡ D.stat q d) ⊎ (D.stat q (D.remove p d).1 ≡ none)

none-some : {s : Stats} → none ≡ some s → ⊥
none-some e = cc

module _ (D : Disk) (age now : ℕ) (law : Removes D) where
  abbrev pub Spared : List Text → D.State → Type 0
  Spared path d = IsOld D age now path d → ⊥

  remove-Spared : (p q : List Text) (d : D.State) → Spared q d → Spared q (D.remove p d).1
  remove-Spared p q d h o = elim (law.others_kept p q d) [
    | inl same ↦
        h (record { stats = o.stats; found = sym same ∙ o.found; regular = o.regular; old = o.old })
    | inr gone ↦ none-some (sym gone ∙ o.found)
  ]

  removed_errors :
      (stats : Stats) (r : CleanupResult) (o : Option (Unit {0}) × D.State)
      → (r.errors ≤ (removed D age now stats r o).0.errors)
        × ((removed D age now stats r o).1 ≡ o.1)
        × ((removed D age now stats r o).0.errors ≡ r.errors → o.0 ≡ some tt)
  unfolding removed failed
  removed_errors stats r (none, s) = (omega arith, refl, λ e. absurd (omega arith))
  removed_errors stats r (some tt, s) = (omega arith, refl, λ e. refl)

  -- One file: failures only grow, the spared stay spared, and without a failure this one is spared.
  sweep_file_lem :
      (path : List Text) (r : CleanupResult) (d : D.State)
      → let res = sweep_file D age now path (r, d) in
        (r.errors ≤ res.0.errors)
        × ((q : List Text) → Spared q d → Spared q res.1)
        × (res.0.errors ≡ r.errors → Spared path res.1)
  unfolding sweep_file sweep_counted failed
  sweep_file_lem path r d = elim (Option-cases (D.stat path d)) [
    | inl missing ↦ rw (missing, sweep_counted) (omega arith, (λ q h. h), λ e. absurd (omega arith))
    | inr (stats, there) ↦ elim (Bool-cases stats.is_file) [
      | inr other ↦
          rw (there, other, sweep_counted) (omega arith, (λ q h. h), λ e o. elsewhere there other o)
      | inl file ↦ elim (Bool-cases (is_recent age now stats)) [
        | inl recent ↦
            rw (there, file, recent, sweep_counted)
              (omega arith, (λ q h. h), λ e o. too_new there recent o)
        | inr old ↦
            let r' : CleanupResult = record r { scanned = r.scanned + 1 } in
            let (le, left, sure) = removed_errors stats r' (D.remove path d) in
            rw (there, file, old, sweep_counted)
              (
                omega (arith, le),
                (λ q h. subst (Spared q) (sym left) (remove-Spared path q d h)),
                λ e.
                    subst (Spared path) (sym left)
                      (λ o. none-some (sym (law.removed_gone path d (sure e)) ∙ o.found)),
              )
      ]
    ]
  ]
    where
      elsewhere :
          {stats : Stats}
          → D.stat path d ≡ some stats
          → stats.is_file ≡ false
          → IsOld D age now path d
          → ⊥
      elsewhere {stats} there other o =
          let e : some stats ≡ some o.stats = sym there ∙ o.found in
          let same : stats ≡ o.stats = cc in
          false≢true (sym other ∙ ap (λ (s : Stats). s.is_file) same ∙ o.regular)

      too_new :
          {stats : Stats}
          → D.stat path d ≡ some stats
          → is_recent age now stats ≡ true
          → IsOld D age now path d
          → ⊥
      too_new {stats} there recent o =
          let e : some stats ≡ some o.stats = sym there ∙ o.found in
          let same : stats ≡ o.stats = cc in
          false≢true (
            sym (old-is_recent D age now o.stats o.old)
            ∙ ap (is_recent age now) (sym same)
            ∙ recent)

  sweep_files_grow :
      (entry : Text) (names : List Text) (r : CleanupResult) (d : D.State)
      → let res = sweep_files D age now entry names (r, d) in
        (r.errors ≤ res.0.errors) × ((q : List Text) → Spared q d → Spared q res.1)
  unfolding sweep_files
  sweep_files_grow entry [] r d = (omega arith, λ q h. h)
  sweep_files_grow entry (name ∷ names) r d =
      let (le, kept, _) = sweep_file_lem (entry ∷ name ∷ []) r d in
      let next = sweep_file D age now (entry ∷ name ∷ []) (r, d) in
      let (le', kept') = sweep_files_grow entry names next.0 next.1 in
      (omega (arith, le, le'), λ q h. kept' q (kept q h))

  -- A directory that is swept without a failure holds, of the names that were listed, no old
  -- regular file any more.
  pub sweep_files_complete :
      (entry : Text) (names : List Text) (r : CleanupResult) (d : D.State)
      → (sweep_files D age now entry names (r, d)).0.errors ≡ r.errors
      → All (λ name. Spared (entry ∷ name ∷ []) (sweep_files D age now entry names (r, d)).1) names
  unfolding sweep_files
  sweep_files_complete entry [] r d e = tt
  sweep_files_complete entry (name ∷ names) r d e =
      let path = entry ∷ name ∷ [] in
      let (le, _, here) = sweep_file_lem path r d in
      let next = sweep_file D age now path (r, d) in
      let (le', kept') = sweep_files_grow entry names next.0 next.1 in
      (
        kept' path (here (omega (arith, le, le'))),
        sweep_files_complete entry names next.0 next.1 (omega (arith, le, le')),
      )
