-- ===== src/Jobs/Context/Returned.antt =====
-- What a computation that returned has been through.
use file_forge.Base.{ℕ, ◌≡◌, refl, sym, ap, Option, none, some}
use file_forge.Storage
use file_forge.Storage.{Disk, Result}
use file_forge.Files.Records.{Redis}
use file_forge.Jobs.{JobError, ProcessorResult, done}
use file_forge.Jobs.Context.{
  Ran, returned, raised, Run, and_then, rethrown, as_outcome, World, on_disk, on_disk_end,
  update_progress, progressed,
}

module _ {W A B : Type 0} where
  pub and_then-returned :
      (m : Ran A × W) (k : A → Run W B) {b : B} {w' : W}
      → and_then m k ≡ (returned b, w')
      → (a : A) × (w1 : W) × (m ≡ (returned a, w1)) × (k a w1 ≡ (returned b, w'))
  and_then-returned (returned a, w1) k e = (a, w1, refl, e)
  and_then-returned (raised x, w1) k e = cc

module _ {W A : Type 0} where
  pub rethrown-returned :
      (f : JobError → JobError) (m : Ran A × W) {a : A} {w' : W}
      → rethrown f m ≡ (returned a, w')
      → m ≡ (returned a, w')
  rethrown-returned f (returned a, w) e = e
  rethrown-returned f (raised x, w) e = cc

pub as_outcome-done :
    {W : Type 0} (m : Ran ProcessorResult × W) {r : ProcessorResult} {w' : W}
    → as_outcome m ≡ (done r, w')
    → m ≡ (returned r, w')
unfolding as_outcome
as_outcome-done (returned x, w) e = cc
as_outcome-done (raised x, w) e = cc

module _ (D : Disk) (R : Redis) (report : ℕ → R.Store → Option (Unit {0}) × R.Store) where
  pub on_disk-returned :
      {A : Type 0} (f : D.State → Result A × D.State) (w w' : World D R report) {a : A}
      → on_disk D R report f w ≡ (returned a, w')
      → f w.0 ≡ (Storage.ok a, w'.0)
  unfolding on_disk on_disk_end
  on_disk-returned f w w' {a} e = go (f w.0) e
    where
      go :
          (x : Result _ × D.State)
          → on_disk_end D R report x w.1 ≡ (returned a, w')
          → x ≡ (Storage.ok a, w'.0)
      go (Storage.ok b, d) q = cc
      go (Storage.err b, d) q = cc

  pub update_progress-returned :
      (n : ℕ) (w w' : World D R report)
      → update_progress D R report n w ≡ (returned tt, w')
      → w'.0 ≡ w.0
  unfolding update_progress progressed
  update_progress-returned n w w' e = go (report n w.1) e
    where
      go :
          (x : Option (Unit {0}) × R.Store)
          → progressed D R report w.0 x ≡ (returned tt, w')
          → w'.0 ≡ w.0
      go (none, s) q = cc
      go (some u, s) q = sym (ap (λ (y : Ran (Unit {0}) × World D R report). y.1.0) q)
