-- ===== src/Base/Runs.antt =====
-- Runs of a process or a system of processes: what happened, one after the other, and where it led. With
-- it, lists of which one item is replaced.
use Prim.Native.Nat.{ℕ, zero, suc}
use mathlib.Core.Path.{◌≡◌}
use mathlib.Core.List.{List, [], ◌∷◌, ◌++◌}
use mathlib.Core.Option.{some}
use native.Mathlib.Omega.{arith}
use file_forge.Base.Lists.{All, get_elem?}

module _ {A : Type 0} where
  -- The list with another item at a place.
  abbrev pub put : ℕ → A → List A → List A
  put i x [] = []
  put zero x (y ∷ ys) = x ∷ ys
  put (suc i) x (y ∷ ys) = y ∷ put i x ys

pub data Runs {S L : Type 0} (Step : L → S → S → Type 0) : List L → S → S → Type 0 where
  done : (s : S) → Runs Step [] s s
  next : {l : L} {ls : List L} {s t u : S} → Step l s t → Runs Step ls t u → Runs Step (l ∷ ls) s u

module _ {S L : Type 0} (Step : L → S → S → Type 0) (P : S → Type 0) (Q : L → Type 0) where
  -- What every step keeps, that is of an allowed kind, such runs keep.
  pub Runs-keep :
      ((l : L) (s t : S) → Step l s t → Q l → P s → P t)
      → (ls : List L) (s u : S) → Runs Step ls s u
      → All Q ls
      → P s
      → P u
  Runs-keep keeps [] s u (done _) q p = p
  Runs-keep keeps (l ∷ ls) s u (next st r) (q, qs) p =
      Runs-keep keeps ls _ u r qs (keeps l s _ st q p)

module _ {A : Type 0} (P : A → Type 0) where
  pub All-get : (xs : List A) (i : ℕ) (x : A) → get_elem? xs i ≡ some x → All P xs → P x
  All-get [] i x e h = cc
  All-get (y ∷ ys) zero x e (p, h) = ground (arith, p)
  All-get (y ∷ ys) (suc i) x e (p, h) = All-get ys i x e h

  pub All-put : (xs : List A) (i : ℕ) (x : A) → P x → All P xs → All P (put i x xs)
  All-put [] i x p h = tt
  All-put (y ∷ ys) zero x p (q, h) = (p, h)
  All-put (y ∷ ys) (suc i) x p (q, h) = (q, All-put ys i x p h)

module _ {A : Type 0} where
  pub get_elem?-append :
      (xs ys : List A) (i : ℕ) (x : A) → get_elem? xs i ≡ some x → get_elem? (xs ++ ys) i ≡ some x
  get_elem?-append [] ys i x e = cc
  get_elem?-append (y ∷ xs) ys zero x e = e
  get_elem?-append (y ∷ xs) ys (suc i) x e = get_elem?-append xs ys i x e

pub All-Unit : {A : Type 0} (xs : List A) → All (λ _. Unit {0}) xs
All-Unit [] = tt
All-Unit (x ∷ xs) = (tt, All-Unit xs)
