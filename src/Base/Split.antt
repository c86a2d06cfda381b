-- ===== src/Base/Split.antt =====
-- A separator that a part does not hold splits a text in one way.
use Prim.Native.Nat.{ℕ}
use mathlib.Core.Path.{◌≡◌, refl, sym, ap}
use mathlib.Core.Logic.{◌≢◌}
use mathlib.Core.List.{[], ◌∷◌, ◌++◌}
use file_forge.Base.Lists.{All}
use file_forge.Base.Text.{Text}
use file_forge.Base.Decimal.{IsDigit}

abbrev pub Lacks : ℕ → Text → Type 0
Lacks c s = All (λ d. d ≢ c) s

pub not-Lacks-append : (c : ℕ) (s t : Text) → Lacks c (s ++ (c ∷ t)) → ⊥
not-Lacks-append c [] t h = h.0 refl
not-Lacks-append c (d ∷ s) t h = not-Lacks-append c s t h.1

-- Digits hold no character below `0` or above `9`.
pub Lacks-of_digits : (c : ℕ) (s : Text) → (IsDigit c → ⊥) → All IsDigit s → Lacks c s
Lacks-of_digits c [] n h = tt
Lacks-of_digits c (d ∷ s) n (p, h) = (λ e. n (rw e at p), Lacks-of_digits c s n h)

tail_of : Text → Text
tail_of [] = []
tail_of (c ∷ s) = s

tail_eq : (a b : ℕ) (s t : Text) → ◌≡◌ {A = Text} (a ∷ s) (b ∷ t) → s ≡ t
unfolding tail_of
tail_eq a b s t e = ap tail_of e

head_eq : (a b : ℕ) (s t : Text) → ◌≡◌ {A = Text} (a ∷ s) (b ∷ t) → a ≡ b
head_eq a b s t e = cc

-- At the first separator.
pub split_first :
    (c : ℕ) (a b s t : Text)
    → Lacks c a
    → Lacks c b
    → a ++ (c ∷ s) ≡ b ++ (c ∷ t)
    → (a ≡ b) × (s ≡ t)
split_first c [] [] s t h k e = (refl, tail_eq c c s t e)
split_first c [] (y ∷ b) s t h k e = absurd (k.0 (sym (head_eq c y s _ e)))
split_first c (x ∷ a) [] s t h k e = absurd (h.0 (head_eq x c _ t e))
split_first c (x ∷ a) (y ∷ b) s t h k e =
    let (p, q) = split_first c a b s t h.1 k.1 (tail_eq x y _ _ e) in
    (cc (p, head_eq x y (a ++ (c ∷ s)) (b ++ (c ∷ t)) e), q)

-- At the last separator.
pub split_last :
    (c : ℕ) (a b s t : Text)
    → Lacks c s
    → Lacks c t
    → a ++ (c ∷ s) ≡ b ++ (c ∷ t)
    → (a ≡ b) × (s ≡ t)
split_last c [] [] s t h k e = (refl, tail_eq c c s t e)
split_last c [] (y ∷ b) s t h k e = absurd (not-Lacks-append c b t (rw (tail_eq c y s _ e) at h))
split_last c (x ∷ a) [] s t h k e =
    absurd (not-Lacks-append c a s (rw (sym (tail_eq x c _ t e)) at k))
split_last c (x ∷ a) (y ∷ b) s t h k e =
    let (p, q) = split_last c a b s t h k (tail_eq x y _ _ e) in
    (cc (p, head_eq x y (a ++ (c ∷ s)) (b ++ (c ∷ t)) e), q)
