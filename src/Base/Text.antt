-- ===== src/Base/Text.antt =====
-- JavaScript text as its UTF-16 code units, with the operations of `String.prototype` that the
-- program walks text by.
use Prim.Native.Char.{code}
use Prim.Native.String.{String}
use Prim.Native.Nat.{ℕ}
use mathlib.Core.Path.{◌≡◌, refl, ap₂}
use mathlib.Core.Logic.{◌↔◌}
use mathlib.Core.Bool.{Bool, true, false, ◌&&◌}
use mathlib.Core.List.{◌++◌, List, [], ◌∷◌}
use mathlib.Core.Option.{Option, none, some}
use native.Mathlib.Omega.{arith}
use file_forge.Base.Tests.{◌==◌, if◌then◌else◌}

abbrev pub Text : Type 0
Text = List ℕ

-- A text literal: its code points, which are its code units below 65536.
abbrev pub codes : String → Text
codes String.[] = []
codes (String.◌∷◌ c s) = code c ∷ codes s

-- `===`
unfoldable pub text_eq : Text → Text → Bool
text_eq [] [] = true
text_eq (a ∷ s) (b ∷ t) = a == b && text_eq s t
text_eq _ _ = false

pub text_eq→eq : (s t : Text) → text_eq s t ≡ true → s ≡ t
unfolding text_eq
text_eq→eq [] [] h = refl
text_eq→eq (a ∷ s) (b ∷ t) h = ap₂ ◌∷◌ (ground arith) (text_eq→eq s t (ground arith))
text_eq→eq [] (b ∷ t) h = cc
text_eq→eq (a ∷ s) [] h = cc

pub text_eq_self : (s : Text) → text_eq s s ≡ true
unfolding text_eq
text_eq_self [] = refl
text_eq_self (a ∷ s) = ground (arith, text_eq_self s)

pub text_eq_iff : (s t : Text) → (text_eq s t ≡ true) ↔ (s ≡ t)
text_eq_iff s t = (text_eq→eq s t, λ e. rw e (text_eq_self t))

module _ {ℓ} {V : Type ℓ} where
  -- A `Map` or a record literal keyed by text.
  abbrev pub lookup : Text → List (Text × V) → Option V
  lookup k [] = none
  lookup k ((j, v) ∷ m) = if text_eq k j then some v else lookup k m

-- `Set.prototype.has`, `Array.prototype.includes`
abbrev pub has : Text → List Text → Bool
has k [] = false
has k (j ∷ m) = if text_eq k j then true else has k m

-- `lines.join('\n')`
unfoldable pub joined_lines : List Text → Text
joined_lines [] = []
joined_lines (line ∷ []) = line
joined_lines (line ∷ lines) = line ++ (b'\n' ∷ joined_lines lines)
