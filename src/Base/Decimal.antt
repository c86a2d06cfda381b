-- ===== src/Base/Decimal.antt =====
-- A non-negative integer as a template literal prints it.
use Prim.Native.Nat.{ℕ, zero, suc, ◌+◌, ◌-◌, ◌*◌, ◌/◌, ◌%◌, ◌≤◌, ◌<◌}
use mathlib.Core.Path.{◌≡◌, refl, sym, ap, ◌∙◌}
use mathlib.Core.Logic.{◌≢◌}
use mathlib.Core.List.{[], ◌∷◌, ◌++◌}
use native.Mathlib.Omega.{arith}
use file_forge.Base.Tests.{ltb, if◌then◌else◌}
use file_forge.Base.Lists.{All, All-append}
use file_forge.Base.Text.{Text}

decimal_from : ℕ → ℕ → Text
decimal_from zero n = []
decimal_from (suc f) n =
    let longer = decimal_from f (n / 10) ++ ((48 + n % 10) ∷ []) in
    if ltb n 10 then (48 + n) ∷ [] else longer

-- `n` rounds are enough for the digits of `n`.
unfoldable pub decimal : ℕ → Text
unfolding decimal_from
decimal n = decimal_from (suc n) n

abbrev pub IsDigit : ℕ → Type 0
IsDigit c = (48 ≤ c) × (c ≤ 57)

unfoldable pub value : ℕ → Text → ℕ
value acc [] = acc
value acc (c ∷ cs) = value (acc * 10 + (c - 48)) cs

value-append : (acc : ℕ) (s : Text) (c : ℕ) → value acc (s ++ c ∷ []) ≡ value acc s * 10 + (c - 48)
unfolding value
value-append acc [] c = refl
value-append acc (d ∷ s) c = value-append (acc * 10 + (d - 48)) s c

value-decimal_from : (f n : ℕ) → n < f → value 0 (decimal_from f n) ≡ n
unfolding decimal_from value
value-decimal_from zero n h = elim h [ ]
value-decimal_from (suc f) n h =
    ground
      (arith, value-append 0 (decimal_from f (n / 10)) (48 + n % 10), value-decimal_from f (n / 10))

append-ne-nil : (s : Text) (c : ℕ) → s ++ c ∷ [] ≢ []
append-ne-nil [] c e = cc
append-ne-nil (d ∷ s) c e = cc

decimal_from-ne-nil : (f n : ℕ) → 0 < f → decimal_from f n ≢ []
unfolding decimal_from
decimal_from-ne-nil zero n h = absurd (omega arith)
decimal_from-ne-nil (suc f) n h =
    ground (arith, append-ne-nil (decimal_from f (n / 10)) (48 + n % 10))

pub decimal-ne-nil : (n : ℕ) → decimal n ≢ []
unfolding decimal
decimal-ne-nil n = decimal_from-ne-nil (suc n) n (omega arith)

pub value-decimal : (n : ℕ) → value 0 (decimal n) ≡ n
unfolding decimal
value-decimal n = value-decimal_from (suc n) n (omega arith)

-- Two numbers that print alike are equal.
pub decimal-injective : (m n : ℕ) → decimal m ≡ decimal n → m ≡ n
decimal-injective m n e = sym (value-decimal m) ∙ ap (value 0) e ∙ value-decimal n

decimal_from-IsDigit : (f n : ℕ) → All IsDigit (decimal_from f n)
unfolding decimal_from
decimal_from-IsDigit zero n = tt
decimal_from-IsDigit (suc f) n = ground (
  arith,
  All-append IsDigit (decimal_from f (n / 10)) ((48 + n % 10) ∷ [])
      (decimal_from-IsDigit f (n / 10)) (omega arith),
)

-- A printed number consists of digits.
pub decimal-IsDigit : (n : ℕ) → All IsDigit (decimal n)
unfolding decimal
decimal-IsDigit n = decimal_from-IsDigit (suc n) n
