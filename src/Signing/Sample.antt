-- ===== src/Signing/Sample.antt =====
-- Numbers that are whole and a hash that pads, which meet what the theorems about links assume.
use file_forge.Base.{
  ℕ, ◌≡◌, refl, true, [], ◌∷◌, ◌++◌, arith, ltb, length, take, zero, suc, length-take,
  length-append,
}
use file_forge.Base.Text.{Text, codes}
use file_forge.Base.Decimal.{decimal, value, value-decimal, decimal-IsDigit}
use file_forge.Base.Split.{Lacks, Lacks-of_digits}
use file_forge.Signing.{Numbers, Crypto}
use file_forge.Signing.Links.{Exact, Hex}

abbrev pub whole : Numbers
whole = record {
  Number = ℕ;
  of_ℕ = λ n. n;
  read = value 0;
  print = decimal;
  is_finite = λ n. true;
  less = ltb;
}

print-whole-Lacks : (n : ℕ) → Lacks b'\n' (decimal n)
print-whole-Lacks n = Lacks-of_digits b'\n' (decimal n) (λ d. omega arith) (decimal-IsDigit n)

pub whole-Exact : Exact whole
whole-Exact = record {
  print-of_ℕ = λ n h. refl;
  read-decimal = λ n h. value-decimal n;
  is_finite-of_ℕ = λ n. refl;
  less-of_ℕ = λ m n h k. refl;
  print-Lacks = print-whole-Lacks;
}

zeros : ℕ → Text
zeros zero = []
zeros (suc n) = b'0' ∷ zeros n

length-zeros : (n : ℕ) → length (zeros n) ≡ n
unfolding zeros
length-zeros zero = refl
length-zeros (suc n) = omega (arith, length-zeros n)

pub padded : Text → Text
padded m = take 64 (m ++ zeros 64)

length-padded : (m : Text) → length (padded m) ≡ 64
unfolding padded
length-padded m =
    omega (arith, length-take 64 (m ++ zeros 64), length-append m (zeros 64), length-zeros 64)

abbrev pub toy : Crypto
toy = record { hmac = λ k m. padded m; utf8 = λ t. t }

pub toy-Hex : Hex toy
toy-Hex = record { length-hmac = λ k m. length-padded m; utf8-hmac = λ s k m e. e }

abbrev pub file : Text
file = codes "outputs/a.png"
