-- ===== src/Signing/Links.antt =====
-- A link that the service made, checked by the service.
use file_forge.Base.{ℕ, ◌+◌, ◌/◌, ◌≤◌, ◌≡◌, true, some, List, arith, ltb, length, if◌then◌else◌}
use file_forge.Base.Text.{Text, text_eq_self}
use file_forge.Base.Decimal.{decimal, decimal-ne-nil}
use file_forge.Base.Split.{Lacks}
use file_forge.Signing.{
  Numbers, Crypto, ok, fail, expired, message, text_or_empty, sign, create_signed_link,
  compare_signatures, verify_number, verify_signed_link,
}

-- Number.MAX_SAFE_INTEGER
abbrev pub max_safe : ℕ
max_safe = 9007199254740991

-- What the language says of whole numbers up to 2^53 - 1, and of printing.
pub record Exact (N : Numbers) : Type 0 where
  pub print-of_ℕ : (n : ℕ) → n ≤ max_safe → N.print (N.of_ℕ n) ≡ decimal n
  pub read-decimal : (n : ℕ) → n ≤ max_safe → N.read (decimal n) ≡ N.of_ℕ n
  pub is_finite-of_ℕ : (n : ℕ) → N.is_finite (N.of_ℕ n) ≡ true
  pub less-of_ℕ : (m n : ℕ) → m ≤ max_safe → n ≤ max_safe → N.less (N.of_ℕ m) (N.of_ℕ n) ≡ ltb m n
  pub print-Lacks : (x : N.Number) → Lacks b'\n' (N.print x)

-- A SHA-256 digest in hexadecimal has 64 digits, and no other text has their bytes.
pub record Hex (C : Crypto) : Type 0 where
  pub length-hmac : (k m : Text) → length (C.hmac k m) ≡ 64
  pub utf8-hmac : (s k m : Text) → C.utf8 s ≡ C.utf8 (C.hmac k m) → s ≡ C.hmac k m

module _ (N : Numbers) (C : Crypto) (exact : Exact N) (hex : Hex C) where
  compare_self : (b : List ℕ) → compare_signatures N C b b ≡ ok
  unfolding compare_signatures
  compare_self b = ground (arith, text_eq_self b)

  verify_number_own :
      (key secret : Text) (e now : ℕ)
      → e ≤ max_safe
      → now / 1000 ≤ max_safe
      → verify_number N C key (N.of_ℕ e) (sign N C key (N.of_ℕ e) secret) secret now
        ≡ (if ltb e (now / 1000) then fail expired else ok)
  unfolding verify_number
  verify_number_own key secret e now h k =
      rw (exact.is_finite-of_ℕ e, exact.less-of_ℕ e (now / 1000) h k)
        (ground (arith, compare_self (C.utf8 (sign N C key (N.of_ℕ e) secret))))

  -- A link that the service made is accepted with its own key, expiry and signature up to and in
  -- the second of its expiry, and is refused as expired in every later second, as long as the
  -- times are whole seconds that a number of the language holds exactly.
  pub verify-create :
      (key secret : Text) (ttl now later : ℕ)
      → now / 1000 + ttl ≤ max_safe
      → later / 1000 ≤ max_safe
      → let link = create_signed_link N C key secret ttl now in
        verify_signed_link N C key (some (N.print link.expires)) (some link.signature) secret later
        ≡ (if ltb (now / 1000 + ttl) (later / 1000) then fail expired else ok)
  unfolding create_signed_link verify_signed_link text_or_empty
  verify-create key secret ttl now later h k =
      rw (exact.print-of_ℕ (now / 1000 + ttl) h, exact.read-decimal (now / 1000 + ttl) h)
        (ground (
          arith,
          hex.length-hmac secret (message key (N.print (N.of_ℕ (now / 1000 + ttl)))),
          decimal-ne-nil (now / 1000 + ttl),
          verify_number_own key secret (now / 1000 + ttl) later h k,
        ))
