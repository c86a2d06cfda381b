-- ===== src/Signing.antt =====
-- files/signing.ts: signed download links. The keyed hash and the language's floating-point numbers
-- are parameters; Date.now() is an argument, in whole milliseconds.
pub mod Links
pub mod Forgery
pub mod Sample
mod Tests
use file_forge.Base.{
  ℕ, suc, ◌+◌, ◌/◌, Bool, true, false, not, ◌||◌, Option, none, some, List, [], ◌∷◌, ◌++◌, ltb,
  ◌==◌, length, if◌then◌else◌,
}
use file_forge.Base.Text.{Text, codes, text_eq}

-- The numbers of the language, as far as a link's expiry meets them.
pub record Numbers : Type 1 where
  pub Number : Type 0
  pub of_ℕ : ℕ → Number
  pub read : Text → Number  -- Number(text)
  pub print : Number → Text  -- `${n}`
  pub is_finite : Number → Bool
  pub less : Number → Number → Bool

-- What the module takes from node:crypto and Buffer.
pub record Crypto : Type 0 where
  -- createHmac('sha256', secret).update(message).digest('hex'), the secret first
  pub hmac : Text → Text → Text
  -- Buffer.from(text, 'utf8')
  pub utf8 : Text → List ℕ

pub data Reason : Type 0 where
  missing expired invalid : Reason

pub data VerificationResult : Type 0 where
  ok : VerificationResult
  fail : Reason → VerificationResult

pub message : Text → Text → Text
message key expires = key ++ (b'\n' ∷ expires)

-- A missing parameter and an empty one are both falsy.
pub text_or_empty : Option Text → Text
text_or_empty none = []
text_or_empty (some t) = t

module _ (N : Numbers) (C : Crypto) where
  open N use {Number, of_ℕ, read, print, is_finite, less}
  open C use {hmac, utf8}

  pub record SignedLink : Type 0 where
    pub key : Text
    pub expires : Number
    pub signature : Text

  pub sign : Text → Number → Text → Text
  unfolding message
  sign key expires secret = hmac secret (message key (print expires))

  pub create_signed_link : Text → Text → ℕ → ℕ → SignedLink
  unfolding sign
  create_signed_link key secret ttl_seconds now =
      let expires = of_ℕ (now / 1000 + ttl_seconds) in
      record { key = key; expires = expires; signature = sign key expires secret }

  unfoldable pub signed_query : SignedLink → Text
  signed_query link =
      codes "expires=" ++ (print link.expires ++ (codes "&signature=" ++ link.signature))

  -- Behind the length check `timingSafeEqual` is equality of the bytes.
  compare_signatures : List ℕ → List ℕ → VerificationResult
  compare_signatures given wanted =
      if not (length given == length wanted)
      then fail invalid
      else if text_eq given wanted
      then ok
      else fail invalid

  verify_number : Text → Number → Text → Text → ℕ → VerificationResult
  unfolding sign compare_signatures
  verify_number key expiry signature secret now =
      if not (is_finite expiry)
      then fail invalid
      else if less expiry (of_ℕ (now / 1000))
      then fail expired
      else compare_signatures (utf8 signature) (utf8 (sign key expiry secret))

  pub verify_signed_link : Text → Option Text → Option Text → Text → ℕ → VerificationResult
  unfolding verify_number text_or_empty
  verify_signed_link key expires signature secret now =
      let e = text_or_empty expires in
      let s = text_or_empty signature in
      if length e == 0 || length s == 0
      then fail missing
      else verify_number key (read e) s secret now
