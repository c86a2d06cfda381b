-- ===== src/Signing/Forgery.antt =====
-- What an accepted link proves.
use file_forge.Base.{ℕ, ◌/◌, ◌≡◌, ◌≢◌, refl, true, false, Option, none, some, List, [], ◌∷◌, arith}
use file_forge.Base.Text.{Text, text_eq_iff}
use file_forge.Base.Split.{split_last}
use file_forge.Signing.{
  Numbers, Crypto, ok, message, text_or_empty, sign, create_signed_link, compare_signatures,
  verify_number, verify_signed_link,
}
use file_forge.Signing.Links.{Exact, Hex}

-- HMAC gives two messages of one key different signatures, at this pair.
abbrev pub NoCollision : Crypto → Text → Text → Text → Type 0
NoCollision C secret m m' = C.hmac secret m ≡ C.hmac secret m' → m ≡ m'

module _ (N : Numbers) (C : Crypto) where
  -- What was checked of an accepted link.
  pub record IsGenuine (key e s secret : Text) (now : ℕ) : Type 0 where
    pub finite : N.is_finite (N.read e) ≡ true
    pub fresh : N.less (N.read e) (N.of_ℕ (now / 1000)) ≡ false
    pub signed : s ≡ C.hmac secret (message key (N.print (N.read e)))

module _ (N : Numbers) (C : Crypto) (hex : Hex C) where
  compare_sound : (b b' : List ℕ) → compare_signatures N C b b' ≡ ok → b ≡ b'
  unfolding compare_signatures
  compare_sound b b' h = (text_eq_iff b b').0 (ground arith)

  pub accepted-IsGenuine :
      (key secret : Text) (e s : Option Text) (now : ℕ)
      → verify_signed_link N C key e s secret now ≡ ok
      → IsGenuine N C key (text_or_empty e) (text_or_empty s) secret now
  unfolding verify_signed_link verify_number sign
  accepted-IsGenuine key secret e s now h =
      let n = N.read (text_or_empty e) in
      record {
        finite = ground arith;
        fresh = ground arith;
        signed =
            hex.utf8-hmac (text_or_empty s) secret (message key (N.print n))
              (compare_sound _ _ (ground arith));
      }

  -- Both parameters were given, and neither was empty.
  abbrev BothGiven : Option Text → Option Text → Text → Text → Type 0
  BothGiven e s expires signature =
      (e ≡ some expires) × (s ≡ some signature) × (expires ≢ []) × (signature ≢ [])

  accepted-BothGiven :
      (key secret : Text) (e s : Option Text) (now : ℕ)
      → verify_signed_link N C key e s secret now ≡ ok
      → BothGiven e s (text_or_empty e) (text_or_empty s)
  unfolding verify_signed_link text_or_empty
  accepted-BothGiven key secret none s now h = cc
  accepted-BothGiven key secret (some []) s now h = cc
  accepted-BothGiven key secret (some (c ∷ e)) none now h = absurd (ground (arith, h))
  accepted-BothGiven key secret (some (c ∷ e)) (some []) now h = absurd (ground (arith, h))
  accepted-BothGiven key secret (some (c ∷ e)) (some (b ∷ s)) now h =
      (refl, refl, (λ p. cc), (λ p. cc))

  -- A link is accepted only with both parameters, neither of them empty, an expiry that reads as a
  -- finite number and has not passed, and exactly the signature of that key and number.
  pub verify-IsGenuine :
      (key secret : Text) (e s : Option Text) (now : ℕ)
      → verify_signed_link N C key e s secret now ≡ ok
      → (expires : Text) × (signature : Text) × (e ≡ some expires)
        × (s ≡ some signature)
        × (expires ≢ [])
        × (signature ≢ [])
        × IsGenuine N C key expires signature secret now
  verify-IsGenuine key secret e s now h =
      let (there, signed, full, set) = accepted-BothGiven key secret e s now h in
      (
        text_or_empty e,
        text_or_empty s,
        there,
        signed,
        full,
        set,
        accepted-IsGenuine key secret e s now h,
      )

  -- Reusing the signature of one link for another: where HMAC does not collide on the two
  -- messages, a signature that the service made for one key and expiry is accepted only for that
  -- key, and only with an expiry that reads as a number printed alike.
  pub verify_no_transfer :
      (exact : Exact N) (key key' secret : Text) (ttl made now : ℕ) (e : Option Text)
      → let link = create_signed_link N C key' secret ttl made in
        NoCollision C secret
          (message key' (N.print link.expires))
          (message key (N.print (N.read (text_or_empty e))))
        → verify_signed_link N C key e (some link.signature) secret now ≡ ok
        → (key' ≡ key) × (N.print link.expires ≡ N.print (N.read (text_or_empty e)))
  unfolding create_signed_link sign message text_or_empty
  verify_no_transfer exact key key' secret ttl made now e free h =
      let g = accepted-IsGenuine key secret e _ now h in
      split_last b'\n' key' key _ _ (exact.print-Lacks _) (exact.print-Lacks _) (free g.signed)
