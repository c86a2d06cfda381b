-- ===== src/Download/Guard.antt =====
-- What has been checked of a download that is served.
use file_forge.Base.{
  ℕ, ◌≡◌, ◌≢◌, refl, Bool, true, false, Option, [], ◌∷◌, arith, ◌==◌, length, Bool-cases, All,
  ==_iff, inl, inr,
}
use mathlib.Core.Path.{subst}
use file_forge.Base.Text.{Text}
use file_forge.Signing.{
  Numbers, Crypto, Reason, expired, missing, invalid, VerificationResult, ok, fail, text_or_empty,
  verify_signed_link,
}
use file_forge.Signing.Links.{Hex}
use file_forge.Signing.Forgery.{IsGenuine, accepted-IsGenuine}
use file_forge.Storage
use file_forge.Storage.{Disk, FilePath, Result, exists, path_for, resolve_key}
use file_forge.Storage.Names.{IsName}
use file_forge.Storage.Containment.{Under, path_for_iff}
use file_forge.Storage.Operations.{exists-path_for}
use file_forge.Download.{
  Reply, served, Deps, send_existing, checked, link_check, download, refuse_link,
}

module _ (N : Numbers) (C : Crypto) (D : Disk) (root : FilePath) where
  -- The reply carries a file.
  abbrev pub IsServed : Reply N C D root → Type 0
  IsServed (served t n f s) = Unit
  IsServed _ = ⊥

  checked-served :
      (deps : Deps N C D root) (key : Text) (v : VerificationResult) (d : D.State)
      → IsServed (checked N C D root deps key v d).0
      → (v ≡ ok) × ((exists D root key d).0 ≡ Storage.ok true)
  unfolding checked refuse_link send_existing
  checked-served deps key (fail r) d h = absurd (never r h)
    where
      never : (r : Reason) → IsServed (refuse_link N C D root r) → ⊥
      never expired h = h
      never missing h = h
      never invalid h = h
  checked-served deps key ok d h = (refl, there (exists D root key d) h)
    where
      there :
          (x : Result Bool × D.State)
          → IsServed (send_existing N C D root deps key x).0
          → x.0 ≡ Storage.ok true
      there (Storage.err e, s) k = absurd k
      there (Storage.ok false, s) k = absurd k
      there (Storage.ok true, s) k = refl

  -- Whatever is asked for, a file is sent only if its key resolves to the storage root or below it
  -- (for a root other than `/`), and, where a secret is configured, only for the genuine, unexpired
  -- signature of that very key.
  pub download_guarded :
      (hex : Hex C) (deps : Deps N C D root) (key : Text) (e s : Option Text) (now : ℕ)
      (d : D.State)
      → root ≢ []
      → All IsName root
      → IsServed (download N C D root deps key e s now d).0
      → Under root (resolve_key root key)
        × (deps.download_secret ≢ []
            → IsGenuine N C key (text_or_empty e) (text_or_empty s) deps.download_secret now)
  unfolding download link_check
  download_guarded hex deps key e s now d top names h = elim (Bool-cases (length key == 0)) [
    | inl empty ↦ absurd (rw (empty, download) at h)
    | inr full ↦
        let (verified, there) =
          checked-served deps key (link_check N C D root deps key e s now) d
            (rw (full, download) at h) in
        let (path, found) = exists-path_for D root key d there in
        let (same, under) = (path_for_iff root key path top names).0 found in
        (
          subst (Under root) same under,
          λ secret.
              accepted-IsGenuine N C hex key deps.download_secret e s now
                (with_secret deps key e s now secret verified),
        )
  ]
    where
      no_length : (l : Text) → length l ≡ 0 → l ≡ []
      no_length [] z = refl
      no_length (x ∷ l) z = absurd (omega arith)

      with_secret :
          (deps : Deps N C D root) (key : Text) (e s : Option Text) (now : ℕ)
          → deps.download_secret ≢ []
          → link_check N C D root deps key e s now ≡ ok
          → verify_signed_link N C key e s deps.download_secret now ≡ ok
      with_secret deps key e s now secret v = elim (Bool-cases (length deps.download_secret == 0)) [
        | inl none_set ↦ absurd (secret (no_length _ ((==_iff _ _).0 none_set)))
        | inr set ↦ rw (set, link_check) at v
      ]
