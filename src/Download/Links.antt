-- ===== src/Download/Links.antt =====
-- A minted link opens the download that it was minted for.
use file_forge.Base.{
  ℕ, ◌+◌, ◌/◌, ◌≤◌, ◌≡◌, ◌≢◌, refl, true, false, some, [], ◌∷◌, ◌++◌, arith, ltb, ◌==◌, length,
}
use file_forge.Base.Text.{Text, codes}
use file_forge.Signing.{Numbers, Crypto, create_signed_link, signed_query}
use file_forge.Signing.Links.{Hex, Exact, max_safe, verify-create}
use file_forge.Storage
use file_forge.Storage.{Disk, FilePath, exists}
use file_forge.Download.{
  Deps, signed_link, create_link, mint_existing, minted, send_existing, checked, link_check,
  download,
}

nonempty_length : (s : Text) → s ≢ [] → (length s == 0) ≡ false
nonempty_length [] h = absurd (h refl)
nonempty_length (c ∷ s) h = ground arith

module _ (N : Numbers) (C : Crypto) (D : Disk) (root : FilePath) (exact : Exact N) (hex : Hex C)
    (deps : Deps N C D root) (key : Text) (d d' : D.State) (now later : ℕ) where
  -- With a secret configured, a link is minted for every key that exists. Its URL is the route of
  -- that key's download with the link's expiry and signature in the query, and a download of the key
  -- with just these passes the check up to and in the second of the expiry, as long as the times are
  -- whole seconds that a number of the language holds exactly: what is sent is then decided by the
  -- storage alone.
  pub minted_link_opens :
      key ≢ []
      → deps.download_secret ≢ []
      → exists D root key d ≡ (Storage.ok true, d)
      → now / 1000 + deps.download_ttl_seconds ≤ max_safe
      → later / 1000 ≤ now / 1000 + deps.download_ttl_seconds
      → let link = create_signed_link N C key deps.download_secret deps.download_ttl_seconds now in
        (create_link N C D root deps (some key) now d ≡ (
          signed_link
              (codes "/files/"
                ++ (key
                    ++ (codes "?expires="
                        ++ (N.print link.expires ++ (codes "&signature=" ++ link.signature)))))
              link,
          d,
        ))
        × (download N C D root deps key (some (N.print link.expires)) (some link.signature) later d'
            ≡ send_existing N C D root deps key (exists D root key d'))
  unfolding create_link mint_existing minted signed_query download checked link_check
  minted_link_opens named secret there safe soon =
      let link = create_signed_link N C key deps.download_secret deps.download_ttl_seconds now in
      let full = nonempty_length key named in
      let set = nonempty_length deps.download_secret secret in
      let fresh : ltb (now / 1000 + deps.download_ttl_seconds) (later / 1000) ≡ false =
        ground arith in
      let in_range : later / 1000 ≤ max_safe = omega arith in
      let checked_link =
        verify-create N C exact hex key deps.download_secret deps.download_ttl_seconds now later
          safe in_range in
      let verified = rw fresh at checked_link in
      (rw (full, there, set) refl, rw (full, set) (rw verified refl))
