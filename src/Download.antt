-- ===== src/Download.antt =====
-- files/download.ts: serving a stored file, and minting a link to one. The storage and the signatures
-- are the components of this library; `toLowerCase` and `basename` are parameters. A handler that
-- throws ends in the application's error handler.
mod Guard
mod Links
mod Tests
use file_forge.Base.{
  ℕ, ◌*◌, Bool, true, false, Option, none, some, List, [], ◌∷◌, ◌++◌, drop, ◌==◌, length,
  if◌then◌else◌,
}
use file_forge.Base.Text.{Text, codes, lookup}
use file_forge.Upload.{last_index_of}
use file_forge.Signing.{
  Numbers, Crypto, Reason, expired, missing, invalid, VerificationResult, ok, fail, SignedLink,
  create_signed_link, signed_query, verify_signed_link,
}
use file_forge.Storage.{Disk, FilePath, Result, exists, size, open_file}
use file_forge.Storage

abbrev pub content_types : List (Text × Text)
content_types =
    (codes ".jpg", codes "image/jpeg")
    ∷ (codes ".jpeg", codes "image/jpeg")
    ∷ (codes ".png", codes "image/png")
    ∷ (codes ".webp", codes "image/webp")
    ∷ (codes ".avif", codes "image/avif")
    ∷ (codes ".gif", codes "image/gif")
    ∷ (codes ".tiff", codes "image/tiff")
    ∷ (codes ".csv", codes "text/csv")
    ∷ (codes ".json", codes "application/json")
    ∷ (codes ".txt", codes "text/plain")
    ∷ []

or_octets : Option Text → Text
or_octets none = codes "application/octet-stream"
or_octets (some t) = t

extension_from : Option ℕ → Text → Text
extension_from none key = []
extension_from (some dot) key = drop dot key

content_type_for : (Text → Text) → Text → Text
unfolding or_octets extension_from
content_type_for to_lower_case key =
    or_octets (lookup (to_lower_case (extension_from (last_index_of b'.' key) key)) content_types)

-- The error bodies, by their codes.
pub data Refusal : Type 0 where
  no_key link_expired invalid_signature not_found invalid_request : Refusal

module _ (N : Numbers) (C : Crypto) (D : Disk) (root : FilePath) where
  open D use {State, Source}

  pub data Reply : Type 0 where
    refused : ℕ → Refusal → Reply
    served : Text → ℕ → Text → Source → Reply  -- content type, length, file name, body
    threw : Reply

  pub record Deps : Type 0 where
    pub download_secret : Text
    pub download_ttl_seconds : ℕ
    pub to_lower_case : Text → Text
    pub basename : Text → Text

  -- The answer to a link that did not verify.
  refuse_link : Reason → Reply
  refuse_link expired = refused 410 link_expired
  refuse_link missing = refused 403 invalid_signature
  refuse_link invalid = refused 403 invalid_signature

  send_opened : Deps → Text → ℕ → Result Source × State → Reply × State
  unfolding content_type_for
  send_opened deps key bytes (Storage.err e, d) = (threw, d)
  send_opened deps key bytes (Storage.ok source, d) =
      (served (content_type_for deps.to_lower_case key) bytes (deps.basename key) source, d)

  send_sized : Deps → Text → Result ℕ × State → Reply × State
  unfolding send_opened
  send_sized deps key (Storage.err e, d) = (threw, d)
  send_sized deps key (Storage.ok bytes, d) = send_opened deps key bytes (open_file D root key d)

  -- Behind the check of the link. A key that escapes the root makes `exists` throw.
  pub send_existing : Deps → Text → Result Bool × State → Reply × State
  unfolding send_sized
  send_existing deps key (Storage.err e, d) = (refused 404 not_found, d)
  send_existing deps key (Storage.ok false, d) = (refused 404 not_found, d)
  send_existing deps key (Storage.ok true, d) = send_sized deps key (size D root key d)

  checked : Deps → Text → VerificationResult → State → Reply × State
  unfolding refuse_link send_existing
  checked deps key (fail reason) d = (refuse_link reason, d)
  checked deps key ok d = send_existing deps key (exists D root key d)

  -- Without a secret nothing is verified.
  link_check : Deps → Text → Option Text → Option Text → ℕ → VerificationResult
  link_check deps key expires signature now =
      if length deps.download_secret == 0
      then ok
      else verify_signed_link N C key expires signature deps.download_secret now

  -- GET /files/*splat
  pub download : Deps → Text → Option Text → Option Text → ℕ → State → Reply × State
  unfolding checked link_check
  download deps key expires signature now d =
      if length key == 0
      then (refused 400 no_key, d)
      else checked deps key (link_check deps key expires signature now) d

  pub data LinkReply : Type 0 where
    link_refused : ℕ → Refusal → LinkReply
    unsigned_link : Text → LinkReply
    signed_link : Text → SignedLink N C → LinkReply

  minted : Deps → Text → ℕ → LinkReply
  minted deps key now =
      let link = create_signed_link N C key deps.download_secret deps.download_ttl_seconds now in
      if length deps.download_secret == 0
      then unsigned_link (codes "/files/" ++ key)
      else signed_link (codes "/files/" ++ (key ++ (b'?' ∷ signed_query N C link))) link

  mint_existing : Deps → Text → ℕ → Result Bool × State → LinkReply × State
  unfolding minted
  mint_existing deps key now (Storage.err e, d) = (link_refused 404 not_found, d)
  mint_existing deps key now (Storage.ok false, d) = (link_refused 404 not_found, d)
  mint_existing deps key now (Storage.ok true, d) = (minted deps key now, d)

  -- POST /files/links; a key that is no text is read as the empty one.
  pub create_link : Deps → Option Text → ℕ → State → LinkReply × State
  unfolding mint_existing
  create_link deps none now d = (link_refused 422 invalid_request, d)
  create_link deps (some key) now d =
      if length key == 0
      then (link_refused 422 invalid_request, d)
      else mint_existing deps key now (exists D root key d)
