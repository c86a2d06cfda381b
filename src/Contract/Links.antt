-- ===== src/Contract/Links.antt =====
-- SignedLinkResponseSchema, and the bodies that files/download.ts answers to POST /files/links.
use file_forge.Base.{◌≡◌, refl, Bool, true, false, Option, none, some}
use file_forge.Base.Text.{Text, codes, text_eq}
use file_forge.Contract.{
  Json, bool, string, object, no_fields, field, get_field, ◌>>=◌, as_object, as_string, as_bool,
  optional_string,
}

pub record SignedLinkResponse : Type 0 where
  pub url : Text
  pub signed : Bool
  pub expires_at : Option Text

-- SignedLinkResponseSchema.parse
unfoldable pub parse_link : Json → Option SignedLinkResponse
parse_link json = do
  r ← as_object json
  url ← as_string (get_field (codes "url") r)
  signed ← as_bool (get_field (codes "signed") r)
  expires_at ← optional_string (get_field (codes "expiresAt") r)
  some (record { url = url; signed = signed; expires_at = expires_at })

-- `{ url, signed: false }`, without a secret
unfoldable pub encode_unsigned : Text → Json
encode_unsigned url =
    object (field (codes "url") (string url) (field (codes "signed") (bool false) no_fields))

-- `{ url, signed: true, expiresAt }`
unfoldable pub encode_signed : Text → Text → Json
encode_signed url expires_at = object (
    field (codes "url") (string url) (
      field (codes "signed") (bool true) (field (codes "expiresAt") (string expires_at) no_fields)))

pub parse-encode_unsigned :
    (url : Text)
    → parse_link (encode_unsigned url)
      ≡ some (record { url = url; signed = false; expires_at = none })
unfolding parse_link encode_unsigned get_field text_eq
parse-encode_unsigned url = refl

pub parse-encode_signed :
    (url expires_at : Text)
    → parse_link (encode_signed url expires_at)
      ≡ some (record { url = url; signed = true; expires_at = some expires_at })
unfolding parse_link encode_signed get_field text_eq
parse-encode_signed url expires_at = refl
