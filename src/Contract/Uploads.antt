-- ===== src/Contract/Uploads.antt =====
-- UploadResponseSchema, and the bodies that files/routes.ts answers about uploads.
use file_forge.Base.{ℕ, ◌≡◌, refl, Option, some}
use file_forge.Base.Text.{Text, codes, text_eq}
use file_forge.Contract.{
  Json, number, string, object, no_fields, field, get_field, ◌>>=◌, as_object, as_string, as_number,
}
use file_forge.Files.Routes.{UploadView}

pub record UploadResponse : Type 0 where
  pub id : Text
  pub original_name : Text
  pub mime_type : Text
  pub size : ℕ
  pub uploaded_at : Text

-- UploadResponseSchema.parse
unfoldable pub parse_upload : Json → Option UploadResponse
parse_upload json = do
  r ← as_object json
  id ← as_string (get_field (codes "id") r)
  original_name ← as_string (get_field (codes "originalName") r)
  mime_type ← as_string (get_field (codes "mimeType") r)
  size ← as_number (get_field (codes "size") r)
  uploaded_at ← as_string (get_field (codes "uploadedAt") r)
  some (record {
    id = id;
    original_name = original_name;
    mime_type = mime_type;
    size = size;
    uploaded_at = uploaded_at;
  })

-- The body of a 201 of POST /uploads and of a 200 of GET /uploads/:id.
unfoldable pub encode_upload : UploadView → Json
encode_upload v = object (
    field (codes "id") (string v.id) (
      field (codes "originalName") (string v.original_name) (
        field (codes "mimeType") (string v.mime_type) (
          field (codes "size") (number v.size)
            (field (codes "uploadedAt") (string v.uploaded_at) no_fields)))))

abbrev pub response_of : UploadView → UploadResponse
response_of v = record {
  id = v.id;
  original_name = v.original_name;
  mime_type = v.mime_type;
  size = v.size;
  uploaded_at = v.uploaded_at;
}

pub parse-encode_upload : (v : UploadView) → parse_upload (encode_upload v) ≡ some (response_of v)
unfolding parse_upload encode_upload get_field text_eq
parse-encode_upload v = refl
