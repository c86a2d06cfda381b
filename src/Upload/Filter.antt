-- ===== src/Upload/Filter.antt =====
-- createUploadMiddleware of files/upload.ts: which parts of a request multer takes, and its limits.
use file_forge.Base.{ℕ, ◌≡◌, Option, none, some, ◌++◌, Option-cases, inl, inr}
use file_forge.Base.Text.{Text, codes}
use file_forge.Upload.{resolve_mime_type}

-- `limits`
pub record Limits : Type 0 where
  pub file_size : ℕ
  pub files : ℕ
  pub fields : ℕ

pub limits : ℕ → Limits
limits max_bytes = record { file_size = max_bytes; files = 1; fields = 10 }

-- The message of UnsupportedFileTypeError
abbrev pub unsupported_message : Text → Text
unsupported_message mime_type = codes "Unsupported file type: " ++ mime_type

-- What the callback is given: an error with its message, or leave, the file's type having been set.
pub data Filtered : Type 0 where
  rejected : Text → Filtered
  accepted : Text → Filtered

filtered : Text → Option Text → Filtered
filtered mime_type none = rejected (unsupported_message mime_type)
filtered mime_type (some resolved) = accepted resolved

-- fileFilter
unfoldable pub file_filter : (Text → Text) → Text → Text → Filtered
unfolding filtered
file_filter to_lower_case mime_type original_name =
    filtered mime_type (resolve_mime_type to_lower_case mime_type original_name)

pub file_filter-accepted :
    (to_lower_case : Text → Text) (mime_type original_name t : Text)
    → file_filter to_lower_case mime_type original_name ≡ accepted t
    → resolve_mime_type to_lower_case mime_type original_name ≡ some t
unfolding file_filter filtered
file_filter-accepted to_lower_case mime_type original_name t e =
    elim (Option-cases (resolve_mime_type to_lower_case mime_type original_name)) [
      | inl none_eq ↦ cc (rw none_eq at e)
      | inr (u, some_eq) ↦ cc (rw some_eq at e)
    ]
