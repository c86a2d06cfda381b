-- ===== src/Frontend/Api.antt =====
-- frontend/src/api.ts: the requests of the page, and how sizes and keys are shown.
use file_forge.Base.{
  ℕ, ◌+◌, ◌*◌, ◌/◌, ◌%◌, ◌≤◌, ◌<◌, ◌≡◌, refl, Bool, true, false, ◌&&◌, ◌||◌, Option, none, some,
  List, [], ◌∷◌, ◌++◌, ltb, leb, ◌==◌, arith, if◌then◌else◌,
}
use file_forge.Base.Text.{Text, codes, has}
use file_forge.Base.Decimal.{decimal}
use file_forge.Jobs.{Operation}
use file_forge.Contract.{Json, Response, Fields, null, string, object, field, no_fields}
use file_forge.Contract.Uploads.{UploadResponse, parse_upload}
use file_forge.Contract.Errors.{ApiError, parse_error, error_response, parse-encode_error}
use file_forge.Contract.Requests.{encode_request}
use file_forge.Contract.Status.{CreateJobResponse, parse_created, JobStatus, parse_status}
use file_forge.Contract.Links.{SignedLinkResponse, parse_link}

-- ApiRequestError
pub record ApiRequestError : Type 0 where
  pub message : Text
  pub status : ℕ
  pub code : Option Text

-- How an awaited request ends for its caller.
pub data Answer (A : Type 0) : Type 0 where
  given : A → Answer A
  refused : ApiRequestError → Answer A
  broken : Answer A  -- any other error: no connection, or a body that the schema does not read

-- `response.ok`
unfoldable pub is_ok : ℕ → Bool
is_ok status = leb 200 status && ltb status 300

error_message : ℕ → Option ApiError → ApiRequestError
error_message status none = record {
  message = codes "Request failed (" ++ (decimal status ++ codes ")");
  status = status;
  code = none;
}
error_message status (some e) = record { message = e.message; status = status; code = some e.error }

or_null : Option Json → Json
or_null none = null
or_null (some json) = json

-- handleResponse: the body, or `null` for none, of a response that is ok.
pub handle_response : Response → Answer Json
unfolding is_ok or_null error_message
handle_response r =
    if is_ok r.status
    then given (or_null r.body)
    else refused (error_message r.status (parse_error (or_null r.body)))

parsed : {A : Type 0} → (Json → Option A) → Answer Json → Answer A
parsed parse broken = broken
parsed parse (refused e) = refused e
parsed parse (given json) = elim (parse json) [ none ↦ broken | some a ↦ given a ]

-- `Schema.parse(await handleResponse(response))`, where `none` is a fetch that rejects.
unfoldable pub read_response : {A : Type 0} → (Json → Option A) → Option Response → Answer A
unfolding parsed handle_response
read_response parse none = broken
read_response parse (some r) = parsed parse (handle_response r)

-- A refusal reaches the caller as what the server said.
pub read_response-error_response :
    {A : Type 0} (parse : Json → Option A) (status : ℕ) (error message : Text)
    → is_ok status ≡ false
    → read_response parse (some (error_response status error message))
      ≡ refused (record { message = message; status = status; code = some error })
unfolding read_response handle_response error_message or_null parsed
read_response-error_response parse status error message e =
    rw (e, parse-encode_error (record { error = error; message = message; issues = none })) refl

-- What is answered with 200 or above and below 300 reaches it as the schema reads it.
pub read_response-given :
    {A : Type 0} (parse : Json → Option A) (status : ℕ) (json : Json) (a : A)
    → is_ok status ≡ true
    → parse json ≡ some a
    → read_response parse (some (record { status = status; body = some json })) ≡ given a
unfolding read_response handle_response or_null parsed
read_response-given parse status json a e read = rw (e, read) refl

pub data Request (File : Type 0) : Type 0 where
  get : Text → Request File
  post_json : Text → Json → Request File
  post_file : Text → File → Request File

module _ {File : Type 0} (fetch : Request File → Option Response) where
  -- uploadFile
  unfoldable pub upload_file : File → Answer UploadResponse
  upload_file file = read_response parse_upload (fetch (post_file (codes "/uploads") file))

  -- createJob
  unfoldable pub create_job : Text → Operation → Fields → Answer CreateJobResponse
  create_job file_id operation options =
      read_response parse_created
        (fetch (post_json (codes "/jobs") (encode_request file_id operation options)))

  -- getJob
  unfoldable pub get_job : Text → Answer JobStatus
  get_job job_id = read_response parse_status (fetch (get (codes "/jobs/" ++ job_id)))

  -- getDownloadUrl
  unfoldable pub get_download_url : Text → Answer SignedLinkResponse
  get_download_url key = read_response parse_link (
      fetch
        (post_json (codes "/files/links") (object (field (codes "key") (string key) no_fields))))

-- The tenths of a number that `toFixed(1)` shows, the number being bytes over a unit: the nearest, and
-- the larger of two.
pub tenths : ℕ → ℕ → ℕ
tenths unit bytes = (10 * bytes + unit / 2) / unit

to_fixed : ℕ → Text
to_fixed n = decimal (n / 10) ++ (b'.' ∷ decimal (n % 10))

-- formatBytes
pub format_bytes : ℕ → Text
unfolding tenths to_fixed
format_bytes bytes =
    if ltb bytes 1024
    then decimal bytes ++ codes " B"
    else if ltb bytes 1048576
    then to_fixed (tenths 1024 bytes) ++ codes " KB"
    else to_fixed (tenths 1048576 bytes) ++ codes " MB"

-- A size just below one megabyte is rounded up past the unit that was chosen for it.
pub format_bytes_below_mb :
    (bytes : ℕ) → 1048525 ≤ bytes → bytes < 1048576 → format_bytes bytes ≡ codes "1024.0 KB"
unfolding format_bytes tenths to_fixed decimal
format_bytes_below_mb bytes low high =
    let n : (10 * bytes + 512) / 1024 ≡ 10240 = omega arith in
    let not_small : ltb bytes 1024 ≡ false = ground arith in
    let small : ltb bytes 1048576 ≡ true = ground arith in rw not_small (rw small (rw n refl))

-- isPreviewable: the key ends with a dot and one of these, in any case.
abbrev pub preview_extensions : List Text
preview_extensions =
    codes "png" ∷ codes "jpg" ∷ codes "jpeg" ∷ codes "webp" ∷ codes "avif" ∷ codes "gif" ∷ []

-- The `i` flag, on ASCII letters; no other letter folds to one of these.
pub fold_case : ℕ → ℕ
fold_case c = if leb b'A' c && leb c b'Z' then c + 32 else c

fold_text : Text → Text
unfolding fold_case
fold_text [] = []
fold_text (c ∷ s) = fold_case c ∷ fold_text s

-- `/\.(png|jpe?g|webp|avif|gif)$/i.test(key)`
pub is_previewable : Text → Bool
unfolding fold_text
is_previewable [] = false
is_previewable (c ∷ s) = c == b'.' && has (fold_text s) preview_extensions || is_previewable s
