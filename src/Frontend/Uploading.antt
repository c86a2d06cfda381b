-- ===== src/Frontend/Uploading.antt =====
-- An upload from the page to the server and back: frontend/src/api.ts and App.tsx over files/upload.ts and
-- files/routes.ts.
mod Tests
use mathlib.Core.Bool.{false≢true}
use file_forge.Base.{
  ℕ, ◌≡◌, refl, sym, ap, ◌∙◌, Bool, true, false, Option, none, some, List, [], ◌∷◌, ◌++◌, inl, inr,
  Option-cases, All, ◌≢◌, arith,
}
use file_forge.Base.Text.{Text, codes, has}
use file_forge.Storage.{Disk, FilePath}
use file_forge.Upload.{resolve_mime_type, allowed_mime_types}
use file_forge.Upload.Types.{resolve-IsAllowed, has-All}
use file_forge.Upload.Filter.{file_filter, unsupported_message}
use file_forge.Files.Records.{Redis}
use file_forge.Files.Routes.{Fresh, Naming, StagedFile, UploadView, created, post_upload}
use file_forge.Files.Routes.Answers.{
  Staging, staged_at, Part, upload_route, respond, upload_failed, post_upload-mime_type,
}
use file_forge.Jobs.{Kind}
use file_forge.Jobs.Kinds.{kind_for_mime_type, has_kind, allowed_types_kind}
use file_forge.Contract.{Response}
use file_forge.Contract.Uploads.{
  UploadResponse, parse_upload, response_of, encode_upload, parse-encode_upload,
}
use file_forge.Contract.Errors.{parse-encode_error}
use file_forge.Frontend.Api.{
  Answer, given, refused, Request, get, post_json, post_file, upload_file, is_ok,
  read_response-error_response, read_response-given,
}
use file_forge.Frontend.Screen.{Screen, step, uploaded, upload_answered, view, kind_of}
use file_forge.Frontend.Watch.{ShownState}

allowed_kind : (t : Text) → has t allowed_mime_types ≡ true → has_kind (kind_for_mime_type t) ≡ true
allowed_kind t e =
    has-All (λ t. has_kind (kind_for_mime_type t) ≡ true) t allowed_mime_types allowed_types_kind e

kind_of_allowed :
    (t : Text)
    → has t allowed_mime_types ≡ true
    → (kind : Kind) × (kind_for_mime_type t ≡ some kind)
unfolding has_kind
kind_of_allowed t e = elim (Option-cases (kind_for_mime_type t)) [
  | inl nothing ↦ absurd (false≢true (rw nothing at (allowed_kind t e)))
  | inr found ↦ found
]

module _ (D : Disk) (R : Redis) (naming : Naming) (root : FilePath) (ttl_seconds : ℕ)
    (counting : Bool) (message : Text) (fresh : Fresh) (w : D.State × R.Store) where
  -- What the page's request comes back with.
  abbrev pub fetch : Request Part → Option Response
  fetch (post_file path part) =
      some (upload_route D R naming root ttl_seconds counting message fresh part w).0
  fetch _ = none

  upload_refused :
      (part : Part)
      → resolve_mime_type naming.to_lower_case part.mime_type part.original_name ≡ none
      → upload_file fetch part
        ≡ refused (record {
          message = unsupported_message part.mime_type;
          status = 415;
          code = some (codes "unsupported_type");
        })
  unfolding upload_file upload_route file_filter upload_failed is_ok
  upload_refused part e = rw e (
      read_response-error_response parse_upload 415 (codes "unsupported_type")
        (unsupported_message part.mime_type) refl)

  upload_given :
      (part : Part) (t path : Text) (v : UploadView) (w' : D.State × R.Store)
      → resolve_mime_type naming.to_lower_case part.mime_type part.original_name ≡ some t
      → part.staging ≡ staged_at path
      → post_upload D R naming root ttl_seconds counting fresh
          (some (record { path = path; original_name = part.original_name; mime_type = t }))
          w
        ≡ (created v, w')
      → upload_file fetch part ≡ given (response_of v)
  unfolding upload_file upload_route file_filter respond is_ok
  upload_given part t path v w' e at made =
      rw (e, at, made)
        (read_response-given parse_upload 201 (encode_upload v) (response_of v) refl
          (parse-encode_upload v))

  -- A file whose type the filter resolves, and whose upload is answered as created, is shown by the page
  -- as what was answered, and with it a picker for the kind of jobs that the resolved type allows: for
  -- every type that passes the filter there is one.
  pub uploaded_file_offered :
      (s : Screen) (job : ShownState) (part : Part) (t path : Text) (v : UploadView)
      (w' : D.State × R.Store)
      → s.uploading ≡ true
      → resolve_mime_type naming.to_lower_case part.mime_type part.original_name ≡ some t
      → part.staging ≡ staged_at path
      → post_upload D R naming root ttl_seconds counting fresh
          (some (record { path = path; original_name = part.original_name; mime_type = t }))
          w
        ≡ (created v, w')
      → let after = step (upload_answered (upload_file fetch part)) s in
        (after.upload ≡ some (response_of v))
        × ((kind : Kind) × (kind_for_mime_type t ≡ some kind)
            × ((view after job).picker ≡ some kind))
  unfolding step uploaded view kind_of
  uploaded_file_offered s job part t path v w' busy e at made =
      let answer = upload_given part t path v w' e at made in
      let typed : v.mime_type ≡ t =
        post_upload-mime_type D R naming root ttl_seconds counting fresh _ v w w' made in
      let (kind, some_kind) =
        kind_of_allowed t
          (resolve-IsAllowed naming.to_lower_case part.mime_type part.original_name t e).0 in
      rw (answer, busy, typed, some_kind) (refl, (kind, refl, refl))

  -- A file whose type the filter does not resolve is refused: the page shows the error with the type that
  -- was declared and no upload, and nothing is stored, recorded or counted.
  pub unsupported_file_told :
      (s : Screen) (part : Part)
      → s.uploading ≡ true
      → resolve_mime_type naming.to_lower_case part.mime_type part.original_name ≡ none
      → let after = step (upload_answered (upload_file fetch part)) s in
        (after.error ≡ some (codes "Unsupported file type: " ++ part.mime_type))
        × (after.upload ≡ none)
        × ((upload_route D R naming root ttl_seconds counting message fresh part w).1 ≡ w)
  unfolding step uploaded upload_route file_filter
  unsupported_file_told s part busy e =
      (rw (upload_refused part e, busy) refl, rw (upload_refused part e, busy) refl, rw e refl)
