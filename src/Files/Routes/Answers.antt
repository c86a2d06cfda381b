-- ===== src/Files/Routes/Answers.antt =====
-- files/routes.ts: POST /uploads from the part that multer finds to the response, errors included. How
-- multer ends with a part that its filter has taken is an argument, and so are the messages of errors
-- that are not this program's.
use file_forge.Base.{ℕ, ◌≡◌, sym, ap, Bool, Option, none, some, arith}
use file_forge.Base.Text.{Text, codes}
use file_forge.Storage
use file_forge.Storage.{Disk, FilePath, Result, StoredFile, adopt}
use file_forge.Upload.Filter.{Filtered, rejected, accepted, file_filter}
use file_forge.Files.Records.{FileRecord, Redis}
use file_forge.Files.Routes.{
  StagedFile, UploadView, Fresh, Naming, Reply, no_file, not_found, forwarded, created, shown,
  post_upload, adopted, saved, fail, record_of, view_of, key_of, UploadError, unsupported_type,
  limit_file_size, other_multer_error, other_error, upload_error_handler,
}
use file_forge.Contract.{Response}
use file_forge.Contract.Uploads.{encode_upload}
use file_forge.Contract.Errors.{error_response}

-- The answer of uploadErrorHandler, and behind it, for `next(err)`, of the application's error handler.
unfoldable pub upload_failed : UploadError → Text → Response
upload_failed unsupported_type message = error_response 415 (codes "unsupported_type") message
upload_failed limit_file_size message =
    error_response 413 (codes "file_too_large")
      (codes "The uploaded file exceeds the maximum allowed size")
upload_failed other_multer_error message = error_response 400 (codes "upload_error") message
upload_failed other_error message = error_response 500 (codes "internal_error") message

-- The response for what the handlers reply.
unfoldable pub respond : Text → Reply → Response
unfolding upload_failed
respond message no_file =
    error_response 400 (codes "no_file") (codes "Expected a file in the \"file\" field")
respond message not_found =
    error_response 404 (codes "not_found") (codes "No upload with that id (it may have expired)")
respond message forwarded = upload_failed other_error message
respond message (created v) = record { status = 201; body = some (encode_upload v) }
respond message (shown v) = record { status = 200; body = some (encode_upload v) }

-- How multer ends with a part that the filter has taken.
pub data Staging : Type 0 where
  staged_at : Text → Staging
  over_size : Staging
  over_limit : Text → Staging

pub record Part : Type 0 where
  pub mime_type : Text
  pub original_name : Text
  pub staging : Staging

module _ (D : Disk) (R : Redis) (naming : Naming) (root : FilePath) (ttl_seconds : ℕ)
    (counting : Bool) (message : Text) (fresh : Fresh) where
  abbrev World : Type 0
  World = D.State × R.Store

  staged : Part → Text → Staging → World → Response × World
  unfolding respond upload_failed
  staged part resolved (staged_at path) w =
      let file : StagedFile = record {
        path = path;
        original_name = part.original_name;
        mime_type = resolved;
      } in
      let done = post_upload D R naming root ttl_seconds counting fresh (some file) w in
      (respond message done.0, done.1)
  staged part resolved over_size w = (upload_failed limit_file_size message, w)
  staged part resolved (over_limit m) w = (upload_failed other_multer_error m, w)

  taken : Part → Filtered → World → Response × World
  unfolding staged upload_failed
  taken part (rejected m) w = (upload_failed unsupported_type m, w)
  taken part (accepted resolved) w = staged part resolved part.staging w

  -- A request to POST /uploads with one part.
  unfoldable pub upload_route : Part → World → Response × World
  unfolding taken
  upload_route part w =
      taken part (file_filter naming.to_lower_case part.mime_type part.original_name) w

-- The status is the one that uploadErrorHandler sets, where it sets one.
pub upload_failed-status :
    (e : UploadError) (message : Text) (status : ℕ)
    → upload_error_handler e ≡ some status
    → (upload_failed e message).status ≡ status
unfolding upload_failed upload_error_handler
upload_failed-status unsupported_type message status h = ground arith
upload_failed-status limit_file_size message status h = ground arith
upload_failed-status other_multer_error message status h = ground arith
upload_failed-status other_error message status h = cc

module _ (D : Disk) (R : Redis) (naming : Naming) (root : FilePath) (ttl_seconds : ℕ)
    (counting : Bool) (fresh : Fresh) (file : StagedFile) where
  -- What is answered as created has the type of the file that was staged.
  pub post_upload-mime_type :
      (v : UploadView) (w w' : D.State × R.Store)
      → post_upload D R naming root ttl_seconds counting fresh (some file) w ≡ (created v, w')
      → v.mime_type ≡ file.mime_type
  unfolding post_upload adopted saved fail record_of view_of
  post_upload-mime_type v (d, s) w' e =
      go (adopt D root (key_of D R naming root ttl_seconds counting fresh file) file.path d) e
    where
      go2 :
          (r : FileRecord) (d1 : D.State) (x : Option (Unit {0}) × R.Store)
          → saved D R naming root ttl_seconds counting file r d1 x ≡ (created v, w')
          → v.mime_type ≡ r.mime_type
      go2 r d1 (none, s1) h = cc
      go2 r d1 (some _, s1) h =
          let same : view_of r ≡ v = cc in sym (ap (λ (x : UploadView). x.mime_type) same)

      go :
          (x : Result StoredFile × D.State)
          → adopted D R naming root ttl_seconds counting fresh file x s ≡ (created v, w')
          → v.mime_type ≡ file.mime_type
      go (Storage.err f, d1) h = cc
      go (Storage.ok stored, d1) h =
          go2 (record_of D R naming root ttl_seconds counting fresh file stored) d1 _ h
