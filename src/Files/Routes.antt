-- ===== src/Files/Routes.antt =====
-- files/routes.ts: taking an upload into storage, asking about one, and the answers to failures of
-- the upload parser. The parser has staged the file when the handler runs. The random names and the
-- date are arguments; logging is left out.
mod Created
pub mod Answers
pub mod Sample
mod Tests
use file_forge.Base.{ℕ, Bool, Option, none, some}
use file_forge.Base.Text.{Text}
use file_forge.Upload.{sanitize_filename, storage_key_for}
use file_forge.Storage
use file_forge.Storage.{Disk, FilePath, Result, StoredFile, adopt}
use file_forge.Files.Records.{
  FileRecord, Redis, save, get, uploads_total, bytes_uploaded_total, increment_counter,
}

-- `req.file`: what the parser staged.
pub record StagedFile : Type 0 where
  pub path : Text
  pub original_name : Text
  pub mime_type : Text

-- The body of an answer about an upload.
pub record UploadView : Type 0 where
  pub id : Text
  pub original_name : Text
  pub mime_type : Text
  pub size : ℕ
  pub uploaded_at : Text

pub view_of : FileRecord → UploadView
view_of r = record {
  id = r.id;
  original_name = r.original_name;
  mime_type = r.mime_type;
  size = r.size;
  uploaded_at = r.uploaded_at;
}

pub data Reply : Type 0 where
  no_file not_found forwarded : Reply  -- 400, 404, and `next(error)` or a rejection
  created : UploadView → Reply  -- 201
  shown : UploadView → Reply  -- 200

-- What is made for a request: the random part of the storage key, the id and the date.
pub record Fresh : Type 0 where
  pub key_uuid : Text
  pub id : Text
  pub uploaded_at : Text

-- `extname` and `toLowerCase`.
pub record Naming : Type 0 where
  pub extname : Text → Text
  pub to_lower_case : Text → Text

module _ (D : Disk) (R : Redis) (naming : Naming) (root : FilePath) (ttl_seconds : ℕ)
    (counting : Bool) where
  abbrev pub World : Type 0
  World = D.State × R.Store

  -- The `catch`: the staged file is removed, whether or not that succeeds.
  fail : StagedFile → World → Reply × World
  fail file (d, s) = (forwarded, ((D.remove_local file.path d).1, s))

  pub record_of : Fresh → StagedFile → StoredFile → FileRecord
  record_of fresh file stored = record {
    id = fresh.id;
    storage_key = stored.key;
    original_name = sanitize_filename file.original_name;
    mime_type = file.mime_type;
    size = stored.size;
    uploaded_at = fresh.uploaded_at;
  }

  saved : StagedFile → FileRecord → D.State → Option (Unit {0}) × R.Store → Reply × World
  unfolding fail view_of
  saved file r d (none, s) = fail file (d, s)
  saved file r d (some _, s) =
      let counted = increment_counter R counting uploads_total 1 s in
      (created (view_of r), (d, increment_counter R counting bytes_uploaded_total r.size counted))

  adopted : Fresh → StagedFile → Result StoredFile × D.State → R.Store → Reply × World
  unfolding fail saved record_of
  adopted fresh file (Storage.err e, d) s = fail file (d, s)
  adopted fresh file (Storage.ok stored, d) s =
      let r = record_of fresh file stored in saved file r d (save R ttl_seconds r s)

  pub key_of : Fresh → StagedFile → Text
  key_of fresh file =
      storage_key_for naming.extname naming.to_lower_case fresh.key_uuid
        (sanitize_filename file.original_name)

  -- POST /uploads
  pub post_upload : Fresh → Option StagedFile → World → Reply × World
  unfolding adopted key_of
  post_upload fresh none w = (no_file, w)
  post_upload fresh (some file) (d, s) =
      adopted fresh file (adopt D root (key_of fresh file) file.path d) s

  shown_or_not : Option (Option FileRecord) → Reply
  unfolding view_of
  shown_or_not none = forwarded
  shown_or_not (some none) = not_found
  shown_or_not (some (some r)) = shown (view_of r)

  -- GET /uploads/:id
  pub get_upload : Text → World → Reply
  unfolding shown_or_not
  get_upload id (d, s) = shown_or_not (get R id s)

-- What the upload parser, or the handler behind it, fails with.
pub data UploadError : Type 0 where
  unsupported_type limit_file_size other_multer_error other_error : UploadError

-- The status, or `none` for `next(err)`.
unfoldable pub upload_error_handler : UploadError → Option ℕ
upload_error_handler unsupported_type = some 415
upload_error_handler limit_file_size = some 413
upload_error_handler other_multer_error = some 400
upload_error_handler other_error = none
