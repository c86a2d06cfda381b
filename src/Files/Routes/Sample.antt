-- ===== src/Files/Routes/Sample.antt =====
-- An upload that is stored: the parts of the request, what is answered, and what is kept.
use file_forge.Base.{◌≡◌, refl, true, Option, none, some}
use file_forge.Base.Text.{Text, codes}
use file_forge.Upload.{sanitize_filename, storage_key_for}
use file_forge.Storage.{Disk}
use file_forge.Storage
use file_forge.Storage.Memory.{
  Files, root, Gone, memory-Moves, staged, nothing, upload_key, moved_in, staged-adopt,
  nothing-adopt,
}
use file_forge.Files.Records.{
  FileRecord, Redis, save, increment_counter, uploads_total, bytes_uploaded_total,
}
use file_forge.Files.Records.Memory.{memory, save_lem}
use file_forge.Files.Routes.{
  StagedFile, UploadView, view_of, Fresh, Naming, record_of, key_of, post_upload, created, adopted,
  saved,
}

abbrev pub disk : Disk
disk = Storage.Memory.memory

abbrev pub redis : Redis
redis = memory

abbrev pub naming : Naming
naming = record { extname = λ s. codes ".csv"; to_lower_case = λ s. s }

abbrev pub fresh : Fresh
fresh = record { key_uuid = codes "1"; id = codes "2"; uploaded_at = codes "2026" }

abbrev pub file : StagedFile
file = record { path = codes "tmp"; original_name = codes "a.csv"; mime_type = codes "text/csv" }

abbrev pub empty : Text → Option Text
empty k = none

abbrev pub stored_record : FileRecord
stored_record = record {
  id = codes "2";
  storage_key = upload_key;
  original_name = sanitize_filename (codes "a.csv");
  mime_type = codes "text/csv";
  size = 3;
  uploaded_at = codes "2026";
}

abbrev pub answer : UploadView
answer = record {
  id = codes "2";
  original_name = sanitize_filename (codes "a.csv");
  mime_type = codes "text/csv";
  size = 3;
  uploaded_at = codes "2026";
}

abbrev pub kept : Text → Option Text
kept =
    increment_counter redis true bytes_uploaded_total 3
      (increment_counter redis true uploads_total 1 (save redis 86400 stored_record empty).1)

pub upload_works :
    post_upload disk redis naming root 86400 true fresh (some file) (staged, empty)
    ≡ (created answer, (moved_in, kept))
unfolding post_upload adopted saved record_of key_of storage_key_for view_of
upload_works = rw staged-adopt (rw (save_lem 86400 stored_record empty) refl)
