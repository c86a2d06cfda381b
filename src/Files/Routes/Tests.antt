-- ===== src/Files/Routes/Tests.antt =====
-- An upload that is stored.
use file_forge.Base.{◌≡◌, true}
use file_forge.Base.Text.{codes}
use file_forge.Storage.Operations.{Readable}
use file_forge.Storage.Memory.{root, Gone, memory-Moves, staged, moved_in}
use file_forge.Files.Records.Memory.{memory-Keeps}
use file_forge.Files.Routes.{key_of, get_upload, shown}
use file_forge.Files.Routes.Created.{created_upload_shown}
use file_forge.Files.Routes.Sample.{
  disk, redis, naming, fresh, file, empty, answer, kept, upload_works,
}

created_upload_shown_example :
    (get_upload disk redis naming root 86400 true (codes "2") (moved_in, kept) ≡ shown answer)
    × Readable disk root
        (key_of disk redis naming root 86400 true fresh file)
        (record { key = key_of disk redis naming root 86400 true fresh file; size = 3 })
        moved_in
    × Gone (codes "tmp") moved_in
created_upload_shown_example =
    created_upload_shown disk redis naming root 86400 true fresh file memory-Keeps Gone memory-Moves
      staged moved_in empty kept answer upload_works
