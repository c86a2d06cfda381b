-- ===== src/Frontend/Uploading/Tests.antt =====
-- An upload that is stored and offered, and one of a type that is not taken.
use file_forge.Base.{◌≡◌, refl, true, none, some, []}
use file_forge.Base.Text.{codes, text_eq}
use file_forge.Upload.{resolve_mime_type}
use file_forge.Storage.Memory.{root, staged}
use file_forge.Files.Routes.Answers.{Part, staged_at, upload_route}
use file_forge.Files.Routes.Sample.{disk, redis, naming, fresh, empty, answer, upload_works}
use file_forge.Jobs.{Kind}
use file_forge.Jobs.Kinds.{kind_for_mime_type}
use file_forge.Contract.Uploads.{response_of}
use file_forge.Frontend.Api.{upload_file}
use file_forge.Frontend.Screen.{Screen, step, upload_answered, view}
use file_forge.Frontend.Watch.{idle}
use file_forge.Frontend.Uploading.{fetch, uploaded_file_offered, unsupported_file_told}

abbrev uploading : Screen
uploading = record { upload = none; uploading = true; job_id = none; error = none; asked = [] }

abbrev part : Part
part = record {
  mime_type = codes "text/csv";
  original_name = codes "a.csv";
  staging = staged_at (codes "tmp");
}

uploaded_file_offered_example :
    let after =
      step
        (upload_answered
          (upload_file (fetch disk redis naming root 86400 true [] fresh (staged, empty)) part))
        uploading in
    (after.upload ≡ some (response_of answer))
    × ((kind : Kind) × (kind_for_mime_type (codes "text/csv") ≡ some kind)
        × ((view after idle).picker ≡ some kind))
unfolding resolve_mime_type text_eq
uploaded_file_offered_example =
    uploaded_file_offered disk redis naming root 86400 true [] fresh (staged, empty) uploading idle
      part (codes "text/csv") (codes "tmp") answer _ refl refl refl upload_works

abbrev page : Part
page = record {
  mime_type = codes "text/html";
  original_name = codes "a.html";
  staging = staged_at (codes "tmp");
}

unsupported_file_told_example :
    let after =
      step
        (upload_answered
          (upload_file (fetch disk redis naming root 86400 true [] fresh (staged, empty)) page))
        uploading in
    (after.error ≡ some (codes "Unsupported file type: text/html"))
    × (after.upload ≡ none)
    × ((upload_route disk redis naming root 86400 true [] fresh page (staged, empty)).1
        ≡ (staged, empty))
unfolding resolve_mime_type text_eq
unsupported_file_told_example =
    unsupported_file_told disk redis naming root 86400 true [] fresh (staged, empty) uploading page
      refl refl
