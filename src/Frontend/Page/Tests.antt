-- ===== src/Frontend/Page/Tests.antt =====
-- An image is uploaded, the thumbnail is chosen, and a table is uploaded instead.
use file_forge.Base.{refl, List, [], ◌∷◌}
use file_forge.Base.Text.{codes, text_eq}
use file_forge.Jobs.{csv_validate, operations_by_kind}
use file_forge.Jobs.Kinds.{kind_for_mime_type, includes}
use file_forge.Storage.{starts_with}
use file_forge.Contract.Uploads.{UploadResponse}
use file_forge.Frontend.Api.{given}
use file_forge.Frontend.Screen
use file_forge.Frontend.Screen.{file_given, upload_answered, uploaded, kind_of}
use file_forge.Frontend.Picker.{mounted, first_operation, build_options}
use file_forge.Frontend.Page.{
  page_at_start, Occurrence, on_screen, in_picker, operation_chosen, Sent, sent, sent_from, run,
  step, rendered, same_kind, input, input_to,
}
use file_forge.Frontend.Page.Applicable.{IsApplicable, run_sends-IsApplicable}

abbrev picture : UploadResponse
picture = record {
  id = codes "1";
  original_name = codes "b.png";
  mime_type = codes "image/png";
  size = 3;
  uploaded_at = [];
}

abbrev table : UploadResponse
table = record {
  id = codes "2";
  original_name = codes "a.csv";
  mime_type = codes "text/csv";
  size = 3;
  uploaded_at = [];
}

abbrev changed : List Occurrence
changed =
    on_screen file_given
    ∷ on_screen (upload_answered (given picture))
    ∷ in_picker (operation_chosen 2)
    ∷ on_screen file_given
    ∷ on_screen (upload_answered (given table))
    ∷ []

abbrev check_table : Sent
check_table = record { file_id = codes "2"; operation = csv_validate; options = [] }

run_sends-IsApplicable_example : IsApplicable (run changed page_at_start).screen.upload check_table
unfolding run step rendered same_kind input input_to sent sent_from kind_of mounted first_operation
    operations_by_kind Screen.step uploaded kind_for_mime_type includes starts_with text_eq
    build_options
run_sends-IsApplicable_example = run_sends-IsApplicable (λ t. 5) changed check_table refl
