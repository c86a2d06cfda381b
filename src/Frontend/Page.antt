-- ===== src/Frontend/Page.antt =====
-- frontend/src/App.tsx with the picker of frontend/src/components/OperationPicker.tsx in it: the fields of
-- the picker, its remounting when the kind of file changes, and what a run sends. Whether the controls are
-- disabled is left open: a user may do more here than the page allows.
pub mod Applicable
mod Tests
use file_forge.Base.{
  ℕ, Bool, true, false, Option, none, some, List, [], ◌∷◌, get_elem?, if◌then◌else◌,
}
use file_forge.Base.Text.{Text, codes}
use file_forge.Jobs.{
  Kind, image, csv, Operation, image_resize, image_convert, image_thumbnail, csv_validate,
  csv_transform, operations_by_kind,
}
use file_forge.Contract.Uploads.{UploadResponse}
use file_forge.Frontend.Picker.{Value, Picker, mounted, build_options}
use file_forge.Frontend.Screen
use file_forge.Frontend.Screen.{Screen, at_start, run_pressed, kind_of}

-- What is done with the fields. The menu gives a place in the list of operations that it offers.
pub data Input : Type 0 where
  operation_chosen : ℕ → Input
  width_typed format_chosen size_typed columns_typed : Text → Input

-- OPERATION_LABELS
pub operation_label : Operation → Text
operation_label image_resize = codes "Resize"
operation_label image_convert = codes "Convert format"
operation_label image_thumbnail = codes "Thumbnail"
operation_label csv_validate = codes "Validate"
operation_label csv_transform = codes "Clean up"

-- The menu of operations.
pub menu : Kind → List (Operation × Text)
unfolding operation_label
menu kind = labelled (operations_by_kind kind)
  where
    labelled : List Operation → List (Operation × Text)
    labelled [] = []
    labelled (o ∷ os) = (o, operation_label o) ∷ labelled os

pub input : Input → Picker → Picker
input (operation_chosen i) p = elim (get_elem? (operations_by_kind p.kind) i) [
  | none ↦ p
  | some o ↦ record p { operation = o }
]
input (width_typed t) p = record p { width = t }
input (format_chosen t) p = record p { format = t }
input (size_typed t) p = record p { size = t }
input (columns_typed t) p = record p { columns = t }

same_kind : Kind → Kind → Bool
same_kind image image = true
same_kind csv csv = true
same_kind _ _ = false

-- The picker behind a rendering: its `key` is the kind, and with another key it is mounted anew.
pub rendered : Option Kind → Option Picker → Option Picker
unfolding same_kind
rendered none picker = none
rendered (some kind) none = some (mounted kind)
rendered (some kind) (some p) = if same_kind kind p.kind then some p else some (mounted kind)

pub record Page : Type 0 where
  pub screen : Screen
  pub picker : Option Picker

abbrev pub page_at_start : Page
page_at_start = record { screen = at_start; picker = none }

pub data Occurrence : Type 0 where
  on_screen : Screen.Occurrence → Occurrence
  in_picker : Input → Occurrence

-- What a run asks the server for.
pub record Sent : Type 0 where
  pub file_id : Text
  pub operation : Operation
  pub options : List (Text × Value)

input_to : Input → Option Picker → Option Picker
unfolding input
input_to i none = none
input_to i (some p) = some (input i p)

pub step : Occurrence → Page → Page
unfolding rendered input_to
step (on_screen o) p =
    let s = Screen.step o p.screen in
    record { screen = s; picker = rendered (kind_of s.upload) p.picker }
step (in_picker i) p = record p { picker = input_to i p.picker }

pub run : List Occurrence → Page → Page
unfolding step
run [] p = p
run (o ∷ os) p = run os (step o p)

abbrev pub sent_of : (Text → ℕ) → UploadResponse → Picker → Sent
sent_of to_number u p = record {
  file_id = u.id;
  operation = p.operation;
  options = build_options to_number p;
}

-- handleRun, pressed in a picker: nothing without an upload.
sent_from : (Text → ℕ) → Option UploadResponse → Option Picker → Option Sent
sent_from to_number (some u) (some p) = some (sent_of to_number u p)
sent_from to_number _ _ = none

pub sent : (Text → ℕ) → Page → Option Sent
unfolding sent_from
sent to_number p = sent_from to_number p.screen.upload p.picker
