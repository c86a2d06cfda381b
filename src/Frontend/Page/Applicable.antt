-- ===== src/Frontend/Page/Applicable.antt =====
-- What a run may send.
use file_forge.Base.{
  ℕ, ◌≡◌, refl, sym, ap, true, Option, none, some, List, [], ◌∷◌, get_elem?, inl, inr, Option-cases,
  Bool-cases,
}
use mathlib.Core.Path.{subst}
use file_forge.Base.Text.{Text}
use file_forge.Jobs.{Kind, image, csv, Operation, operations_by_kind}
use file_forge.Jobs.Kinds.{kind_for_mime_type}
use file_forge.Contract.Uploads.{UploadResponse}
use file_forge.Frontend.Picker.{Picker, mounted, first_operation}
use file_forge.Frontend.Screen.{kind_of}
use file_forge.Frontend.Page.{
  Input, operation_chosen, width_typed, format_chosen, size_typed, columns_typed, input, same_kind,
  rendered, Page, page_at_start, Occurrence, on_screen, in_picker, Sent, sent_of, input_to, step,
  run, sent_from, sent,
}

-- One of the operations of the kind.
abbrev pub IsOffered : Kind → Operation → Type 0
IsOffered kind o = (i : ℕ) × (get_elem? (operations_by_kind kind) i ≡ some o)

-- The picker stands for the kind of file, with an operation that it offers.
abbrev IsFitting : Option Kind → Option Picker → Type 0
IsFitting kind none = Unit
IsFitting kind (some p) = (kind ≡ some p.kind) × IsOffered p.kind p.operation

mounted-IsOffered : (kind : Kind) → IsOffered kind (mounted kind).operation
unfolding mounted first_operation operations_by_kind
mounted-IsOffered image = (0, refl)
mounted-IsOffered csv = (0, refl)

same_kind→eq : (k l : Kind) → same_kind k l ≡ true → k ≡ l
unfolding same_kind
same_kind→eq image image e = refl
same_kind→eq csv csv e = refl
same_kind→eq image csv e = cc
same_kind→eq csv image e = cc

fresh-IsFitting : (kind : Kind) → IsFitting (some kind) (some (mounted kind))
unfolding mounted
fresh-IsFitting kind = (refl, mounted-IsOffered kind)

rendered-IsFitting :
    (before kind : Option Kind) (picker : Option Picker)
    → IsFitting before picker
    → IsFitting kind (rendered kind picker)
unfolding rendered
rendered-IsFitting before none picker h = tt
rendered-IsFitting before (some kind) none h = fresh-IsFitting kind
rendered-IsFitting before (some kind) (some p) h = elim (Bool-cases (same_kind kind p.kind)) [
  | inl same ↦ rw same (ap some (same_kind→eq kind p.kind same), h.1)
  | inr other ↦ rw other (fresh-IsFitting kind)
]

input-IsFitting :
    (kind : Option Kind) (i : Input) (p : Picker)
    → IsFitting kind (some p)
    → IsFitting kind (some (input i p))
unfolding input
input-IsFitting kind (operation_chosen n) p h =
    elim (Option-cases (get_elem? (operations_by_kind p.kind) n)) [
      | inl nothing ↦ rw (nothing, input) h
      | inr (o, there) ↦ rw (there, input) (h.0, (n, there))
    ]
input-IsFitting kind (width_typed t) p h = h
input-IsFitting kind (format_chosen t) p h = h
input-IsFitting kind (size_typed t) p h = h
input-IsFitting kind (columns_typed t) p h = h

input_to-IsFitting :
    (kind : Option Kind) (i : Input) (picker : Option Picker)
    → IsFitting kind picker
    → IsFitting kind (input_to i picker)
unfolding input_to
input_to-IsFitting kind i none h = tt
input_to-IsFitting kind i (some p) h = input-IsFitting kind i p h

abbrev Fits : Page → Type 0
Fits p = IsFitting (kind_of p.screen.upload) p.picker

step-Fits : (o : Occurrence) (p : Page) → Fits p → Fits (step o p)
unfolding step
step-Fits (on_screen o) p h = rendered-IsFitting (kind_of p.screen.upload) _ p.picker h
step-Fits (in_picker i) p h = input_to-IsFitting (kind_of p.screen.upload) i p.picker h

run-Fits : (os : List Occurrence) (p : Page) → Fits p → Fits (run os p)
unfolding run
run-Fits [] p h = h
run-Fits (o ∷ os) p h = run-Fits os (step o p) (step-Fits o p h)

-- What is sent is for the upload, with an operation for its kind.
abbrev pub IsApplicable : Option UploadResponse → Sent → Type 0
IsApplicable upload q =
    (u : UploadResponse) × (kind : Kind) × (upload ≡ some u)
    × (q.file_id ≡ u.id)
    × (kind_for_mime_type u.mime_type ≡ some kind)
    × IsOffered kind q.operation

sent_from-IsApplicable :
    (to_number : Text → ℕ) (upload : Option UploadResponse) (picker : Option Picker) (q : Sent)
    → IsFitting (kind_of upload) picker
    → sent_from to_number upload picker ≡ some q
    → IsApplicable upload q
unfolding sent_from kind_of
sent_from-IsApplicable to_number none none q h e = cc
sent_from-IsApplicable to_number none (some p) q h e = cc
sent_from-IsApplicable to_number (some u) none q h e = cc
sent_from-IsApplicable to_number (some u) (some p) q h e =
    let same : sent_of to_number u p ≡ q = cc in
    (
      u,
      p.kind,
      refl,
      sym (ap (λ (x : Sent). x.file_id) same),
      h.0,
      subst (λ (x : Sent). IsOffered p.kind x.operation) same h.1,
    )

-- Whatever is done on the page, from the start on: what a run sends is for the upload that the page
-- shows, and asks for an operation that is offered for that upload's kind, files of another kind in
-- between included.
pub run_sends-IsApplicable :
    (to_number : Text → ℕ) (os : List Occurrence) (q : Sent)
    → sent to_number (run os page_at_start) ≡ some q
    → IsApplicable (run os page_at_start).screen.upload q
unfolding sent
run_sends-IsApplicable to_number os q e =
    let p = run os page_at_start in
    sent_from-IsApplicable to_number p.screen.upload p.picker q (run-Fits os page_at_start tt) e
