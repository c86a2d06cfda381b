-- ===== src/Frontend/Screen.antt =====
-- frontend/src/App.tsx: the state of the page and its two handlers. Each awaits one request, so that
-- a handler is two occurrences: its start, and the reply to the request.
use file_forge.Base.{
  Bool, true, false, ◌||◌, ◌≡◌, refl, ap, Option, none, some, List, [], ◌∷◌, if◌then◌else◌, All,
  arith,
}
use file_forge.Base.Text.{Text, codes, text_eq, text_eq_self, has}
use file_forge.Jobs.{Kind}
use file_forge.Jobs.Kinds.{kind_for_mime_type}
use file_forge.Jobs.Worker.{queued, processing}
use file_forge.Contract.Uploads.{UploadResponse}
use file_forge.Frontend.Api.{Answer, given, refused, broken}
use file_forge.Frontend.Watch.{ShownState, in_state}

pub record Screen : Type 0 where
  pub upload : Option UploadResponse
  pub uploading : Bool
  pub job_id : Option Text
  pub error : Option Text
  pub asked : List Text  -- the ids of the files for whose jobs a request is under way

pub data Occurrence : Type 0 where
  file_given run_pressed : Occurrence
  upload_answered : Answer UploadResponse → Occurrence
  job_answered : Text → Answer Text → Occurrence  -- the file's id, and the id of the created job

abbrev pub at_start : Screen
at_start = record { upload = none; uploading = false; job_id = none; error = none; asked = [] }

unfoldable pub uploaded : Answer UploadResponse → Screen → Screen
uploaded (given u) s = record s { upload = some u }
uploaded (refused e) s = record s { error = some e.message; upload = none }
uploaded broken s = record s { error = some (codes "Upload failed"); upload = none }

removed : Text → List Text → List Text
removed id [] = []
removed id (j ∷ ids) = if text_eq id j then ids else j ∷ removed id ids

created : Answer Text → Screen → Screen
created (given id) s = record s { job_id = some id }
created (refused e) s = record s { error = some e.message }
created broken s = record s { error = some (codes "Could not start the job") }

-- Before its request, handleRun only clears the error, and does nothing without an upload.
press : Option UploadResponse → Screen → Screen
press none s = s
press (some u) s = record s { error = none; asked = u.id ∷ s.asked }

unfoldable pub step : Occurrence → Screen → Screen
unfolding uploaded created press removed
step file_given s = record s { uploading = true; error = none; job_id = none }
step (upload_answered a) s = if s.uploading then record (uploaded a s) { uploading = false } else s
step run_pressed s = press s.upload s
step (job_answered file_id a) s =
    if has file_id s.asked then created a (record s { asked = removed file_id s.asked }) else s

pub run : List Occurrence → Screen → Screen
unfolding step
run [] s = s
run (o ∷ os) s = run os (step o s)

-- `running`
pub is_running : ShownState → Bool
is_running (in_state queued) = true
is_running (in_state processing) = true
is_running _ = false

unfoldable pub kind_of : Option UploadResponse → Option Kind
kind_of none = none
kind_of (some u) = kind_for_mime_type u.mime_type

-- What is rendered: whether the drop target is disabled, and which picker stands there, if any, and
-- whether it is disabled.
pub record View : Type 0 where
  pub drop_disabled : Bool
  pub picker : Option Kind
  pub picker_disabled : Bool

unfoldable pub view : Screen → ShownState → View
unfolding is_running kind_of
view s shown = record {
  drop_disabled = s.uploading || is_running shown;
  picker = kind_of s.upload;
  picker_disabled = is_running shown;
}

press_given :
    (s : Screen) (u : UploadResponse)
    → s.upload ≡ some u
    → step run_pressed s ≡ record s { error = none; asked = u.id ∷ s.asked }
unfolding step press
press_given s u there = ap (λ v. press v s) there

-- A file that is given while a run's request is under way: however the page stood, when both have
-- been answered, it shows the new upload, and with it the job that was created for the old one.
pub late_job_shown :
    (s : Screen) (old new : UploadResponse) (id : Text)
    → s.upload ≡ some old
    → let after =
        run
          (run_pressed
            ∷ file_given
            ∷ upload_answered (given new)
            ∷ job_answered old.id (given id)
            ∷ [])
          s in
      (after.upload ≡ some new) × (after.job_id ≡ some id)
unfolding run step uploaded created
late_job_shown s old new id there =
    rw (press_given s old there) (rw (text_eq_self old.id) (refl, refl))

-- No run is pressed.
abbrev pub NotPressed : Occurrence → Type 0
NotPressed file_given = Unit
NotPressed run_pressed = ⊥
NotPressed (upload_answered a) = Unit
NotPressed (job_answered id a) = Unit

abbrev Clear : Screen → Type 0
Clear s = (s.job_id ≡ none) × (s.asked ≡ [])

step-Clear : (o : Occurrence) (s : Screen) → NotPressed o → Clear s → Clear (step o s)
unfolding step uploaded
step-Clear file_given s n h = (refl, h.1)
step-Clear run_pressed s n h = absurd n
step-Clear (upload_answered (given u)) s n h = ground (arith, h)
step-Clear (upload_answered (refused e)) s n h = ground (arith, h)
step-Clear (upload_answered broken) s n h = ground (arith, h)
step-Clear (job_answered id a) s n h = ground (arith, h)

run-Clear : (os : List Occurrence) (s : Screen) → All NotPressed os → Clear s → Clear (run os s)
unfolding run
run-Clear [] s n h = h
run-Clear (o ∷ os) s (n, ns) h = run-Clear os (step o s) ns (step-Clear o s n h)

-- Where no run's request is under way, a file that is given takes the job off the page, and no job
-- comes back, whatever is answered and whichever files follow, until a run is pressed.
pub new_file_clears :
    (s : Screen) (os : List Occurrence)
    → s.asked ≡ []
    → All NotPressed os
    → (run (file_given ∷ os) s).job_id ≡ none
unfolding run step
new_file_clears s os idle_before calm =
    (run-Clear os (step file_given s) calm (refl, idle_before)).0
