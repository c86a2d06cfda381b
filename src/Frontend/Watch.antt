-- ===== src/Frontend/Watch.antt =====
-- frontend/src/useJobProgress.ts: one job's progress as the page shows it. What happens to the hook
-- is a sequence of occurrences; an EventSource that is closed gives none.
pub mod Settled
pub mod Invariant
use file_forge.Base.{
  ℕ, Bool, true, false, not, ◌&&◌, ◌||◌, Option, none, some, List, [], ◌∷◌, if◌then◌else◌,
}
use file_forge.Base.Text.{Text, codes, text_eq}
use file_forge.Jobs.Worker.{EventState, queued, processing, completed, failed}
use file_forge.Contract.{
  Json, Items, Fields, null, string, array, object, no_items, item, get_field,
}
use file_forge.Contract.Events.{Event, parse_event}

pub data ShownState : Type 0 where
  idle : ShownState
  in_state : EventState → ShownState

pub record JobProgress : Type 0 where
  pub state : ShownState
  pub progress : ℕ
  pub outputs : List Text
  pub error : Option Text

-- IDLE
abbrev pub idle_progress : JobProgress
idle_progress = record { state = idle; progress = 0; outputs = []; error = none }

-- What is set when a job is given.
abbrev pub queued_progress : JobProgress
queued_progress = record { state = in_state queued; progress = 0; outputs = []; error = none }

-- `outputs.filter((value) => typeof value === 'string')`
strings_of : Items → List Text
strings_of no_items = []
strings_of (item (string t) r) = t ∷ strings_of r
strings_of (item v r) = strings_of r

array_strings : Option Json → List Text
unfolding strings_of
array_strings (some (array r)) = strings_of r
array_strings _ = []

-- outputsFrom
pub outputs_from : Option Json → List Text
unfolding array_strings
outputs_from (some (object r)) = array_strings (get_field (codes "outputs") r)
outputs_from _ = []

pub record Watch : Type 0 where
  pub job_id : Option Text
  pub is_open : Bool  -- there is a source, and its state is not CLOSED
  pub shown : JobProgress

abbrev pub at_start : Watch
at_start = record { job_id = none; is_open = false; shown = idle_progress }

unfoldable pub is_settled : EventState → Bool
is_settled completed = true
is_settled failed = true
is_settled queued = false
is_settled processing = false

unfoldable pub shown_settled : ShownState → Bool
unfolding is_settled
shown_settled idle = false
shown_settled (in_state s) = is_settled s

pub data Occurrence : Type 0 where
  job_given : Option Text → Occurrence  -- the hook is called with this job
  message : Option Json → Occurrence  -- `none`: JSON.parse throws
  connection_error : Bool → Occurrence  -- whether the browser has given up

abbrev pub same_job : Option Text → Option Text → Bool
same_job none none = true
same_job (some i) (some j) = text_eq i j
same_job none (some j) = false
same_job (some i) none = false

-- The effect for a job, behind the cleanup of the effect before it.
unfoldable pub started : Option Text → Watch
started none = at_start
started (some j) = record { job_id = some j; is_open = true; shown = queued_progress }

unfoldable pub on_event : Option Event → Watch → Watch
unfolding outputs_from is_settled
on_event none w = w
on_event (some e) w = record {
  job_id = w.job_id;
  is_open = not (is_settled e.state);
  shown = record {
    state = in_state e.state;
    progress = e.progress;
    outputs = outputs_from e.result;
    error = e.error;
  };
}

unfoldable pub on_message : Option Json → Watch → Watch
unfolding on_event parse_event
on_message none w = w
on_message (some json) w = on_event (parse_event json) w

abbrev pub lost : Text
lost = codes "Lost connection to the server"

unfoldable pub on_error : Bool → Watch → Watch
unfolding shown_settled
on_error closed w =
    if closed
    then record w {
      is_open = false;
      shown = if shown_settled w.shown.state then w.shown else record w.shown { error = some lost };
    }
    else w

-- An effect runs again only when the job has changed.
unfoldable pub step : Occurrence → Watch → Watch
unfolding started on_message on_error
step (job_given j) w = if same_job j w.job_id then w else started j
step (message m) w = if w.is_open then on_message m w else w
step (connection_error closed) w = if w.is_open then on_error closed w else w

unfoldable pub run : List Occurrence → Watch → Watch
unfolding step
run [] w = w
run (o ∷ os) w = run os (step o w)
