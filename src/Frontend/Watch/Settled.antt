-- ===== src/Frontend/Watch/Settled.antt =====
-- What the page shows of an event, and that the last event of a job stays.
use file_forge.Base.{◌≤◌, ◌≡◌, refl, ap, true, false, not, Option, none, some, List, [], ◌∷◌, All}
use file_forge.Base.Text.{Text, text_eq, text_eq_self}
use file_forge.Jobs.{ProcessorResult}
use file_forge.Jobs.Worker.{JobEvent}
use file_forge.Contract.{get_field}
use file_forge.Contract.Events.{
  encode_event, encode_result, encoded_result, string_items, parse-encode,
}
use file_forge.Frontend.Watch.{
  in_state, outputs_from, strings_of, array_strings, Watch, is_settled, Occurrence, job_given,
  message, connection_error, same_job, on_event, on_message, step, run,
}

strings_of-string_items : (ts : List Text) → strings_of (string_items ts) ≡ ts
unfolding strings_of string_items
strings_of-string_items [] = refl
strings_of-string_items (t ∷ ts) = ap (λ r. t ∷ r) (strings_of-string_items ts)

abbrev pub outputs_or_nil : Option ProcessorResult → List Text
outputs_or_nil none = []
outputs_or_nil (some r) = r.outputs

outputs_from-encoded :
    (o : Option ProcessorResult) → outputs_from (encoded_result o) ≡ outputs_or_nil o
unfolding outputs_from array_strings encode_result get_field text_eq
outputs_from-encoded none = refl
outputs_from-encoded (some r) = strings_of-string_items r.outputs

-- The page as it stands after an event.
abbrev pub showing : JobEvent → Watch → Watch
showing e w = record {
  job_id = w.job_id;
  is_open = not (is_settled e.state);
  shown = record {
    state = in_state e.state;
    progress = e.progress;
    outputs = outputs_or_nil e.result;
    error = e.error;
  };
}

-- An event that the worker publishes, with a progress of at most 100, is shown as it is by a page
-- whose connection is open: its state, its progress, the outputs of its result and its error; and
-- the connection stays open unless the event is the job's last.
pub published_event_shown :
    (e : JobEvent) (w : Watch)
    → w.is_open ≡ true
    → e.progress ≤ 100
    → step (message (some (encode_event e))) w ≡ showing e w
unfolding step on_message on_event
published_event_shown e w o fits =
    rw o (rw ((parse-encode e).0 fits) (rw (outputs_from-encoded e.result) refl))

-- The hook is called with no other job.
abbrev pub KeepsJob : Option Text → Occurrence → Type 0
KeepsJob j (job_given k) = k ≡ j
KeepsJob j (message m) = Unit
KeepsJob j (connection_error closed) = Unit

same_job_self : (j : Option Text) → same_job j j ≡ true
same_job_self none = refl
same_job_self (some j) = text_eq_self j

closed_same : (o : Occurrence) (w : Watch) → w.is_open ≡ false → KeepsJob w.job_id o → step o w ≡ w
unfolding step
closed_same (job_given k) w c keeps = rw keeps (rw (same_job_self w.job_id) refl)
closed_same (message m) w c keeps = rw c refl
closed_same (connection_error closed) w c keeps = rw c refl

closed_stays :
    (os : List Occurrence) (w : Watch)
    → w.is_open ≡ false
    → All (KeepsJob w.job_id) os
    → run os w ≡ w
unfolding run
closed_stays [] w c keeps = refl
closed_stays (o ∷ os) w c (k, keeps) = rw (closed_same o w c k) (closed_stays os w c keeps)

-- Once a page with an open connection has shown that its job is completed or has failed, it shows
-- just that, whatever messages and errors come, as long as it is given no other job.
pub settled_stays :
    (e : JobEvent) (w : Watch) (os : List Occurrence)
    → w.is_open ≡ true
    → e.progress ≤ 100
    → is_settled e.state ≡ true
    → All (KeepsJob w.job_id) os
    → run (message (some (encode_event e)) ∷ os) w ≡ showing e w
unfolding run
settled_stays e w os o fits last keeps =
    rw (published_event_shown e w o fits) (closed_stays os (showing e w) (rw last refl) keeps)
