-- ===== src/Contract/Events.antt =====
-- JobEventSchema, and the events of jobs/worker.ts as publishJobEvent writes them.
use mathlib.Core.Path.{subst}
use file_forge.Base.{
  ℕ, ◌≤◌, ◌<◌, ◌≡◌, refl, ap, true, false, Option, none, some, List, [], ◌∷◌, leb, arith,
  if◌then◌else◌,
}
use file_forge.Base.Text.{Text, codes, text_eq}
use file_forge.Jobs
use file_forge.Jobs.{Operation, ProcessorResult, Detail}
use file_forge.Jobs.Worker.{EventState, queued, processing, completed, failed, JobEvent}
use file_forge.Contract.{
  Json, Items, Fields, number, string, array, object, no_items, item, no_fields, field, get_field,
  ◌>>=◌, as_object, as_string, as_number, optional_string, operation_text,
}

-- What the schema reads, the result as it came.
pub record Event : Type 0 where
  pub job_id : Text
  pub state : EventState
  pub progress : ℕ
  pub operation : Option Text
  pub result : Option Json
  pub error : Option Text

unfoldable pub state_text : EventState → Text
state_text queued = codes "queued"
state_text processing = codes "processing"
state_text completed = codes "completed"
state_text failed = codes "failed"

-- The schema's `state`.
state_of : Text → Option EventState
unfolding state_text
state_of t =
    if text_eq t (state_text queued)
    then some queued
    else if text_eq t (state_text processing)
    then some processing
    else if text_eq t (state_text completed)
    then some completed
    else if text_eq t (state_text failed)
    then some failed
    else none

-- `.min(0).max(100)`
percentage : ℕ → Option ℕ
percentage n = if leb n 100 then some n else none

-- JobEventSchema.safeParse
unfoldable pub parse_event : Json → Option Event
unfolding state_of percentage
parse_event json = do
  r ← as_object json
  job_id ← as_string (get_field (codes "jobId") r)
  named ← as_string (get_field (codes "state") r)
  state ← state_of named
  number_read ← as_number (get_field (codes "progress") r)
  progress ← percentage number_read
  operation ← optional_string (get_field (codes "operation") r)
  error ← optional_string (get_field (codes "error") r)
  some (record {
    job_id = job_id;
    state = state;
    progress = progress;
    operation = operation;
    result = get_field (codes "result") r;
    error = error;
  })

unfoldable pub string_items : List Text → Items
string_items [] = no_items
string_items (t ∷ ts) = item (string t) (string_items ts)

-- JSON leaves out what is undefined.
detail_field : Text → Detail → Fields → Fields
unfolding string_items
detail_field k (Jobs.number n) r = field k (number n) r
detail_field k (Jobs.text t) r = field k (string t) r
detail_field k (Jobs.texts ts) r = field k (array (string_items ts)) r
detail_field k Jobs.undefined r = r

unfoldable pub detail_fields : List (Text × Detail) → Fields
unfolding detail_field
detail_fields [] = no_fields
detail_fields ((k, d) ∷ m) = detail_field k d (detail_fields m)

unfoldable pub encode_result : ProcessorResult → Json
unfolding string_items detail_fields
encode_result r = object (
    field (codes "outputs") (array (string_items r.outputs))
      (field (codes "details") (object (detail_fields r.details)) no_fields))

result_field : Option ProcessorResult → Fields → Fields
unfolding encode_result
result_field none r = r
result_field (some x) r = field (codes "result") (encode_result x) r

error_field : Option Text → Fields
error_field none = no_fields
error_field (some t) = field (codes "error") (string t) no_fields

-- The event as it comes out of `JSON.stringify` and `JSON.parse`.
unfoldable pub encode_event : JobEvent → Json
unfolding operation_text state_text result_field error_field
encode_event e = object (
    field (codes "jobId") (string e.job_id) (
      field (codes "state") (string (state_text e.state)) (
        field (codes "progress") (number e.progress) (
          field (codes "operation") (string (operation_text e.operation))
            (result_field e.result (error_field e.error))))))

abbrev pub encoded_result : Option ProcessorResult → Option Json
encoded_result none = none
encoded_result (some r) = some (encode_result r)

abbrev pub event_read : JobEvent → Event
event_read e = record {
  job_id = e.job_id;
  state = e.state;
  progress = e.progress;
  operation = some (operation_text e.operation);
  result = encoded_result e.result;
  error = e.error;
}

state_of-state_text : (s : EventState) → state_of (state_text s) ≡ some s
unfolding state_of state_text text_eq
state_of-state_text queued = refl
state_of-state_text processing = refl
state_of-state_text completed = refl
state_of-state_text failed = refl

get_result :
    (o : Option ProcessorResult) (x : Option Text)
    → get_field (codes "result") (result_field o (error_field x)) ≡ encoded_result o
unfolding get_field result_field error_field text_eq
get_result none none = refl
get_result none (some t) = refl
get_result (some r) x = refl

get_error :
    (o : Option ProcessorResult) (x : Option Text)
    → optional_string (get_field (codes "error") (result_field o (error_field x))) ≡ some x
unfolding get_field result_field error_field text_eq
get_error none none = refl
get_error none (some t) = refl
get_error (some r) none = refl
get_error (some r) (some t) = refl

module _ (id : Text) (s : EventState) (n : ℕ) (o : Operation) (r : Option ProcessorResult)
    (x : Option Text) where
  abbrev e : JobEvent
  e = record { job_id = id; state = s; progress = n; operation = o; result = r; error = x }

  parse_fitting : leb n 100 ≡ true → parse_event (encode_event e) ≡ some (event_read e)
  unfolding parse_event encode_event get_field percentage text_eq
  parse_fitting fits =
      rw (state_of-state_text s) (rw fits (rw (get_error r x) (rw (get_result r x) refl)))

  parse_excess : leb n 100 ≡ false → parse_event (encode_event e) ≡ none
  unfolding parse_event encode_event get_field percentage text_eq
  parse_excess excess = rw (state_of-state_text s) (rw excess refl)

-- An event of the worker comes through the schema as it was sent, if its progress is at most 100,
-- and not at all otherwise.
pub parse-encode :
    (e : JobEvent)
    → (e.progress ≤ 100 → parse_event (encode_event e) ≡ some (event_read e))
      × (100 < e.progress → parse_event (encode_event e) ≡ none)
parse-encode e = (
  λ h. parse_fitting e.job_id e.state e.progress e.operation e.result e.error (ground arith),
  λ h. parse_excess e.job_id e.state e.progress e.operation e.result e.error (ground arith),
)

-- A reading that succeeds has succeeded at each of its steps.
bind-some :
    {A B : Type 0} (o : Option A) (f : A → Option B) (b : B)
    → (o >>= f) ≡ some b
    → (a : A) × (o ≡ some a) × (f a ≡ some b)
bind-some none f b h = cc
bind-some (some a) f b h = (a, refl, h)

progress_or_zero : Option Event → ℕ
progress_or_zero none = 0
progress_or_zero (some read) = read.progress

percentage-AtMost : (n m : ℕ) → percentage n ≡ some m → m ≤ 100
unfolding percentage
percentage-AtMost n m h = ground arith

-- The schema lets no percentage above 100 pass.
pub parse_event-AtMost :
    (json : Json) (read : Event) → parse_event json ≡ some read → read.progress ≤ 100
unfolding parse_event progress_or_zero
parse_event-AtMost json read h =
    let (r, _, h1) = bind-some (as_object json) _ read h in
    let (id, _, h2) = bind-some (as_string (get_field (codes "jobId") r)) _ read h1 in
    let (named, _, h3) = bind-some (as_string (get_field (codes "state") r)) _ read h2 in
    let (s, _, h4) = bind-some (state_of named) _ read h3 in
    let (n, _, h5) = bind-some (as_number (get_field (codes "progress") r)) _ read h4 in
    let (m, fits, h6) = bind-some (percentage n) _ read h5 in
    let (o, _, h7) = bind-some (optional_string (get_field (codes "operation") r)) _ read h6 in
    let (x, _, h8) = bind-some (optional_string (get_field (codes "error") r)) _ read h7 in
    subst (λ k. k ≤ 100) (ap progress_or_zero h8) (percentage-AtMost n m fits)
