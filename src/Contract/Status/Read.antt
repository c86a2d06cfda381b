-- ===== src/Contract/Status/Read.antt =====
-- What a client reads of a job's status.
use file_forge.Base.{
  ◌≡◌, refl, ℕ, Option, none, some, List, [], ◌∷◌, All, Option-cases, ◌⊎◌, inl, inr, ◌∙◌,
}
use file_forge.Base.Text.{Text, codes, text_eq, lookup}
use file_forge.Upload.Types.{lookup-All}
use file_forge.Jobs.{ProcessorResult}
use file_forge.Jobs.Routes.{
  BullJob, JobView, view_of, public_state, or_itself, public_names, number_or_zero,
}
use file_forge.Contract.{get_field, ◌>>=◌}
use file_forge.Contract.Events.{string_items, detail_fields, encode_result}
use file_forge.Contract.Requests.{operation_of-operation_text}
use file_forge.Contract.Status.{
  JobState, queued, processing, retrying, completed, failed, state_of, JobResult, JobStatus,
  parse_strings, optional_strings, parse_result, nullish_result, nullish_string, result_field,
  error_field, parse_status, encode_status,
}

parse-string_items : (ts : List Text) → parse_strings (string_items ts) ≡ some ts
unfolding parse_strings string_items
parse-string_items [] = refl
parse-string_items (t ∷ ts) = rw (parse-string_items ts) refl

abbrev pub result_read : Option (Option ProcessorResult) → Option JobResult
result_read (some (some r)) =
    some (record { outputs = r.outputs; details = some (detail_fields r.details) })
result_read _ = none

abbrev pub error_read : Option (Option Text) → Option Text
error_read (some (some t)) = some t
error_read _ = none

abbrev pub status_of : JobView → JobState → JobStatus
status_of v s = record {
  id = v.id;
  state = s;
  progress = v.progress;
  operation = v.operation;
  file_id = v.file_id;
  attempts = some v.attempts;
  result = result_read v.result;
  error = error_read v.error;
}

get_result :
    (o : Option (Option ProcessorResult)) (x : Option (Option Text))
    → nullish_result (get_field (codes "result") (result_field o (error_field x)))
      ≡ some (result_read o)
unfolding get_field result_field error_field nullish_result parse_result optional_strings
    encode_result text_eq
get_result none none = refl
get_result none (some none) = refl
get_result none (some (some t)) = refl
get_result (some none) x = refl
get_result (some (some r)) x = rw (parse-string_items r.outputs) refl

get_error :
    (o : Option (Option ProcessorResult)) (x : Option (Option Text))
    → nullish_string (get_field (codes "error") (result_field o (error_field x)))
      ≡ some (error_read x)
unfolding get_field result_field error_field nullish_string text_eq
get_error none none = refl
get_error none (some none) = refl
get_error none (some (some t)) = refl
get_error (some none) none = refl
get_error (some none) (some none) = refl
get_error (some none) (some (some t)) = refl
get_error (some (some r)) none = refl
get_error (some (some r)) (some none) = refl
get_error (some (some r)) (some (some t)) = refl

pub parse-encode_status :
    (v : JobView)
    → parse_status (encode_status v) ≡ (state_of v.state >>= (λ s. some (status_of v s)))
unfolding parse_status encode_status get_field text_eq
parse-encode_status v = elim (Option-cases (state_of v.state)) [
  | inl e ↦ rw e refl
  | inr (s, e) ↦
      rw (e, operation_of-operation_text v.operation)
        (rw (get_result v.result v.error, get_error v.result v.error) refl)
]

abbrev IsWord : Text → Type 0
IsWord t = (s : JobState) × (state_of t ≡ some s)

names_words : All (λ p. IsWord p.1) public_names
unfolding state_of text_eq
names_words =
    ((_, refl), ((_, refl), ((_, refl), ((_, refl), ((_, refl), ((_, refl), ((_, refl), tt)))))))

abbrev IsRead : Text → BullJob → Type 0
IsRead id job =
    (s : JobState) × (state_of (public_state job.state) ≡ some s)
    × (parse_status (encode_status (view_of id job)) ≡ some (status_of (view_of id job) s))

IsRead-in_word :
    (id : Text) (job : BullJob) (s : JobState)
    → state_of (public_state job.state) ≡ some s
    → IsRead id job
unfolding view_of
IsRead-in_word id job s e = (s, e, parse-encode_status (view_of id job) ∙ rw e refl)

-- Either the state is read in a word of the contract, or the handler does not know the queue's state, which
-- is no word of the contract either, and the whole answer cannot be read.
pub status_answer_cases :
    (id : Text) (job : BullJob)
    → ((s : JobState) × (state_of (public_state job.state) ≡ some s)
        × (parse_status (encode_status (view_of id job)) ≡ some (status_of (view_of id job) s)))
      ⊎ ((lookup job.state public_names ≡ none)
          × (state_of job.state ≡ none)
          × (parse_status (encode_status (view_of id job)) ≡ none))
unfolding view_of public_state or_itself
status_answer_cases id job = elim (Option-cases (lookup job.state public_names)) [
  | inr (name, known) ↦
      let word : IsWord name = lookup-All IsWord job.state public_names names_words known in
      inl (IsRead-in_word id job word.0 (rw known word.1))
  | inl unknown ↦ elim (Option-cases (state_of job.state)) [
    | inr (s, word) ↦ inl (IsRead-in_word id job s (rw unknown word))
    | inl no_word ↦
        inr (unknown, no_word, parse-encode_status (view_of id job) ∙ rw (unknown, no_word) refl)
  ]
]

-- The state that a client is to see for one of BullMQ's states.
pub data Means : Text → JobState → Type 0 where
  done : Means (codes "completed") completed
  lost : Means (codes "failed") failed
  working : Means (codes "active") processing
  backing_off : Means (codes "delayed") retrying
  waits : Means (codes "waiting") queued
  waits_for_children : Means (codes "waiting-children") queued
  waits_by_priority : Means (codes "prioritized") queued

abbrev pub progress_of : Option ℕ → ℕ
progress_of none = 0
progress_of (some n) = n

-- Results belong to a completed job, the reason of a failure to one that has failed.
abbrev pub result_of : JobState → Option ProcessorResult → Option JobResult
result_of completed (some r) =
    some (record { outputs = r.outputs; details = some (detail_fields r.details) })
result_of _ _ = none

abbrev pub error_of : JobState → Option Text → Option Text
error_of failed reason = reason
error_of _ _ = none

abbrev pub meant : Text → JobState → BullJob → JobStatus
meant id s job = record {
  id = id;
  state = s;
  progress = progress_of job.progress;
  operation = job.operation;
  file_id = job.file_id;
  attempts = some job.attempts_made;
  result = result_of s job.return_value;
  error = error_of s job.failed_reason;
}

result_meant : (o : Option ProcessorResult) → result_read (some o) ≡ result_of completed o
result_meant none = refl
result_meant (some r) = refl

error_meant : (o : Option Text) → error_read (some o) ≡ o
error_meant none = refl
error_meant (some t) = refl

progress_meant : (n : Option ℕ) → number_or_zero n ≡ progress_of n
unfolding number_or_zero
progress_meant none = refl
progress_meant (some n) = refl

-- What GET /jobs/:id answers, a client reads as it is meant, in every state that the handler knows of: the
-- state in the word for it, the progress or 0, the attempts, the outputs and details if and only if the job
-- has completed with a result, and the reason if and only if it has failed with one.
pub status_answer_read :
    (id state : Text) (s : JobState) (job : BullJob)
    → Means state s
    → parse_status (encode_status (view_of id (record job { state = state })))
      ≡ some (meant id s job)
unfolding view_of public_state or_itself state_of text_eq
status_answer_read id _ _ job done =
    parse-encode_status (view_of id (record job { state = codes "completed" }))
    ∙ rw (progress_meant job.progress, result_meant job.return_value) refl
status_answer_read id _ _ job lost =
    parse-encode_status (view_of id (record job { state = codes "failed" }))
    ∙ rw (progress_meant job.progress, error_meant job.failed_reason) refl
status_answer_read id _ _ job working =
    parse-encode_status (view_of id (record job { state = codes "active" }))
    ∙ rw (progress_meant job.progress) refl
status_answer_read id _ _ job backing_off =
    parse-encode_status (view_of id (record job { state = codes "delayed" }))
    ∙ rw (progress_meant job.progress) refl
status_answer_read id _ _ job waits =
    parse-encode_status (view_of id (record job { state = codes "waiting" }))
    ∙ rw (progress_meant job.progress) refl
status_answer_read id _ _ job waits_for_children =
    parse-encode_status (view_of id (record job { state = codes "waiting-children" }))
    ∙ rw (progress_meant job.progress) refl
status_answer_read id _ _ job waits_by_priority =
    parse-encode_status (view_of id (record job { state = codes "prioritized" }))
    ∙ rw (progress_meant job.progress) refl
