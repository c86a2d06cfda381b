-- ===== src/Contract/Status.antt =====
-- JobStatusSchema and CreateJobResponseSchema, and the bodies that jobs/routes.ts answers.
pub mod Read
mod Tests
use file_forge.Base.{
  ℕ, ◌≡◌, refl, Bool, true, false, Option, none, some, List, [], ◌∷◌, if◌then◌else◌,
}
use file_forge.Base.Text.{Text, codes, text_eq, has}
use file_forge.Jobs.{Operation, ProcessorResult, Detail, JobPayload}
use file_forge.Jobs.Routes.{JobView}
use file_forge.Contract.{
  Json, Items, Fields, null, number, string, array, object, no_items, item, no_fields, field,
  get_field, ◌>>=◌, as_object, as_string, as_number, operation_text, operation_of,
}
use file_forge.Contract.Events.{string_items, encode_result}
use file_forge.Contract.Requests.{optional_object, operation_of-operation_text}

-- JobStateSchema
pub data JobState : Type 0 where
  queued processing retrying completed failed : JobState

unfoldable pub state_of : Text → Option JobState
state_of t =
    if text_eq t (codes "queued")
    then some queued
    else if text_eq t (codes "processing")
    then some processing
    else if text_eq t (codes "retrying")
    then some retrying
    else if text_eq t (codes "completed")
    then some completed
    else if text_eq t (codes "failed")
    then some failed
    else none

pub record JobResult : Type 0 where
  pub outputs : List Text
  pub details : Option Fields

-- `z.array(z.string())`
parse_strings : Items → Option (List Text)
parse_strings no_items = some []
parse_strings (item (string t) items) = do ts ← parse_strings items; some (t ∷ ts)
parse_strings _ = none

optional_strings : Option Json → Option (List Text)
unfolding parse_strings
optional_strings (some (array items)) = parse_strings items
optional_strings _ = none

-- JobResultSchema
parse_result : Json → Option JobResult
unfolding optional_strings
parse_result json = do
  r ← as_object json
  outputs ← optional_strings (get_field (codes "outputs") r)
  details ← optional_object (get_field (codes "details") r)
  some (record { outputs = outputs; details = details })

-- `.nullish()`
nullish_result : Option Json → Option (Option JobResult)
unfolding parse_result
nullish_result none = some none
nullish_result (some null) = some none
nullish_result (some json) = do r ← parse_result json; some (some r)

nullish_string : Option Json → Option (Option Text)
nullish_string none = some none
nullish_string (some null) = some none
nullish_string (some (string t)) = some (some t)
nullish_string _ = none

-- `z.number().optional()`
optional_number : Option Json → Option (Option ℕ)
optional_number none = some none
optional_number (some (number n)) = some (some n)
optional_number _ = none

pub record JobStatus : Type 0 where
  pub id : Text
  pub state : JobState
  pub progress : ℕ
  pub operation : Operation
  pub file_id : Text
  pub attempts : Option ℕ
  pub result : Option JobResult
  pub error : Option Text

-- JobStatusSchema.parse
unfoldable pub parse_status : Json → Option JobStatus
unfolding nullish_result nullish_string optional_number
parse_status json = do
  r ← as_object json
  id ← as_string (get_field (codes "id") r)
  told ← as_string (get_field (codes "state") r)
  state ← state_of told
  progress ← as_number (get_field (codes "progress") r)
  named ← as_string (get_field (codes "operation") r)
  operation ← operation_of named
  file_id ← as_string (get_field (codes "fileId") r)
  attempts ← optional_number (get_field (codes "attempts") r)
  result ← nullish_result (get_field (codes "result") r)
  error ← nullish_string (get_field (codes "error") r)
  some (record {
    id = id;
    state = state;
    progress = progress;
    operation = operation;
    file_id = file_id;
    attempts = attempts;
    result = result;
    error = error;
  })

-- A job that has completed without a value has `null` in its place; a reason that is not there is left
-- out.
result_field : Option (Option ProcessorResult) → Fields → Fields
result_field none r = r
result_field (some none) r = field (codes "result") null r
result_field (some (some x)) r = field (codes "result") (encode_result x) r

error_field : Option (Option Text) → Fields
error_field (some (some t)) = field (codes "error") (string t) no_fields
error_field _ = no_fields

-- The body of a 200 of GET /jobs/:id.
unfoldable pub encode_status : JobView → Json
unfolding result_field error_field
encode_status v = object (
    field (codes "id") (string v.id) (
      field (codes "state") (string v.state) (
        field (codes "progress") (number v.progress) (
          field (codes "operation") (string (operation_text v.operation)) (
            field (codes "fileId") (string v.file_id) (
              field (codes "attempts") (number v.attempts)
                (result_field v.result (error_field v.error))))))))

pub record CreateJobResponse : Type 0 where
  pub id : Text
  pub state : JobState
  pub operation : Operation
  pub file_id : Text

-- CreateJobResponseSchema.parse
unfoldable pub parse_created : Json → Option CreateJobResponse
unfolding state_of
parse_created json = do
  r ← as_object json
  id ← as_string (get_field (codes "id") r)
  told ← as_string (get_field (codes "state") r)
  state ← state_of told
  named ← as_string (get_field (codes "operation") r)
  operation ← operation_of named
  file_id ← as_string (get_field (codes "fileId") r)
  some (record { id = id; state = state; operation = operation; file_id = file_id })

-- The body of a 202 of POST /jobs.
unfoldable pub encode_created : Text → JobPayload → Json
encode_created id p = object (
    field (codes "id") (string id) (
      field (codes "state") (string (codes "queued")) (
        field (codes "operation") (string (operation_text p.operation))
          (field (codes "fileId") (string p.file_id) no_fields))))

pub parse-encode_created :
    (id : Text) (p : JobPayload)
    → parse_created (encode_created id p)
      ≡ some (record { id = id; state = queued; operation = p.operation; file_id = p.file_id })
unfolding parse_created encode_created get_field text_eq
parse-encode_created id p = rw (operation_of-operation_text p.operation) refl
