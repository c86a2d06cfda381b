-- ===== src/Contract/Requests.antt =====
-- CreateJobRequestSchema, which jobs/routes.ts restates as CreateJobSchema, and JobPayloadSchema of
-- jobs/queue.ts: the body of POST /jobs and what is put on the queue.
use file_forge.Base.{◌≡◌, ◌≢◌, refl, Option, none, some, List, [], ◌∷◌}
use file_forge.Base.Text.{Text, codes, text_eq}
use file_forge.Jobs.{
  Operation, image_resize, image_convert, image_thumbnail, csv_validate, csv_transform, JobPayload,
}
use file_forge.Contract.{
  Json, Fields, string, object, no_fields, field, get_field, ◌>>=◌, as_object, as_string,
  operation_text, operation_of,
}

pub record CreateJobRequest : Type 0 where
  pub file_id : Text
  pub operation : Operation
  pub options : Option Fields

-- `z.record(z.string(), z.unknown()).optional()`
abbrev pub optional_object : Option Json → Option (Option Fields)
optional_object none = some none
optional_object (some (object r)) = some (some r)
optional_object _ = none

-- `.min(1)`
non_empty : Text → Option Text
non_empty [] = none
non_empty (c ∷ t) = some (c ∷ t)

-- CreateJobSchema.safeParse
unfoldable pub parse_request : Json → Option CreateJobRequest
unfolding non_empty
parse_request json = do
  r ← as_object json
  given ← as_string (get_field (codes "fileId") r)
  file_id ← non_empty given
  named ← as_string (get_field (codes "operation") r)
  operation ← operation_of named
  options ← optional_object (get_field (codes "options") r)
  some (record { file_id = file_id; operation = operation; options = options })

-- The body that the page posts.
unfoldable pub encode_request : Text → Operation → Fields → Json
encode_request file_id operation options = object (
    field (codes "fileId") (string file_id) (
      field (codes "operation") (string (operation_text operation))
        (field (codes "options") (object options) no_fields)))

-- The options as texts of JSON, each by `stringify`.
unfoldable pub option_texts : (Json → Text) → Fields → List (Text × Text)
option_texts stringify no_fields = []
option_texts stringify (field k v r) = (k, stringify v) ∷ option_texts stringify r

-- `parsed.data.options ?? {}`
options_or_empty : Option Fields → Fields
options_or_empty none = no_fields
options_or_empty (some r) = r

-- What the handler adds to the queue.
unfoldable pub payload_of : (Json → Text) → CreateJobRequest → JobPayload
unfolding options_or_empty
payload_of stringify q = record {
  file_id = q.file_id;
  operation = q.operation;
  options = option_texts stringify (options_or_empty q.options);
}

unfoldable pub parse_body : (Json → Text) → Json → Option JobPayload
parse_body stringify json = do q ← parse_request json; some (payload_of stringify q)

pub operation_of-operation_text : (o : Operation) → operation_of (operation_text o) ≡ some o
unfolding operation_of operation_text text_eq
operation_of-operation_text image_resize = refl
operation_of-operation_text image_convert = refl
operation_of-operation_text image_thumbnail = refl
operation_of-operation_text csv_validate = refl
operation_of-operation_text csv_transform = refl

-- What the page posts is added to the queue as it was meant.
pub parse-encode_request :
    (stringify : Json → Text) (file_id : Text) (o : Operation) (options : Fields)
    → file_id ≢ []
    → parse_body stringify (encode_request file_id o options)
      ≡ some (record { file_id = file_id; operation = o; options = option_texts stringify options })
unfolding parse_body parse_request encode_request payload_of options_or_empty non_empty get_field
    text_eq
parse-encode_request stringify [] o options named = absurd (named refl)
parse-encode_request stringify (c ∷ id) o options named = rw (operation_of-operation_text o) refl

-- The data of the job that is added.
unfoldable pub encode_data : CreateJobRequest → Json
unfolding options_or_empty
encode_data q = object (
    field (codes "fileId") (string q.file_id) (
      field (codes "operation") (string (operation_text q.operation))
        (field (codes "options") (object (options_or_empty q.options)) no_fields)))

-- JobPayloadSchema.safeParse, as the worker applies it to a job's data.
unfoldable pub parse_payload : (Json → Text) → Json → Option JobPayload
unfolding options_or_empty
parse_payload stringify json = do
  r ← as_object json
  file_id ← as_string (get_field (codes "fileId") r)
  named ← as_string (get_field (codes "operation") r)
  operation ← operation_of named
  options ← optional_object (get_field (codes "options") r)
  some (record {
    file_id = file_id;
    operation = operation;
    options = option_texts stringify (options_or_empty options);
  })

-- The worker reads from a job's data what the handler has added.
pub parse-encode_data :
    (stringify : Json → Text) (q : CreateJobRequest)
    → parse_payload stringify (encode_data q) ≡ some (payload_of stringify q)
unfolding parse_payload encode_data payload_of options_or_empty get_field text_eq
parse-encode_data stringify q = rw (operation_of-operation_text q.operation) refl
