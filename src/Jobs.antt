-- ===== src/Jobs.antt =====
-- jobs/errors.ts, jobs/processors.ts, jobs/queue.ts and the job contract of shared/contract.ts: the
-- operations, the failures and the policy on retries.
pub mod Policy
pub mod Worker
pub mod Context
pub mod Options
pub mod Images
pub mod Registry
pub mod Sample
pub mod Kinds
pub mod Events
pub mod Progress
pub mod Sse
pub mod Subscriber
pub mod Routes
use Prim.Native.String.{String}
use file_forge.Base.{
  ◌≡◌, ap, ℕ, ◌+◌, ◌≤◌, Bool, true, false, Option, none, some, List, [], ◌∷◌, ◌++◌, leb,
  if◌then◌else◌, ◌||◌,
}
use file_forge.Base.Text.{Text, codes, text_eq}

pub data Operation : Type 0 where
  image_resize image_convert image_thumbnail csv_validate csv_transform : Operation

pub data Kind : Type 0 where
  image csv : Kind

-- OPERATIONS_BY_KIND
unfoldable pub operations_by_kind : Kind → List Operation
operations_by_kind image = image_resize ∷ image_convert ∷ image_thumbnail ∷ []
operations_by_kind csv = csv_validate ∷ csv_transform ∷ []

-- What an operation throws, with its message. `other` is any error of no class of this program.
pub data JobError : Type 0 where
  missing_file invalid_image invalid_options invalid_csv unrecoverable other : Text → JobError

pub is_permanent_failure : JobError → Bool
is_permanent_failure (missing_file m) = true
is_permanent_failure (invalid_image m) = true
is_permanent_failure (invalid_csv m) = true
is_permanent_failure (invalid_options m) = true
is_permanent_failure (unrecoverable m) = false
is_permanent_failure (other m) = false

-- `error instanceof UnrecoverableError`
abbrev pub is_unrecoverable : JobError → Bool
is_unrecoverable (unrecoverable m) = true
is_unrecoverable _ = false

pub message_of : JobError → Text
message_of (missing_file m) = m
message_of (invalid_image m) = m
message_of (invalid_options m) = m
message_of (invalid_csv m) = m
message_of (unrecoverable m) = m
message_of (other m) = m

-- A value in a result's details; `undefined` for one that JSON leaves out.
pub data Detail : Type 0 where
  number : ℕ → Detail
  text : Text → Detail
  texts : List Text → Detail
  undefined : Detail

pub record ProcessorResult : Type 0 where
  pub outputs : List Text
  pub details : List (Text × Detail)

pub data Outcome : Type 0 where
  done : ProcessorResult → Outcome
  threw : JobError → Outcome

-- A payload as the schema reads it, `none` for one that it refuses. The value of an option is kept as
-- its JSON text.
pub record JobPayload : Type 0 where
  pub file_id : Text
  pub operation : Operation
  pub options : List (Text × Text)

-- The registry: one processor for each operation, over the state that the processors share.
pub record Processors (World : Type 0) : Type 0 where
  pub resize_image : JobPayload → World → Outcome × World
  pub convert_image : JobPayload → World → Outcome × World
  pub thumbnail_image : JobPayload → World → Outcome × World
  pub validate_csv : JobPayload → World → Outcome × World
  pub transform_csv : JobPayload → World → Outcome × World

module _ {World : Type 0} (ps : Processors World) where
  processor_for : Operation → JobPayload → World → Outcome × World
  processor_for image_resize = ps.resize_image
  processor_for image_convert = ps.convert_image
  processor_for image_thumbnail = ps.thumbnail_image
  processor_for csv_validate = ps.validate_csv
  processor_for csv_transform = ps.transform_csv

  pub run_job : Option JobPayload → World → Outcome × World
  unfolding processor_for
  run_job none w = (threw (other (codes "Malformed job payload")), w)
  run_job (some p) w = processor_for p.operation p w

pub retry_policy : Outcome → Outcome
unfolding message_of is_permanent_failure
retry_policy (done r) = done r
retry_policy (threw e) =
    if is_permanent_failure e then threw (unrecoverable (message_of e)) else threw e

module _ {World : Type 0} (ps : Processors World) where
  pub run_job_with_retry_policy : Option JobPayload → World → Outcome × World
  unfolding run_job retry_policy
  run_job_with_retry_policy p w = let (out, w') = run_job ps p w in (retry_policy out, w')

module _ {World : Type 0} (ps : Processors World) where
  -- A payload runs one of the five processors.
  pub run_job_some :
      (p : JobPayload) (w : World) (P : Outcome × World → Type 0)
      → P (ps.resize_image p w)
      → P (ps.convert_image p w)
      → P (ps.thumbnail_image p w)
      → P (ps.validate_csv p w)
      → P (ps.transform_csv p w)
      → P (run_job ps (some p) w)
  unfolding run_job
  run_job_some p w P a b c d e = one p.operation
    where
      one : (o : Operation) → P (processor_for ps o p w)
      one image_resize = a
      one image_convert = b
      one image_thumbnail = c
      one csv_validate = d
      one csv_transform = e

  pub run_job_with_retry_policy_lem :
      (p : Option JobPayload) (w : World) (out : Outcome) (w' : World)
      → run_job ps p w ≡ (out, w')
      → run_job_with_retry_policy ps p w ≡ (retry_policy out, w')
  unfolding run_job_with_retry_policy
  run_job_with_retry_policy_lem p w out w' e =
      ap (λ (x : Outcome × World). (retry_policy x.0, x.1)) e

-- The constructors of the error classes put the reason behind a fixed text.
pub new_missing_file : Text → JobError
new_missing_file file_id = missing_file (codes "No stored file with id " ++ file_id)

pub new_invalid_image : Text → JobError
new_invalid_image reason = invalid_image (codes "Not a readable image: " ++ reason)

pub new_invalid_csv : Text → JobError
new_invalid_csv reason = invalid_csv (codes "Not readable as CSV: " ++ reason)

-- The `catch` round the row pipeline of both CSV processors, where opening the source, parsing,
-- the row transform and writing the output end up alike.
pub wrap_csv : JobError → JobError
unfolding message_of new_invalid_csv
wrap_csv (invalid_csv m) = invalid_csv m
wrap_csv e = new_invalid_csv (message_of e)
