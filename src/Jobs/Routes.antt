-- ===== src/Jobs/Routes.antt =====
-- jobs/routes.ts: asking for a job, and asking how it is going. The queue, the file records and the
-- counters are a parameter; a handler that throws ends in the application's error handler.
mod States
mod Accepted
use file_forge.Base.{ℕ, Bool, true, false, Option, none, some, List, [], ◌∷◌, if◌then◌else◌}
use file_forge.Base.Text.{Text, codes, text_eq, lookup}
use file_forge.Jobs.{Operation, JobPayload, ProcessorResult}

-- The cases of `publicState`.
abbrev pub public_names : List (Text × Text)
public_names =
    (codes "completed", codes "completed")
    ∷ (codes "failed", codes "failed")
    ∷ (codes "active", codes "processing")
    ∷ (codes "delayed", codes "retrying")
    ∷ (codes "waiting", codes "queued")
    ∷ (codes "waiting-children", codes "queued")
    ∷ (codes "prioritized", codes "queued")
    ∷ []

unfoldable pub or_itself : Text → Option Text → Text
or_itself state none = state
or_itself state (some name) = name

unfoldable pub public_state : Text → Text
unfolding or_itself
public_state state = or_itself state (lookup state public_names)

-- What the handlers use of their dependencies. `none` in the place of a result is a promise that
-- rejects; `files.get` and `queue.getJob` answer with an option of their own.
pub record BullJob : Type 0 where
  pub state : Text
  pub progress : Option ℕ  -- if it is a number
  pub operation : Operation
  pub file_id : Text
  pub attempts_made : ℕ
  pub return_value : Option ProcessorResult
  pub failed_reason : Option Text

pub record Services : Type 1 where
  pub World : Type 0
  pub file_exists : Text → World → Option Bool
  pub add : JobPayload → World → Option Text × World
  pub count_queued : World → World
  pub get_job : Text → World → Option (Option BullJob)

-- The body of a status answer; a part that is left out is `none`.
pub record JobView : Type 0 where
  pub id : Text
  pub state : Text
  pub progress : ℕ
  pub operation : Operation
  pub file_id : Text
  pub attempts : ℕ
  pub result : Option (Option ProcessorResult)
  pub error : Option (Option Text)

pub data Reply : Type 0 where
  invalid_request file_not_found not_found threw : Reply  -- 422, 404, 404, and the error handler
  accepted : Text → JobPayload → Reply  -- 202
  status : JobView → Reply  -- 200

unfoldable pub number_or_zero : Option ℕ → ℕ
number_or_zero none = 0
number_or_zero (some n) = n

unfoldable pub view_of : Text → BullJob → JobView
unfolding public_state number_or_zero
view_of id job = record {
  id = id;
  state = public_state job.state;
  progress = number_or_zero job.progress;
  operation = job.operation;
  file_id = job.file_id;
  attempts = job.attempts_made;
  result = if text_eq job.state (codes "completed") then some job.return_value else none;
  error = if text_eq job.state (codes "failed") then some job.failed_reason else none;
}

module _ (S : Services) where
  open S use {World, file_exists, add, count_queued, get_job}

  unfoldable pub queued_reply : JobPayload → Option Text × World → Reply × World
  queued_reply p (none, w) = (threw, w)
  queued_reply p (some id, w) = (accepted id p, count_queued w)

  unfoldable pub enqueue : JobPayload → Option Bool → World → Reply × World
  unfolding queued_reply
  enqueue p none w = (threw, w)
  enqueue p (some false) w = (file_not_found, w)
  enqueue p (some true) w = queued_reply p (add p w)

  -- POST /jobs, on the body as the schema reads it.
  unfoldable pub post_job : Option JobPayload → World → Reply × World
  unfolding enqueue
  post_job none w = (invalid_request, w)
  post_job (some p) w = enqueue p (file_exists p.file_id w) w

  status_reply : Text → Option (Option BullJob) → Reply
  unfolding view_of
  status_reply id none = threw
  status_reply id (some none) = not_found
  status_reply id (some (some job)) = status (view_of id job)

  -- GET /jobs/:id
  pub get_status : Text → World → Reply
  unfolding status_reply
  get_status id w = status_reply id (get_job id w)
