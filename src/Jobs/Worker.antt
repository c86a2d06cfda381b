-- ===== src/Jobs/Worker.antt =====
-- jobs/worker.ts: what the worker does with one attempt at a job, and the listener for failures.
-- Publishing and counting are best effort; what is listed is what is attempted.
pub mod Life
mod Tests
use file_forge.Base.{
  ℕ, ◌+◌, Bool, true, false, ◌||◌, Option, none, some, List, [], ◌∷◌, ◌++◌, leb, if◌then◌else◌,
}
use file_forge.Base.Text.{Text}
use file_forge.Jobs.{
  Operation, JobError, missing_file, is_unrecoverable, message_of, ProcessorResult, Outcome, done,
  threw,
}

-- The states that a watcher is told.
pub data EventState : Type 0 where
  queued processing completed failed : EventState

pub record JobEvent : Type 0 where
  pub job_id : Text
  pub state : EventState
  pub progress : ℕ
  pub operation : Operation
  pub result : Option ProcessorResult
  pub error : Option Text

pub data Counter : Type 0 where
  jobs_completed_total jobs_failed_total : Counter

-- The job as BullMQ hands it over, before the attempt.
pub record Job : Type 0 where
  pub id : Text
  pub operation : Operation
  pub attempts_made : ℕ
  pub attempts : Option ℕ  -- job.opts.attempts

pub record Attempt : Type 0 where
  pub events : List JobEvent
  pub counters : List Counter
  pub outcome : Outcome

abbrev pub attempts_or_one : Option ℕ → ℕ
attempts_or_one none = 1
attempts_or_one (some n) = n

event : Job → EventState → ℕ → JobEvent
event job state progress = record {
  job_id = job.id;
  state = state;
  progress = progress;
  operation = job.operation;
  result = none;
  error = none;
}

is_last_attempt : Job → Bool
is_last_attempt job = leb (attempts_or_one job.attempts) (job.attempts_made + 1)

-- The body of the worker's function, on what `runJobWithRetryPolicy` came to.
settle : Job → Outcome → Attempt
unfolding event is_last_attempt message_of
settle job (done r) = record {
  events = record (event job completed 100) { result = some r } ∷ [];
  counters = jobs_completed_total ∷ [];
  outcome = done r;
}
settle job (threw e) =
    let silent : Attempt = record { events = []; counters = []; outcome = threw e } in
    if is_unrecoverable e || is_last_attempt job
    then record silent {
      events = record (event job failed 0) { error = some (message_of e) } ∷ [];
      counters = jobs_failed_total ∷ [];
    }
    else silent

pub attempt : Job → Outcome → Attempt
unfolding settle
attempt job out = let a = settle job out in record a { events = event job processing 0 ∷ a.events }

is_missing_file : JobError → Bool
is_missing_file (missing_file m) = true
is_missing_file _ = false

-- `worker.on('failed')`: whether the failure is logged as abandoned, with the attempts made so far,
-- this one included.
pub logs_abandoned : Option Job → JobError → Bool
unfolding is_missing_file
logs_abandoned none e = true
logs_abandoned (some job) e =
    leb (attempts_or_one job.attempts) job.attempts_made || is_missing_file e
