-- ===== src/Jobs/Worker/Life.antt =====
-- A job's life over its attempts, as a watcher is told it.
use file_forge.Base.{
  ℕ, zero, suc, ◌+◌, ◌≤◌, ◌<◌, ◌≡◌, refl, ◌∙◌, Bool, true, false, ◌||◌, Option, none, some, List,
  [], ◌∷◌, ◌++◌, map, arith, leb, if◌then◌else◌, Bool-cases, inl, inr,
}
use file_forge.Jobs.{
  JobError, is_unrecoverable, is_permanent_failure, Outcome, done, threw, retry_policy,
  ProcessorResult,
}
use file_forge.Jobs.Policy.{NotUnrecoverable, retry_policy_lem}
use file_forge.Jobs.Worker.{
  EventState, processing, completed, failed, JobEvent, Job, attempts_or_one, event, is_last_attempt,
  settle, attempt, logs_abandoned, is_missing_file,
}

-- When the queue stops trying a job whose attempt threw `e`.
abbrev pub GivesUp : Type 0
GivesUp = JobError → Job → Bool

-- BullMQ's documented rule: at an UnrecoverableError, and when no attempt is left.
abbrev pub Documented : GivesUp → Type 0
Documented gives_up =
    (e : JobError) (job : Job)
    → gives_up e job
      ≡ (is_unrecoverable e || leb (attempts_or_one job.attempts) (job.attempts_made + 1))

abbrev pub next_attempt : Job → Job
next_attempt job = record job { attempts_made = job.attempts_made + 1 }

-- The states published while a job is tried, `outcomes` being what each attempt comes to, and at
-- most `rounds` attempts being made.
told_with : GivesUp → Job → Outcome → List EventState → List EventState
told_with gives_up job o rest =
    let states = map (λ (e : JobEvent). e.state) (attempt job o).events in
    elim o [ done r ↦ states | threw e ↦ if gives_up e job then states else states ++ rest ]

pub told : GivesUp → (Job → Outcome) → ℕ → Job → List EventState
unfolding told_with
told gives_up outcomes zero job = []
told gives_up outcomes (suc rounds) job =
    told_with gives_up job (outcomes job) (told gives_up outcomes rounds (next_attempt job))

-- Attempts that are announced one by one, and one final word at the end.
pub data Life : List EventState → Type 0 where
  finished : Life (processing ∷ completed ∷ [])
  abandoned : Life (processing ∷ failed ∷ [])
  retried : {later : List EventState} → Life later → Life (processing ∷ later)

attempt_done :
    (job : Job) (r : _)
    → map (λ (e : JobEvent). e.state) (attempt job (done r)).events ≡ processing ∷ completed ∷ []
unfolding attempt settle event
attempt_done job r = refl

abbrev pub event_of : Job → EventState → ℕ → Option ProcessorResult → JobEvent
event_of job state progress result = record {
  job_id = job.id;
  state = state;
  progress = progress;
  operation = job.operation;
  result = result;
  error = none;
}

pub attempt_done_events :
    (job : Job) (r : ProcessorResult)
    → (attempt job (done r)).events
      ≡ event_of job processing 0 none ∷ event_of job completed 100 (some r) ∷ []
unfolding attempt settle event
attempt_done_events job r = refl

pub attempt_final :
    (job : Job) (e : JobError)
    → (is_unrecoverable e || leb (attempts_or_one job.attempts) (job.attempts_made + 1)) ≡ true
    → map (λ (x : JobEvent). x.state) (attempt job (threw e)).events ≡ processing ∷ failed ∷ []
unfolding attempt settle event is_last_attempt
attempt_final job e h = rw h

attempt_again :
    (job : Job) (e : JobError)
    → (is_unrecoverable e || leb (attempts_or_one job.attempts) (job.attempts_made + 1)) ≡ false
    → map (λ (x : JobEvent). x.state) (attempt job (threw e)).events ≡ processing ∷ []
unfolding attempt settle event is_last_attempt
attempt_again job e h = rw h

-- Under BullMQ's rule, whatever the attempts come to, what a watcher of a job is told is a start for
-- each attempt and exactly one final word, at the end: completion, or a failure that no later
-- event contradicts. As many rounds as the job has attempts left are enough.
pub told-Life :
    (gives_up : GivesUp) (outcomes : Job → Outcome) (rounds : ℕ) (job : Job)
    → Documented gives_up
    → attempts_or_one job.attempts ≤ job.attempts_made + rounds
    → 0 < rounds
    → Life (told gives_up outcomes rounds job)
unfolding told
told-Life g f zero job doc enough some_round = absurd (omega arith)
told-Life g f (suc rounds) job doc enough some_round =
    go (told-Life g f rounds (next_attempt job) doc) (f job) refl
  where
    go :
        (attempts_or_one job.attempts ≤ job.attempts_made + 1 + rounds
          → 0 < rounds
          → Life (told g f rounds (next_attempt job)))
        → (o : Outcome) → f job ≡ o
        → Life (told g f (suc rounds) job)
    go ih (done r) e = rw e (rw (attempt_done job r) finished)
    go ih (threw x) e =
        elim (Bool-cases
          (is_unrecoverable x || leb (attempts_or_one job.attempts) (job.attempts_made + 1))) [
            | inl final ↦ rw e (rw (doc x job ∙ final) (rw (attempt_final job x final) abandoned))
            | inr again ↦
                let left : job.attempts_made + 1 < attempts_or_one job.attempts = ground arith in
                rw e (
                  rw (doc x job ∙ again)
                    (rw (attempt_again job x again) (retried (ih (omega arith) (omega arith)))))
          ]

-- Trying a job comes to an end: under BullMQ's rule, whatever the attempts come to, any two numbers
-- of rounds that are at least the attempts left, and at least one, tell a watcher the same.
pub told_ends :
    (gives_up : GivesUp) (outcomes : Job → Outcome) (rounds more : ℕ) (job : Job)
    → Documented gives_up
    → attempts_or_one job.attempts ≤ job.attempts_made + rounds
    → attempts_or_one job.attempts ≤ job.attempts_made + more
    → 0 < rounds
    → 0 < more
    → told gives_up outcomes more job ≡ told gives_up outcomes rounds job
unfolding told
told_ends g f zero more job doc enough plenty some_round another = absurd (omega arith)
told_ends g f (suc rounds) zero job doc enough plenty some_round another = absurd (omega arith)
told_ends g f (suc rounds) (suc more) job doc enough plenty some_round another =
    go (told_ends g f rounds more (next_attempt job) doc) (f job) refl
  where
    go :
        (attempts_or_one job.attempts ≤ job.attempts_made + 1 + rounds
          → attempts_or_one job.attempts ≤ job.attempts_made + 1 + more
          → 0 < rounds
          → 0 < more
          → told g f more (next_attempt job) ≡ told g f rounds (next_attempt job))
        → (o : Outcome) → f job ≡ o
        → told g f (suc more) job ≡ told g f (suc rounds) job
    go ih (done r) e = rw e refl
    go ih (threw x) e =
        elim (Bool-cases
          (is_unrecoverable x || leb (attempts_or_one job.attempts) (job.attempts_made + 1))) [
            | inl final ↦ rw e (rw (doc x job ∙ final) refl)
            | inr again ↦
                let left : job.attempts_made + 1 < attempts_or_one job.attempts = ground arith in
                rw e (
                  rw (doc x job ∙ again)
                    (rw (ih (omega arith) (omega arith) (omega arith) (omega arith)) refl))
          ]

-- A failure that no retry can fix is final at its first attempt, however many the job has left.
pub permanent_once :
    (gives_up : GivesUp) (outcomes : Job → Outcome) (rounds : ℕ) (job : Job) (e : JobError)
    → Documented gives_up
    → NotUnrecoverable e
    → is_permanent_failure e ≡ true
    → outcomes job ≡ retry_policy (threw e)
    → told gives_up outcomes (suc rounds) job ≡ processing ∷ failed ∷ []
unfolding told
permanent_once g f rounds job e doc plain permanent came =
    let (x, policy, kind, _) = retry_policy_lem e plain in
    let final : (is_unrecoverable x || leb (attempts_or_one job.attempts) (job.attempts_made + 1))
        ≡ true =
      rw (kind ∙ permanent) refl in
    rw (came ∙ policy) (rw (doc x job ∙ final) (attempt_final job x final))

never_missing : (e f : JobError) → retry_policy (threw e) ≡ threw f → is_missing_file f ≡ false
unfolding retry_policy is_permanent_failure is_missing_file
never_missing e f came = ground arith

or_false : (b : Bool) → (b || false) ≡ b
or_false true = refl
or_false false = refl

-- The listener's test for a missing file never holds: what it is handed has been through the
-- policy. A failure is logged as abandoned only when all attempts are used up, also one that is
-- final earlier.
pub abandoned_only_exhausted :
    (job : Job) (e f : JobError)
    → retry_policy (threw e) ≡ threw f
    → logs_abandoned (some job) f ≡ leb (attempts_or_one job.attempts) job.attempts_made
unfolding logs_abandoned
abandoned_only_exhausted job e f came = rw (never_missing e f came) (or_false _)
