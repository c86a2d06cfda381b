-- ===== src/Shutdown/Worker.antt =====
-- jobs/worker.ts: the shutdown of the worker's process. What it waits for may be settled at any time, in
-- any order with signals, timers and the passing of time, which is counted in milliseconds.
pub mod Orderly
pub mod Timely
mod Tests
use file_forge.Base.{
  ℕ, zero, suc, ◌+◌, ◌<◌, ◌≤◌, ◌≡◌, refl, Bool, true, false, Option, none, some, List, [], ◌∷◌,
  ◌++◌, get_elem?, All, ◌⊎◌, ◌&&◌, if◌then◌else◌,
}
use file_forge.Base.Runs.{put}

-- What is closed, and in which order.
pub data Resource : Type 0 where
  job_worker maintenance_worker maintenance_queue connection : Resource

abbrev pub closing_order : List Resource
closing_order = job_worker ∷ maintenance_worker ∷ maintenance_queue ∷ connection ∷ []

-- SHUTDOWN_TIMEOUT_MS
abbrev pub shutdown_timeout_ms : ℕ
shutdown_timeout_ms = 30000

-- A call of `shutdown`: when it began, what it is waiting for and what it is to close after that.
pub record Closing : Type 0 where
  pub started : ℕ
  pub awaited : List Resource

-- What the log of closed resources names.
abbrev pub IsIn : Resource → List Resource → Type 0
IsIn r [] = ⊥
IsIn r (s ∷ closed) = (r ≡ s) ⊎ IsIn r closed

-- The process, its shutdowns in the order of their signals.
pub record Process : Type 0 where
  pub now : ℕ
  pub closings : List Closing
  pub closed : List Resource
  pub exit_code : Option ℕ

pub running_at : ℕ → Process
running_at now = record { now = now; closings = []; closed = []; exit_code = none }

exit : ℕ → Process → Process
exit code p = record p { exit_code = some code }

-- `main`, on whether the storage directory could be made and the sweep be scheduled, the first of which
-- is awaited first: a failure is caught behind it.
pub main : ℕ → Bool → Bool → Process
unfolding exit running_at
main now made scheduled = if made && scheduled then running_at now else exit 1 (running_at now)

-- SIGTERM or SIGINT: the timer is set, and the first `close` is called.
pub on_signal : Process → Process
on_signal p = record p {
  closings = p.closings ++ (record { started = p.now; awaited = closing_order } ∷ []);
}

-- What a shutdown does when the promise it awaits is resolved, or rejected.
resumed : ℕ → Closing → List Resource → Bool → Process → Process
unfolding exit
resumed i c [] ok p = p
resumed i c (r ∷ rest) false p = exit 1 p
resumed i c (r ∷ []) true p = exit 0 (record p { closed = r ∷ p.closed })
resumed i c (r ∷ s ∷ rest) true p = record p {
  closed = r ∷ p.closed;
  closings = put i (record c { awaited = s ∷ rest }) p.closings;
}

pub on_settled : ℕ → Bool → Process → Process
unfolding resumed
on_settled i ok p = elim (get_elem? p.closings i) [ none ↦ p | some c ↦ resumed i c c.awaited ok p ]

-- The timer of a shutdown.
pub on_timeout : Process → Process
unfolding exit
on_timeout p = exit 1 p

pub data Occurrence : Type 0 where
  signalled : Occurrence
  settled : ℕ → Bool → Occurrence
  timed_out : ℕ → Occurrence
  passed : Occurrence

abbrev pub due_at : Closing → ℕ
due_at c = c.started + shutdown_timeout_ms

-- What may happen to a process that has not exited. A timer fires when it is due or later.
pub data Step : Occurrence → Process → Process → Type 0 where
  signal : (p : Process) → p.exit_code ≡ none → Step signalled p (on_signal p)
  settle :
      (p : Process) (i : ℕ) (ok : Bool)
      → p.exit_code ≡ none
      → Step (settled i ok) p (on_settled i ok p)
  time_out :
      (p : Process) (i : ℕ) (c : Closing)
      → p.exit_code ≡ none
      → get_elem? p.closings i ≡ some c
      → due_at c ≤ p.now
      → Step (timed_out i) p (on_timeout p)
  pass : (p : Process) → p.exit_code ≡ none → Step passed p (record p { now = p.now + 1 })
