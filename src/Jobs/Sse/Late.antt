-- ===== src/Jobs/Sse/Late.antt =====
-- What is written after the end of the response.
use file_forge.Base.{◌≤◌, ◌≡◌, ◌≢◌, true, false, List, [], ◌∷◌, arith, length}
use file_forge.Jobs.Sse.{returned, Connection, Occurrence, opened, step, run}

-- Only a handler that has returned can have written late, and at most once.
pub record Punctual (c : Connection) : Type 0 where
  pub waiting : c.phase ≢ returned → c.late_frames ≡ []
  pub once : length c.late_frames ≤ 1
  pub end_closed : c.ended ≡ true → c.closed ≡ true
  pub pending_closed : c.ending ≡ true → c.closed ≡ true
  pub closed_still : c.closed ≡ true → c.timers ≡ false

step-Punctual : (o : Occurrence) (c : Connection) → Punctual c → Punctual (step o c)
unfolding step
step-Punctual o c h = ground arith

run-Punctual : (os : List Occurrence) (c : Connection) → Punctual c → Punctual (run os c)
unfolding run
run-Punctual [] c h = h
run-Punctual (o ∷ os) c h = run-Punctual os (step o c) (step-Punctual o c h)

-- In any course of events at most one frame is written after the end of the response, and none
-- before the handler has returned; only a closed connection is ended, and its timers are stopped.
pub opened-Punctual : (os : List Occurrence) → Punctual (run os opened)
unfolding opened
opened-Punctual os = run-Punctual os opened (ground arith)
