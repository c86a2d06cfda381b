-- ===== src/Jobs/Sse.antt =====
-- jobs/sse.ts and `subscribeToJob` of jobs/events.ts: one watcher's connection. What happens to it
-- is a sequence of occurrences: the waits of the handler end, messages come, timers fire, the
-- client hangs up. Between two occurrences the code runs without interruption.
mod Cleanup
mod Late
mod Gap
mod Tests
use file_forge.Base.{ℕ, Bool, true, false, List, [], ◌∷◌, ◌++◌, if◌then◌else◌}
use file_forge.Jobs.Worker.{EventState, queued, processing, completed, failed}

-- Where the handler stands: it waits for the subscription, then for the job's state, then it has
-- returned.
pub data Phase : Type 0 where
  subscribing reading returned : Phase

-- BullMQ's states of a job, as far as the handler tells them apart.
pub data BullState : Type 0 where
  is_completed is_failed is_active is_other : BullState

pub data Frame : Type 0 where
  event_frame : EventState → ℕ → Frame
  keepalive_frame : Frame

pub record Connection : Type 0 where
  pub phase : Phase
  pub closed : Bool
  pub has_unsubscribe : Bool  -- the variable `unsubscribe` is set
  pub listening : Bool  -- the message handler is registered with the subscriber
  pub timers : Bool  -- the interval and the timeout are running
  pub ending : Bool  -- the cleanup waits for Redis before it ends the response
  pub ended : Bool
  pub frames : List Frame
  pub late_frames : List Frame  -- written after the end of the response

pub data Occurrence : Type 0 where
  subscribed subscribe_fails unsubscribed client_closes time_runs_out keepalive_due : Occurrence
  state_read : BullState → ℕ → Occurrence
  message : EventState → ℕ → Occurrence

-- The job exists, the headers are out, the timers run, the handler is registered.
pub opened : Connection
opened = record {
  phase = subscribing;
  closed = false;
  has_unsubscribe = false;
  listening = true;
  timers = true;
  ending = false;
  ended = false;
  frames = [];
  late_frames = [];
}

write : Frame → Connection → Connection
write f c =
    if c.ended
    then record c { late_frames = c.late_frames ++ f ∷ [] }
    else record c { frames = c.frames ++ f ∷ [] }

-- The handler is taken off at once; the response ends when Redis has answered.
cleanup : Connection → Connection
cleanup c =
    let shut = record c { closed = true; timers = false } in
    if c.closed
    then c
    else if c.has_unsubscribe
    then record shut { listening = false; ending = true }
    else record shut { ended = true }

is_settled : EventState → Bool
is_settled completed = true
is_settled failed = true
is_settled _ = false

deliver : EventState → ℕ → Connection → Connection
unfolding write cleanup is_settled
deliver state progress c =
    let told = write (event_frame state progress) c in
    if c.closed then c else if is_settled state then cleanup told else told

-- The rest of the handler behind `job.getState()`.
report : BullState → ℕ → Connection → Connection
unfolding write cleanup
report is_completed progress c = cleanup (write (event_frame completed 100) c)
report is_failed progress c = cleanup (write (event_frame failed 0) c)
report is_active progress c = write (event_frame processing progress) c
report is_other progress c = write (event_frame queued progress) c

-- What waits for its moment happens only in the phase in which the handler waits for it.
in_phase : Phase → Occurrence → Connection → Connection
unfolding report
in_phase subscribing subscribed c = record c { phase = reading; has_unsubscribe = true }
in_phase subscribing subscribe_fails c = record c { phase = returned }
in_phase reading (state_read s progress) c = report s progress (record c { phase = returned })
in_phase _ _ c = c

pub step : Occurrence → Connection → Connection
unfolding in_phase deliver cleanup write
step client_closes c = cleanup c
step time_runs_out c = if c.timers then cleanup c else c
step keepalive_due c = if c.timers then write keepalive_frame c else c
step (message state progress) c = if c.listening then deliver state progress c else c
step unsubscribed c = if c.ending then record c { ending = false; ended = true } else c
step o c = in_phase c.phase o c

pub run : List Occurrence → Connection → Connection
run [] c = c
run (o ∷ os) c = run os (step o c)
