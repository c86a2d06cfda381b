-- ===== src/Jobs/Sse/Gap.antt =====
-- A watcher's connection beside the worker that completes the job, and beside the other watchers, which
-- share its subscription (jobs/events.ts): one that comes subscribes again, and one that leaves takes the
-- subscription away from all. The worker publishes the last event
-- first, from within the processor's function (jobs/worker.ts), and the queue has the job as completed
-- only after that function has returned.
mod Kept
mod Missed
mod Told
mod Tests
use file_forge.Base.{
  Bool, true, false, ◌||◌, ◌≡◌, ◌≢◌, ◌⊎◌, inl, inr, refl, ℕ, List, [], ◌∷◌, ◌++◌, All, any, arith,
  if◌then◌else◌,
}
use file_forge.Base.Runs.{Runs, next, Runs-keep}
use file_forge.Jobs.Worker.{queued, processing, completed, failed}
use file_forge.Jobs.Sse
use file_forge.Jobs.Sse.{
  subscribing, reading, returned, is_completed, is_failed, is_active, is_other, Frame, event_frame,
  keepalive_frame, Connection, subscribed, unsubscribed, client_closes, time_runs_out,
  keepalive_due, state_read, message, opened, subscribe_fails, in_phase, deliver, report, cleanup,
  write, is_settled,
}

pub record Course : Type 0 where
  pub subscription : Bool  -- the process is subscribed to the job's channel
  pub taken : Bool  -- Redis has taken the request of this watcher
  pub published : Bool  -- the worker has published the completion
  pub in_flight : Bool  -- Redis has sent it to the process, where it has not arrived
  pub settled : Bool  -- the queue has the job as completed
  pub connection : Connection

pub data Occurrence : Type 0 where
  takes_effect confirmed publishes arrives settles reads : Occurrence
  shared cut : Occurrence  -- another watcher of the job comes, or leaves
  elsewhere : Sse.Occurrence → Occurrence  -- the timers, the client and the end of a cleanup

unfoldable pub on_connection : Sse.Occurrence → Course → Course
on_connection o c = record c { connection = Sse.step o c.connection }

-- Redis sends an event to a process that is subscribed when it is published.
unfoldable pub on_published : Course → Course
on_published c = record c { published = true; in_flight = c.subscription }

unfoldable pub on_arrived : Course → Course
unfolding on_connection
on_arrived c = record (on_connection (message completed 100) c) { in_flight = false }

-- What the handler reads of the job, its progress included.
unfoldable pub on_read : ℕ → Course → Course
unfolding on_connection
on_read progress c =
    if c.settled
    then on_connection (state_read is_completed progress) c
    else on_connection (state_read is_active progress) c

-- What else may come to a connection: whatever is neither the course of the handler nor the last event.
abbrev pub IsOther : Sse.Occurrence → Type 0
IsOther subscribed = ⊥
IsOther (state_read s progress) = ⊥
IsOther (message processing progress) = Unit
IsOther (message _ progress) = ⊥
IsOther _ = Unit

pub data Step : Occurrence → Course → Course → Type 0 where
  take_effect :
      (c : Course)
      → c.connection.phase ≡ subscribing
      → Step takes_effect c (record c { subscription = true; taken = true })
  confirm : (c : Course) → c.taken ≡ true → Step confirmed c (on_connection subscribed c)
  publish : (c : Course) → c.published ≡ false → Step publishes c (on_published c)
  arrive : (c : Course) → c.in_flight ≡ true → Step arrives c (on_arrived c)
  share : (c : Course) → Step shared c (record c { subscription = true })
  cut_off : (c : Course) → Step cut c (record c { subscription = false })
  settle : (c : Course) → c.published ≡ true → Step settles c (record c { settled = true })
  read : (c : Course) (progress : ℕ) → Step reads c (on_read progress c)
  happen : (c : Course) (o : Sse.Occurrence) → IsOther o → Step (elsewhere o) c (on_connection o c)

unfoldable pub is_final : Frame → Bool
unfolding is_settled
is_final (event_frame state progress) = is_settled state
is_final keepalive_frame = false

-- Whether the watcher has been told that the job is over.
unfoldable pub told : Course → Bool
unfolding is_final
told c = any is_final c.connection.frames

-- The subscription does not fail, the client stays, and the connection's time does not run out.
abbrev pub StaysConnected : Occurrence → Type 0
StaysConnected (elsewhere subscribe_fails) = ⊥
StaysConnected (elsewhere client_closes) = ⊥
StaysConnected (elsewhere time_runs_out) = ⊥
StaysConnected _ = Unit

-- Nor does another watcher leave.
abbrev pub StaysSubscribed : Occurrence → Type 0
StaysSubscribed cut = ⊥
StaysSubscribed (elsewhere subscribe_fails) = ⊥
StaysSubscribed (elsewhere client_closes) = ⊥
StaysSubscribed (elsewhere time_runs_out) = ⊥
StaysSubscribed _ = Unit

unfoldable pub begun : Course
begun = record {
  subscription = false;
  taken = false;
  published = false;
  in_flight = false;
  settled = false;
  connection = opened;
}
