-- ===== src/Jobs/Events.antt =====
-- jobs/events.ts: the channel of a job's events, and what a subscription does with a message.
use file_forge.Base.{◌≡◌, Option, none, some, ◌++◌, if◌then◌else◌, arith}
use file_forge.Base.Text.{Text, codes, text_eq, text_eq_iff}
use file_forge.Jobs.Worker.{JobEvent}

unfoldable pub channel_for : Text → Text
channel_for job_id = codes "job-events:" ++ job_id

-- The message handler of subscribeToJob: the event that the watcher is given, if any. `parse` is
-- JSON.parse and the schema; what is no event is skipped.
pub incoming_event : (Text → Option JobEvent) → Text → Text → Text → Option JobEvent
unfolding channel_for
incoming_event parse job_id incoming payload =
    if text_eq incoming (channel_for job_id) then parse payload else none

-- A watcher is given events of its own job's channel only.
incoming_event_channel :
    (parse : Text → Option JobEvent) (job_id incoming payload : Text) {e : JobEvent}
    → incoming_event parse job_id incoming payload ≡ some e
    → incoming ≡ channel_for job_id
unfolding incoming_event
incoming_event_channel parse job_id incoming payload e =
    ground (arith, text_eq_iff incoming (channel_for job_id))
