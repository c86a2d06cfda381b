-- ===== src/Metrics/Status.antt =====
-- metrics.ts: GET /status and GET /metrics, over what both read.
pub mod Agreement
mod Tests
use file_forge.Base.{ℕ, ◌+◌, ◌-◌, ◌*◌, ◌/◌, Option, List}
use file_forge.Base.Text.{Text, codes}
use file_forge.Files.Records.{
  Counter, uploads_total, jobs_queued_total, jobs_completed_total, jobs_failed_total,
  bytes_uploaded_total, files_cleaned_total,
}
use file_forge.Metrics.{QueueDepth}
use file_forge.Metrics.Exposition.{metrics_text}

-- What a request finds: the counters and the depth of the queue as they are read, and the process.
pub record Readings : Type 0 where
  pub counters : List (Counter × ℕ)
  pub queue : Option QueueDepth
  pub started_at : ℕ
  pub now : ℕ
  pub heap_used : ℕ
  pub rss : ℕ

-- The body of GET /status; a queue that is `none` is shown as unavailable, and the memory is in tenths of
-- a megabyte.
pub record StatusReply : Type 0 where
  pub service : Text
  pub version : Text
  pub uptime_seconds : ℕ
  pub queue : Option QueueDepth
  pub totals : List (Counter × ℕ)
  pub heap_used_tenths : ℕ
  pub rss_tenths : ℕ

uptime : Readings → ℕ
uptime r = (r.now - r.started_at) / 1000

-- `Math.round((bytes / 1024 / 1024) * 10)`
tenths_of_mb : ℕ → ℕ
tenths_of_mb bytes = (10 * bytes + 524288) / 1048576

-- GET /status
pub status : Text → Readings → StatusReply
unfolding uptime tenths_of_mb
status version r = record {
  service = codes "file-forge";
  version = version;
  uptime_seconds = uptime r;
  queue = r.queue;
  totals = r.counters;
  heap_used_tenths = tenths_of_mb r.heap_used;
  rss_tenths = tenths_of_mb r.rss;
}

-- GET /metrics
pub metrics : Readings → Text
unfolding uptime
metrics r = metrics_text r.counters r.queue r.heap_used (uptime r)

-- The name of a counter as it stands in CounterName.
pub counter_name : Counter → Text
counter_name uploads_total = codes "uploads_total"
counter_name jobs_queued_total = codes "jobs_queued_total"
counter_name jobs_completed_total = codes "jobs_completed_total"
counter_name jobs_failed_total = codes "jobs_failed_total"
counter_name bytes_uploaded_total = codes "bytes_uploaded_total"
counter_name files_cleaned_total = codes "files_cleaned_total"
