-- ===== src/Metrics/Exposition.antt =====
-- metrics.ts: the text of GET /metrics.
pub mod Scraped
use file_forge.Base.{
  ℕ, ◌≡◌, ◌≢◌, refl, ap, ◌∙◌, Bool, true, false, Option, none, some, List, [], ◌∷◌, ◌++◌, ◌==◌, map,
  if◌then◌else◌, arith, All, All-append, Bool-cases, inl, inr,
}
use mathlib.Core.List.{append_assoc}
use file_forge.Base.Text.{Text, codes, joined_lines}
use file_forge.Base.Decimal.{decimal, value, value-decimal, decimal-IsDigit}
use file_forge.Base.Split.{Lacks, Lacks-of_digits}
use file_forge.Files.Records.{
  Counter, uploads_total, jobs_queued_total, jobs_completed_total, jobs_failed_total,
  bytes_uploaded_total, files_cleaned_total,
}
use file_forge.Metrics.{QueueDepth, read_counters}

-- One call of `counter` or `gauge`.
pub record Sample : Type 0 where
  pub name : Text
  pub kind : Text
  pub help : Text
  pub amount : ℕ

abbrev counter : Text → Text → ℕ → Sample
counter name help n = record { name = name; kind = codes "counter"; help = help; amount = n }

abbrev gauge : Text → Text → ℕ → Sample
gauge name help n = record { name = name; kind = codes "gauge"; help = help; amount = n }

-- `counters.name`
abbrev pub same_counter : Counter → Counter → Bool
same_counter uploads_total uploads_total = true
same_counter jobs_queued_total jobs_queued_total = true
same_counter jobs_completed_total jobs_completed_total = true
same_counter jobs_failed_total jobs_failed_total = true
same_counter bytes_uploaded_total bytes_uploaded_total = true
same_counter files_cleaned_total files_cleaned_total = true
same_counter _ _ = false

unfoldable pub count_of : Counter → List (Counter × ℕ) → ℕ
count_of c [] = 0
count_of c ((d, n) ∷ counters) = if same_counter c d then n else count_of c counters

unfoldable pub queue_samples : Option QueueDepth → List Sample
queue_samples none = []
queue_samples (some q) =
    gauge (codes "queue_waiting") (codes "Jobs waiting to be picked up") q.waiting
    ∷ gauge (codes "queue_active") (codes "Jobs currently being processed") q.active
    ∷ gauge (codes "queue_delayed") (codes "Jobs waiting for a retry") q.delayed
    ∷ []

-- The calls, in their order.
unfoldable pub samples : List (Counter × ℕ) → Option QueueDepth → ℕ → ℕ → List Sample
unfolding count_of queue_samples
samples counters queue heap uptime =
    counter (codes "uploads_total") (codes "Files accepted for processing")
      (count_of uploads_total counters)
    ∷ counter (codes "jobs_queued_total") (codes "Jobs added to the queue")
        (count_of jobs_queued_total counters)
    ∷ counter (codes "jobs_completed_total") (codes "Jobs that finished successfully")
        (count_of jobs_completed_total counters)
    ∷ counter (codes "jobs_failed_total") (codes "Jobs that failed for good")
        (count_of jobs_failed_total counters)
    ∷ counter (codes "bytes_uploaded_total") (codes "Total bytes accepted")
        (count_of bytes_uploaded_total counters)
    ∷ counter (codes "files_cleaned_total") (codes "Files removed by the cleanup job")
        (count_of files_cleaned_total counters)
    ∷ (queue_samples queue
        ++ (gauge (codes "process_heap_bytes") (codes "Heap in use by this process") heap
            ∷ gauge (codes "process_uptime_seconds") (codes "Seconds since this process started")
                uptime
            ∷ []))

unfoldable pub full_name : Text → Text
full_name name = codes "file_forge_" ++ name

-- What is pushed for a call.
lines_of : Sample → List Text
unfolding full_name
lines_of s =
    (codes "# HELP " ++ (full_name s.name ++ (b' ' ∷ s.help)))
    ∷ (codes "# TYPE " ++ (full_name s.name ++ (b' ' ∷ s.kind)))
    ∷ (full_name s.name ++ (b' ' ∷ decimal s.amount))
    ∷ []

all_lines : List Sample → List Text
unfolding lines_of
all_lines [] = []
all_lines (s ∷ ss) = lines_of s ++ all_lines ss

-- GET /metrics
pub metrics_text : List (Counter × ℕ) → Option QueueDepth → ℕ → ℕ → Text
unfolding samples all_lines joined_lines
metrics_text counters queue heap uptime =
    joined_lines (all_lines (samples counters queue heap uptime)) ++ (b'\n' ∷ [])
