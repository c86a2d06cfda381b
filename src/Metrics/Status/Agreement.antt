-- ===== src/Metrics/Status/Agreement.antt =====
-- The two endpoints tell the same.
use file_forge.Base.{ℕ, ◌≡◌, refl, Option, none, some, List}
use file_forge.Base.Text.{Text, codes, text_eq, lookup}
use file_forge.Files.Records.{
  Counter, uploads_total, jobs_queued_total, jobs_completed_total, jobs_failed_total,
  bytes_uploaded_total, files_cleaned_total,
}
use file_forge.Metrics.{QueueDepth}
use file_forge.Metrics.Exposition.{samples, count_of, queue_samples, full_name}
use file_forge.Metrics.Exposition.Scraped.{scrape, read_samples, scrape-metrics_text}
use file_forge.Metrics.Status.{Readings, uptime, status, metrics, counter_name}

-- The queue's numbers are there if its depth could be read.
abbrev pub of_queue : (QueueDepth → ℕ) → Option QueueDepth → Option ℕ
of_queue f none = none
of_queue f (some q) = some (f q)

module _ (counters : List (Counter × ℕ)) (heap up : ℕ) where
  abbrev found : Option QueueDepth → Text → Option ℕ
  found queue name = lookup (full_name name) (read_samples (samples counters queue heap up))

  counter_found :
      (queue : Option QueueDepth) (c : Counter)
      → found queue (counter_name c) ≡ some (count_of c counters)
  unfolding samples read_samples full_name counter_name text_eq
  counter_found queue uploads_total = refl
  counter_found queue jobs_queued_total = refl
  counter_found queue jobs_completed_total = refl
  counter_found queue jobs_failed_total = refl
  counter_found queue bytes_uploaded_total = refl
  counter_found queue files_cleaned_total = refl

  uptime_found :
      (queue : Option QueueDepth) → found queue (codes "process_uptime_seconds") ≡ some up
  unfolding samples queue_samples read_samples full_name text_eq
  uptime_found none = refl
  uptime_found (some q) = refl

  queue_found :
      (queue : Option QueueDepth)
      → (found queue (codes "queue_waiting") ≡ of_queue (λ q. q.waiting) queue)
        × (found queue (codes "queue_active") ≡ of_queue (λ q. q.active) queue)
        × (found queue (codes "queue_delayed") ≡ of_queue (λ q. q.delayed) queue)
  unfolding samples queue_samples read_samples full_name text_eq
  queue_found none = (refl, refl, refl)
  queue_found (some q) = (refl, refl, refl)

-- Both endpoints tell the same of what is read: a scraper that reads the text of GET /metrics finds under
-- every counter's name the total that GET /status shows, the uptime that it shows, and of the queue the
-- jobs that wait, are worked on and are delayed, or none of these where the status has no depth.
pub metrics-status :
    (version : Text) (r : Readings) (c : Counter)
    → let shown = status version r in
      let told : Text → Option ℕ = λ name. lookup (full_name name) (scrape (metrics r)) in
      (told (counter_name c) ≡ some (count_of c shown.totals))
      × (told (codes "process_uptime_seconds") ≡ some shown.uptime_seconds)
      × (told (codes "queue_waiting") ≡ of_queue (λ q. q.waiting) shown.queue)
      × (told (codes "queue_active") ≡ of_queue (λ q. q.active) shown.queue)
      × (told (codes "queue_delayed") ≡ of_queue (λ q. q.delayed) shown.queue)
unfolding status metrics
metrics-status version r c =
    let (waiting, active, delayed) = queue_found r.counters r.heap_used (uptime r) r.queue in
    rw (scrape-metrics_text r.counters r.queue r.heap_used (uptime r)) (
      counter_found r.counters r.heap_used (uptime r) r.queue c,
      uptime_found r.counters r.heap_used (uptime r) r.queue,
      waiting,
      active,
      delayed,
    )
