-- ===== src/Metrics/Status/Tests.antt =====
-- A process of one minute, with two uploads and one job that waits.
use file_forge.Base.{◌≡◌, some, [], ◌∷◌}
use file_forge.Base.Text.{codes, lookup}
use file_forge.Files.Records.{uploads_total}
use file_forge.Metrics.Exposition.{count_of, full_name}
use file_forge.Metrics.Exposition.Scraped.{scrape}
use file_forge.Metrics.Status.{Readings, status, metrics, counter_name, uptime}
use file_forge.Metrics.Status.Agreement.{metrics-status}

abbrev readings : Readings
readings = record {
  counters = (uploads_total, 2) ∷ [];
  queue = some (record { waiting = 1; active = 0; completed = 5; failed = 0; delayed = 3 });
  started_at = 1000;
  now = 61000;
  heap_used = 50000000;
  rss = 90000000;
}

metrics-status_example :
    (lookup (full_name (counter_name uploads_total)) (scrape (metrics readings)) ≡ some 2)
    × (lookup (full_name (codes "process_uptime_seconds")) (scrape (metrics readings)) ≡ some 60)
    × (lookup (full_name (codes "queue_waiting")) (scrape (metrics readings)) ≡ some 1)
    × (lookup (full_name (codes "queue_active")) (scrape (metrics readings)) ≡ some 0)
    × (lookup (full_name (codes "queue_delayed")) (scrape (metrics readings)) ≡ some 3)
unfolding status uptime count_of
metrics-status_example = metrics-status (codes "1.0.0") readings uploads_total
