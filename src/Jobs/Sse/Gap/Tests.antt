-- ===== src/Jobs/Sse/Gap/Tests.antt =====
-- A watcher that comes too late for the event and too early for the state, and one that is in time.
use file_forge.Base.{true, false, ◌≡◌, refl}
use file_forge.Base.Runs.{next, done}
use file_forge.Jobs.Sse
use file_forge.Jobs.Sse.{opened, subscribed, in_phase, report, write, keepalive_due}
use file_forge.Jobs.Sse.Gap.{
  Course, take_effect, confirm, publish, settle, read, happen, on_connection, on_published, on_read,
  told, begun,
}
use file_forge.Jobs.Sse.Gap.Missed.{late_watcher_untold}

abbrev waited : Course
waited = on_connection keepalive_due begun

abbrev out_first : Course
out_first = on_published waited

abbrev taken : Course
taken = record out_first { subscription = true; taken = true }

abbrev answered : Course
answered = on_read 40 (on_connection subscribed taken)

abbrev over : Course
over = record answered { settled = true }

late_watcher_untold_example : (told over ≡ false) × (over.connection.closed ≡ false)
unfolding begun opened on_published on_connection on_read Sse.step in_phase report write
late_watcher_untold_example =
    late_watcher_untold _ _ _ waited out_first answered over
      (next (happen begun keepalive_due tt) (done waited)) (tt, tt) refl (publish waited refl)
      (next (take_effect out_first refl) (
        next (confirm taken refl)
          (next (read (on_connection subscribed taken) 40) (done answered))))
      (tt, (tt, (tt, tt))) refl refl (next (settle answered refl) (done over)) (tt, tt)

abbrev in_time : Course
in_time = on_connection subscribed (record begun { subscription = true; taken = true })

abbrev sent : Course
sent = on_published in_time
