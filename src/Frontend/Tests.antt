-- ===== src/Frontend/Tests.antt =====
-- The page at concrete occurrences.
use file_forge.Base.{◌≡◌, refl, true, none, some, List, [], ◌∷◌, arith}
use file_forge.Base.Text.{codes}
use file_forge.Jobs.{csv_transform}
use file_forge.Jobs.Worker.{JobEvent, completed}
use file_forge.Contract.Events.{encode_event}
use file_forge.Frontend.Watch
use file_forge.Frontend.Watch.{
  Watch, Occurrence, job_given, message, connection_error, step, run, is_settled,
}
use file_forge.Frontend.Watch.Settled.{showing, published_event_shown, settled_stays}
use file_forge.Frontend.Watch.Invariant.{IsSound, run-IsSound}

abbrev watching : Watch
watching = record { job_id = some (codes "7"); is_open = true; shown = Watch.queued_progress }

abbrev last_event : JobEvent
last_event = record {
  job_id = codes "7";
  state = completed;
  progress = 100;
  operation = csv_transform;
  result = some (record { outputs = codes "outputs/a.csv" ∷ []; details = [] });
  error = none;
}

published_event_shown_example :
    step (message (some (encode_event last_event))) watching ≡ showing last_event watching
published_event_shown_example = published_event_shown last_event watching refl (omega arith)

abbrev trouble : List Occurrence
trouble = connection_error true ∷ message none ∷ job_given (some (codes "7")) ∷ []

settled_stays_example :
    run (message (some (encode_event last_event)) ∷ trouble) watching ≡ showing last_event watching
unfolding is_settled
settled_stays_example =
    settled_stays last_event watching trouble refl (omega arith) refl (tt, (tt, (refl, tt)))

run-IsSound_example : IsSound (run (job_given (some (codes "7")) ∷ trouble) Watch.at_start)
run-IsSound_example = run-IsSound (job_given (some (codes "7")) ∷ trouble)
