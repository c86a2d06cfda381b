-- ===== src/Frontend/Progress/Tests.antt =====
-- The card of a job that has failed.
use file_forge.Base.{◌≤◌, refl, none, some, [], ◌∷◌, List}
use file_forge.Base.Text.{codes, text_eq}
use file_forge.Jobs.{image_resize}
use file_forge.Jobs.Worker.{JobEvent, failed}
use file_forge.Contract.{get_field}
use file_forge.Contract.Events.{encode_event, parse_event}
use file_forge.Frontend.Watch.{
  Occurrence, job_given, message, step, run, started, on_message, on_event,
}
use file_forge.Frontend.Progress.{
  Card, progress_card, card_for, card_in, width_of, line_of, fill_classes, state_label,
}
use file_forge.Frontend.Progress.Seen.{bar_fits}

abbrev failed_event : JobEvent
failed_event = record {
  job_id = codes "7";
  state = failed;
  progress = 0;
  operation = image_resize;
  result = none;
  error = some (codes "no file");
}

abbrev failing : List Occurrence
failing = job_given (some (codes "7")) ∷ message (some (encode_event failed_event)) ∷ []

abbrev red : Card
red = record {
  heading = codes "Failed";
  fill_classes = codes "bar__fill bar__fill--failed";
  width = 100;
  line = some (codes "no file");
}

bar_fits_example : red.width ≤ 100
unfolding progress_card card_for card_in width_of line_of fill_classes state_label run step started
    on_message on_event parse_event encode_event get_field text_eq
bar_fits_example = bar_fits failing red refl
