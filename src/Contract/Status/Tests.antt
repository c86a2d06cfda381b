-- ===== src/Contract/Status/Tests.antt =====
-- The status of a job that waits for its next attempt, and of one in a state that the handler passes on.
use file_forge.Base.{◌≡◌, refl, none, some}
use file_forge.Base.Text.{codes, text_eq}
use file_forge.Jobs.{image_resize}
use file_forge.Jobs.Routes.{BullJob, view_of, public_state, or_itself}
use file_forge.Contract.{get_field}
use file_forge.Contract.Status.{retrying, state_of, parse_status, encode_status}
use file_forge.Contract.Status.Read.{meant, backing_off, status_answer_read}

abbrev job : BullJob
job = record {
  state = codes "delayed";
  progress = some 40;
  operation = image_resize;
  file_id = codes "f";
  attempts_made = 1;
  return_value = none;
  failed_reason = none;
}

status_answer_read_example :
    parse_status (encode_status (view_of (codes "7") job)) ≡ some (meant (codes "7") retrying job)
status_answer_read_example =
    status_answer_read (codes "7") (codes "delayed") retrying job backing_off

-- A state that the handler does not know.
unknown_unread :
    parse_status (encode_status (view_of (codes "7") (record job { state = codes "unknown" })))
    ≡ none
unfolding parse_status encode_status view_of public_state or_itself state_of get_field text_eq
unknown_unread = refl
