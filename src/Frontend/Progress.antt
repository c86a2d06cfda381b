-- ===== src/Frontend/Progress.antt =====
-- frontend/src/components/ProgressCard.tsx: what is shown of a job's progress.
pub mod Seen
mod Tests
use file_forge.Base.{ℕ, Bool, true, false, Option, none, some, List, [], ◌∷◌, ◌++◌}
use file_forge.Base.Text.{Text, codes}
use file_forge.Base.Decimal.{decimal}
use file_forge.Jobs.Worker.{EventState, queued, processing, completed, failed}
use file_forge.Frontend.Watch.{ShownState, idle, in_state, JobProgress}

-- STATE_LABELS
pub state_label : EventState → Text
state_label queued = codes "Queued"
state_label processing = codes "Processing"
state_label completed = codes "Done"
state_label failed = codes "Failed"

-- What is rendered: the heading, the classes and the width of the bar in percent, and the line below it,
-- if any.
pub record Card : Type 0 where
  pub heading : Text
  pub fill_classes : Text
  pub width : ℕ
  pub line : Option Text

pub fill_classes : EventState → Text
fill_classes completed = codes "bar__fill bar__fill--done"
fill_classes failed = codes "bar__fill bar__fill--failed"
fill_classes _ = codes "bar__fill"

pub width_of : EventState → ℕ → ℕ
width_of failed progress = 100
width_of _ progress = progress

pub line_of : EventState → JobProgress → Option Text
line_of completed p = none
line_of failed p = p.error
line_of _ p = some (decimal p.progress ++ (b'%' ∷ []))

pub card_in : EventState → JobProgress → Card
unfolding state_label fill_classes width_of line_of
card_in s p = record {
  heading = state_label s;
  fill_classes = fill_classes s;
  width = width_of s p.progress;
  line = line_of s p;
}

-- ProgressCard renders nothing without a job.
pub card_for : ShownState → JobProgress → Option Card
unfolding card_in
card_for idle p = none
card_for (in_state s) p = some (card_in s p)

-- ProgressCard
pub progress_card : JobProgress → Option Card
unfolding card_for
progress_card p = card_for p.state p
