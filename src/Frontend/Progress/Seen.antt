-- ===== src/Frontend/Progress/Seen.antt =====
-- What a watcher sees of a job, whatever comes over the connection.
use file_forge.Base.{
  ◌≤◌, ◌≡◌, refl, ap, Bool, true, false, Option, none, some, List, [], ◌∷◌, arith, if◌then◌else◌,
  inl, inr, Option-cases, Bool-cases,
}
use mathlib.Core.Path.{subst}
use file_forge.Base.Text.{Text}
use file_forge.Jobs.Worker.{EventState, queued, processing, completed, failed}
use file_forge.Contract.{Json}
use file_forge.Contract.Events.{parse_event, parse_event-AtMost}
use file_forge.Frontend.Watch.{
  ShownState, lost, idle, in_state, JobProgress, Watch, at_start, Occurrence, job_given, message,
  connection_error, same_job, started, on_event, on_message, on_error, step, run, shown_settled,
  is_settled,
}
use file_forge.Frontend.Progress.{Card, width_of, line_of, card_in, card_for, progress_card}

abbrev AtMost : JobProgress → Type 0
AtMost p = p.progress ≤ 100

-- The messages that the schema reads keep the bound, and nothing else sets the progress.
on_message-AtMost : (m : Option Json) (w : Watch) → AtMost w.shown → AtMost (on_message m w).shown
unfolding on_message on_event
on_message-AtMost none w h = h
on_message-AtMost (some json) w h = elim (Option-cases (parse_event json)) [
  | inl unread ↦ rw (unread, on_event) h
  | inr (e, read) ↦ rw (read, on_event) (parse_event-AtMost json e read)
]

on_error-AtMost : (closed : Bool) (w : Watch) → AtMost w.shown → AtMost (on_error closed w).shown
unfolding on_error
on_error-AtMost false w h = h
on_error-AtMost true w h = elim (Bool-cases (shown_settled w.shown.state)) [
  | inl yes_it_is ↦ rw yes_it_is h
  | inr no_it_is_not ↦ rw no_it_is_not h
]

started-AtMost : (j : Option Text) → AtMost (started j).shown
unfolding started
started-AtMost none = omega arith
started-AtMost (some j) = omega arith

if-AtMost :
    (b : Bool) (v w : Watch) → AtMost v.shown → AtMost w.shown → AtMost (if b then v else w).shown
if-AtMost true v w h k = h
if-AtMost false v w h k = k

step-AtMost : (o : Occurrence) (w : Watch) → AtMost w.shown → AtMost (step o w).shown
unfolding step
step-AtMost (job_given j) w h = if-AtMost (same_job j w.job_id) w (started j) h (started-AtMost j)
step-AtMost (message m) w h = if-AtMost w.is_open (on_message m w) w (on_message-AtMost m w h) h
step-AtMost (connection_error closed) w h =
    if-AtMost w.is_open (on_error closed w) w (on_error-AtMost closed w h) h

run-AtMost : (os : List Occurrence) (w : Watch) → AtMost w.shown → AtMost (run os w).shown
unfolding run
run-AtMost [] w h = h
run-AtMost (o ∷ os) w h = run-AtMost os (step o w) (step-AtMost o w h)

card_in-width : (s : EventState) (p : JobProgress) → AtMost p → (card_in s p).width ≤ 100
unfolding card_in width_of
card_in-width failed p h = omega arith
card_in-width queued p h = h
card_in-width processing p h = h
card_in-width completed p h = h

card_for-width :
    (c : Card) (s : ShownState) (p : JobProgress) → AtMost p → card_for s p ≡ some c → c.width ≤ 100
unfolding card_for
card_for-width c idle p h shown = cc
card_for-width c (in_state s) p h shown =
    let same : card_in s p ≡ c = cc in
    subst (λ (d : Card). d.width ≤ 100) same (card_in-width s p h)

-- The bar never runs over: whatever jobs are given and whatever messages and errors come, from the start
-- on the card that is rendered has a width of at most 100 percent.
pub bar_fits :
    (os : List Occurrence) (c : Card)
    → progress_card (run os at_start).shown ≡ some c
    → c.width ≤ 100
unfolding progress_card
bar_fits os c shown =
    card_for-width c (run os at_start).shown.state (run os at_start).shown
      (run-AtMost os at_start (omega arith)) shown

same_card :
    (s : EventState) (x : Option Text) (p : JobProgress)
    → is_settled s ≡ false
    → card_in s (record p { error = x }) ≡ card_in s p
unfolding card_in line_of is_settled
same_card queued x p e = refl
same_card processing x p e = refl
same_card completed x p e = cc
same_card failed x p e = cc

error_unseen :
    (s : ShownState) (x : Option Text) (p : JobProgress)
    → shown_settled s ≡ false
    → card_for s (record p { error = x }) ≡ card_for s p
unfolding card_for shown_settled
error_unseen idle x p unsettled = refl
error_unseen (in_state s) x p unsettled = ap some (same_card s x p unsettled)

-- A connection that is lost for a job that is still under way changes nothing that is seen: the error
-- that the hook then has is rendered for failed jobs only.
pub lost_connection_unseen :
    (w : Watch)
    → shown_settled w.shown.state ≡ false
    → progress_card (step (connection_error true) w).shown ≡ progress_card w.shown
unfolding step on_error progress_card
lost_connection_unseen w unsettled = elim (Bool-cases w.is_open) [
  | inr shut ↦ rw shut refl
  | inl open_still ↦
      rw (open_still, unsettled) (error_unseen w.shown.state (some lost) w.shown unsettled)
]
