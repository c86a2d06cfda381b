-- ===== src/Frontend/Watch/Invariant.antt =====
-- What holds of the hook at any time.
use file_forge.Base.{
  ◌≡◌, ◌≢◌, refl, sym, ap, ◌∙◌, Bool, true, false, not, ◌⊎◌, inl, inr, Option, none, some, List, [],
  ◌∷◌, if◌then◌else◌, Bool-cases,
}
use mathlib.Core.Bool.{false≢true}
use file_forge.Base.Text.{Text}
use file_forge.Contract.{Json}
use file_forge.Contract.Events.{Event, parse_event}
use file_forge.Frontend.Watch.{
  ShownState, idle, in_state, Watch, at_start, is_settled, shown_settled, Occurrence, job_given,
  message, connection_error, same_job, started, on_event, on_message, lost, on_error, step, run,
}

abbrev pub is_idle : ShownState → Bool
is_idle idle = true
is_idle (in_state s) = false

-- Without a job nothing is connected and the progress is idle; with one the progress has some state, and a
-- connection that is closed was closed for a settled job or has left its error.
pub data IsSound : Watch → Type 0 where
  resting : {w : Watch} → w ≡ at_start → IsSound w
  watching :
      {w : Watch} (j : Text)
      → w.job_id ≡ some j
      → is_idle w.shown.state ≡ false
      → (w.is_open ≡ true) ⊎ (shown_settled w.shown.state ≡ true) ⊎ (w.shown.error ≡ some lost)
      → IsSound w

started-IsSound : (j : Option Text) → IsSound (started j)
unfolding started
started-IsSound none = resting refl
started-IsSound (some j) = watching j refl refl (inl refl)

not_open : (w : Watch) → w ≡ at_start → w.is_open ≢ true
not_open w e o = false≢true (sym (ap (λ (x : Watch). x.is_open) e) ∙ o)

open_or_done : {P : Type 0} (b : Bool) → (not b ≡ true) ⊎ (b ≡ true) ⊎ P
open_or_done true = inr (inl refl)
open_or_done false = inl refl

on_event-IsSound :
    (m : Option Event) (w : Watch) → IsSound w → w.is_open ≡ true → IsSound (on_event m w)
unfolding on_event shown_settled is_settled
on_event-IsSound none w s o = s
on_event-IsSound (some e) w (resting start) o = absurd (not_open w start o)
on_event-IsSound (some e) w (watching j given some_state why) o =
    watching j given refl (open_or_done (is_settled e.state))

on_error-IsSound :
    (closed : Bool) (w : Watch) → IsSound w → w.is_open ≡ true → IsSound (on_error closed w)
unfolding on_error
on_error-IsSound false w s o = s
on_error-IsSound true w (resting start) o = absurd (not_open w start o)
on_error-IsSound true w (watching j given some_state why) o =
    elim (Bool-cases (shown_settled w.shown.state)) [
      | inl done ↦ watching j given (rw done some_state) (inr (inl (rw done done)))
      | inr not_done ↦ watching j given (rw not_done some_state) (inr (inr (rw not_done refl)))
    ]

when_open :
    (b : Bool) (x y : Watch) → (b ≡ true → IsSound x) → IsSound y → IsSound (if b then x else y)
when_open true x y f s = f refl
when_open false x y f s = s

on_message-IsSound :
    (m : Option Json) (w : Watch) → IsSound w → w.is_open ≡ true → IsSound (on_message m w)
unfolding on_message
on_message-IsSound none w s o = s
on_message-IsSound (some json) w s o = on_event-IsSound (parse_event json) w s o

step-IsSound : (o : Occurrence) (w : Watch) → IsSound w → IsSound (step o w)
unfolding step
step-IsSound (job_given j) w s =
    when_open (same_job j w.job_id) w (started j) (λ e. s) (started-IsSound j)
step-IsSound (message m) w s = when_open w.is_open (on_message m w) w (on_message-IsSound m w s) s
step-IsSound (connection_error closed) w s =
    when_open w.is_open (on_error closed w) w (on_error-IsSound closed w s) s

runs-IsSound : (os : List Occurrence) (w : Watch) → IsSound w → IsSound (run os w)
unfolding run
runs-IsSound [] w s = s
runs-IsSound (o ∷ os) w s = runs-IsSound os (step o w) (step-IsSound o w s)

-- Whatever happens to the hook from the start on: without a job it has no connection and its progress is
-- the idle one; with a job its progress has some state, and where its connection is closed, that state is
-- completed or failed, or the progress has the error that the connection is lost.
pub run-IsSound : (os : List Occurrence) → IsSound (run os at_start)
run-IsSound os = runs-IsSound os at_start (resting refl)
