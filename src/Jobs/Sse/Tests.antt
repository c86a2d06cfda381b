-- ===== src/Jobs/Sse/Tests.antt =====
-- A watcher that stays, and one that leaves too early.
use file_forge.Base.{[], ◌∷◌, refl}
use file_forge.Jobs.Worker.{processing, completed}
use file_forge.Jobs.Sse.{
  subscribed, unsubscribed, client_closes, keepalive_due, message, state_read, is_active, opened,
  step, run, write, deliver, cleanup, is_settled,
}
use file_forge.Jobs.Sse.Cleanup.{IsClean, IsLeaked, subscribed-IsClean, closed_early-IsLeaked}

subscribed-IsClean_example : IsClean (
    run
      (state_read is_active 40 ∷ message completed 100 ∷ unsubscribed ∷ [])
      (step subscribed opened))
unfolding opened
subscribed-IsClean_example =
    subscribed-IsClean (state_read is_active 40 ∷ message completed 100 ∷ unsubscribed ∷ []) opened
      refl refl

closed_early-IsLeaked_example : IsLeaked (
    run
      (subscribed ∷ state_read is_active 40 ∷ [])
      (run (keepalive_due ∷ message processing 40 ∷ client_closes ∷ []) opened))
unfolding run step opened write deliver cleanup is_settled
closed_early-IsLeaked_example =
    closed_early-IsLeaked (keepalive_due ∷ message processing 40 ∷ client_closes ∷ [])
      (subscribed ∷ state_read is_active 40 ∷ []) refl refl
