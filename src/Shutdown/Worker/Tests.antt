-- ===== src/Shutdown/Worker/Tests.antt =====
-- Shutdowns of the worker that are run to their end.
use file_forge.Base.{ℕ, zero, suc, ◌≡◌, refl, true, some, [], ◌∷◌, inr, arith}
use file_forge.Base.Runs.{done, next}
use file_forge.Shutdown.Worker.{
  Process, running_at, on_signal, on_settled, resumed, exit, signal, settle, pass, Step, timed_out,
  maintenance_worker, maintenance_queue, connection,
}
use file_forge.Shutdown.Worker.Orderly.{AllClosed, closed_before_exit}
use file_forge.Shutdown.Worker.Timely.{timer_survives}

abbrev signalled_at_5 : Process
signalled_at_5 = on_signal (running_at 5)

abbrev after : ℕ → Process
after zero = signalled_at_5
after (suc n) = on_settled 0 true (after n)

closed_before_exit_example : AllClosed (after 4).closed
unfolding on_signal running_at on_settled resumed exit
closed_before_exit_example =
    closed_before_exit 5 _ (after 4)
      (next (signal (running_at 5) refl) (
        next (settle (after 0) 0 true refl) (
          next (settle (after 1) 0 true refl) (
            next (settle (after 2) 0 true refl)
              (next (settle (after 3) 0 true refl) (done (after 4)))))))
      (inr refl)

-- The first promise is settled and the others never are.
abbrev waited : Process
waited = record (after 1) { now = 30004 }

timer_survives_example :
    (r : Process) × Step (timed_out 0) (record waited { now = 30005 }) r × (r.exit_code ≡ some 1)
unfolding on_signal running_at on_settled resumed exit
timer_survives_example =
    timer_survives 0 _ waited (record waited { now = 30005 })
      (record { started = 5; awaited = maintenance_worker ∷ maintenance_queue ∷ connection ∷ [] })
      refl (next (pass waited refl) (done _)) refl (omega arith)
