-- ===== src/Shutdown/Server/Tests.antt =====
-- Shutdowns of the server: one that is run to its end, and one with a client that stays.
use file_forge.Base.{ℕ, zero, suc, ◌≡◌, refl, true, false, none, inl}
use file_forge.Base.Runs.{done, next}
use file_forge.Shutdown.Server.{
  Process, Closing, closing_order, listening_at, on_signal, on_connected, on_server_closed, called,
  on_settled, resumed, resumed_if_called, finish, exit, signal, server_close, settle, Closing,
  closing_order,
}
use file_forge.Shutdown.Server.Drained.{exits_drained}

abbrev after : ℕ → Process
after zero = on_server_closed 0 false (on_signal (listening_at 5))
after (suc n) = on_settled 0 true (after n)

exits_drained_example : ((after 4).is_listening ≡ false) × ((after 4).open_connections ≡ 0)
unfolding on_signal listening_at on_server_closed called on_settled resumed resumed_if_called finish
    exit
exits_drained_example =
    exits_drained 5 _ (after 4)
      (next (signal (listening_at 5) refl) (
        next (server_close (on_signal (listening_at 5)) 0 false refl refl) (
          next (settle (after 0) 0 true refl) (
            next (settle (after 1) 0 true refl) (
              next (settle (after 2) 0 true refl)
                (next (settle (after 3) 0 true refl) (done (after 4))))))))
      (inl refl)

abbrev watched : Process
watched = on_connected (listening_at 5)

abbrev watched_closing : Closing
watched_closing = record { started = 5; called_back = none; awaited = closing_order }
