-- ===== src/Shutdown/Server/Stuck.antt =====
-- A connection that stays open.
use file_forge.Base.{ℕ, ◌<◌, ◌≡◌, none, some, [], get_elem?, All, ◌⊎◌}
use file_forge.Base.Runs.{Runs}
use file_forge.Shutdown.Server.{Closing, Process, Occurrence, ended, timed_out, due_at, Step}

-- No connection ends.
abbrev pub StaysOpen : Occurrence → Type 0
StaysOpen ended = ⊥
StaysOpen _ = Unit

-- A connection is open, a shutdown waits with its timer, and nothing else than a timer has ended the process.
record IsStuck (i : ℕ) (c : Closing) (p : Process) : Type 0 where
  held : 0 < p.open_connections
  untouched : p.closed ≡ []
  unfinished : (p.exit_code ≡ some 1) ⊎ (p.exit_code ≡ none)
  uncalled : All (λ d. d.called_back ≡ none) p.closings
  armed : get_elem? p.closings i ≡ some c

-- Whether the process has been ended by a timer, waits for the shutdown's time, or may be ended by the
-- shutdown's timer, with the code 1.
abbrev pub ForcedBy : ℕ → Closing → Process → Type 0
ForcedBy i c q =
    (q.exit_code ≡ some 1)
    ⊎ (q.now < due_at c)
    ⊎ ((r : Process) × Step (timed_out i) q r × (r.exit_code ≡ some 1))
