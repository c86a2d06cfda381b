-- ===== src/Shutdown/Server.antt =====
-- server.ts: the shutdown of the API's process. The server calls back once its connections have ended, as
-- Node documents; times are milliseconds.
pub mod Drained
pub mod Stuck
mod Tests
use file_forge.Base.{
  ℕ, ◌+◌, ◌-◌, ◌<◌, ◌≤◌, ◌≡◌, Bool, true, false, Option, none, some, List, [], ◌∷◌, ◌++◌, get_elem?,
  All, if◌then◌else◌,
}
use file_forge.Base.Runs.{put}

-- What is closed behind the server.
pub data Resource : Type 0 where
  queue subscriber queue_connection redis : Resource

abbrev pub closing_order : List Resource
closing_order = queue ∷ subscriber ∷ queue_connection ∷ redis ∷ []

-- SHUTDOWN_TIMEOUT_MS
abbrev pub shutdown_timeout_ms : ℕ
shutdown_timeout_ms = 10000

-- A call of `shutdown`: when it began; whether `server.close` has called back, and then with an error or
-- not; and what is being closed and to be closed after that.
pub record Closing : Type 0 where
  pub started : ℕ
  pub called_back : Option Bool
  pub awaited : List Resource

pub record Process : Type 0 where
  pub now : ℕ
  pub is_listening : Bool
  pub open_connections : ℕ
  pub closings : List Closing
  pub closed : List Resource
  pub exit_code : Option ℕ

pub listening_at : ℕ → Process
listening_at now = record {
  now = now;
  is_listening = true;
  open_connections = 0;
  closings = [];
  closed = [];
  exit_code = none;
}

exit : ℕ → Process → Process
exit code p = record p { exit_code = some code }

-- `main`, on whether the storage directory could be made: a failure is caught behind it, and then nothing
-- listens.
pub main : ℕ → Bool → Process
unfolding exit listening_at
main now made =
    if made then listening_at now else exit 1 (record (listening_at now) { is_listening = false })

-- SIGTERM or SIGINT: the timer is set, and `server.close` stops listening.
pub on_signal : Process → Process
on_signal p = record p {
  is_listening = false;
  closings =
      p.closings ++ (record { started = p.now; called_back = none; awaited = closing_order } ∷ []);
}

pub on_connected : Process → Process
on_connected p = record p { open_connections = p.open_connections + 1 }

pub on_ended : Process → Process
on_ended p = record p { open_connections = p.open_connections - 1 }

-- The callback of `server.close`, with an error or without, up to its first `await`.
called : ℕ → Bool → Closing → Option Bool → Process → Process
called i err c (some _) p = p
called i err c none p = record p {
  closings = put i (record c { called_back = some err }) p.closings;
}

pub on_server_closed : ℕ → Bool → Process → Process
unfolding called
on_server_closed i err p = elim (get_elem? p.closings i) [
  | none ↦ p
  | some c ↦ called i err c c.called_back p
]

-- `process.exit(err ? 1 : 0)`
finish : Bool → Process → Process
unfolding exit
finish err p = if err then exit 1 p else exit 0 p

-- What the callback does when the promise it awaits is resolved, or rejected: a failure is only logged,
-- and ends the closing.
resumed : ℕ → Closing → Bool → List Resource → Bool → Process → Process
unfolding finish
resumed i c err [] ok p = p
resumed i c err (r ∷ rest) false p = finish err p
resumed i c err (r ∷ []) true p = finish err (record p { closed = r ∷ p.closed })
resumed i c err (r ∷ s ∷ rest) true p = record p {
  closed = r ∷ p.closed;
  closings = put i (record c { awaited = s ∷ rest }) p.closings;
}

resumed_if_called : ℕ → Closing → Option Bool → Bool → Process → Process
unfolding resumed
resumed_if_called i c none ok p = p
resumed_if_called i c (some err) ok p = resumed i c err c.awaited ok p

pub on_settled : ℕ → Bool → Process → Process
unfolding resumed_if_called
on_settled i ok p = elim (get_elem? p.closings i) [
  | none ↦ p
  | some c ↦ resumed_if_called i c c.called_back ok p
]

-- The timer of a shutdown.
pub on_timeout : Process → Process
unfolding exit
on_timeout p = exit 1 p

pub data Occurrence : Type 0 where
  signalled connected ended : Occurrence
  server_closed settled : ℕ → Bool → Occurrence
  timed_out : ℕ → Occurrence
  passed : Occurrence

abbrev pub due_at : Closing → ℕ
due_at c = c.started + shutdown_timeout_ms

-- What may happen to a process that has not exited. Connections come only while it is listening, and the
-- server calls back only when all of them have ended. A timer fires when it is due or later.
pub data Step : Occurrence → Process → Process → Type 0 where
  signal : (p : Process) → p.exit_code ≡ none → Step signalled p (on_signal p)
  connect :
      (p : Process) → p.exit_code ≡ none → p.is_listening ≡ true → Step connected p (on_connected p)
  end : (p : Process) → p.exit_code ≡ none → 0 < p.open_connections → Step ended p (on_ended p)
  server_close :
      (p : Process) (i : ℕ) (err : Bool)
      → p.exit_code ≡ none
      → p.open_connections ≡ 0
      → Step (server_closed i err) p (on_server_closed i err p)
  settle :
      (p : Process) (i : ℕ) (ok : Bool)
      → p.exit_code ≡ none
      → Step (settled i ok) p (on_settled i ok p)
  time_out :
      (p : Process) (i : ℕ) (c : Closing)
      → p.exit_code ≡ none
      → get_elem? p.closings i ≡ some c
      → due_at c ≤ p.now
      → Step (timed_out i) p (on_timeout p)
  pass : (p : Process) → p.exit_code ≡ none → Step passed p (record p { now = p.now + 1 })
