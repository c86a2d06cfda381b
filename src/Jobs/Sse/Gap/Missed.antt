-- ===== src/Jobs/Sse/Gap/Missed.antt =====
-- A watcher that comes between the last event and the completion.
use file_forge.Base.{Bool, true, false, ◌≡◌, ◌⊎◌, inl, inr, refl, ℕ, List, All, any, arith}
use file_forge.Base.Runs.{Runs, Runs-keep}
use file_forge.Jobs.Worker.{queued, processing, completed, failed}
use file_forge.Jobs.Sse
use file_forge.Jobs.Sse.{
  subscribing, reading, returned, is_completed, is_failed, is_active, is_other, Frame, event_frame,
  keepalive_frame, Connection, subscribed, unsubscribed, client_closes, time_runs_out,
  keepalive_due, state_read, message, opened, subscribe_fails, in_phase, deliver, report, cleanup,
  write, is_settled,
}
use file_forge.Jobs.Sse.Gap.{
  Course, Occurrence, elsewhere, publishes, on_connection, on_published, on_arrived, on_read,
  IsOther, Step, take_effect, confirm, publish, arrive, share, cut_off, settle, read, happen,
  is_final, told, StaysConnected, begun,
}
use file_forge.Jobs.Sse.Gap.Kept.{
  any-append, read-published, IsPending, IsHarmless, step-IsPending, harmless,
}

-- The response is open, and the job's end has not been told.
record IsUntold (c : Connection) : Type 0 where
  open_still : c.closed ≡ false
  unended : c.ended ≡ false
  idle : c.ending ≡ false
  untold : any is_final c.frames ≡ false

-- A state that is read has not come to its end.
abbrev IsUnfinished : Sse.Occurrence → Type 0
IsUnfinished (state_read is_active progress) = Unit
IsUnfinished (state_read s progress) = ⊥
IsUnfinished o = IsHarmless o

step-IsUntold :
    (o : Sse.Occurrence) (c : Connection) → IsUnfinished o → IsUntold c → IsUntold (Sse.step o c)
unfolding Sse.step in_phase report deliver write is_settled is_final
step-IsUntold subscribed c q h = ground (arith, h)
step-IsUntold subscribe_fails c q h = ground (arith, h)
step-IsUntold unsubscribed c q h = ground (arith, h)
step-IsUntold client_closes c q h = absurd q
step-IsUntold time_runs_out c q h = absurd q
step-IsUntold keepalive_due c q h = ground (arith, h, any-append is_final c.frames keepalive_frame)
step-IsUntold (state_read is_active progress) c q h =
    ground (arith, h, any-append is_final c.frames (event_frame processing progress))
step-IsUntold (state_read is_completed progress) c q h = absurd q
step-IsUntold (state_read is_failed progress) c q h = absurd q
step-IsUntold (state_read is_other progress) c q h = absurd q
step-IsUntold (message processing progress) c q h =
    ground (arith, h, any-append is_final c.frames (event_frame processing progress))
step-IsUntold (message queued progress) c q h = absurd q
step-IsUntold (message completed progress) c q h = absurd q
step-IsUntold (message failed progress) c q h = absurd q

unfinished : (o : Sse.Occurrence) → IsOther o → StaysConnected (elsewhere o) → IsUnfinished o
unfinished subscribed p q = absurd p
unfinished subscribe_fails p q = tt
unfinished unsubscribed p q = tt
unfinished client_closes p q = absurd q
unfinished time_runs_out p q = absurd q
unfinished keepalive_due p q = tt
unfinished (state_read s progress) p q = absurd p
unfinished (message processing progress) p q = tt
unfinished (message queued progress) p q = absurd p
unfinished (message completed progress) p q = absurd p
unfinished (message failed progress) p q = absurd p

-- Until the completion is published the connection is open and untold.
abbrev IsBefore : Course → Type 0
IsBefore c =
    (c.published ≡ true) ⊎ ((c.settled ≡ false) × (c.in_flight ≡ false) × IsUntold c.connection)

read_active :
    (progress : ℕ) (c : Course)
    → c.settled ≡ false
    → on_read progress c ≡ on_connection (state_read is_active progress) c
unfolding on_read
read_active progress c s = rw s refl

IsBefore-with :
    (o : Sse.Occurrence) (c : Course) → IsUnfinished o → IsBefore c → IsBefore (on_connection o c)
unfolding on_connection
IsBefore-with o c q (inl p) = inl p
IsBefore-with o c q (inr (s, f, h)) = inr (s, f, step-IsUntold o c.connection q h)

step-IsBefore :
    (o : Occurrence) (c d : Course) → Step o c d → StaysConnected o → IsBefore c → IsBefore d
unfolding on_published on_arrived on_connection
step-IsBefore _ _ _ (take_effect c early) q h = h
step-IsBefore _ _ _ (confirm c on) q h = IsBefore-with subscribed c tt h
step-IsBefore _ _ _ (publish c unpublished) q h = inl refl
step-IsBefore _ _ _ (arrive c sent) q (inl p) = inl p
step-IsBefore _ _ _ (arrive c sent) q (inr (s, f, h)) = absurd (ground (arith, sent, f))
step-IsBefore _ _ _ (share c) q h = h
step-IsBefore _ _ _ (cut_off c) q h = h
step-IsBefore _ _ _ (settle c out) q h = inl out
step-IsBefore _ _ _ (read c progress) q (inl p) = inl (rw (read-published progress c) p)
step-IsBefore _ _ _ (read c progress) q (inr (s, f, h)) =
    rw (read_active progress c s)
      (IsBefore-with (state_read is_active progress) c tt (inr (s, f, h)))
step-IsBefore _ _ _ (happen c o other) q h = IsBefore-with o c (unfinished o other q) h

-- The completion has been published and not sent here, and until the queue has it nothing tells of it.
abbrev IsMissed : Course → Type 0
IsMissed c =
    (c.published ≡ true) × (c.in_flight ≡ false) × ((c.settled ≡ true) ⊎ IsUntold c.connection)

IsMissed-with :
    (o : Sse.Occurrence) (c : Course) → IsUnfinished o → IsMissed c → IsMissed (on_connection o c)
unfolding on_connection
IsMissed-with o c q (p, f, inl s) = (p, f, inl s)
IsMissed-with o c q (p, f, inr h) = (p, f, inr (step-IsUntold o c.connection q h))

IsMissed-read :
    (progress : ℕ) (c : Course) (b : Bool)
    → c.settled ≡ b
    → IsMissed c
    → IsMissed (on_read progress c)
unfolding on_read on_connection
IsMissed-read progress c true s (p, f, h) = rw s (p, f, inl refl)
IsMissed-read progress c false s h =
    rw (read_active progress c s) (IsMissed-with (state_read is_active progress) c tt h)

step-IsMissed :
    (o : Occurrence) (c d : Course) → Step o c d → StaysConnected o → IsMissed c → IsMissed d
unfolding on_connection
step-IsMissed _ _ _ (take_effect c early) q h = h
step-IsMissed _ _ _ (confirm c on) q h = IsMissed-with subscribed c tt h
step-IsMissed _ _ _ (publish c unpublished) q h = absurd (ground (arith, unpublished, h.0))
step-IsMissed _ _ _ (arrive c sent) q h = absurd (ground (arith, sent, h.1))
step-IsMissed _ _ _ (share c) q h = h
step-IsMissed _ _ _ (cut_off c) q h = h
step-IsMissed _ _ _ (settle c out) q h = (h.0, h.1, inl refl)
step-IsMissed _ _ _ (read c progress) q h = IsMissed-read progress c c.settled refl h
step-IsMissed _ _ _ (happen c o other) q h = IsMissed-with o c (unfinished o other q) h

-- The completion has been published and not sent here, and the handler is past reading the state.
abbrev IsWaiting : Course → Type 0
IsWaiting c = (c.published ≡ true) × (c.in_flight ≡ false) × IsPending c.connection

IsWaiting-with :
    (o : Sse.Occurrence) (c : Course) → IsHarmless o → IsWaiting c → IsWaiting (on_connection o c)
unfolding on_connection
IsWaiting-with o c q (p, f, h) = (p, f, step-IsPending o c.connection q h)

IsWaiting-read :
    (progress : ℕ) (c : Course) (b : Bool)
    → c.settled ≡ b
    → IsWaiting c
    → IsWaiting (on_read progress c)
unfolding on_read
IsWaiting-read progress c true s h = rw s (IsWaiting-with (state_read is_completed progress) c tt h)
IsWaiting-read progress c false s h = rw s (IsWaiting-with (state_read is_active progress) c tt h)

step-IsWaiting :
    (o : Occurrence) (c d : Course) → Step o c d → StaysConnected o → IsWaiting c → IsWaiting d
unfolding on_connection
step-IsWaiting _ _ _ (take_effect c early) q h = h
step-IsWaiting _ _ _ (confirm c on) q h = IsWaiting-with subscribed c tt h
step-IsWaiting _ _ _ (publish c unpublished) q h = absurd (ground (arith, unpublished, h.0))
step-IsWaiting _ _ _ (arrive c sent) q h = absurd (ground (arith, sent, h.1))
step-IsWaiting _ _ _ (share c) q h = h
step-IsWaiting _ _ _ (cut_off c) q h = h
step-IsWaiting _ _ _ (settle c out) q h = h
step-IsWaiting _ _ _ (read c progress) q h = IsWaiting-read progress c c.settled refl h
step-IsWaiting _ _ _ (happen c o other) q h = IsWaiting-with o c (harmless o other q) h

begun-IsBefore : IsBefore begun
unfolding begun opened
begun-IsBefore =
    inr (refl, refl, record { open_still = refl; unended = refl; idle = refl; untold = refl })

IsMissed-at : (a b : Course) → Step publishes a b → a.subscription ≡ false → IsBefore a → IsMissed b
unfolding on_published
IsMissed-at _ _ (publish a unpublished) off (inl p) = absurd (ground (arith, unpublished, p))
IsMissed-at _ _ (publish a unpublished) off (inr (s, f, h)) = (refl, off, inr h)

IsWaiting-at :
    (e : Course) → e.settled ≡ false → e.connection.phase ≡ returned → IsMissed e → IsWaiting e
IsWaiting-at e unsettled past (p, f, inl s) = absurd (ground (arith, unsettled, s))
IsWaiting-at e unsettled past (p, f, inr h) = (
  p,
  f,
  record {
    past = past;
    open_still = h.open_still;
    unended = h.unended;
    idle = h.idle;
    untold = h.untold;
  },
)

-- A watcher that comes between the worker's last event and the queue's completion of the job is never
-- told of it: if the process is not subscribed to the job's channel when its completion is published, and
-- the handler is past its reading of the state before the queue has the job as completed, then, whatever
-- else happens before, in between and after, as long as its subscription does not fail, the client stays
-- and the connection's time does not run out, no event tells it that the job is over, and the connection is
-- not closed.
pub late_watcher_untold :
    (os ms ns : List Occurrence) (a b e d : Course)
    → Runs Step os begun a
    → All StaysConnected os
    → a.subscription ≡ false
    → Step publishes a b
    → Runs Step ms b e
    → All StaysConnected ms
    → e.settled ≡ false
    → e.connection.phase ≡ returned
    → Runs Step ns e d
    → All StaysConnected ns
    → (told d ≡ false) × (d.connection.closed ≡ false)
unfolding told
late_watcher_untold os ms ns a b e d r stays off out r' stays' unsettled past r'' stays'' =
    let before : IsBefore a =
      Runs-keep Step IsBefore StaysConnected step-IsBefore os begun a r stays begun-IsBefore in
    let missed : IsMissed e =
      Runs-keep Step IsMissed StaysConnected step-IsMissed ms b e r' stays'
        (IsMissed-at a b out off before) in
    let h : IsWaiting d =
      Runs-keep Step IsWaiting StaysConnected step-IsWaiting ns e d r'' stays''
        (IsWaiting-at e unsettled past missed) in
    (h.2.untold, h.2.open_still)
