-- ===== src/Jobs/Sse/Gap/Kept.antt =====
-- What a step leaves of a connection: that it is open and untold, that it is open, that it has been told.
use file_forge.Base.{Bool, true, false, ◌||◌, ◌≡◌, ◌⊎◌, inl, ℕ, List, [], ◌∷◌, ◌++◌, any, arith}
use file_forge.Jobs.Worker.{queued, processing, completed, failed}
use file_forge.Jobs.Sse
use file_forge.Jobs.Sse.{
  subscribing, reading, returned, is_completed, is_failed, is_active, is_other, Frame, event_frame,
  keepalive_frame, Connection, subscribed, unsubscribed, client_closes, time_runs_out,
  keepalive_due, state_read, message, opened, subscribe_fails, in_phase, deliver, report, cleanup,
  write, is_settled,
}
use file_forge.Jobs.Sse.Gap.{
  Course, elsewhere, on_connection, on_read, IsOther, is_final, StaysConnected,
}

pub any-append :
    (p : Frame → Bool) (xs : List Frame) (f : Frame) → any p (xs ++ f ∷ []) ≡ (any p xs || p f)
any-append p [] f = ground arith
any-append p (x ∷ xs) f = ground (arith, any-append p xs f)

pub read-published : (progress : ℕ) (c : Course) → (on_read progress c).published ≡ c.published
unfolding on_read on_connection
read-published progress c = ground arith

-- The handler has returned, the response is open, and the job's end has not been told.
pub record IsPending (c : Connection) : Type 0 where
  pub past : c.phase ≡ returned
  pub open_still : c.closed ≡ false
  pub unended : c.ended ≡ false
  pub idle : c.ending ≡ false
  pub untold : any is_final c.frames ≡ false

-- What may come to it without an end of the job or of the connection.
abbrev pub IsHarmless : Sse.Occurrence → Type 0
IsHarmless client_closes = ⊥
IsHarmless time_runs_out = ⊥
IsHarmless (message processing progress) = Unit
IsHarmless (message _ progress) = ⊥
IsHarmless _ = Unit

pub step-IsPending :
    (o : Sse.Occurrence) (c : Connection) → IsHarmless o → IsPending c → IsPending (Sse.step o c)
unfolding Sse.step in_phase deliver write is_settled is_final
step-IsPending subscribed c q h = ground (arith, h)
step-IsPending subscribe_fails c q h = ground (arith, h)
step-IsPending unsubscribed c q h = ground (arith, h)
step-IsPending client_closes c q h = absurd q
step-IsPending time_runs_out c q h = absurd q
step-IsPending keepalive_due c q h = ground (arith, h, any-append is_final c.frames keepalive_frame)
step-IsPending (state_read s progress) c q h = ground (arith, h)
step-IsPending (message processing progress) c q h =
    ground (arith, h, any-append is_final c.frames (event_frame processing progress))
step-IsPending (message queued progress) c q h = absurd q
step-IsPending (message completed progress) c q h = absurd q
step-IsPending (message failed progress) c q h = absurd q

pub harmless : (o : Sse.Occurrence) → IsOther o → StaysConnected (elsewhere o) → IsHarmless o
harmless subscribed p q = absurd p
harmless subscribe_fails p q = tt
harmless unsubscribed p q = tt
harmless client_closes p q = absurd q
harmless time_runs_out p q = absurd q
harmless keepalive_due p q = tt
harmless (state_read s progress) p q = absurd p
harmless (message processing progress) p q = tt
harmless (message queued progress) p q = absurd p
harmless (message completed progress) p q = absurd p
harmless (message failed progress) p q = absurd p

-- Once a frame has told it, it stays told.
pub step-told :
    (o : Sse.Occurrence) (c : Connection)
    → any is_final c.frames ≡ true
    → any is_final (Sse.step o c).frames ≡ true
unfolding Sse.step in_phase report deliver cleanup write is_settled is_final
step-told subscribed c h = ground (arith, h)
step-told subscribe_fails c h = ground (arith, h)
step-told unsubscribed c h = ground (arith, h)
step-told client_closes c h = ground (arith, h)
step-told time_runs_out c h = ground (arith, h)
step-told keepalive_due c h = ground (arith, h, any-append is_final c.frames keepalive_frame)
step-told (state_read is_completed progress) c h =
    ground (arith, h, any-append is_final c.frames (event_frame completed 100))
step-told (state_read is_failed progress) c h =
    ground (arith, h, any-append is_final c.frames (event_frame failed 0))
step-told (state_read is_active progress) c h =
    ground (arith, h, any-append is_final c.frames (event_frame processing progress))
step-told (state_read is_other progress) c h =
    ground (arith, h, any-append is_final c.frames (event_frame queued progress))
step-told (message state progress) c h =
    ground (arith, h, any-append is_final c.frames (event_frame state progress))

-- Subscribed and open.
pub record IsAlive (c : Connection) : Type 0 where
  pub registered : c.listening ≡ true
  pub open_still : c.closed ≡ false
  pub unended : c.ended ≡ false
  pub idle : c.ending ≡ false

abbrev pub AliveOrTold : Connection → Type 0
AliveOrTold c = IsAlive c ⊎ (any is_final c.frames ≡ true)

-- Whatever comes to an open connection leaves it so, or has told the end of the job.
pub step-AliveOrTold :
    (o : Sse.Occurrence) (c : Connection) → IsHarmless o → IsAlive c → AliveOrTold (Sse.step o c)
unfolding Sse.step in_phase report deliver cleanup write is_settled is_final
step-AliveOrTold subscribed c q h = inl (ground (arith, h))
step-AliveOrTold subscribe_fails c q h = inl (ground (arith, h))
step-AliveOrTold unsubscribed c q h = inl (ground (arith, h))
step-AliveOrTold client_closes c q h = absurd q
step-AliveOrTold time_runs_out c q h = absurd q
step-AliveOrTold keepalive_due c q h = inl (ground (arith, h))
step-AliveOrTold (state_read is_completed progress) c q h =
    ground (arith, h, any-append is_final c.frames (event_frame completed 100))
step-AliveOrTold (state_read is_failed progress) c q h =
    ground (arith, h, any-append is_final c.frames (event_frame failed 0))
step-AliveOrTold (state_read is_active progress) c q h = inl (ground (arith, h))
step-AliveOrTold (state_read is_other progress) c q h = inl (ground (arith, h))
step-AliveOrTold (message processing progress) c q h = inl (ground (arith, h))
step-AliveOrTold (message queued progress) c q h = absurd q
step-AliveOrTold (message completed progress) c q h = absurd q
step-AliveOrTold (message failed progress) c q h = absurd q
