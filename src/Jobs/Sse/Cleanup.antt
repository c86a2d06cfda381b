-- ===== src/Jobs/Sse/Cleanup.antt =====
-- Whether every way out of a connection takes its handler off.
use file_forge.Base.{◌≡◌, ◌≢◌, refl, true, false, List, [], ◌∷◌, arith}
use file_forge.Jobs.Sse.{subscribing, Connection, Occurrence, subscribed, opened, step, run}

-- Subscribed, and if closed then with nothing left behind.
pub record IsClean (c : Connection) : Type 0 where
  pub can_unsubscribe : c.has_unsubscribe ≡ true
  pub past : c.phase ≢ subscribing
  pub off : c.closed ≡ true → c.listening ≡ false
  pub stopped : c.closed ≡ true → c.timers ≡ false

step-IsClean : (o : Occurrence) (c : Connection) → IsClean c → IsClean (step o c)
unfolding step
step-IsClean o c h = ground arith

run-IsClean : (os : List Occurrence) (c : Connection) → IsClean c → IsClean (run os c)
unfolding run
run-IsClean [] c h = h
run-IsClean (o ∷ os) c h = run-IsClean os (step o c) (step-IsClean o c h)

-- A connection that is still open when its subscription is confirmed leaves nothing behind:
-- whatever happens to it afterwards, whenever it is closed its handler is off the subscriber and its
-- timers are stopped.
pub subscribed-IsClean :
    (os : List Occurrence) (c : Connection)
    → c.phase ≡ subscribing
    → c.closed ≡ false
    → IsClean (run os (step subscribed c))
unfolding step
subscribed-IsClean os c p h = run-IsClean os (step subscribed c) (ground arith)

-- Closed while it waited for the subscription.
pub record IsLeaked (c : Connection) : Type 0 where
  pub shut : c.closed ≡ true
  pub registered : c.listening ≡ true

step-IsLeaked : (o : Occurrence) (c : Connection) → IsLeaked c → IsLeaked (step o c)
unfolding step
step-IsLeaked o c h = ground arith

run-IsLeaked : (os : List Occurrence) (c : Connection) → IsLeaked c → IsLeaked (run os c)
unfolding run
run-IsLeaked [] c h = h
run-IsLeaked (o ∷ os) c h = run-IsLeaked os (step o c) (step-IsLeaked o c h)

-- While the handler waits for its subscription it is registered with nothing that takes it off.
abbrev IsEarly : Connection → Type 0
IsEarly c = c.phase ≡ subscribing → c.listening ≡ true

step-IsEarly :
    (o : Occurrence) (c : Connection)
    → IsEarly c × (c.phase ≡ subscribing → c.has_unsubscribe ≡ false)
    → IsEarly (step o c) × ((step o c).phase ≡ subscribing → (step o c).has_unsubscribe ≡ false)
unfolding step
step-IsEarly o c h = ground arith

run-IsEarly :
    (os : List Occurrence) (c : Connection)
    → IsEarly c × (c.phase ≡ subscribing → c.has_unsubscribe ≡ false)
    → IsEarly (run os c)
unfolding run
run-IsEarly [] c h = h.0
run-IsEarly (o ∷ os) c h = run-IsEarly os (step o c) (step-IsEarly o c h)

-- However a connection comes to be closed while its handler still waits for the subscription, by the
-- client, by its time or by the job's last event, and whatever came before that: its handler stays
-- registered for good, as nothing that happens later, the confirmation included, takes it off.
pub closed_early-IsLeaked :
    (os later : List Occurrence)
    → (run os opened).phase ≡ subscribing
    → (run os opened).closed ≡ true
    → IsLeaked (run later (run os opened))
unfolding opened
closed_early-IsLeaked os later early shut =
    run-IsLeaked later (run os opened)
      (record { shut = shut; registered = run-IsEarly os opened ((λ p. refl), (λ p. refl)) early })
