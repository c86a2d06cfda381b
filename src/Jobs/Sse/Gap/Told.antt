-- ===== src/Jobs/Sse/Gap/Told.antt =====
-- A watcher that subscribes in time.
use file_forge.Base.{true, false, ◌≡◌, ◌⊎◌}
use file_forge.Base.Runs.{Runs}
use file_forge.Jobs.Sse
use file_forge.Jobs.Sse.Gap.{Course, told}
use file_forge.Jobs.Sse.Gap.Kept.{IsAlive, AliveOrTold}

-- As long as nothing has been published, the connection is open or has told.
abbrev IsOpen : Course → Type 0
IsOpen c = (c.published ≡ true) ⊎ AliveOrTold c.connection

-- The completion is on its way, or the subscription will have it sent.
abbrev IsComing : Course → Type 0
IsComing c =
    ((c.published ≡ true) × (c.in_flight ≡ true))
    ⊎ ((c.published ≡ false) × (c.subscription ≡ true))

abbrev IsInformed : Course → Type 0
IsInformed c = (told c ≡ true) ⊎ (IsComing c × IsAlive c.connection)
