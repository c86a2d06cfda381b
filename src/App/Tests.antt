-- ===== src/App/Tests.antt =====
-- The routing theorems at an application with every router.
use file_forge.Base.{ℕ, ◌≤◌, refl, true, some, [], ◌∷◌}
use file_forge.Base.Text.{Text, codes, text_eq}
use file_forge.RateLimit.{Request}
use file_forge.RateLimit.Memory.{memory, memory-Counts}
use file_forge.App.{AppDependencies, get, serves, or_else}
use file_forge.App.Capped.{Visit, served, upload_key, served-le-upload}

abbrev all_routers : AppDependencies
all_routers = record { storage = true; files = true; queue = true; subscriber = true }

abbrev ann : Request
ann = record { ip = some (codes "10.0.0.1") }

abbrev one_left : Text → ℕ
one_left k = 19

abbrev poll : ℕ → Visit
poll now = record { method = get; path = codes "jobs" ∷ codes "7" ∷ []; request = ann; now = now }

-- Two reads of a job's state within a minute, with one request left.
served-le-upload_example :
    served memory all_routers
      (upload_key (poll 60000))
      (poll 60000 ∷ poll 61000 ∷ [])
      (some one_left)
    ≤ 1
unfolding serves or_else text_eq
served-le-upload_example =
    served-le-upload memory memory-Counts all_routers (upload_key (poll 60000))
      (poll 60000 ∷ poll 61000 ∷ []) one_left refl refl (refl, (refl, tt))
