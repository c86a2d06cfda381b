-- ===== src/RateLimit/Tests.antt =====
-- The limiter's theorems at concrete requests.
use file_forge.Base.{ℕ, min, ◌≡◌, refl, none, some, List, [], ◌∷◌}
use file_forge.Base.Text.{Text, codes, text_eq}
use file_forge.Base.Decimal.{decimal}
use file_forge.RateLimit.{Request, counter_key}
use file_forge.RateLimit.Memory.{memory, memory-Counts}
use file_forge.RateLimit.Limits.{upload}
use file_forge.RateLimit.Window.{requests, passes, passes-eq-min}

abbrev ann : Request
ann = record { ip = some (codes "10.0.0.1") }

abbrev bob : Request
bob = record { ip = none }

abbrev start : Text → ℕ
start k = 19

abbrev burst : List (Request × ℕ)
burst = (ann, 60000) ∷ (bob, 60500) ∷ (ann, 119999) ∷ (ann, 120000) ∷ []

passes-eq-min_example :
    passes memory (counter_key upload ann 60000) upload burst (some start)
    ≡ min (requests (counter_key upload ann 60000) upload burst) 1
passes-eq-min_example =
    passes-eq-min memory memory-Counts (counter_key upload ann 60000) upload burst start

two_requests : requests (counter_key upload ann 60000) upload burst ≡ 2
unfolding counter_key text_eq decimal
two_requests = refl
