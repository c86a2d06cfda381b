-- ===== src/RateLimit/Limits.antt =====
-- ratelimit.ts: RATE_LIMITS, the four allowances.
use file_forge.Base.Text.{codes}
use file_forge.RateLimit.{RateLimitOptions}

abbrev pub read : RateLimitOptions
read = record { limit = 120; window_seconds = 60; bucket = codes "read" }

abbrev pub upload : RateLimitOptions
upload = record { limit = 20; window_seconds = 60; bucket = codes "upload" }

abbrev pub job : RateLimitOptions
job = record { limit = 40; window_seconds = 60; bucket = codes "job" }

abbrev pub status : RateLimitOptions
status = record { limit = 300; window_seconds = 60; bucket = codes "status" }
