-- ===== src/RateLimit.antt =====
-- ratelimit.ts: the fixed-window request limiter. Redis is a parameter: its state and the two
-- commands that the limiter sends. Date.now() is an argument, in whole milliseconds.
pub mod Limits
pub mod Window
pub mod Memory
mod Keys
mod Tests
use file_forge.Base.{
  ℕ, ◌-◌, ◌/◌, Bool, true, false, Option, none, some, ◌++◌, ◌∷◌, ltb, ◌==◌, if◌then◌else◌,
}
use file_forge.Base.Text.{Text, codes}
use file_forge.Base.Decimal.{decimal}

pub record RateLimitOptions : Type 0 where
  pub limit : ℕ
  pub window_seconds : ℕ
  pub bucket : Text

-- What the limiter uses of Redis. A command returns `none` where its promise rejects; whether the
-- store changed then is left open.
pub record Redis : Type 1 where
  pub Store : Type 0
  pub incr : Text → Store → Option ℕ × Store
  pub expire : Text → ℕ → Store → Option (Unit {0}) × Store

pub record Request : Type 0 where
  pub ip : Option Text

-- What a request meets: whether `next` is called, the status sent if it is not, and the headers.
pub record Outcome : Type 0 where
  pub passed : Bool
  pub status : Option ℕ
  pub limit_header : Option ℕ
  pub remaining_header : Option ℕ
  pub retry_after_header : Option ℕ

client_or_unknown : Option Text → Text
client_or_unknown none = codes "unknown"
client_or_unknown (some ip) = ip

pub client_key : Request → Text
unfolding client_or_unknown
client_key req = client_or_unknown req.ip

pub window_of : RateLimitOptions → ℕ → ℕ
window_of options now = now / 1000 / options.window_seconds

key_text : Text → Text → ℕ → Text
key_text bucket client window =
    codes "ratelimit:" ++ (bucket ++ (b':' ∷ (client ++ (b':' ∷ decimal window))))

pub counter_key : RateLimitOptions → Request → ℕ → Text
unfolding key_text client_key window_of
counter_key options req now = key_text options.bucket (client_key req) (window_of options now)

pub open_pass : Outcome
open_pass = record {
  passed = true;
  status = none;
  limit_header = none;
  remaining_header = none;
  retry_after_header = none;
}

-- The code behind the `try`, on the count that Redis returned.
pub verdict : RateLimitOptions → Option ℕ → Outcome
unfolding open_pass
verdict options none = open_pass
verdict options (some count) =
    let counted : Outcome = record open_pass {
      limit_header = some options.limit;
      remaining_header = some (options.limit - count);
    } in
    if ltb options.limit count
    then record counted {
      passed = false;
      status = some 429;
      retry_after_header = some options.window_seconds;
    }
    else counted

module _ (R : Redis) where
  open R use {Store, incr, expire}

  after_expire : ℕ → Option (Unit {0}) × Store → Option ℕ × Store
  after_expire count (none, s) = (none, s)
  after_expire count (some _, s) = (some count, s)

  after_incr : Text → ℕ → Option ℕ × Store → Option ℕ × Store
  unfolding after_expire
  after_incr key seconds (none, s) = (none, s)
  after_incr key seconds (some count, s) =
      if count == 1 then after_expire count (expire key seconds s) else (some count, s)

  -- The `try` block.
  pub count_request : Text → ℕ → Store → Option ℕ × Store
  unfolding after_incr
  count_request key seconds s = after_incr key seconds (incr key s)

  -- The middleware; `none` for the store is a service without Redis.
  pub limiter : RateLimitOptions → Request → ℕ → Option Store → Outcome × Option Store
  unfolding count_request verdict
  limiter options req now none = (open_pass, none)
  limiter options req now (some s) =
      let (count, s') = count_request (counter_key options req now) options.window_seconds s in
      (verdict options count, some s')
