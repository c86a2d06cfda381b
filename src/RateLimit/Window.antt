-- ===== src/RateLimit/Window.antt =====
-- How many requests a window lets through, over a Redis whose commands answer and count.
use file_forge.Base.{
  ℕ, suc, ◌+◌, ◌-◌, ◌<◌, ◌≤◌, min, ◌≡◌, refl, ◌∙◌, true, false, List, [], ◌∷◌, Option, none, some,
  arith, if◌then◌else◌, ◌↔◌, ◌&&◌, ◌==◌,
}
use file_forge.Base.Text.{Text, text_eq, text_eq_iff}
use file_forge.RateLimit.{
  RateLimitOptions, Redis, Request, counter_key, open_pass, verdict, after_expire, after_incr,
  count_request, limiter,
}

-- The counters of a Redis that can be reached: INCR returns the new value and changes that counter
-- alone; EXPIRE, for the length of the window that the key names, changes none.
pub record Counts (R : Redis) : Type 0 where
  pub counter : R.Store → Text → ℕ
  pub incr_answers : (k : Text) (s : R.Store) → (R.incr k s).0 ≡ some (suc (counter s k))
  pub counter-incr :
      (k j : Text) (s : R.Store)
      → counter (R.incr k s).1 j ≡ (if text_eq k j then suc (counter s j) else counter s j)
  pub expire_answers : (k : Text) (w : ℕ) (s : R.Store) → (R.expire k w s).0 ≡ some tt
  pub counter-expire :
      (k j : Text) (w : ℕ) (s : R.Store) → counter (R.expire k w s).1 j ≡ counter s j

-- How many of the requests belong to a counter.
abbrev pub requests : Text → RateLimitOptions → List (Request × ℕ) → ℕ
requests k o [] = 0
requests k o ((r, now) ∷ rs) = (if text_eq (counter_key o r now) k then 1 else 0) + requests k o rs

module _ (R : Redis) where
  -- How many of those that belong to a counter are let through.
  abbrev pub passes : Text → RateLimitOptions → List (Request × ℕ) → Option R.Store → ℕ
  passes k o [] s = 0
  passes k o ((r, now) ∷ rs) s =
      let res = limiter R o r now s in
      (if text_eq (counter_key o r now) k && res.0.passed then 1 else 0) + passes k o rs res.1

pub verdict_under :
    (o : RateLimitOptions) (n : ℕ) → (verdict o (some n)).passed ≡ true → n ≤ o.limit
unfolding verdict
verdict_under o n h = ground arith

module _ (R : Redis) (c : Counts R) where
  open R use {Store, incr, expire}
  open c use {counter, incr_answers, counter-incr, expire_answers, counter-expire}

  after_count : ℕ → Text → ℕ → Store → Store
  after_count n k w s = if n == 1 then (expire k w s).1 else s

  counter-after_count :
      (n : ℕ) (k j : Text) (w : ℕ) (s : Store) → counter (after_count n k w s) j ≡ counter s j
  unfolding after_count
  counter-after_count n k j w s = ground (arith, counter-expire k j w s)

  after_incr_lem :
      (k : Text) (w n : ℕ) (p : Option ℕ × Store)
      → p.0 ≡ some n
      → after_incr R k w p ≡ (some n, after_count n k w p.1)
  unfolding after_incr after_expire after_count
  after_incr_lem k w n p e = ground (arith, expire_answers k w p.1)

  -- One request adds one to its counter, and its verdict is read off the new value.
  count_request_lem :
      (k : Text) (w : ℕ) (s : Store)
      → (s' : Store) × (count_request R k w s ≡ (some (suc (counter s k)), s'))
        × ((j : Text) → counter s' j ≡ (if text_eq k j then suc (counter s j) else counter s j))
  unfolding count_request
  count_request_lem k w s = (
    after_count (suc (counter s k)) k w (incr k s).1,
    after_incr_lem k w _ (incr k s) (incr_answers k s),
    λ j. counter-after_count _ k j w (incr k s).1 ∙ counter-incr k j s,
  )

  pub limiter_lem :
      (o : RateLimitOptions) (r : Request) (now : ℕ) (s : Store)
      → (s' : Store) × (limiter R o r now (some s)
          ≡ (verdict o (some (suc (counter s (counter_key o r now)))), some s'))
        × ((j : Text)
            → counter s' j
              ≡ (if text_eq (counter_key o r now) j then suc (counter s j) else counter s j))
  unfolding limiter
  limiter_lem o r now s =
      let (s', e, upd) = count_request_lem (counter_key o r now) o.window_seconds s in
      (s', rw (e, limiter) refl, upd)

  -- While Redis answers, whatever requests arrive in whatever order, of those that share one
  -- counter exactly the first ones up to what is left of the limit are let through.
  pub passes-eq-min :
      (k : Text) (o : RateLimitOptions) (rs : List (Request × ℕ)) (s : Store)
      → passes R k o rs (some s) ≡ min (requests k o rs) (o.limit - counter s k)
  unfolding verdict
  passes-eq-min k o [] s = omega arith
  passes-eq-min k o ((r, now) ∷ rs) s =
      let (s', e, upd) = limiter_lem o r now s in
      rw e (ground (arith, passes-eq-min k o rs s', upd k, text_eq_iff (counter_key o r now) k))

module _ (R : Redis) where
  -- Exactly when a request is refused, whatever Redis does: INCR and any EXPIRE answered, and the
  -- count is beyond the limit. Then the answer is a 429 that names the window's length; otherwise
  -- nothing is sent and `next` is called. A Redis that fails lets every request pass.
  pub limiter_refuses_iff :
      (o : RateLimitOptions) (r : Request) (now : ℕ) (s : R.Store)
      → let out = (limiter R o r now (some s)).0 in
        let counted = (count_request R (counter_key o r now) o.window_seconds s).0 in
        ((out.passed ≡ false) ↔ ((n : ℕ) × (counted ≡ some n) × (o.limit < n)))
        × (out.status ≡ (if out.passed then none else some 429))
        × (out.retry_after_header ≡ (if out.passed then none else some o.window_seconds))
  unfolding limiter verdict
  limiter_refuses_iff o r now s = ground arith

  pub limiter_without_redis :
      (o : RateLimitOptions) (r : Request) (now : ℕ) → limiter R o r now none ≡ (open_pass, none)
  unfolding limiter
  limiter_without_redis o r now = refl

pub open_pass-passed : open_pass.passed ≡ true
unfolding open_pass
open_pass-passed = refl
