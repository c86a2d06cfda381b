-- ===== src/App/Limits.antt =====
-- What the mounting order means for the allowances.
use file_forge.Base.{
  ℕ, suc, ◌≤◌, ◌<◌, ◌≡◌, refl, ◌∙◌, true, false, List, [], ◌∷◌, ◌++◌, Option, none, some, inl, inr,
  arith, Bool-cases, Option-cases,
}
use file_forge.Base.Text.{Text, text_eq_self}
use file_forge.RateLimit.{RateLimitOptions, Redis, Request, counter_key, limiter, verdict}
use file_forge.RateLimit.Limits.{upload}
use file_forge.RateLimit.Window.{Counts, limiter_lem, verdict_under}
use file_forge.App.{
  AppDependencies, Method, Handler, Layer, metrics_router, health_live, health_ready, root_route,
  rate_limit, upload_router, upload_error_handler, not_found, download_layers, job_layers,
  event_layers, create_app, serves, limit_of, handled, refused, through, handle, or_else,
}

-- The routes that stand before the first limiter.
abbrev pub open_route : Method → List Text → Option Handler
open_route m path = or_else (serves metrics_router m path) (
    or_else (serves health_live m path)
      (or_else (serves health_ready m path) (serves root_route m path)))

module _ (R : Redis) where
  -- Status, metrics, health and index requests reach their handlers whatever any counter holds,
  -- and leave Redis as it was.
  pub open_route_unlimited :
      (deps : AppDependencies) (m : Method) (path : List Text) (r : Request) (now : ℕ)
      (s : Option R.Store) {h : Handler}
      → open_route m path ≡ some h
      → handle R deps m path r now s ≡ (handled h, s)
  unfolding handle or_else
  open_route_unlimited deps m path r now s e = ground arith

-- One layer at a time.
module _ (R : Redis) (l : Layer) (ls : List Layer) (m : Method) (path : List Text) (r : Request)
    (now : ℕ) where
  through_skip :
      (s : Option R.Store)
      → limit_of l m ≡ none
      → serves l m path ≡ none
      → through R (l ∷ ls) m path r now s ≡ through R ls m path r now s
  unfolding through
  through_skip s e f = rw (e, f, through)

  through_serve :
      (s : Option R.Store) (h : Handler)
      → limit_of l m ≡ none
      → serves l m path ≡ some h
      → through R (l ∷ ls) m path r now s ≡ (handled h, s)
  unfolding through
  through_serve s h e f = rw (e, f, through)

  module _ (o : RateLimitOptions) (s : Option R.Store) (limited : limit_of l m ≡ some o) where
    pub through_pass :
        (limiter R o r now s).0.passed ≡ true
        → through R (l ∷ ls) m path r now s ≡ through R ls m path r now (limiter R o r now s).1
    unfolding through
    through_pass e = rw (limited, e, through)

    through_refuse :
        (limiter R o r now s).0.passed ≡ false
        → through R (l ∷ ls) m path r now s
          ≡ (refused (limiter R o r now s).0, (limiter R o r now s).1)
    unfolding through
    through_refuse e = rw (limited, e, through)

-- Behind the open routes an application with file storage limits uploads.
after_uploads : AppDependencies → List Layer
after_uploads deps =
    upload_router
    ∷ upload_error_handler
    ∷ (download_layers deps ++ (job_layers deps ++ (event_layers deps ++ (not_found ∷ []))))

create_app_files :
    (deps : AppDependencies)
    → deps.storage ≡ true
    → deps.files ≡ true
    → create_app deps
      ≡ metrics_router
        ∷ health_live
        ∷ health_ready
        ∷ root_route
        ∷ rate_limit upload
        ∷ after_uploads deps
unfolding create_app after_uploads
create_app_files deps hs hf = rw (hs, hf)

-- The requests that no open route serves.
abbrev pub Guarded : Method → List Text → Type 0
Guarded m path = open_route m path ≡ none

Guarded-layers :
    (m : Method) (path : List Text)
    → Guarded m path
    → (serves metrics_router m path ≡ none)
      × (serves health_live m path ≡ none)
      × (serves health_ready m path ≡ none)
      × (serves root_route m path ≡ none)
unfolding or_else
Guarded-layers m path g = ground arith

module _ (R : Redis) (c : Counts R) where
  open c use {counter}

  limiter_up :
      (o : RateLimitOptions) (r : Request) (now : ℕ) (s : R.Store)
      → let k = counter_key o r now in
        (s' : R.Store) × (limiter R o r now (some s)
          ≡ (verdict o (some (suc (counter s k))), some s'))
        × ((j : Text) → counter s j ≤ counter s' j)
        × (counter s' k ≡ suc (counter s k))
  limiter_up o r now s =
      let (s', e, upd) = limiter_lem R c o r now s in
      (
        s',
        e,
        λ j. ground (arith, upd j),
        rw (upd (counter_key o r now)) (rw (text_eq_self (counter_key o r now))),
      )

  -- Any further layers keep the counters at least as high.
  through_mono :
      (ls : List Layer) (m : Method) (path : List Text) (r : Request) (now : ℕ) (s : R.Store)
      → (s' : R.Store) × ((through R ls m path r now (some s)).1 ≡ some s')
        × ((k : Text) → counter s k ≤ counter s' k)
  through_mono [] m path r now s = (s, unfold through in refl, λ k. omega arith)
  through_mono (l ∷ ls) m path r now s = elim (Option-cases (limit_of l m)) [
    | inl free ↦ elim (Option-cases (serves l m path)) [
      | inl later ↦
          rw (through_skip R l ls m path r now (some s) free later) (through_mono ls m path r now s)
      | inr (h, found) ↦
          rw (through_serve R l ls m path r now (some s) h free found) (s, refl, λ k. omega arith)
    ]
    | inr (o, limited) ↦
        let (s1, e, up, _) = limiter_up o r now s in
        let out = verdict o (some (suc (counter s (counter_key o r now)))) in
        elim (Bool-cases out.passed) [
          | inl go ↦
              let (s2, e2, up2) = through_mono ls m path r now s1 in
              rw (through_pass R l ls m path r now o (some s) limited (rw e go), e)
                (s2, e2, λ k. omega (arith, up k, up2 k))
          | inr stop ↦
              rw (through_refuse R l ls m path r now o (some s) limited (rw e stop), e)
                (s1, refl, up)
        ]
  ]

  handle-Guarded :
      (deps : AppDependencies) (m : Method) (path : List Text) (r : Request) (now : ℕ)
      (s : Option R.Store)
      → deps.storage ≡ true
      → deps.files ≡ true
      → Guarded m path
      → handle R deps m path r now s
        ≡ through R (rate_limit upload ∷ after_uploads deps) m path r now s
  unfolding handle limit_of
  handle-Guarded deps m path r now s hs hf g =
      let (g0, g1, g2, g3) = Guarded-layers m path g in
      let rest = rate_limit upload ∷ after_uploads deps in
      rw (create_app_files deps hs hf) (
        through_skip R metrics_router (health_live ∷ health_ready ∷ root_route ∷ rest) m path r now
          s refl g0
        ∙ through_skip R health_live (health_ready ∷ root_route ∷ rest) m path r now s refl g1
        ∙ through_skip R health_ready (root_route ∷ rest) m path r now s refl g2
        ∙ through_skip R root_route rest m path r now s refl g3)

  -- A request that got past the upload limiter added one to that limiter's counter, and found it
  -- below the limit.
  pub handled-Guarded :
      (deps : AppDependencies) (m : Method) (path : List Text) (r : Request) (now : ℕ) (s : R.Store)
      → deps.storage ≡ true
      → deps.files ≡ true
      → Guarded m path
      → let res = handle R deps m path r now (some s) in
        let k = counter_key upload r now in
        (s' : R.Store) × (res.1 ≡ some s')
        × ((j : Text) → counter s j ≤ counter s' j)
        × ((h : Handler)
            → res.0 ≡ handled h
            → (counter s k < 20) × (suc (counter s k) ≤ counter s' k))
  unfolding limit_of
  handled-Guarded deps m path r now s hs hf g =
      let k = counter_key upload r now in
      let (s1, e, up, one) = limiter_up upload r now s in
      let out = verdict upload (some (suc (counter s k))) in
      let rest = after_uploads deps in
      rw (handle-Guarded deps m path r now (some s) hs hf g) (elim (Bool-cases out.passed) [
        | inl go ↦
            let (s2, e2, up2) = through_mono rest m path r now s1 in
            let under = verdict_under upload (suc (counter s k)) go in
            rw
              (
                through_pass R (rate_limit upload) rest m path r now upload (some s) refl (rw e go),
                e,
              )
              (s2, e2, (λ j. omega (arith, up j, up2 j)), λ h q. omega (arith, up2 k))
        | inr stop ↦
            rw
              (
                through_refuse R (rate_limit upload) rest m path r now upload (some s) refl
                    (rw e stop),
                e,
              )
              (s1, refl, up, λ h q. cc)
      ])
