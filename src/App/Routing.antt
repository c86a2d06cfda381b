-- ===== src/App/Routing.antt =====
-- Every request is answered.
use file_forge.Base.{
  ℕ, ◌≡◌, ◌≢◌, Bool, true, false, List, [], ◌∷◌, Option, none, some, inl, inr, arith, Option-cases,
  if◌then◌else◌,
}
use file_forge.Base.Text.{Text}
use file_forge.RateLimit.{Redis, Request, RateLimitOptions, limiter}
use file_forge.RateLimit.Window.{limiter_without_redis, open_pass-passed}
use file_forge.App.Limits.{through_pass}
use file_forge.App.{
  AppDependencies, Method, Handler, Layer, not_found, no_route, create_app, serves, limit_of,
  or_else, handled, unanswered, through, handle,
}

-- The handler of the first layer that has a route for the request.
abbrev pub route : List Layer → Method → List Text → Option Handler
route [] m path = none
route (l ∷ ls) m path = or_else (serves l m path) (route ls m path)

abbrev is_fallback : Layer → Bool
is_fallback not_found = true
is_fallback _ = false

abbrev has_fallback : List Layer → Bool
has_fallback [] = false
has_fallback (l ∷ ls) = if is_fallback l then true else has_fallback ls

create_app_fallback : (deps : AppDependencies) → has_fallback (create_app deps) ≡ true
unfolding create_app
create_app_fallback deps = ground arith

limiter_serves-none :
    (l : Layer) (m : Method) (path : List Text) {o : RateLimitOptions}
    → limit_of l m ≡ some o
    → (serves l m path ≡ none) × (is_fallback l ≡ false)
unfolding limit_of serves
limiter_serves-none l m path e = ground arith

fallback_serves :
    (l : Layer) (m : Method) (path : List Text)
    → is_fallback l ≡ true
    → (limit_of l m ≡ none) × (serves l m path ≡ some no_route)
unfolding limit_of serves
fallback_serves l m path e = ground arith

module _ (R : Redis) (m : Method) (path : List Text) (r : Request) (now : ℕ) where
  through_answers :
      (ls : List Layer) (s : Option R.Store)
      → has_fallback ls ≡ true
      → (through R ls m path r now s).0 ≢ unanswered
  unfolding through
  through_answers [] s h = cc
  through_answers (l ∷ ls) s h = elim (Option-cases (limit_of l m)) [
    | inl free ↦ ground (arith, through_answers ls s, fallback_serves l m path)
    | inr (o, limited) ↦ ground (
      arith,
      limiter_serves-none l m path {o = o} limited,
      through_answers ls (limiter R o r now s).1,
    )
  ]

  through_routed :
      (ls : List Layer)
      → has_fallback ls ≡ true
      → (h : Handler) × (route ls m path ≡ some h)
        × (through R ls m path r now none ≡ (handled h, none))
  unfolding through or_else
  through_routed [] h = cc
  through_routed (l ∷ ls) h = elim (Option-cases (limit_of l m)) [
    | inl free ↦ elim (Option-cases (serves l m path)) [
      | inr (found, at) ↦ (found, rw (at, or_else), rw (free, at, through))
      | inl later ↦
          let (found, at, came) = through_routed ls (ground (arith, fallback_serves l m path)) in
          (found, rw (later, or_else) at, rw (free, later, through) came)
    ]
    | inr (o, limited) ↦
        let (unserved, more) = limiter_serves-none l m path {o = o} limited in
        let (found, at, came) = through_routed ls (rw more at h) in
        (
          found,
          rw (unserved, or_else) at,
          rw
              (
                through_pass R l ls m path r now o none limited
                    (rw (limiter_without_redis R o r now) open_pass-passed),
                limiter_without_redis R o r now,
              )
              came,
        )
  ]

-- Whatever Redis does, every request gets an answer: a handler's, the 404 handler's or a refusal.
pub handle_answers :
    (R : Redis) (deps : AppDependencies) (m : Method) (path : List Text) (r : Request) (now : ℕ)
    (s : Option R.Store)
    → (handle R deps m path r now s).0 ≢ unanswered
unfolding handle
handle_answers R deps m path r now s =
    through_answers R m path r now (create_app deps) s (create_app_fallback deps)

-- Without Redis no request is refused: each reaches the first mounted layer that has a route for
-- it, the limiters and their order playing no part.
pub handle_without_redis :
    (R : Redis) (deps : AppDependencies) (m : Method) (path : List Text) (r : Request) (now : ℕ)
    → (h : Handler) × (route (create_app deps) m path ≡ some h)
      × (handle R deps m path r now none ≡ (handled h, none))
unfolding handle
handle_without_redis R deps m path r now =
    through_routed R m path r now (create_app deps) (create_app_fallback deps)
