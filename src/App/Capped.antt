-- ===== src/App/Capped.antt =====
-- The upload allowance bounds everything that is mounted behind the upload limiter.
use file_forge.Base.{
  ℕ, ◌+◌, ◌-◌, ◌≤◌, ◌≡◌, refl, Bool, true, false, ◌&&◌, List, [], ◌∷◌, Option, some, inl, inr,
  arith, if◌then◌else◌, Bool-cases, All,
}
use file_forge.Base.Text.{Text, text_eq, text_eq_iff}
use file_forge.RateLimit.{Redis, Request, counter_key}
use file_forge.RateLimit.Limits.{upload}
use file_forge.RateLimit.Window.{Counts}
use file_forge.App.{AppDependencies, Method, Handler, Answer, handled, refused, unanswered, handle}
use file_forge.App.Limits.{Guarded, handled-Guarded}

pub record Visit : Type 0 where
  pub method : Method
  pub path : List Text
  pub request : Request
  pub now : ℕ

abbrev pub is_handled : Answer → Bool
is_handled (handled h) = true
is_handled (refused o) = false
is_handled unanswered = false

is_handled_sound : (a : Answer) → is_handled a ≡ true → (h : Handler) × (a ≡ handled h)
is_handled_sound (handled h) e = (h, refl)
is_handled_sound (refused o) e = cc
is_handled_sound unanswered e = cc

abbrev pub upload_key : Visit → Text
upload_key v = counter_key upload v.request v.now

module _ (R : Redis) where
  -- How many of the visits that the upload limiter counts under `k` reach a handler.
  abbrev pub served : AppDependencies → Text → List Visit → Option R.Store → ℕ
  served deps k [] s = 0
  served deps k (v ∷ vs) s =
      let res = handle R deps v.method v.path v.request v.now s in
      (if text_eq (upload_key v) k && is_handled res.0 then 1 else 0) + served deps k vs res.1

module _ (R : Redis) (c : Counts R) where
  open c use {counter}

  -- With file storage configured and a Redis that counts, the requests of one client in one window
  -- that reach any handler behind the open routes, reads of job states and downloads included, are
  -- at most what is left of the 20 requests of the upload allowance.
  pub served-le-upload :
      (deps : AppDependencies) (k : Text) (vs : List Visit) (s : R.Store)
      → deps.storage ≡ true
      → deps.files ≡ true
      → All (λ v. Guarded v.method v.path) vs
      → served R deps k vs (some s) ≤ 20 - counter s k
  served-le-upload deps k [] s hs hf g = omega arith
  served-le-upload deps k (v ∷ vs) s hs hf (g, gs) =
      let (s', e, mono, up) = handled-Guarded R c deps v.method v.path v.request v.now s hs hf g in
      let rest = served-le-upload deps k vs s' hs hf gs in
      let answer = (handle R deps v.method v.path v.request v.now (some s)).0 in
      rw e (elim (Bool-cases (text_eq (upload_key v) k)) [
        | inr other ↦ rw other (omega (arith, rest, mono k))
        | inl same ↦ elim (Bool-cases (is_handled answer)) [
          | inr lost ↦ rw (same, lost) (omega (arith, rest, mono k))
          | inl kept ↦
              let at_k = (text_eq_iff (upload_key v) k).0 same in
              let (h, q) = is_handled_sound answer kept in
              let risen = rw at_k at (up h q) in rw (same, kept) (omega (arith, rest, risen))
        ]
      ])
