-- ===== src/App.antt =====
-- app.ts: which middleware and routers createApp mounts, in which order, and what a request meets
-- on its way through them. Express is read as documented: layers run in the order of `app.use`, and
-- a layer mounted without a path sees every request that reaches it. The handlers' own work is
-- modelled with their components; here a handler is a name.
mod Limits
mod Capped
mod Routing
mod Answers
mod Tests
use Prim.Native.String.{String}
use file_forge.Base.{
  ℕ, Bool, true, false, ◌&&◌, Option, none, some, List, [], ◌∷◌, ◌++◌, if◌then◌else◌,
}
use file_forge.Base.Text.{Text, codes, text_eq}
use file_forge.RateLimit.{RateLimitOptions, Redis, Request, Outcome, limiter}
use file_forge.RateLimit.Limits.{read, upload, job, status}

-- The dependencies that decide which routers are mounted.
pub record AppDependencies : Type 0 where
  pub storage : Bool
  pub files : Bool
  pub queue : Bool
  pub subscriber : Bool

pub data Method : Type 0 where
  get post other : Method

-- The request handlers, by what they do.
pub data Handler : Type 0 where
  show_status show_metrics live ready index : Handler
  post_upload post_link post_job : Handler
  get_upload get_job watch_job : Text → Handler
  download : List Text → Handler
  no_route : Handler

pub data Layer : Type 0 where
  metrics_router health_live health_ready root_route : Layer
  rate_limit : RateLimitOptions → Layer
  upload_router upload_error_handler download_router : Layer
  job_traffic job_router event_router not_found : Layer

file_layers : AppDependencies → List Layer
file_layers deps =
    if deps.storage && deps.files
    then rate_limit upload ∷ upload_router ∷ upload_error_handler ∷ []
    else []

download_layers : AppDependencies → List Layer
download_layers deps = if deps.storage then rate_limit read ∷ download_router ∷ [] else []

job_layers : AppDependencies → List Layer
job_layers deps = if deps.queue && deps.files then job_traffic ∷ job_router ∷ [] else []

event_layers : AppDependencies → List Layer
event_layers deps = if deps.queue && deps.subscriber then event_router ∷ [] else []

pub create_app : AppDependencies → List Layer
unfolding file_layers download_layers job_layers event_layers
create_app deps =
    metrics_router
    ∷ health_live
    ∷ health_ready
    ∷ root_route
    ∷ (file_layers deps
        ++ (download_layers deps ++ (job_layers deps ++ (event_layers deps ++ (not_found ∷ [])))))

-- One literal segment, and a literal segment with what stands behind it.
only : String → List Text → Handler → Option Handler
only name (s ∷ []) h = if text_eq s (codes name) then some h else none
only name _ h = none

below : String → (List Text → Option Handler) → List Text → Option Handler
below name k (s ∷ more) = if text_eq s (codes name) then k more else none
below name k [] = none

one_param : (Text → Handler) → List Text → Option Handler
one_param h (id ∷ []) = some (h id)
one_param h _ = none

splat : List Text → Option Handler
splat [] = none
splat parts = some (download parts)

events_of : List Text → Option Handler
events_of (id ∷ tail ∷ []) = if text_eq tail (codes "events") then some (watch_job id) else none
events_of _ = none

pub or_else : Option Handler → Option Handler → Option Handler
or_else (some h) k = some h
or_else none k = k

-- The routes of each layer, tried in the order in which the source registers them.
pub serves : Layer → Method → List Text → Option Handler
unfolding only below one_param splat events_of or_else
serves metrics_router get path =
    or_else (only "status" path show_status) (only "metrics" path show_metrics)
serves health_live get path = below "health" (λ p. only "live" p live) path
serves health_ready get path = below "health" (λ p. only "ready" p ready) path
serves root_route get [] = some index
serves upload_router post path = only "uploads" path post_upload
serves upload_router get path = below "uploads" (one_param get_upload) path
serves download_router get path = below "files" splat path
serves download_router post path = below "files" (λ p. only "links" p post_link) path
serves job_router post path = only "jobs" path post_job
serves job_router get path = below "jobs" (one_param get_job) path
serves event_router get path = below "jobs" events_of path
serves not_found m path = some no_route
serves _ m path = none

-- `jobTraffic`
traffic_limit : Method → RateLimitOptions
traffic_limit post = job
traffic_limit _ = status

pub limit_of : Layer → Method → Option RateLimitOptions
unfolding traffic_limit
limit_of (rate_limit options) m = some options
limit_of job_traffic m = some (traffic_limit m)
limit_of _ m = none

pub data Answer : Type 0 where
  handled : Handler → Answer
  refused : Outcome → Answer
  unanswered : Answer

module _ (R : Redis) where
  open R use {Store}

  -- A request's way through the layers.
  pub through : List Layer → Method → List Text → Request → ℕ → Option Store → Answer × Option Store
  unfolding serves limit_of
  through [] m path req now s = (unanswered, s)
  through (l ∷ ls) m path req now s = elim (limit_of l m) [
    | none ↦ elim (serves l m path) [ some h ↦ (handled h, s) | none ↦ through ls m path req now s ]
    | some options ↦
        let res = limiter R options req now s in
        elim res.0.passed [
          | true ↦ through ls m path req now res.1
          | false ↦ (refused res.0, res.1)
        ]
  ]

  pub handle :
      AppDependencies → Method → List Text → Request → ℕ → Option Store → Answer × Option Store
  unfolding through create_app
  handle deps m path req now s = through (create_app deps) m path req now s
