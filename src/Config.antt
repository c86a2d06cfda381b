-- ===== src/Config.antt =====
-- config.ts: the settings, read from the environment. A variable that is not set is `none`.
pub mod Bounds
pub mod Refused
mod Tests
use file_forge.Base.{
  ℕ, ◌*◌, Bool, true, false, ◌&&◌, Option, none, some, List, [], ◌∷◌, ◌++◌, leb, if◌then◌else◌,
}
use file_forge.Contract.{◌>>=◌}
use file_forge.Base.Text.{Text, codes, text_eq, has, joined_lines}

pub record ProcessEnv : Type 0 where
  pub node_env : Option Text
  pub port : Option Text
  pub redis_url : Option Text
  pub storage_dir : Option Text
  pub max_upload_bytes : Option Text
  pub log_level : Option Text
  pub download_secret : Option Text
  pub download_ttl_seconds : Option Text
  pub file_retention_hours : Option Text
  pub cleanup_interval_minutes : Option Text

pub record Config : Type 0 where
  pub node_env : Text
  pub port : ℕ
  pub redis_url : Text
  pub storage_dir : Text
  pub max_upload_bytes : ℕ
  pub log_level : Text
  pub download_secret : Text
  pub download_ttl_seconds : ℕ
  pub file_retention_hours : ℕ
  pub cleanup_interval_minutes : ℕ

-- What is used of zod.
pub record Zod : Type 0 where
  -- `z.coerce.number().int()`, where it gives a natural number; every schema here refuses negative
  -- ones.
  pub natural : Text → Option ℕ
  -- `z.string().url()`
  pub is_url : Text → Bool
  -- The message of an issue, for the name of a setting and its variable.
  pub message : Text → Option Text → Text

-- A setting, or the line about it in the error.
pub data Checked (A : Type 0) : Type 0 where
  fine : A → Checked A
  issue : Text → Checked A

abbrev pub node_envs : List Text
node_envs = codes "development" ∷ codes "test" ∷ codes "production" ∷ []

abbrev pub log_levels : List Text
log_levels =
    codes "fatal" ∷ codes "error" ∷ codes "warn" ∷ codes "info" ∷ codes "debug" ∷ codes "trace" ∷ []

abbrev value : {A : Type 0} → Checked A → Option A
value (fine a) = some a
value (issue line) = none

issues_of : {A : Type 0} → Checked A → List Text
issues_of (fine a) = []
issues_of (issue line) = line ∷ []

module _ (Z : Zod) where
  issue_line : {A : Type 0} → Text → Option Text → Checked A
  issue_line name v = issue (codes "  " ++ (name ++ (codes ": " ++ Z.message name v)))

  -- `.min(1)` or `.positive()`, and `.max`, where there is one.
  in_range : Text → Option ℕ → Option Text → Option ℕ → Checked ℕ
  unfolding issue_line
  in_range name high v none = issue_line name v
  in_range name none v (some n) = if leb 1 n then fine n else issue_line name v
  in_range name (some high) v (some n) = if leb 1 n && leb n high then fine n else issue_line name v

  number_or : Text → ℕ → Option ℕ → Option Text → Checked ℕ
  unfolding in_range
  number_or name default high none = fine default
  number_or name default high (some t) = in_range name high (some t) (Z.natural t)

  one_of_or : Text → Text → List Text → Option Text → Checked Text
  unfolding issue_line
  one_of_or name default names none = fine default
  one_of_or name default names (some t) = if has t names then fine t else issue_line name (some t)

  url_or : Text → Text → Option Text → Checked Text
  unfolding issue_line
  url_or name default none = fine default
  url_or name default (some t) = if Z.is_url t then fine t else issue_line name (some t)

  text_or : Text → Option Text → Text
  text_or default none = default
  text_or default (some t) = t

  node_env_of : ProcessEnv → Checked Text
  unfolding one_of_or
  node_env_of env = one_of_or (codes "nodeEnv") (codes "development") node_envs env.node_env

  port_of : ProcessEnv → Checked ℕ
  unfolding number_or
  port_of env = number_or (codes "port") 3000 (some 65535) env.port

  redis_url_of : ProcessEnv → Checked Text
  unfolding url_or
  redis_url_of env = url_or (codes "redisUrl") (codes "redis://localhost:6379") env.redis_url

  max_upload_of : ProcessEnv → Checked ℕ
  unfolding number_or
  max_upload_of env =
      number_or (codes "maxUploadBytes") (50 * 1024 * 1024) none env.max_upload_bytes

  log_level_of : ProcessEnv → Checked Text
  unfolding one_of_or
  log_level_of env = one_of_or (codes "logLevel") (codes "info") log_levels env.log_level

  ttl_of : ProcessEnv → Checked ℕ
  unfolding number_or
  ttl_of env = number_or (codes "downloadTtlSeconds") (15 * 60) none env.download_ttl_seconds

  retention_of : ProcessEnv → Checked ℕ
  unfolding number_or
  retention_of env = number_or (codes "fileRetentionHours") 24 none env.file_retention_hours

  interval_of : ProcessEnv → Checked ℕ
  unfolding number_or
  interval_of env = number_or (codes "cleanupIntervalMinutes") 60 none env.cleanup_interval_minutes

  -- The issues, in the order of the schema.
  pub all_issues : ProcessEnv → List Text
  unfolding issues_of node_env_of port_of redis_url_of max_upload_of log_level_of ttl_of
      retention_of interval_of
  all_issues env =
      issues_of (node_env_of env)
      ++ (issues_of (port_of env)
          ++ (issues_of (redis_url_of env)
              ++ (issues_of (max_upload_of env)
                  ++ (issues_of (log_level_of env)
                      ++ (issues_of (ttl_of env)
                          ++ (issues_of (retention_of env) ++ issues_of (interval_of env)))))))

  assembled : ProcessEnv → Option Config
  unfolding text_or node_env_of port_of redis_url_of max_upload_of log_level_of ttl_of retention_of
      interval_of
  assembled env = do
    mode ← value (node_env_of env)
    port ← value (port_of env)
    url ← value (redis_url_of env)
    most ← value (max_upload_of env)
    level ← value (log_level_of env)
    ttl ← value (ttl_of env)
    hours ← value (retention_of env)
    minutes ← value (interval_of env)
    some (record {
      node_env = mode;
      port = port;
      redis_url = url;
      storage_dir = text_or (codes "./storage") env.storage_dir;
      max_upload_bytes = most;
      log_level = level;
      download_secret = text_or [] env.download_secret;
      download_ttl_seconds = ttl;
      file_retention_hours = hours;
      cleanup_interval_minutes = minutes;
    })

  loaded_or_refused : Option Config → List Text → Checked Config
  unfolding joined_lines
  loaded_or_refused none issues = issue (codes "Invalid configuration:\n" ++ joined_lines issues)
  loaded_or_refused (some c) issues = fine c

  -- loadConfig, whose `issue` is the message of the error that it throws.
  pub load_config : ProcessEnv → Checked Config
  unfolding assembled all_issues loaded_or_refused
  load_config env = loaded_or_refused (assembled env) (all_issues env)

-- isProduction
pub is_production : Config → Bool
is_production c = text_eq c.node_env (codes "production")
