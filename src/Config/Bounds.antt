-- ===== src/Config/Bounds.antt =====
-- What is known of settings that were loaded, and when they are refused.
use mathlib.Core.Path.{subst}
use mathlib.Core.Bool.{false≢true}
use file_forge.Base.{
  ℕ, ◌≤◌, ◌≡◌, ◌≢◌, refl, ap, ◌∙◌, Bool, true, false, Option, none, some, List, if◌then◌else◌,
  arith,
}
use file_forge.Base.Text.{Text, codes, has, text_eq}
use file_forge.Contract.{◌>>=◌}
use file_forge.Config.{
  ProcessEnv, Config, Zod, Checked, fine, issue, value, node_envs, log_levels, issue_line, in_range,
  number_or, one_of_or, url_or, node_env_of, port_of, redis_url_of, max_upload_of, log_level_of,
  ttl_of, retention_of, interval_of, all_issues, assembled, loaded_or_refused, load_config,
}

pub bound-some :
    {A B : Type 0} (m : Option A) (f : A → Option B) (b : B)
    → (m >>= f) ≡ some b
    → (a : A) × (m ≡ some a) × (f a ≡ some b)
bound-some none f b e = cc
bound-some (some a) f b e = (a, refl, e)

value-fine : {A : Type 0} (x : Checked A) (a : A) → value x ≡ some a → x ≡ fine a
value-fine (fine b) a e = cc
value-fine (issue line) a e = cc

abbrev is_fine : {A : Type 0} → Checked A → Bool
is_fine (fine b) = true
is_fine (issue line) = false

issue≢fine : {A : Type 0} {a : A} {line : Text} → issue line ≢ fine a
issue≢fine e = false≢true (ap is_fine e)

abbrev or_value : {A : Type 0} → A → Checked A → A
or_value a (fine b) = b
or_value a (issue line) = a

fine-injective : {A : Type 0} {a b : A} → fine a ≡ fine b → a ≡ b
fine-injective {A} {a} e = ap (or_value a) e

tested_fine :
    {A : Type 0} (b : Bool) (a u : A) (line : Text)
    → (if b then fine a else issue line) ≡ fine u
    → (b ≡ true) × (a ≡ u)
tested_fine true a u line e = (refl, fine-injective e)
tested_fine false a u line e = absurd (issue≢fine e)

-- A number that a setting may have.
abbrev pub Within : Option ℕ → ℕ → Type 0
Within none n = 1 ≤ n
Within (some high) n = (1 ≤ n) × (n ≤ high)

module _ (Z : Zod) where
  in_range-Within :
      (name : Text) (high : Option ℕ) (v : Option Text) (x : Option ℕ) (n : ℕ)
      → in_range Z name high v x ≡ fine n
      → Within high n
  unfolding in_range issue_line
  in_range-Within name none v none n e = cc
  in_range-Within name (some high) v none n e = cc
  in_range-Within name none v (some m) n e = ground (arith, e)
  in_range-Within name (some high) v (some m) n e = ground (arith, e)

  number_or-Within :
      (name : Text) (default : ℕ) (high : Option ℕ) (v : Option Text) (n : ℕ)
      → Within high default
      → number_or Z name default high v ≡ fine n
      → Within high n
  unfolding number_or
  number_or-Within name default high none n h e = subst (Within high) (fine-injective e) h
  number_or-Within name default high (some t) n h e =
      in_range-Within name high (some t) (Z.natural t) n e

  one_of_or-has :
      (name default : Text) (names : List Text) (v : Option Text) (t : Text)
      → has default names ≡ true
      → one_of_or Z name default names v ≡ fine t
      → has t names ≡ true
  unfolding one_of_or issue_line
  one_of_or-has name default names none t h e = subst (λ u. has u names ≡ true) (fine-injective e) h
  one_of_or-has name default names (some u) t h e =
      let (known, same) = tested_fine (has u names) u t _ e in
      subst (λ x. has x names ≡ true) same known

  url_or-IsUrl :
      (name default : Text) (v : Option Text) (t : Text)
      → Z.is_url default ≡ true
      → url_or Z name default v ≡ fine t
      → Z.is_url t ≡ true
  unfolding url_or issue_line
  url_or-IsUrl name default none t h e = subst (λ u. Z.is_url u ≡ true) (fine-injective e) h
  url_or-IsUrl name default (some u) t h e =
      let (known, same) = tested_fine (Z.is_url u) u t _ e in
      subst (λ x. Z.is_url x ≡ true) same known

some-injective : {A : Type 0} {a b : A} → some a ≡ some b → a ≡ b
some-injective {A} {a} e = ap (λ o. elim o [ none ↦ a | some b ↦ b ]) e

-- The settings that a loaded configuration may have.
pub record IsValid (Z : Zod) (c : Config) : Type 0 where
  pub known_env : has c.node_env node_envs ≡ true
  pub port_bounds : Within (some 65535) c.port
  pub url : Z.is_url c.redis_url ≡ true
  pub some_upload : 1 ≤ c.max_upload_bytes
  pub known_level : has c.log_level log_levels ≡ true
  pub some_ttl : 1 ≤ c.download_ttl_seconds
  pub some_retention : 1 ≤ c.file_retention_hours
  pub some_interval : 1 ≤ c.cleanup_interval_minutes

abbrev default_url : Text
default_url = codes "redis://localhost:6379"

module _ (Z : Zod) (url_ok : Z.is_url default_url ≡ true) (env : ProcessEnv) where
  assembled-IsValid : (c : Config) → assembled Z env ≡ some c → IsValid Z c
  unfolding assembled node_env_of port_of redis_url_of max_upload_of log_level_of ttl_of
      retention_of interval_of text_eq
  assembled-IsValid c e =
      let (mode, h1, e1) = bound-some (value (node_env_of Z env)) _ c e in
      let (port, h2, e2) = bound-some (value (port_of Z env)) _ c e1 in
      let (url, h3, e3) = bound-some (value (redis_url_of Z env)) _ c e2 in
      let (most, h4, e4) = bound-some (value (max_upload_of Z env)) _ c e3 in
      let (level, h5, e5) = bound-some (value (log_level_of Z env)) _ c e4 in
      let (ttl, h6, e6) = bound-some (value (ttl_of Z env)) _ c e5 in
      let (hours, h7, e7) = bound-some (value (retention_of Z env)) _ c e6 in
      let (minutes, h8, e8) = bound-some (value (interval_of Z env)) _ c e7 in
      subst (IsValid Z) (some-injective e8) (record {
        known_env =
            one_of_or-has Z (codes "nodeEnv") (codes "development") node_envs env.node_env mode refl
              (value-fine _ _ h1);
        port_bounds =
            number_or-Within Z (codes "port") 3000 (some 65535) env.port port (omega arith)
              (value-fine _ _ h2);
        url =
            url_or-IsUrl Z (codes "redisUrl") default_url env.redis_url url url_ok
              (value-fine _ _ h3);
        some_upload =
            number_or-Within Z (codes "maxUploadBytes") 52428800 none env.max_upload_bytes most
              (omega arith) (value-fine _ _ h4);
        known_level =
            one_of_or-has Z (codes "logLevel") (codes "info") log_levels env.log_level level refl
              (value-fine _ _ h5);
        some_ttl =
            number_or-Within Z (codes "downloadTtlSeconds") 900 none env.download_ttl_seconds ttl
              (omega arith) (value-fine _ _ h6);
        some_retention =
            number_or-Within Z (codes "fileRetentionHours") 24 none env.file_retention_hours hours
              (omega arith) (value-fine _ _ h7);
        some_interval =
            number_or-Within Z (codes "cleanupIntervalMinutes") 60 none env.cleanup_interval_minutes
              minutes (omega arith) (value-fine _ _ h8);
      })

  -- The settings that the server starts with are valid: the port is from 1 to 65535, the numbers of
  -- bytes, seconds, hours and minutes are at least 1, the environment and the log level are among
  -- those of the schema and the Redis URL is a URL, as the default one is assumed to be.
  pub load_config-IsValid : (c : Config) → load_config Z env ≡ fine c → IsValid Z c
  unfolding load_config loaded_or_refused
  load_config-IsValid c e = by_result (assembled Z env) refl e
    where
      by_result :
          (o : Option Config)
          → assembled Z env ≡ o
          → loaded_or_refused Z o (all_issues Z env) ≡ fine c
          → IsValid Z c
      by_result none a b = absurd (issue≢fine b)
      by_result (some d) a b = assembled-IsValid c (a ∙ ap (λ x. some x) (fine-injective b))
