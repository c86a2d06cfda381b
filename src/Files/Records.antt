-- ===== src/Files/Records.antt =====
-- files/repository.ts: records of files in Redis, and `incrementCounter` of metrics.ts. Redis, JSON
-- and the schema are parameters.
pub mod Kept
pub mod Memory
use file_forge.Base.{ℕ, ◌*◌, if◌then◌else◌, Bool, Option, none, some, ◌++◌, ◌==◌}
use file_forge.Base.Text.{Text, codes}

pub record FileRecord : Type 0 where
  pub id : Text
  pub storage_key : Text
  pub original_name : Text
  pub mime_type : Text
  pub size : ℕ
  pub uploaded_at : Text

-- JSON.parse and then safeParse: no JSON, JSON of another shape, a record.
pub data Parsed : Type 0 where
  not_json other_shape : Parsed
  parsed : FileRecord → Parsed

-- What is used of Redis and of JSON; `none` is a promise that rejects.
pub record Redis : Type 1 where
  pub Store : Type 0
  pub get : Text → Store → Option (Option Text)
  pub set_ex : Text → Text → ℕ → Store → Option (Unit {0}) × Store
  pub del : Text → Store → Option (Unit {0}) × Store
  pub count_existing : Text → Store → Option ℕ
  pub incrby : Text → ℕ → Store → Option (Unit {0}) × Store
  pub stringify : FileRecord → Text
  pub parse : Text → Parsed

-- DEFAULT_TTL_SECONDS
abbrev pub default_ttl_seconds : ℕ
default_ttl_seconds = 24 * 60 * 60

pub key_for : Text → Text
key_for id = codes "file:" ++ id

pub data Counter : Type 0 where
  uploads_total jobs_queued_total jobs_completed_total : Counter
  jobs_failed_total bytes_uploaded_total files_cleaned_total : Counter

-- The key of a counter in Redis.
pub counter_key : Counter → Text
counter_key uploads_total = codes "metrics:uploads_total"
counter_key jobs_queued_total = codes "metrics:jobs_queued_total"
counter_key jobs_completed_total = codes "metrics:jobs_completed_total"
counter_key jobs_failed_total = codes "metrics:jobs_failed_total"
counter_key bytes_uploaded_total = codes "metrics:bytes_uploaded_total"
counter_key files_cleaned_total = codes "metrics:files_cleaned_total"

module _ (R : Redis) where
  open R use {Store, set_ex, del, count_existing, incrby, stringify, parse}

  pub save : ℕ → FileRecord → Store → Option (Unit {0}) × Store
  unfolding key_for
  save ttl_seconds r s = set_ex (key_for r.id) (stringify r) ttl_seconds s

  -- The outer `none` is a rejection, of Redis or by JSON.parse.
  pub read_parsed : Parsed → Option (Option FileRecord)
  read_parsed not_json = none
  read_parsed other_shape = some none
  read_parsed (parsed r) = some (some r)

  pub read_raw : Option (Option Text) → Option (Option FileRecord)
  unfolding read_parsed
  read_raw none = none
  read_raw (some none) = some none
  read_raw (some (some raw)) = read_parsed (parse raw)

  unfoldable pub get : Text → Store → Option (Option FileRecord)
  unfolding read_raw key_for
  get id s = read_raw (R.get (key_for id) s)

  pub delete : Text → Store → Option (Unit {0}) × Store
  unfolding key_for
  delete id s = del (key_for id) s

  is_one : Option ℕ → Option Bool
  is_one none = none
  is_one (some n) = some (n == 1)

  pub exists : Text → Store → Option Bool
  unfolding is_one key_for
  exists id s = is_one (count_existing (key_for id) s)

  -- Best effort, and nothing without Redis.
  unfoldable pub increment_counter : Bool → Counter → ℕ → Store → Store
  unfolding counter_key
  increment_counter counting name by s = if counting then (incrby (counter_key name) by s).1 else s
