-- ===== src/Config/Tests.antt =====
-- The settings where no variable is set.
use file_forge.Base.{◌≡◌, refl, true, none, some, []}
use file_forge.Base.Text.{codes}
use file_forge.Config.{ProcessEnv, Config, Zod, fine, load_config}
use file_forge.Config.Bounds.{IsValid, load_config-IsValid}

abbrev zod : Zod
zod = record { natural = λ t. some 70000; is_url = λ t. true; message = λ name v. codes "Invalid" }

abbrev unset : ProcessEnv
unset = record {
  node_env = none;
  port = none;
  redis_url = none;
  storage_dir = none;
  max_upload_bytes = none;
  log_level = none;
  download_secret = none;
  download_ttl_seconds = none;
  file_retention_hours = none;
  cleanup_interval_minutes = none;
}

abbrev defaults : Config
defaults = record {
  node_env = codes "development";
  port = 3000;
  redis_url = codes "redis://localhost:6379";
  storage_dir = codes "./storage";
  max_upload_bytes = 52428800;
  log_level = codes "info";
  download_secret = [];
  download_ttl_seconds = 900;
  file_retention_hours = 24;
  cleanup_interval_minutes = 60;
}

unset-defaults : load_config zod unset ≡ fine defaults
unfolding load_config
unset-defaults = refl

load_config-IsValid_example : IsValid zod defaults
load_config-IsValid_example = load_config-IsValid zod refl unset defaults unset-defaults
