-- ===== src/RateLimit/Memory.antt =====
-- A Redis of counters in memory that meets what the theorems about limits assume.
use file_forge.Base.{ℕ, suc, refl, some, if◌then◌else◌}
use file_forge.Base.Text.{Text, text_eq}
use file_forge.RateLimit.{Redis}
use file_forge.RateLimit.Window.{Counts}

-- Counters as a function from keys; every command answers.
abbrev pub memory : Redis
memory = record {
  Store = Text → ℕ;
  incr = λ k s. (some (suc (s k)), λ j. if text_eq k j then suc (s j) else s j);
  expire = λ k w s. (some tt, s);
}

abbrev pub memory-Counts : Counts memory
memory-Counts = record {
  counter = λ s. s;
  incr_answers = λ k s. refl;
  counter-incr = λ k j s. refl;
  expire_answers = λ k w s. refl;
  counter-expire = λ k j w s. refl;
}
