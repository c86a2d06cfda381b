-- ===== src/Jobs/Options.antt =====
-- How the processors read the options of a job: the readings of zod that their schemas are made of,
-- and the error for options that a schema refuses.
use file_forge.Base.{ℕ, Bool, true, Option, none, some, List, ◌++◌}
use file_forge.Base.Text.{Text}
use file_forge.Jobs.{invalid_options, JobPayload}
use file_forge.Jobs.Context.{Run, return, raise}

-- What zod reads of an option's JSON text.
pub record Zod : Type 0 where
  -- `z.coerce.number()`, where it gives a natural number; negative numbers, fractions and NaN are
  -- refused by every schema here.
  pub natural : Text → Option ℕ
  -- `z.coerce.boolean()`
  pub truthy : Text → Bool
  -- The value of a JSON string.
  pub string : Text → Option Text
  -- The items of a JSON array of strings.
  pub strings : Text → Option (List Text)
  -- `parsed.error.issues[0]?.message`
  pub first_issue : List (Text × Text) → Text

unfoldable pub truthy_or_true : Zod → Option Text → Bool
truthy_or_true Z none = true
truthy_or_true Z (some v) = Z.truthy v

unfoldable pub options_or_raise : {W A : Type 0} → Zod → Text → JobPayload → Option A → Run W A
options_or_raise Z name p none = raise (invalid_options (name ++ Z.first_issue p.options))
options_or_raise Z name p (some o) = return o
