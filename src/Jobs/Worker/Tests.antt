-- ===== src/Jobs/Worker/Tests.antt =====
-- A job with three attempts.
use file_forge.Base.{◌+◌, refl, ◌||◌, some, arith, leb}
use file_forge.Base.Text.{codes}
use file_forge.Jobs.{image_resize, other, is_unrecoverable, threw, Outcome}
use file_forge.Jobs.Worker.{Job, attempts_or_one}
use file_forge.Jobs.Worker.Life.{GivesUp, Life, told, told-Life}

abbrev fresh : Job
fresh = record { id = codes "7"; operation = image_resize; attempts_made = 0; attempts = some 3 }

abbrev gives_up : GivesUp
gives_up e job = is_unrecoverable e || leb (attempts_or_one job.attempts) (job.attempts_made + 1)

abbrev flaky : Job → Outcome
flaky job = threw (other (codes "Redis is away"))

told-Life_example : Life (told gives_up flaky 3 fresh)
told-Life_example = told-Life gives_up flaky 3 fresh (λ e job. refl) (omega arith) (omega arith)
