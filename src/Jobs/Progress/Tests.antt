-- ===== src/Jobs/Progress/Tests.antt =====
-- Two attempts at a job, the first of which failed at forty percent.
use file_forge.Base.{List, [], ◌∷◌, some}
use file_forge.Base.Text.{codes}
use file_forge.Jobs.Progress.{Heard, started, progress, failed, mark_of, hear_all}
use file_forge.Jobs.Progress.Monotone.{Rising, hear_all-Rising}

abbrev heard : List Heard
heard =
    started (codes "7")
    ∷ progress (codes "7") (some 40)
    ∷ failed (codes "7")
    ∷ started (codes "7")
    ∷ progress (codes "7") (some 10)
    ∷ progress (codes "7") (some 60)
    ∷ []

hear_all-Rising_example : Rising (codes "7") (mark_of (codes "7") []) (hear_all heard []).1
hear_all-Rising_example =
    hear_all-Rising (codes "7") heard [] (tt, (tt, (tt, (tt, (tt, (tt, tt))))))
