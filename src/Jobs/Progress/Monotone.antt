-- ===== src/Jobs/Progress/Monotone.antt =====
-- The percentages that are published for one job, and the marks that are kept.
use file_forge.Base.{
  ℕ, ◌≤◌, ◌<◌, ◌≡◌, refl, true, false, some, List, [], ◌∷◌, arith, ltb, if◌then◌else◌, Bool-cases,
  inl, inr, All,
}
use mathlib.Core.Path.{subst}
use file_forge.Base.Text.{Text, text_eq, text_eq_iff}
use file_forge.Jobs.Progress.{
  Marks, mark_of, set_mark, remove_mark, Heard, Published, at_beginning, on_the_way, started,
  progress, completed, failed, number_or_zero, on_progress, hear, hear_all,
}

mark_of-set :
    (j id : Text) (v : ℕ) (m : Marks)
    → mark_of j (set_mark id v m) ≡ (if text_eq j id then v else mark_of j m)
unfolding mark_of set_mark
mark_of-set j id v [] = refl
mark_of-set j id v ((k, n) ∷ m) =
    ground (arith, text_eq_iff j id, text_eq_iff id k, text_eq_iff j k, mark_of-set j id v m)

mark_of-remove :
    (j id : Text) (m : Marks) → text_eq j id ≡ false → mark_of j (remove_mark id m) ≡ mark_of j m
unfolding mark_of remove_mark
mark_of-remove j id [] h = refl
mark_of-remove j id ((k, n) ∷ m) h =
    ground (arith, text_eq_iff j id, text_eq_iff id k, text_eq_iff j k, mark_of-remove j id m)

-- The values published for `id` on the way never fall, and begin at `low` or above; an attempt begins at 0.
abbrev pub Rising : Text → ℕ → List Published → Type 0
Rising id low [] = Unit
Rising id low (at_beginning j v ∷ out) = (v ≡ 0) × Rising id low out
Rising id low (on_the_way j v ∷ out) =
    (text_eq id j ≡ true → low ≤ v) × Rising id (if text_eq id j then v else low) out

-- The job has not been reported as completed.
abbrev pub NotCompleted : Text → Heard → Type 0
NotCompleted id (completed j) = text_eq id j ≡ false
NotCompleted id _ = Unit

-- As long as a job is not reported as completed, the percentages that the listener of progress publishes
-- for it never go back, whatever is heard of it and of other jobs, failures and new attempts included, and
-- the first one is not below the mark that was kept before. Only what each attempt publishes as it begins
-- stands apart from the marks: it is always 0.
pub hear_all-Rising :
    (id : Text) (hs : List Heard) (m : Marks)
    → All (NotCompleted id) hs
    → Rising id (mark_of id m) (hear_all hs m).1
unfolding hear_all hear on_progress
hear_all-Rising id [] m h = tt
hear_all-Rising id (started j ∷ hs) m (_, h) = (refl, hear_all-Rising id hs m h)
hear_all-Rising id (progress j value ∷ hs) m (_, h) =
    elim (Bool-cases (ltb (number_or_zero value) (mark_of j m))) [
      | inl behind ↦ rw behind (hear_all-Rising id hs m h)
      | inr ahead ↦
          let v = number_or_zero value in
          let later = hear_all-Rising id hs (set_mark j v m) h in
          rw ahead (
            (λ same. at_mark j v m ((text_eq_iff id j).0 same) ahead),
            subst (λ low. Rising id low (hear_all hs (set_mark j v m)).1) (mark_of-set id j v m)
                later,
          )
    ]
  where
    at_mark :
        (j : Text) (v : ℕ) (m : Marks) → id ≡ j → ltb v (mark_of j m) ≡ false → mark_of id m ≤ v
    at_mark j v m e ahead = rw e (ground arith)
hear_all-Rising id (completed j ∷ hs) m (other, h) =
    subst (λ low. Rising id low (hear_all hs (remove_mark j m)).1) (mark_of-remove id j m other)
      (hear_all-Rising id hs (remove_mark j m) h)
hear_all-Rising id (failed j ∷ hs) m (_, h) = hear_all-Rising id hs m h

-- A mark that was set outlives the job's failure, and everything heard of other jobs: until the same
-- job is reported as completed, which a failed job never is, it stays.
pub mark_kept :
    (id : Text) (hs : List Heard) (m : Marks)
    → All (NotCompleted id) hs
    → mark_of id m ≤ mark_of id (hear_all hs m).0
unfolding hear_all hear on_progress
mark_kept id [] m h = omega arith
mark_kept id (started j ∷ hs) m (_, h) = mark_kept id hs m h
mark_kept id (progress j value ∷ hs) m (_, h) =
    elim (Bool-cases (ltb (number_or_zero value) (mark_of j m))) [
      | inl behind ↦ rw behind (mark_kept id hs m h)
      | inr ahead ↦
          let v = number_or_zero value in
          let later = mark_kept id hs (set_mark j v m) h in
          rw ahead (ground (arith, later, mark_of-set id j v m, text_eq_iff id j))
    ]
mark_kept id (completed j ∷ hs) m (other, h) =
    omega (arith, mark_kept id hs (remove_mark j m) h, mark_of-remove id j m other)
mark_kept id (failed j ∷ hs) m (_, h) = mark_kept id hs m h

-- A percentage below the mark of its job is not published and changes no mark, whatever has been
-- heard since the mark was set, as long as the job has not been reported as completed: so nothing is
-- published of an attempt until it has come as far as the failed ones before it.
pub retry_unheard :
    (id : Text) (value : ℕ) (hs : List Heard) (m : Marks)
    → All (NotCompleted id) hs
    → value < mark_of id m
    → let later = (hear_all hs m).0 in hear (progress id (some value)) later ≡ (later, [])
unfolding hear on_progress
retry_unheard id value hs m h behind =
    let kept = mark_kept id hs m h in
    let test : ltb value (mark_of id (hear_all hs m).0) ≡ true = ground arith in rw test refl
