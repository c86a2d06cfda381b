-- ===== src/Jobs/Progress.antt =====
-- jobs/worker.ts: what is published of a job while it is processed, with the high-water marks that keep its
-- progress from going back.
mod Monotone
mod Tests
use file_forge.Base.{
  ℕ, Bool, true, false, Option, none, some, List, [], ◌∷◌, ◌++◌, ltb, if◌then◌else◌,
}
use file_forge.Base.Text.{Text, text_eq}

abbrev pub Marks : Type 0
Marks = List (Text × ℕ)

-- `highWater.get(id) ?? 0`
pub mark_of : Text → Marks → ℕ
mark_of id [] = 0
mark_of id ((j, n) ∷ m) = if text_eq id j then n else mark_of id m

pub set_mark : Text → ℕ → Marks → Marks
set_mark id v [] = (id, v) ∷ []
set_mark id v ((j, n) ∷ m) = if text_eq id j then (j, v) ∷ m else (j, n) ∷ set_mark id v m

pub remove_mark : Text → Marks → Marks
remove_mark id [] = []
remove_mark id ((j, n) ∷ m) =
    let rest = remove_mark id m in if text_eq id j then rest else (j, n) ∷ rest

-- What becomes of a job, as far as it is published with a percentage or changes the marks: an attempt
-- begins, or one of the worker's listeners is called.
pub data Heard : Type 0 where
  started : Text → Heard
  progress : Text → Option ℕ → Heard  -- the value, if it is a number
  completed : Text → Heard
  failed : Text → Heard

-- What is published of a job that is being processed, with its percentage: by the attempt itself as it
-- begins, or by the listener of progress.
pub data Published : Type 0 where
  at_beginning : Text → ℕ → Published
  on_the_way : Text → ℕ → Published

number_or_zero : Option ℕ → ℕ
number_or_zero none = 0
number_or_zero (some n) = n

on_progress : Text → ℕ → Marks → Marks × List Published
unfolding mark_of set_mark
on_progress id value m =
    if ltb value (mark_of id m) then (m, []) else (set_mark id value m, on_the_way id value ∷ [])

-- The new marks and what is published. No listener of failures touches the marks.
pub hear : Heard → Marks → Marks × List Published
unfolding on_progress number_or_zero remove_mark
hear (started id) m = (m, at_beginning id 0 ∷ [])
hear (progress id value) m = on_progress id (number_or_zero value) m
hear (completed id) m = (remove_mark id m, [])
hear (failed id) m = (m, [])

pub hear_all : List Heard → Marks → Marks × List Published
hear_all [] m = (m, [])
hear_all (h ∷ hs) m =
    let (m1, out) = hear h m in let (m2, later) = hear_all hs m1 in (m2, out ++ later)
