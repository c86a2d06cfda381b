-- ===== src/Csv/Validate/Report.antt =====
-- The report against a description of it that looks at the whole file at once.
use file_forge.Base.{
  ℕ, ◌+◌, ◌≤◌, ◌<◌, ◌≡◌, ◌≢◌, refl, sym, ◌∙◌, ap, Bool, true, false, not, ◌&&◌, none, some, List,
  [], ◌∷◌, ◌++◌, arith, ltb, ◌==◌, length, take, if◌then◌else◌, Bool-cases, inl, inr,
}
use mathlib.Core.List.{append_assoc}
use file_forge.Base.Text.{Text}
use file_forge.Csv.{max_rows, max_examples}
use file_forge.Csv.Validate.{
  ValidationReport, all_empty, adopt_width, note_width, note_empty, count_row, inspect_data,
  inspect,
}

-- How many rows have a property, and the numbers of those that do, counting from `n`.
abbrev pub count : (List Text → Bool) → List (List Text) → ℕ
count p [] = 0
count p (row ∷ rows) = (if p row then 1 else 0) + count p rows

abbrev pub numbers_where : (List Text → Bool) → ℕ → List (List Text) → List ℕ
numbers_where p n [] = []
numbers_where p n (row ∷ rows) =
    let rest = numbers_where p (n + 1) rows in if p row then n ∷ rest else rest

abbrev pub differs : ℕ → List Text → Bool
differs width row = not (length row == width)

-- The report of a data row that fits, in a table of a known width.
pub noted : ℕ → List Text → ValidationReport → ValidationReport
noted n row r = note_empty row (note_width n row (count_row r))

pub inspect_data_known :
    (n : ℕ) (row : List Text) (r : ValidationReport)
    → r.column_count ≢ 0
    → r.rows < max_rows
    → inspect_data n row r ≡ some (record { row_number = n; report = noted n row r })
unfolding inspect_data noted count_row
inspect_data_known n row r w room =
    let same : adopt_width row r ≡ r = unfold adopt_width in ground arith in
    let fits : ltb max_rows (r.rows + 1) ≡ false = ground arith in rw same (rw fits)

pub inspect_data_full :
    (n : ℕ) (row : List Text) (r : ValidationReport)
    → ltb max_rows (r.rows + 1) ≡ true
    → inspect_data n row r ≡ none
unfolding inspect_data count_row
inspect_data_full n row r full =
    let same : (count_row (adopt_width row r)).rows ≡ r.rows + 1 =
      unfold adopt_width count_row in ground arith in
    rw same (rw full)

note_width_fields :
    (n : ℕ) (row : List Text) (r : ValidationReport)
    → let r' = note_width n row r in
      (r'.rows ≡ r.rows)
      × (r'.columns ≡ r.columns)
      × (r'.column_count ≡ r.column_count)
      × (r'.empty_rows ≡ r.empty_rows)
      × (r'.inconsistent_rows ≡ r.inconsistent_rows + (if differs r.column_count row then 1 else 0))
      × (r'.inconsistent_examples ≡ (
          if differs r.column_count row && ltb (length r.inconsistent_examples) max_examples
          then r.inconsistent_examples ++ n ∷ []
          else r.inconsistent_examples))
unfolding note_width
note_width_fields n row r = elim (Bool-cases (length row == r.column_count)) [
  | inl same ↦ rw same (refl, refl, refl, refl, omega arith, refl)
  | inr other ↦ elim (Bool-cases (ltb (length r.inconsistent_examples) max_examples)) [
    | inl room ↦ rw (other, room) (refl, refl, refl, refl, refl, refl)
    | inr full ↦ rw (other, full) (refl, refl, refl, refl, refl, refl)
  ]
]

note_empty_fields :
    (row : List Text) (r : ValidationReport)
    → let r' = note_empty row r in
      (r'.rows ≡ r.rows)
      × (r'.columns ≡ r.columns)
      × (r'.column_count ≡ r.column_count)
      × (r'.empty_rows ≡ r.empty_rows + (if all_empty row then 1 else 0))
      × (r'.inconsistent_rows ≡ r.inconsistent_rows)
      × (r'.inconsistent_examples ≡ r.inconsistent_examples)
unfolding note_empty
note_empty_fields row r = elim (Bool-cases (all_empty row)) [
  | inl empty ↦ rw empty (refl, refl, refl, refl, refl, refl)
  | inr full ↦ rw full (refl, refl, refl, omega arith, refl, refl)
]

pub take_all : {A : Type 0} (xs ys : List A) → take (length xs) (xs ++ ys) ≡ xs
take_all [] ys = refl
take_all (x ∷ xs) ys = ap (λ l. x ∷ l) (take_all xs ys)

-- The first five of a list that grows at the end.
pub take_step :
    (limit n : ℕ) (b : Bool) (xs rest : List ℕ)
    → length xs ≤ limit
    → take limit ((if b && ltb (length xs) limit then xs ++ n ∷ [] else xs) ++ rest)
      ≡ take limit (xs ++ (if b then n ∷ rest else rest))
take_step limit n false xs rest h = refl
take_step limit n true xs rest h = elim (Bool-cases (ltb (length xs) limit)) [
  | inl room ↦ rw room (ap (take limit) (append_assoc xs (n ∷ []) rest))
  | inr full ↦
      let exact : limit ≡ length xs = ground arith in
      rw full (rw exact (take_all xs rest ∙ sym (take_all xs (n ∷ rest))))
]

-- A report against the rows behind row `n`, for a report `r` so far.
pub record Describes (r : ValidationReport) (n : ℕ) (rows : List (List Text))
    (r' : ValidationReport) : Type 0 where
  pub row_total : r'.rows ≡ r.rows + length rows
  pub same_columns : r'.columns ≡ r.columns
  pub same_width : r'.column_count ≡ r.column_count
  pub inconsistent :
      r'.inconsistent_rows ≡ r.inconsistent_rows + count (differs r.column_count) rows
  pub empty : r'.empty_rows ≡ r.empty_rows + count all_empty rows
  pub examples :
      r'.inconsistent_examples
      ≡ take max_examples
          (r.inconsistent_examples ++ numbers_where (differs r.column_count) (n + 1) rows)

pub inspect_later :
    (h : Bool) (row : List Text) (n : ℕ) (r : ValidationReport)
    → 0 < n
    → inspect h row (record { row_number = n; report = r }) ≡ inspect_data (n + 1) row r
unfolding inspect
inspect_later h row n r later = let behind : (n + 1 == 1) ≡ false = ground arith in rw behind

pub noted_fields :
    (n : ℕ) (row : List Text) (r : ValidationReport)
    → let r' = noted n row r in
      (r'.rows ≡ r.rows + 1)
      × (r'.columns ≡ r.columns)
      × (r'.column_count ≡ r.column_count)
      × (r'.empty_rows ≡ r.empty_rows + (if all_empty row then 1 else 0))
      × (r'.inconsistent_rows ≡ r.inconsistent_rows + (if differs r.column_count row then 1 else 0))
      × (r'.inconsistent_examples ≡ (
          if differs r.column_count row && ltb (length r.inconsistent_examples) max_examples
          then r.inconsistent_examples ++ n ∷ []
          else r.inconsistent_examples))
unfolding noted count_row
noted_fields n row r =
    let w = note_width_fields n row (count_row r) in
    let e = note_empty_fields row (note_width n row (count_row r)) in
    (
      e.0 ∙ w.0,
      e.1 ∙ w.1,
      e.2 ∙ w.2,
      e.3 ∙ ap (λ (k : ℕ). k + (if all_empty row then 1 else 0)) w.3,
      e.4 ∙ w.4,
      e.5 ∙ w.5,
    )
