-- ===== src/Csv/Validate/Whole.antt =====
-- The report on a whole file.
use mathlib.Core.Path.{subst}
use mathlib.Core.List.{append-nil}
use file_forge.Base.{
  ℕ, suc, ◌+◌, ◌≤◌, ◌<◌, ◌≡◌, ◌≢◌, refl, sym, ◌∙◌, ap, Bool, true, false, ◌&&◌, none, some, List,
  [], ◌∷◌, ◌++◌, arith, ltb, length, length-append, take, if◌then◌else◌, Bool-cases, ◌⊎◌, inl, inr,
  zero,
}
use file_forge.Base.Text.{Text}
use file_forge.Csv.{max_rows, max_examples}
use file_forge.Csv.Validate.{ValidationReport, Inspection, inspect_all}
use file_forge.Csv.Validate.Report.{
  count, numbers_where, differs, noted, inspect_data_known, inspect_data_full, noted_fields,
  inspect_later, take_step, Describes,
}

module _ (n : ℕ) (row : List Text) (rows : List (List Text)) (r r' : ValidationReport) where
  Describes-cons :
      length r.inconsistent_examples ≤ max_examples
      → Describes (noted (n + 1) row r) (n + 1) rows r'
      → Describes r n (row ∷ rows) r'
  Describes-cons few d =
      let f = noted_fields (n + 1) row r in
      let width = f.2 in
      record {
        row_total = omega (arith, d.row_total, f.0);
        same_columns = d.same_columns ∙ f.1;
        same_width = d.same_width ∙ width;
        inconsistent =
            let later =
              subst
                (λ w.
                  r'.inconsistent_rows
                  ≡ (noted (n + 1) row r).inconsistent_rows + count (differs w) rows)
                width d.inconsistent in
            omega (arith, later, f.4);
        empty = omega (arith, d.empty, f.3);
        examples =
            let rest = numbers_where (differs r.column_count) (n + 1 + 1) rows in
            let later =
              subst
                (λ w.
                  r'.inconsistent_examples
                  ≡ take max_examples (
                      (noted (n + 1) row r).inconsistent_examples
                      ++ numbers_where (differs w) (n + 1 + 1) rows))
                width d.examples in
            let joined =
              subst (λ l. r'.inconsistent_examples ≡ take max_examples (l ++ rest)) f.5 later in
            joined
            ∙ take_step max_examples (n + 1) (differs r.column_count row) r.inconsistent_examples
                rest few;
      }

take_short : {A : Type 0} (k : ℕ) (xs : List A) → length xs ≤ k → take k xs ≡ xs
take_short zero [] h = refl
take_short zero (x ∷ xs) h = absurd (omega arith)
take_short (suc k) [] h = refl
take_short (suc k) (x ∷ xs) h = ap (λ l. x ∷ l) (take_short k xs (omega arith))

few_examples :
    (n : ℕ) (row : List Text) (r : ValidationReport)
    → length r.inconsistent_examples ≤ max_examples
    → length (noted n row r).inconsistent_examples ≤ max_examples
few_examples n row r few = rw (noted_fields n row r).5 (
    grown (differs r.column_count row)
      (Bool-cases (ltb (length r.inconsistent_examples) max_examples)))
  where
    grown :
        (b : Bool)
        → ((ltb (length r.inconsistent_examples) max_examples ≡ true)
            ⊎ (ltb (length r.inconsistent_examples) max_examples ≡ false))
        → length (
            if b && ltb (length r.inconsistent_examples) max_examples
            then r.inconsistent_examples ++ n ∷ []
            else r.inconsistent_examples)
          ≤ max_examples
    grown false c = few
    grown true (inl room) = rw room (ground (arith, length-append r.inconsistent_examples (n ∷ [])))
    grown true (inr full) = rw full few

-- Rows of data behind the first row.
pub later_rows :
    (h : Bool) (rows : List (List Text)) (n : ℕ) (r : ValidationReport)
    → 0 < n
    → r.column_count ≢ 0
    → length r.inconsistent_examples ≤ max_examples
    → r.rows + length rows ≤ max_rows
    → (s : Inspection) × (inspect_all h rows (record { row_number = n; report = r }) ≡ some s)
      × Describes r n rows s.report
unfolding inspect_all
later_rows h [] n r later w few room = (
  record { row_number = n; report = r },
  refl,
  record {
    row_total = omega arith;
    same_columns = refl;
    same_width = refl;
    inconsistent = omega arith;
    empty = omega arith;
    examples = rw append-nil (sym (short few));
  },
)
  where
    short :
        length r.inconsistent_examples ≤ max_examples
        → take max_examples r.inconsistent_examples ≡ r.inconsistent_examples
    short h = take_short max_examples r.inconsistent_examples h
later_rows h (row ∷ rows) n r later w few room =
    let f = noted_fields (n + 1) row r in
    let r1 = noted (n + 1) row r in
    let (s, ran, d) =
      later_rows h rows (n + 1) r1 (omega arith) (λ z. w (sym f.2 ∙ z))
        (few_examples (n + 1) row r few) (omega (arith, f.0)) in
    let step = inspect_later h row n r later ∙ inspect_data_known (n + 1) row r w (omega arith) in
    (s, rw (step, inspect_all) ran, Describes-cons n row rows r s.report few d)

-- Too many rows are an error, whatever they hold.
pub too_many_rows :
    (h : Bool) (rows : List (List Text)) (n : ℕ) (r : ValidationReport)
    → 0 < n
    → r.column_count ≢ 0
    → max_rows < r.rows + length rows
    → r.rows ≤ max_rows
    → inspect_all h rows (record { row_number = n; report = r }) ≡ none
unfolding inspect_all
too_many_rows h [] n r later w over fits = absurd (omega arith)
too_many_rows h (row ∷ rows) n r later w over fits = elim (Bool-cases (ltb max_rows (r.rows + 1))) [
  | inl full ↦
      rw (inspect_later h row n r later ∙ inspect_data_full (n + 1) row r full, inspect_all) refl
  | inr room ↦
      let f = noted_fields (n + 1) row r in
      let step =
        inspect_later h row n r later ∙ inspect_data_known (n + 1) row r w (ground arith) in
      rw (step, inspect_all)
        (too_many_rows h rows (n + 1) (noted (n + 1) row r) (omega arith) (λ z. w (sym f.2 ∙ z))
          (omega (arith, f.0)) (ground (arith, f.0)))
]
