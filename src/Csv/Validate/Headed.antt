-- ===== src/Csv/Validate/Headed.antt =====
-- The report on a file whose first row is a header.
use file_forge.Base.{
  ◌≤◌, ◌<◌, ◌≡◌, ◌≢◌, refl, sym, ◌∙◌, true, none, some, List, [], ◌∷◌, map, arith, length, take,
}
use file_forge.Base.Text.{Text}
use file_forge.Upload.{trim}
use file_forge.Csv.{max_rows, max_examples}
use file_forge.Csv.Validate.{
  ValidationReport, empty_report, all_empty, Inspection, read_header, inspect, inspect_all,
  validate,
}
use file_forge.Csv.Validate.Report.{count, numbers_where, differs}
use file_forge.Csv.Validate.Whole.{later_rows, too_many_rows}

headed : List Text → ValidationReport
headed header = read_header header empty_report

headed_lem :
    (header : List Text)
    → ((headed header).rows ≡ 0)
      × ((headed header).columns ≡ map trim header)
      × ((headed header).column_count ≡ length header)
      × ((headed header).inconsistent_rows ≡ 0)
      × ((headed header).empty_rows ≡ 0)
      × ((headed header).inconsistent_examples ≡ [])
unfolding headed read_header empty_report
headed_lem header = (refl, refl, refl, refl, refl, refl)

validate-headed :
    (header : List Text) (rows : List (List Text))
    → validate true (header ∷ rows)
      ≡ inspect_all true rows (record { row_number = 1; report = headed header })
unfolding validate inspect_all inspect headed
validate-headed header rows = refl

-- What a report says of a header and the rows of data below it.
pub record Reports (header : List Text) (rows : List (List Text)) (r : ValidationReport)
    : Type 0 where
  pub row_total : r.rows ≡ length rows
  pub trimmed_header : r.columns ≡ map trim header
  pub width : r.column_count ≡ length header
  pub inconsistent : r.inconsistent_rows ≡ count (differs (length header)) rows
  pub empty : r.empty_rows ≡ count all_empty rows
  pub examples :
      r.inconsistent_examples ≡ take max_examples (numbers_where (differs (length header)) 2 rows)

-- A file with a header and at most five million rows of data is reported on, row by row, as a look
-- at the whole file would: the rows of data, the trimmed names of the header, the rows whose width
-- differs from the header's, the numbers of the first five of these (the header being row 1), and
-- the rows that are empty throughout.
pub validate-Reports :
    (header : List Text) (rows : List (List Text))
    → header ≢ []
    → length rows ≤ max_rows
    → (s : Inspection) × (validate true (header ∷ rows) ≡ some s) × Reports header rows s.report
validate-Reports header rows ne room =
    let e = headed_lem header in
    let wide : length header ≢ 0 = λ z. ne (no_length header z) in
    let (s, ran, d) =
      later_rows true rows 1 (headed header) (omega arith) (λ z. wide (sym e.2 ∙ z))
        (rw e.5 (omega arith)) (omega (arith, e.0)) in
    (
      s,
      validate-headed header rows ∙ ran,
      record {
        row_total = omega (arith, d.row_total, e.0);
        trimmed_header = d.same_columns ∙ e.1;
        width = d.same_width ∙ e.2;
        inconsistent = d.inconsistent ∙ rw (e.2, e.3) (omega arith);
        empty = omega (arith, d.empty, e.4);
        examples = d.examples ∙ rw (e.2, e.5) refl;
      },
    )
  where
    no_length : (l : List Text) → length l ≡ 0 → l ≡ []
    no_length [] z = refl
    no_length (x ∷ l) z = absurd (omega arith)

-- A file with more rows of data is refused.
pub validate_too_many :
    (header : List Text) (rows : List (List Text))
    → header ≢ []
    → max_rows < length rows
    → validate true (header ∷ rows) ≡ none
validate_too_many header rows ne over =
    let e = headed_lem header in
    validate-headed header rows
    ∙ too_many_rows true rows 1 (headed header) (omega arith)
        (λ z. no_length header ne (sym e.2 ∙ z)) (omega (arith, e.0)) (omega (arith, e.0))
  where
    no_length : (l : List Text) → l ≢ [] → length l ≡ 0 → ⊥
    no_length [] n z = n refl
    no_length (x ∷ l) n z = absurd (omega arith)
