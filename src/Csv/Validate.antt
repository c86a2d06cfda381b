-- ===== src/Csv/Validate.antt =====
-- jobs/csv.ts: `validateCsv`, the transform `inspect` and its report. A row is the list of its
-- fields; the options are as the schema leaves them.
mod Report
mod Whole
mod Headed
mod Tests
use file_forge.Base.{
  ℕ, suc, ◌+◌, Bool, true, false, not, ◌&&◌, Option, none, some, List, [], ◌∷◌, ◌++◌, map, ltb,
  ◌==◌, length, get_elem?, if◌then◌else◌,
}
use file_forge.Base.Text.{Text, text_eq}
use file_forge.Upload.{trim}
use file_forge.Csv.{max_rows, max_examples}

pub record ValidationReport : Type 0 where
  pub rows : ℕ
  pub columns : List Text
  pub column_count : ℕ
  pub inconsistent_rows : ℕ
  pub inconsistent_examples : List ℕ
  pub empty_by_column : List (Text × ℕ)
  pub empty_rows : ℕ

pub empty_report : ValidationReport
empty_report = record {
  rows = 0;
  columns = [];
  column_count = 0;
  inconsistent_rows = 0;
  inconsistent_examples = [];
  empty_by_column = [];
  empty_rows = 0;
}

-- An object's property: read with 0 for a missing one, and written.
count_of : Text → List (Text × ℕ) → ℕ
count_of k [] = 0
count_of k ((j, n) ∷ m) = if text_eq k j then n else count_of k m

set_count : Text → ℕ → List (Text × ℕ) → List (Text × ℕ)
set_count k v [] = (k, v) ∷ []
set_count k v ((j, n) ∷ m) = if text_eq k j then (j, v) ∷ m else (j, n) ∷ set_count k v m

zero_counts : List Text → List (Text × ℕ) → List (Text × ℕ)
unfolding set_count
zero_counts [] m = m
zero_counts (name ∷ names) m = zero_counts names (set_count name 0 m)

pub is_empty : Text → Bool
is_empty value = text_eq (trim value) []

bump_named : Option Text → Bool → List (Text × ℕ) → List (Text × ℕ)
unfolding count_of set_count
bump_named none empty m = m
bump_named (some name) empty m = if empty then set_count name (count_of name m + 1) m else m

-- `row.forEach`: the empty values by column, and whether all are empty.
count_empties : List Text → ℕ → List Text → List (Text × ℕ) → List (Text × ℕ)
unfolding bump_named is_empty
count_empties columns index [] m = m
count_empties columns index (value ∷ row) m =
    count_empties columns (suc index) row (bump_named (get_elem? columns index) (is_empty value) m)

pub all_empty : List Text → Bool
all_empty [] = true
all_empty (value ∷ row) = is_empty value && all_empty row

pub record Inspection : Type 0 where
  pub row_number : ℕ
  pub report : ValidationReport

pub read_header : List Text → ValidationReport → ValidationReport
unfolding zero_counts
read_header row r =
    let names = map trim row in
    record r {
      columns = names;
      column_count = length row;
      empty_by_column = zero_counts names r.empty_by_column;
    }

adopt_width : List Text → ValidationReport → ValidationReport
adopt_width row r = if r.column_count == 0 then record r { column_count = length row } else r

pub note_width : ℕ → List Text → ValidationReport → ValidationReport
note_width row_number row r =
    let counted = record r { inconsistent_rows = r.inconsistent_rows + 1 } in
    if not (length row == r.column_count)
    then if ltb (length r.inconsistent_examples) max_examples
      then record counted { inconsistent_examples = r.inconsistent_examples ++ row_number ∷ [] }
      else counted
    else r

pub note_empty : List Text → ValidationReport → ValidationReport
unfolding count_empties
note_empty row r =
    let named = record r { empty_by_column = count_empties r.columns 0 row r.empty_by_column } in
    if all_empty row then record named { empty_rows = r.empty_rows + 1 } else named

pub count_row : ValidationReport → ValidationReport
count_row r = record r { rows = r.rows + 1 }

-- A row of data; `none` is the error of a file with too many rows.
pub inspect_data : ℕ → List Text → ValidationReport → Option Inspection
unfolding count_row adopt_width note_width note_empty
inspect_data row_number row r =
    let r' = count_row (adopt_width row r) in
    if ltb max_rows r'.rows
    then none
    else some
        (record { row_number = row_number; report = note_empty row (note_width row_number row r') })

-- The transform, on one row.
pub inspect : Bool → List Text → Inspection → Option Inspection
unfolding inspect_data read_header
inspect has_header row s =
    let n = s.row_number + 1 in
    if n == 1 && has_header
    then some (record { row_number = n; report = read_header row s.report })
    else inspect_data n row s.report

pub inspect_all : Bool → List (List Text) → Inspection → Option Inspection
inspect_all has_header [] s = some s
inspect_all has_header (row ∷ rows) s = elim (inspect has_header row s) [
  | none ↦ none
  | some s' ↦ inspect_all has_header rows s'
]

-- The report on the rows of a file.
pub validate : Bool → List (List Text) → Option Inspection
unfolding inspect_all empty_report
validate has_header rows =
    inspect_all has_header rows (record { row_number = 0; report = empty_report })
