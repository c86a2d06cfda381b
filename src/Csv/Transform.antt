-- ===== src/Csv/Transform.antt =====
-- jobs/csv.ts: `transformCsv`, the transform `reshape` and its counters. A row comes as an array of
-- fields or, with a header, as an object: its properties in order.
pub mod Conservation
mod Columns
use file_forge.Base.{
  ℕ, ◌+◌, Bool, true, false, not, ◌&&◌, Option, none, some, List, [], ◌∷◌, ◌++◌, map, ltb, filter,
  if◌then◌else◌,
}
use file_forge.Base.Text.{Text, text_eq, lookup, has}
use file_forge.Upload.{trim}
use file_forge.Csv.{max_rows}

-- The options as the schema leaves them.
pub record TransformOptions : Type 0 where
  pub has_header : Bool
  pub columns : List Text
  pub trim_values : Bool
  pub drop_empty_rows : Bool

abbrev pub Object : Type 0
Object = List (Text × Text)

pub data Row : Type 0 where
  fields : List Text → Row
  object : Object → Row

pub record Progress : Type 0 where
  pub kept : ℕ
  pub dropped : ℕ
  pub seen : ℕ
  pub selected : List Text

pub data CsvError : Type 0 where
  too_many_rows : CsvError
  no_requested_column : List Text → CsvError

-- What one call of the transform does: an error, nothing, or a row pushed.
pub data Reshaped : Type 0 where
  fails : CsvError → Reshaped
  skips : Progress → Reshaped
  pushes : Progress → Row → Reshaped

is_nil : List Text → Bool
is_nil [] = true
is_nil (x ∷ xs) = false

pub keys : Object → List Text
keys [] = []
keys ((k, v) ∷ o) = k ∷ keys o

-- `output[name] = value`
set_field : Text → Text → Object → Object
set_field k v [] = (k, v) ∷ []
set_field k v ((j, w) ∷ o) = if text_eq k j then (j, v) ∷ o else (j, w) ∷ set_field k v o

value_or_empty : Option Text → Text
value_or_empty none = []
value_or_empty (some v) = v

pub cleaned : TransformOptions → Object → Text → Text
unfolding value_or_empty
cleaned options row name =
    let value = value_or_empty (lookup name row) in
    if options.trim_values then trim value else value

-- The loop over the selected columns: the output and whether every value is empty.
pub build_output : TransformOptions → Object → List Text → Object → Bool → Object × Bool
unfolding set_field cleaned
build_output options row [] output empty = (output, empty)
build_output options row (name ∷ names) output empty =
    let value = cleaned options row name in
    build_output options row names (set_field name value output) (empty && text_eq value [])

pub select_columns : TransformOptions → Object → List Text
unfolding is_nil keys
select_columns options row =
    if not (is_nil options.columns)
    then filter (λ name. has name (keys row)) options.columns
    else keys row

emit_object : TransformOptions → Object × Bool → Progress → Reshaped
emit_object options (output, empty) s =
    if options.drop_empty_rows && empty
    then skips (record s { dropped = s.dropped + 1 })
    else pushes (record s { kept = s.kept + 1 }) (object output)

with_columns : TransformOptions → Object → Progress → Reshaped
unfolding build_output emit_object
with_columns options row s = emit_object options (build_output options row s.selected [] true) s

reshape_object : TransformOptions → Object → Progress → Reshaped
unfolding select_columns with_columns is_nil
reshape_object options row s =
    let chosen = select_columns options row in
    if is_nil s.selected
    then if not (is_nil options.columns) && is_nil chosen
      then fails (no_requested_column (keys row))
      else with_columns options row (record s { selected = chosen })
    else with_columns options row s

reshape_row : TransformOptions → Row → Progress → Reshaped
unfolding reshape_object
reshape_row options (fields values) s = pushes (record s { kept = s.kept + 1 }) (fields values)
reshape_row options (object row) s = reshape_object options row s

-- The transform, on one row.
unfoldable pub reshape : TransformOptions → Row → Progress → Reshaped
unfolding reshape_row
reshape options row s =
    let counted = record s { seen = s.seen + 1 } in
    if ltb max_rows counted.seen then fails too_many_rows else reshape_row options row counted

pub data Output : Type 0 where
  failed : CsvError → Output
  written : Progress → List Row → Output

abbrev then_push : Row → Output → Output
then_push row (failed e) = failed e
then_push row (written s rows) = written s (row ∷ rows)

-- All rows, in order: the final counters and what was pushed.
unfoldable pub reshape_all : TransformOptions → List Row → Progress → Output
reshape_all options [] s = written s []
reshape_all options (row ∷ rows) s = elim (reshape options row s) [
  | fails e ↦ failed e
  | skips s' ↦ reshape_all options rows s'
  | pushes s' out ↦ then_push out (reshape_all options rows s')
]

unfoldable pub at_start : Progress
at_start = record { kept = 0; dropped = 0; seen = 0; selected = [] }

-- The stringifier's `columns` option; `none` leaves them to the rows.
pub stringifier_columns : TransformOptions → Option (List Text)
unfolding is_nil
stringifier_columns options = if not (is_nil options.columns) then some options.columns else none
