-- ===== src/Csv/Process.antt =====
-- jobs/csv.ts: the two CSV processors around their row transforms. The CSV parser, the stringifier
-- and JSON are parameters; progress that is reported from within the rows is not awaited and left
-- out.
pub mod Missing
pub mod Keys
pub mod Results
mod Tests
use file_forge.Base.{
  ℕ, Bool, true, false, not, ◌&&◌, Option, none, some, List, [], ◌∷◌, ◌++◌, take, any, length, ◌==◌,
  if◌then◌else◌,
}
use file_forge.Base.Text.{Text, codes, lookup}
use file_forge.Base.Decimal.{decimal}
use file_forge.Storage
use file_forge.Storage.{Disk, FilePath, Failure, Result, StoredFile, open_file, save, save_from}
use file_forge.Files.Records.{FileRecord, Redis}
use file_forge.Jobs.{
  JobError, invalid_csv, new_invalid_csv, wrap_csv, other, JobPayload, ProcessorResult, Detail,
  number, texts, Outcome,
}
use file_forge.Jobs.Context.{
  Ran, returned, raised, Run, and_then, ◌>>=◌, ◌>>◌, return, raise, rethrown, World, on_disk,
  update_progress, load_record, as_outcome, storage_error,
}
use file_forge.Jobs.Options.{Zod, truthy_or_true, options_or_raise}
use file_forge.Csv.{max_rows}
use file_forge.Csv.Validate.{ValidationReport, Inspection, validate}
use file_forge.Csv.Transform.{
  TransformOptions, Row, Progress, CsvError, too_many_rows, no_requested_column, Output, failed,
  written, reshape_all, at_start,
}

-- What is used of csv-parse, csv-stringify and JSON.
pub record CsvLibrary (D : Disk) : Type 0 where
  -- The rows of a source for a delimiter; `none` where reading or parsing it fails.
  pub rows : Text → D.Source → Option (List (List Text))
  -- The rows as the transform's parser hands them over.
  pub records : TransformOptions → Text → D.Source → Option (List Row)
  -- The parser, the transform and the stringifier as stages of a pipeline.
  pub stages : TransformOptions → Text → List D.Stage
  pub report_source : ValidationReport → D.Source

delimiter_ok : Option Text → Option Text
delimiter_ok none = none
delimiter_ok (some d) = if length d == 1 then some d else none

columns_or_empty : Zod → Option Text → Option (List Text)
columns_or_empty Z none = some []
columns_or_empty Z (some v) = Z.strings v

delimiter_or_comma : Zod → Option Text → Option Text
unfolding delimiter_ok
delimiter_or_comma Z none = some (codes ",")
delimiter_or_comma Z (some v) = delimiter_ok (Z.string v)

with_delimiter : {A : Type 0} → A → Option Text → Option (A × Text)
with_delimiter a none = none
with_delimiter a (some d) = some (a, d)

-- ValidateOptionsSchema: whether there is a header, and the delimiter.
unfoldable pub parse_validate : Zod → List (Text × Text) → Option (Bool × Text)
unfolding delimiter_or_comma with_delimiter
parse_validate Z o =
    with_delimiter (truthy_or_true Z (lookup (codes "hasHeader") o))
      (delimiter_or_comma Z (lookup (codes "delimiter") o))

transform_options :
    Bool → Bool → Bool → Option (List Text) → Option Text → Option (TransformOptions × Text)
unfolding with_delimiter
transform_options header trim drop none d = none
transform_options header trim drop (some names) d =
    with_delimiter
      (record { has_header = header; columns = names; trim_values = trim; drop_empty_rows = drop })
      d

-- TransformOptionsSchema
unfoldable pub parse_transform : Zod → List (Text × Text) → Option (TransformOptions × Text)
unfolding transform_options columns_or_empty delimiter_or_comma
parse_transform Z o =
    transform_options (truthy_or_true Z (lookup (codes "hasHeader") o))
      (truthy_or_true Z (lookup (codes "trim") o))
      (truthy_or_true Z (lookup (codes "dropEmptyRows") o))
      (columns_or_empty Z (lookup (codes "columns") o))
      (delimiter_or_comma Z (lookup (codes "delimiter") o))

abbrev pub is_nil : Text → Bool
is_nil [] = true
is_nil (c ∷ s) = false

-- A dot, and behind it some letters but no other dot.
pub starts_extension : ℕ → Text → Bool
starts_extension c s = c == b'.' && (not (is_nil s) && not (any (λ d. d == b'.') s))

-- What stands before a match of `/\.[^.]+$/`.
pub before_extension : Text → Option Text
before_extension [] = none
before_extension (c ∷ s) = elim (before_extension s) [
  | some base ↦ some (c ∷ base)
  | none ↦ if starts_extension c s then some [] else none
]

pub without_extension : Text → Option Text → Text
without_extension name none = name
without_extension name (some base) = base

-- `outputKey`, on what `randomUUID` gives.
pub output_key : Text → Text → Text → Text → Text
unfolding before_extension without_extension
output_key uuid original_name suffix ext =
    codes "outputs/"
    ++ (take 40 (without_extension original_name (before_extension original_name))
        ++ (b'-' ∷ (suffix ++ (b'-' ∷ (take 8 uuid ++ ext)))))

comma_separated : List Text → Text
comma_separated [] = []
comma_separated (name ∷ []) = name
comma_separated (name ∷ names) = name ++ (codes ", " ++ comma_separated names)

pub row_limit_error : JobError
row_limit_error = new_invalid_csv (codes "more than " ++ (decimal max_rows ++ codes " rows"))

-- What `reshape` calls back with.
csv_error : CsvError → JobError
unfolding comma_separated row_limit_error
csv_error too_many_rows = row_limit_error
csv_error (no_requested_column available) = new_invalid_csv (
    codes "none of the requested columns exist (available: "
    ++ (comma_separated available ++ codes ")"))

module _ (Z : Zod) (D : Disk) (L : CsvLibrary D) (R : Redis)
    (report : ℕ → R.Store → Option (Unit {0}) × R.Store) (root : FilePath) (uuid : Text) where
  abbrev pub W : Type 0
  W = World D R report

  abbrev step : ℕ → Run W (Unit {0})
  step n = update_progress D R report n

  parsed_or_raise : {A : Type 0} → Option A → Run W A
  parsed_or_raise none = raise (other [])
  parsed_or_raise (some a) = return a

  inspected_or_raise : Option Inspection → Run W ValidationReport
  unfolding row_limit_error
  inspected_or_raise none = raise row_limit_error
  inspected_or_raise (some i) = return i.report

  -- The `try` block of `validateCsv`.
  pub inspect_source : Text → Bool × Text → Run W ValidationReport
  unfolding parsed_or_raise inspected_or_raise
  inspect_source key (header, delimiter) w = rethrown wrap_csv (
      (on_disk D R report (λ d. open_file D root key d) >>= λ source.
      parsed_or_raise (L.rows delimiter source) >>= λ rows.
      inspected_or_raise (validate header rows))
        w)

  pub validate_with : JobPayload → Bool × Text → Run W ProcessorResult
  unfolding inspect_source output_key
  validate_with p o = do
    r ← load_record D R report p.file_id
    step 10
    found ← inspect_source r.storage_key o
    step 80
    stored ← on_disk D R report (λ d.
        save D root (output_key uuid r.original_name (codes "report") (codes ".json"))
          (L.report_source found) d)
    step 100
    return (record {
      outputs = stored.key ∷ [];
      details =
          (codes "rows", number found.rows)
          ∷ (codes "columns", number found.column_count)
          ∷ (codes "inconsistentRows", number found.inconsistent_rows)
          ∷ (codes "emptyRows", number found.empty_rows)
          ∷ [];
    })

  pub validate_csv : JobPayload → W → Outcome × W
  unfolding validate_with parse_validate
  validate_csv p w = as_outcome (
      (options_or_raise Z (codes "Invalid validate options: ") p (parse_validate Z p.options)
          >>= λ o. validate_with p o)
        w)

  -- The pipeline rejects with the transform's error if there is one, with its own otherwise; either
  -- way the disk has been written to.
  settled : Option Output → Result StoredFile → Ran (StoredFile × Progress)
  unfolding csv_error
  settled none saved = raised (other [])
  settled (some (failed e)) saved = raised (csv_error e)
  settled (some (written s rows)) (Storage.err e) = raised (storage_error e)
  settled (some (written s rows)) (Storage.ok f) = returned (f, s)

  reshaped : TransformOptions → Option (List Row) → Option Output
  reshaped o none = none
  reshaped o (some rows) = some (reshape_all o rows at_start)

  -- `storage.saveFrom(key, source, parser, reshape, stringifier)`
  pub stream_rows : Text → D.Source → TransformOptions × Text → Run W (StoredFile × Progress)
  unfolding settled reshaped
  stream_rows key source (o, delimiter) (d, s) =
      let (saved, d') = save_from D root key source (L.stages o delimiter) d in
      (settled (reshaped o (L.records o delimiter source)) saved, (d', s))

  -- The `try` block of `transformCsv`.
  pub transform_source : Text → Text → TransformOptions × Text → Run W (StoredFile × Progress)
  unfolding stream_rows
  transform_source source_key key o w = rethrown wrap_csv (
      (on_disk D R report (λ d. open_file D root source_key d) >>= λ source.
      stream_rows key source o)
        w)

  pub transform_with : JobPayload → TransformOptions × Text → Run W ProcessorResult
  unfolding transform_source output_key
  transform_with p o = do
    r ← load_record D R report p.file_id
    step 10
    result ←
        transform_source r.storage_key
          (output_key uuid r.original_name (codes "clean") (codes ".csv")) o
    step 100
    return (record {
      outputs = result.0.key ∷ [];
      details =
          (codes "rowsIn", number result.1.seen)
          ∷ (codes "rowsOut", number result.1.kept)
          ∷ (codes "rowsDropped", number result.1.dropped)
          ∷ (codes "columns", texts result.1.selected)
          ∷ (codes "bytes", number result.0.size)
          ∷ [];
    })

  pub transform_csv : JobPayload → W → Outcome × W
  unfolding transform_with parse_transform
  transform_csv p w = as_outcome (
      (options_or_raise Z (codes "Invalid transform options: ") p (parse_transform Z p.options)
          >>= λ o. transform_with p o)
        w)
