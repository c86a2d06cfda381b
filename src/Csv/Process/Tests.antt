-- ===== src/Csv/Process/Tests.antt =====
-- A CSV transform of concrete rows.
use file_forge.Base.{◌≡◌, refl, [], ◌∷◌}
use file_forge.Base.Text.{codes, text_eq}
use file_forge.Storage.{path_for, enter, starts_with, open_file, save_from}
use file_forge.Storage.Memory.{memory, root}
use file_forge.Jobs.{csv_transform, ProcessorResult, number, texts, Outcome, done}
use file_forge.Csv.Process.{
  output_key, transform_csv, W, transform_with, transform_source, stream_rows, settled, reshaped,
  parse_transform, before_extension, without_extension, starts_extension,
}
use file_forge.Csv.Process.Results.{IsComplete, transform_csv-IsComplete}
use file_forge.Jobs.Context.{on_disk, update_progress, load_record, as_outcome}
use file_forge.Jobs.Options.{options_or_raise, truthy_or_true}
use file_forge.Files.Records.{get}
use file_forge.Csv.Transform.{reshape_all, reshape, at_start}
use file_forge.Upload.{trim}
use file_forge.Jobs.Sample.{zod, tables, keeper, report, payload, present}

abbrev complete : ProcessorResult
complete = record {
  outputs = codes "outputs/t-clean-87654321.csv" ∷ [];
  details =
      (codes "rowsIn", number 1)
      ∷ (codes "rowsOut", number 1)
      ∷ (codes "rowsDropped", number 0)
      ∷ (codes "columns", texts (codes "a" ∷ []))
      ∷ (codes "bytes", number 3)
      ∷ [];
}

run : Outcome × W zod memory tables keeper report root (codes "87654321")
run =
    transform_csv zod memory tables keeper report root (codes "87654321") (payload csv_transform)
      present

run-done : run ≡ (done complete, run.1)
unfolding run transform_csv transform_with transform_source stream_rows settled reshaped on_disk
    update_progress load_record get open_file save_from path_for parse_transform options_or_raise
    truthy_or_true as_outcome reshape_all reshape output_key before_extension without_extension
    starts_extension enter text_eq starts_with at_start trim
run-done = refl

transform_csv-IsComplete_example :
    IsComplete zod memory tables root (payload csv_transform) complete run.1.0
unfolding transform_csv run
transform_csv-IsComplete_example =
    transform_csv-IsComplete zod memory tables keeper report root (codes "87654321")
      (payload csv_transform) present run.1 complete run-done
