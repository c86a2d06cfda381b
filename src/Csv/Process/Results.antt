-- ===== src/Csv/Process/Results.antt =====
-- What a CSV job that succeeds has left.
use mathlib.Core.Path.{subst}
use file_forge.Base.{
  ℕ, ◌+◌, ◌≡◌, refl, sym, ◌∙◌, ap, Option, none, some, List, [], ◌∷◌, length, arith,
}
use file_forge.Base.Text.{Text, codes}
use file_forge.Storage
use file_forge.Storage.{Disk, FilePath, Result, StoredFile, open_file, save, save_from}
use file_forge.Storage.Operations.{Readable, saved-Readable}
use file_forge.Files.Records.{Redis}
use file_forge.Jobs.{wrap_csv, JobPayload, ProcessorResult, Detail, number, texts, done}
use file_forge.Jobs.Context.{
  Ran, returned, raised, ◌>>=◌, World, on_disk, update_progress, load_record,
}
use file_forge.Jobs.Context.Returned.{
  and_then-returned, rethrown-returned, as_outcome-done, update_progress-returned,
}
use file_forge.Jobs.Options.{Zod, options_or_raise}
use file_forge.Csv.Transform.{
  TransformOptions, Row, Progress, Output, failed, written, reshape_all, at_start,
}
use file_forge.Csv.Transform.Conservation.{reshape_all-Conserves}
use file_forge.Csv.Process.{
  CsvLibrary, parse_transform, output_key, transform_source, transform_with, transform_csv,
  stream_rows, settled, reshaped,
}

abbrev pub transform_details : StoredFile → Progress → List (Text × Detail)
transform_details f s =
    (codes "rowsIn", number s.seen)
    ∷ (codes "rowsOut", number s.kept)
    ∷ (codes "rowsDropped", number s.dropped)
    ∷ (codes "columns", texts s.selected)
    ∷ (codes "bytes", number f.size)
    ∷ []

abbrev outputs_of : Ran ProcessorResult → List Text
outputs_of (returned r) = r.outputs
outputs_of (raised e) = []

abbrev details_of : Ran ProcessorResult → List (Text × Detail)
details_of (returned r) = r.details
details_of (raised e) = []

-- One output, readable with the size that is told; the rows told as read are all that were parsed, the rows
-- told as written are those that reshaping hands on, and the rest are told as dropped.
pub record IsComplete (Z : Zod) (D : Disk) (L : CsvLibrary D) (root : FilePath) (p : JobPayload)
    (r : ProcessorResult) (d : D.State) : Type 0 where
  pub file : StoredFile
  pub counters : Progress
  pub one_output : r.outputs ≡ file.key ∷ []
  pub told : r.details ≡ transform_details file counters
  pub options : TransformOptions
  pub delimiter : Text
  pub chosen : parse_transform Z p.options ≡ some (options, delimiter)
  pub source : D.Source
  pub parsed : List Row
  pub read : L.records options delimiter source ≡ some parsed
  pub handed_on : List Row
  pub shaped : reshape_all options parsed at_start ≡ written counters handed_on
  pub all_seen : counters.seen ≡ length parsed
  pub all_kept : counters.kept ≡ length handed_on
  pub balanced : counters.kept + counters.dropped ≡ counters.seen
  pub readable : Readable D root file.key file d

module _ (Z : Zod) (D : Disk) (L : CsvLibrary D) (R : Redis)
    (report : ℕ → R.Store → Option (Unit {0}) × R.Store) (root : FilePath) (uuid : Text) where
  abbrev Shaped : TransformOptions → Option (List Row) → Progress → Type 0
  Shaped o given s =
      (rows : List Row) × (out : List Row) × (given ≡ some rows)
      × (reshape_all o rows at_start ≡ written s out)

  settled-returned :
      (o : TransformOptions) (rows : Option (List Row)) (x : Result StoredFile) (f : StoredFile)
      (s : Progress)
      → settled Z D L R report root uuid (reshaped Z D L R report root uuid o rows) x
        ≡ returned (f, s)
      → (x ≡ Storage.ok f) × Shaped o rows s
  unfolding settled reshaped
  settled-returned o none x f s e = cc
  settled-returned o (some rows) x f s e = go (reshape_all o rows at_start) refl x e
    where
      go :
          (out : Output)
          → reshape_all o rows at_start ≡ out
          → (x : Result StoredFile)
          → settled Z D L R report root uuid (some out) x ≡ returned (f, s)
          → (x ≡ Storage.ok f) × Shaped o (some rows) s
      go (failed c) q x p = cc
      go (written t kept) q (Storage.err y) p = cc
      go (written t kept) q (Storage.ok g) p =
          let same_file : g ≡ f = cc in
          let same : t ≡ s = cc in
          (
            ap (λ y. Storage.ok y) same_file,
            (rows, kept, refl, q ∙ ap (λ (y : Progress). written y kept) same),
          )

  streamed-Complete :
      (key : Text) (source : D.Source) (o : TransformOptions × Text) (w w' : World D R report)
      (f : StoredFile) (s : Progress)
      → stream_rows Z D L R report root uuid key source o w ≡ (returned (f, s), w')
      → Readable D root key f w'.0 × Shaped o.0 (L.records o.0 o.1 source) s
  unfolding stream_rows
  streamed-Complete key source (o, delimiter) w w' f s e =
      let out = save_from D root key source (L.stages o delimiter) w.0 in
      let left : out.1 ≡ w'.0 =
        ap (λ (y : Ran (StoredFile × Progress) × World D R report). y.1.0) e in
      let (kept, balance) =
        settled-returned o (L.records o delimiter source) out.0 f s
          (ap (λ (y : Ran (StoredFile × Progress) × World D R report). y.0) e) in
      (
        saved-Readable D root key w.0 source (L.stages o delimiter) f w'.0 (λ i. (kept i, left i)),
        balance,
      )

  options-returned :
      {A : Type 0} (p : JobPayload) (name : Text) (x : Option A) (o : A) (w w' : World D R report)
      → options_or_raise Z name p x w ≡ (returned o, w')
      → x ≡ some o
  unfolding options_or_raise
  options-returned p name none o w w' e = cc
  options-returned p name (some y) o w w' e = cc

  transform_with-IsComplete :
      (p : JobPayload) (o : TransformOptions × Text) (w w' : World D R report) (r : ProcessorResult)
      → parse_transform Z p.options ≡ some o
      → transform_with Z D L R report root uuid p o w ≡ (returned r, w')
      → IsComplete Z D L root p r w'.0
  unfolding transform_with transform_source at_start
  transform_with-IsComplete p o w w' r chosen e =
      let (rec, w1, _, e1) = and_then-returned (load_record D R report p.file_id w) _ e in
      let (_, w2, _, e2) = and_then-returned (update_progress D R report 10 w1) _ e1 in
      let key = output_key uuid rec.original_name (codes "clean") (codes ".csv") in
      let ((f, s), w3, ran, e3) =
        and_then-returned (transform_source Z D L R report root uuid rec.storage_key key o w2) _
          e2 in
      let (source, w4, _, streamed) =
        and_then-returned (on_disk D R report (λ d. open_file D root rec.storage_key d) w2) _
          (rethrown-returned wrap_csv _ ran) in
      let (there, (rows, out, given, shape)) = streamed-Complete key source o w4 w3 f s streamed in
      let c = reshape_all-Conserves o.0 rows at_start s out shape in
      let (u, w5, stepped, e4) = and_then-returned (update_progress D R report 100 w3) _ e3 in
      let disk : w5.0 ≡ w3.0 = update_progress-returned D R report 100 w3 w5 stepped in
      let end : w5 ≡ w' = ap (λ (y : Ran ProcessorResult × World D R report). y.1) e4 in
      let same_disk : w3.0 ≡ w'.0 = sym disk ∙ ap (λ (y : World D R report). y.0) end in
      let result = ap (λ (y : Ran ProcessorResult × World D R report). y.0) e4 in
      record {
        file = f;
        counters = s;
        one_output = sym (ap outputs_of result);
        told = sym (ap details_of result);
        options = o.0;
        delimiter = o.1;
        chosen = chosen;
        source = source;
        parsed = rows;
        read = given;
        handed_on = out;
        shaped = shape;
        all_seen = omega (arith, c.all_seen);
        all_kept = omega (arith, c.all_kept);
        balanced = omega (arith, c.all_seen, c.balanced);
        readable =
            subst (λ d. Readable D root f.key f d) same_disk
              (subst (λ k. Readable D root k f w3.0) (sym there.0) there);
      }

  -- A CSV transform that succeeds has exactly one output, which is there with the size that is told and
  -- can be opened, and tells of rows in, out and dropped that add up: the rows in are those that the parser
  -- gave of its source, the rows out are what the reshaping with the job's options makes of them and hands
  -- on to be written, and every other row is told as dropped.
  pub transform_csv-IsComplete :
      (p : JobPayload) (w w' : World D R report) (r : ProcessorResult)
      → transform_csv Z D L R report root uuid p w ≡ (done r, w')
      → IsComplete Z D L root p r w'.0
  unfolding transform_csv options_or_raise
  transform_csv-IsComplete p w w' r e =
      let ran =
        as_outcome-done
          ((options_or_raise Z (codes "Invalid transform options: ") p (parse_transform Z p.options)
              >>= λ o. transform_with Z D L R report root uuid p o)
            w)
          e in
      let (o, w1, read, e1) =
        and_then-returned
          (options_or_raise Z (codes "Invalid transform options: ") p (parse_transform Z p.options)
            w)
          _ ran in
      transform_with-IsComplete p o w1 w' r
        (options-returned p (codes "Invalid transform options: ") (parse_transform Z p.options) o w
          w1 read)
        e1
