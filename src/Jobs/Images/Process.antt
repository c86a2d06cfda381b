-- ===== src/Jobs/Images/Process.antt =====
-- jobs/image.ts: opening the source, the pipeline from storage to storage, and the processors.
pub mod Bounded
pub mod Missing
pub mod Output
mod Tests
use file_forge.Base.{
  ℕ, Bool, true, false, Option, none, some, List, [], ◌∷◌, ◌++◌, take, drop, length, ◌==◌,
  if◌then◌else◌,
}
use file_forge.Base.Text.{Text, codes, lookup}
use file_forge.Base.Decimal.{decimal}
use file_forge.Storage.{Disk, FilePath, StoredFile, open_file, save, starts_with}
use file_forge.Files.Records.{FileRecord, Redis}
use file_forge.Jobs.{
  JobError, invalid_options, other, new_invalid_image, message_of, JobPayload, ProcessorResult,
  Detail, number, text, undefined, Outcome, done, threw,
}
use file_forge.Jobs.Context.{
  Ran, returned, raised, Run, and_then, ◌>>=◌, ◌>>◌, return, raise, rethrown, World, on_disk,
  update_progress, load_record, as_outcome,
}
use file_forge.Jobs.Options.{Zod, options_or_raise}
use file_forge.Jobs.Images.{ResizeOptions, parse_resize, parse_convert, parse_thumbnail}

pub record Metadata : Type 0 where
  pub width : Option ℕ
  pub height : Option ℕ
  pub format : Option Text

-- The transforms that the processors build with sharp.
pub data Transform : Type 0 where
  resized : ResizeOptions → Transform
  to_format : Text → ℕ → Transform
  cover_webp : ℕ → Transform  -- resize to a square, cropped from the centre, as WebP of quality 75

-- What is used of sharp; `none` where the bytes do not decode.
pub record Sharp (D : Disk) : Type 0 where
  pub metadata : D.Source → Option Metadata
  pub pipe : D.Source → Transform → D.Source

abbrev pub format_extensions : List (Text × Text)
format_extensions =
    (codes "jpeg", codes ".jpg")
    ∷ (codes "png", codes ".png")
    ∷ (codes "webp", codes ".webp")
    ∷ (codes "avif", codes ".avif")
    ∷ (codes "gif", codes ".gif")
    ∷ (codes "tiff", codes ".tiff")
    ∷ []

abbrev pub or_text : Text → Option Text → Text
or_text t none = t
or_text t (some u) = u

-- `.replace(/^uploads\//, '')`
pub without_uploads : Text → Text
without_uploads key =
    if starts_with key (codes "uploads/") then drop (length (codes "uploads/")) key else key

-- `.replace(part, '')`: the first occurrence is taken out.
pub remove_first : Text → Text → Text
remove_first part [] = []
remove_first part (c ∷ s) =
    let rest = remove_first part s in
    if starts_with (c ∷ s) part then drop (length part) (c ∷ s) else c ∷ rest

-- `outputKey`, on what `extname` and `randomUUID` give.
pub output_key : (Text → Text) → Text → Text → Text → Text → Text
unfolding without_uploads remove_first
output_key extname uuid original_key suffix ext =
    codes "outputs/"
    ++ (remove_first (extname original_key) (without_uploads original_key)
        ++ (b'-' ∷ (suffix ++ (b'-' ∷ (take 8 uuid ++ ext)))))

-- `!metadata.width || !metadata.height`
is_missing : Option ℕ → Bool
is_missing none = true
is_missing (some n) = n == 0

pub has_dimensions : Metadata → Bool
unfolding is_missing
has_dimensions m = if is_missing m.width then false else if is_missing m.height then false else true

number_detail : Option ℕ → Detail
number_detail none = undefined
number_detail (some n) = number n

text_detail : Option Text → Detail
text_detail none = undefined
text_detail (some t) = text t

module _ (D : Disk) (R : Redis) (report : ℕ → R.Store → Option (Unit {0}) × R.Store)
    (root : FilePath) (extname : Text → Text) (uuid : Text) where
  abbrev W : Type 0
  W = World D R report

  abbrev open_stream : Text → Run W D.Source
  open_stream key = on_disk D R report (λ d. open_file D root key d)

  -- `runPipeline`, `piped` being what sharp makes of the source.
  pub run_piped : JobPayload → (D.Source → D.Source) → Text → Text → Run W StoredFile
  unfolding output_key
  run_piped p piped suffix ext = do
    r ← load_record D R report p.file_id
    source ← open_stream r.storage_key
    update_progress D R report 40
    stored ←
        on_disk D R report
          (λ d. save D root (output_key extname uuid r.storage_key suffix ext) (piped source) d)
    update_progress D R report 90
    return stored

module _ (Z : Zod) (D : Disk) (S : Sharp D) (R : Redis)
    (report : ℕ → R.Store → Option (Unit {0}) × R.Store) (root : FilePath) (extname : Text → Text)
    (uuid : Text) where
  abbrev Here : Type 0
  Here = W D R report root extname uuid

  abbrev open_source : Text → Run Here D.Source
  open_source key = open_stream D R report root extname uuid key

  abbrev step : ℕ → Run Here (Unit {0})
  step n = update_progress D R report n

  decoded : Option Metadata → Run Here Metadata
  decoded none = raise (other [])
  decoded (some m) = return m

  -- The `try` block, whatever goes wrong in it.
  probe : Text → Run Here Metadata
  unfolding decoded
  probe key w =
      rethrown (λ e. new_invalid_image (message_of e))
        ((open_source key >>= λ source. decoded (S.metadata source)) w)

  pub open_image : JobPayload → Run Here Metadata
  unfolding probe has_dimensions
  open_image p = do
    r ← load_record D R report p.file_id
    m ← probe r.storage_key
    if has_dimensions m
        then return m
        else raise (new_invalid_image (codes "no dimensions could be read"))

  pub run_pipeline : JobPayload → Transform → Text → Text → Run Here StoredFile
  unfolding run_piped
  run_pipeline p transform suffix ext =
      run_piped D R report root extname uuid p (λ source. S.pipe source transform) suffix ext

  pub resize_with : JobPayload → ResizeOptions → Run Here ProcessorResult
  unfolding open_image run_pipeline number_detail text_detail decoded
  resize_with p o = do
    m ← open_image p
    step 20
    let ext = or_text (codes ".png") (lookup (or_text (codes "png") m.format) format_extensions)
    output ← run_pipeline p (resized o) (codes "resized") ext
    source ← open_source output.key
    result ← decoded (S.metadata source)
    step 100
    return (record {
      outputs = output.key ∷ [];
      details =
          (codes "sourceWidth", number_detail m.width)
          ∷ (codes "sourceHeight", number_detail m.height)
          ∷ (codes "width", number_detail result.width)
          ∷ (codes "height", number_detail result.height)
          ∷ (codes "format", text_detail result.format)
          ∷ (codes "bytes", number output.size)
          ∷ [];
    })

  pub convert_with : JobPayload → Text × ℕ → Run Here ProcessorResult
  unfolding open_image run_pipeline text_detail
  convert_with p (format, quality) = do
    m ← open_image p
    step 20
    output ←
        run_pipeline p (to_format format quality) format
          (or_text (codes ".bin") (lookup format format_extensions))
    step 100
    return (record {
      outputs = output.key ∷ [];
      details =
          (codes "sourceFormat", text_detail m.format)
          ∷ (codes "format", text format)
          ∷ (codes "quality", number quality)
          ∷ (codes "bytes", number output.size)
          ∷ [];
    })

  pub thumbnail_with : JobPayload → ℕ → Run Here ProcessorResult
  unfolding open_image run_pipeline number_detail
  thumbnail_with p size = do
    m ← open_image p
    step 20
    output ← run_pipeline p (cover_webp size) (codes "thumb" ++ decimal size) (codes ".webp")
    step 100
    return (record {
      outputs = output.key ∷ [];
      details =
          (codes "sourceWidth", number_detail m.width)
          ∷ (codes "sourceHeight", number_detail m.height)
          ∷ (codes "size", number size)
          ∷ (codes "format", text (codes "webp"))
          ∷ (codes "bytes", number output.size)
          ∷ [];
    })

  pub resize_image : JobPayload → Here → Outcome × Here
  unfolding resize_with parse_resize as_outcome options_or_raise
  resize_image p w = as_outcome (
      (options_or_raise Z (codes "Invalid resize options: ") p (parse_resize Z p.options) >>= λ o.
      resize_with p o)
        w)

  pub convert_image : JobPayload → Here → Outcome × Here
  unfolding convert_with parse_convert as_outcome options_or_raise
  convert_image p w = as_outcome (
      (options_or_raise Z (codes "Invalid convert options: ") p (parse_convert Z p.options) >>= λ o.
      convert_with p o)
        w)

  pub thumbnail_image : JobPayload → Here → Outcome × Here
  unfolding thumbnail_with parse_thumbnail as_outcome options_or_raise
  thumbnail_image p w = as_outcome (
      (options_or_raise Z (codes "Invalid thumbnail options: ") p (parse_thumbnail Z p.options)
          >>= λ size. thumbnail_with p size)
        w)
