-- ===== src/Jobs/Images.antt =====
-- jobs/image.ts: the three image processors. sharp and the readings of zod are parameters.
pub mod Process
pub mod Bounds
use file_forge.Base.{
  ℕ, Bool, true, false, not, ◌&&◌, ◌||◌, Option, none, some, List, [], ◌∷◌, ◌++◌, take, leb, ◌==◌,
  if◌then◌else◌,
}
use file_forge.Base.Text.{Text, codes, lookup, has}
use file_forge.Base.Decimal.{decimal}
use file_forge.Storage.{Disk, FilePath, StoredFile, open_file, save, starts_with}
use file_forge.Files.Records.{FileRecord, Redis}
use file_forge.Jobs.{
  JobError, invalid_image, invalid_options, other, new_invalid_image, message_of, JobPayload,
  ProcessorResult, Detail, number, text, undefined,
}
use file_forge.Jobs.Options.{Zod, truthy_or_true}
use file_forge.Jobs.Context.{
  Ran, returned, raised, Run, and_then, ◌>>=◌, ◌>>◌, return, raise, rethrown, World, on_disk,
  update_progress, load_record,
}

abbrev pub max_dimension : ℕ
max_dimension = 8000

abbrev pub max_thumbnail : ℕ
max_thumbnail = 512

pub record ResizeOptions : Type 0 where
  pub width : Option ℕ
  pub height : Option ℕ
  pub fit : Text
  pub without_enlargement : Bool

abbrev pub fits : List Text
fits = codes "cover" ∷ codes "contain" ∷ codes "fill" ∷ codes "inside" ∷ codes "outside" ∷ []

abbrev pub formats : List Text
formats = codes "jpeg" ∷ codes "png" ∷ codes "webp" ∷ codes "avif" ∷ []

-- The outer `none` is an issue of the schema.
in_range : ℕ → ℕ → Option ℕ → Option ℕ
in_range low high none = none
in_range low high (some n) = if leb low n && leb n high then some n else none

wrapped : Option ℕ → Option (Option ℕ)
wrapped none = none
wrapped (some n) = some (some n)

one_of : List Text → Option Text → Option Text
one_of names none = none
one_of names (some t) = if has t names then some t else none

pub some_dimension : Option ℕ → Option ℕ → Bool
some_dimension none none = false
some_dimension _ _ = true

module _ (Z : Zod) where
  optional_dimension : Option Text → Option (Option ℕ)
  unfolding in_range wrapped
  optional_dimension none = some none
  optional_dimension (some v) = wrapped (in_range 1 max_dimension (Z.natural v))

  number_or : ℕ → ℕ → ℕ → Option Text → Option ℕ
  unfolding in_range
  number_or low high default none = some default
  number_or low high default (some v) = in_range low high (Z.natural v)

  fit_or_inside : Option Text → Option Text
  unfolding one_of
  fit_or_inside none = some (codes "inside")
  fit_or_inside (some v) = one_of fits (Z.string v)

  -- `.refine`: at least one of the dimensions.
  refined : Option (Option ℕ) → Option (Option ℕ) → Option Text → Bool → Option ResizeOptions
  unfolding some_dimension
  refined (some w) (some h) (some f) e =
      if some_dimension w h
      then some (record { width = w; height = h; fit = f; without_enlargement = e })
      else none
  refined _ _ _ e = none

  -- ResizeOptionsSchema
  unfoldable pub parse_resize : List (Text × Text) → Option ResizeOptions
  unfolding optional_dimension fit_or_inside truthy_or_true refined
  parse_resize o =
      refined (optional_dimension (lookup (codes "width") o))
        (optional_dimension (lookup (codes "height") o)) (fit_or_inside (lookup (codes "fit") o))
        (truthy_or_true Z (lookup (codes "withoutEnlargement") o))

  format_of : Option Text → Option Text
  unfolding one_of
  format_of none = none
  format_of (some v) = one_of formats (Z.string v)

  both : Option Text → Option ℕ → Option (Text × ℕ)
  both (some f) (some q) = some (f, q)
  both _ _ = none

  -- ConvertOptionsSchema: the format and the quality.
  unfoldable pub parse_convert : List (Text × Text) → Option (Text × ℕ)
  unfolding format_of number_or both
  parse_convert o =
      both (format_of (lookup (codes "format") o)) (number_or 1 100 82 (lookup (codes "quality") o))

  -- ThumbnailOptionsSchema
  unfoldable pub parse_thumbnail : List (Text × Text) → Option ℕ
  unfolding number_or
  parse_thumbnail o = number_or 16 max_thumbnail 256 (lookup (codes "size") o)
