-- ===== src/Frontend/Picker/Options.antt =====
-- What the processors make of the options that the page sends.
use file_forge.Base.{
  ℕ, ◌≡◌, refl, true, Option, none, some, List, [], ◌∷◌, leb, ◌&&◌, if◌then◌else◌, inl, inr,
  Bool-cases,
}
use file_forge.Base.Text.{Text, codes, text_eq, has}
use file_forge.Jobs.{image_resize, image_convert, image_thumbnail, csv_validate, csv_transform}
use file_forge.Jobs.Options.{Zod, truthy_or_true}
use file_forge.Jobs.Images.{ResizeOptions, formats, parse_resize, parse_convert, parse_thumbnail}
use file_forge.Upload.{trim}
use file_forge.Csv.Transform.{TransformOptions}
use file_forge.Csv.Process.{parse_validate, parse_transform}
use file_forge.Frontend.Picker.{
  Value, number, text, texts, Picker, split_commas, trimmed_names, columns_option, build_options,
}

-- `stringify` writes an option's value as JSON, which zod reads back.
pub record Reads (Z : Zod) (stringify : Value → Text) : Type 0 where
  pub natural-number : (n : ℕ) → Z.natural (stringify (number n)) ≡ some n
  pub string-text : (t : Text) → Z.string (stringify (text t)) ≡ some t
  pub strings-texts : (ts : List Text) → Z.strings (stringify (texts ts)) ≡ some ts

pub stringified : (Value → Text) → List (Text × Value) → List (Text × Text)
stringified stringify [] = []
stringified stringify ((k, v) ∷ o) = (k, stringify v) ∷ stringified stringify o

-- The names that the columns field asks for.
pub names_of : Text → Text → List Text
names_of [] columns = []
names_of (c ∷ s) columns = trimmed_names (split_commas columns)

abbrev pub clean_up : List Text → TransformOptions
clean_up names = record {
  has_header = true;
  columns = names;
  trim_values = true;
  drop_empty_rows = true;
}

abbrev pub resize_result : ℕ → Option ResizeOptions
resize_result w =
    if leb 1 w && leb w 8000
    then some
        (record { width = some w; height = none; fit = codes "inside"; without_enlargement = true })
    else none

abbrev pub thumbnail_result : ℕ → Option ℕ
thumbnail_result n = if leb 16 n && leb n 512 then some n else none

module _ (Z : Zod) (stringify : Value → Text) (reads : Reads Z stringify) (to_number : Text → ℕ)
    (p : Picker) where
  abbrev pub sent : List (Text × Text)
  sent = stringified stringify (build_options to_number p)

  resize_read : p.operation ≡ image_resize → parse_resize Z sent ≡ resize_result (to_number p.width)
  unfolding parse_resize stringified build_options text_eq truthy_or_true
  resize_read o = rw o (
      rw (reads.natural-number (to_number p.width))
        (elim (Bool-cases (leb 1 (to_number p.width) && leb (to_number p.width) 8000)) [
          | inl fits ↦ rw fits refl
          | inr misses ↦ rw misses refl
        ]))

  thumbnail_read :
      p.operation ≡ image_thumbnail → parse_thumbnail Z sent ≡ thumbnail_result (to_number p.size)
  unfolding parse_thumbnail stringified build_options text_eq
  thumbnail_read o = rw o (rw (reads.natural-number (to_number p.size)) refl)

  convert_read :
      p.operation ≡ image_convert
      → has p.format formats ≡ true
      → parse_convert Z sent ≡ some (p.format, 82)
  unfolding parse_convert stringified build_options text_eq
  convert_read o known = rw o (rw (reads.string-text p.format) (rw known refl))

  validate_read : p.operation ≡ csv_validate → parse_validate Z sent ≡ some (true, codes ",")
  unfolding parse_validate stringified build_options truthy_or_true
  validate_read o = rw o refl

  transform_read :
      p.operation ≡ csv_transform
      → parse_transform Z sent ≡ some (clean_up (names_of (trim p.columns) p.columns), codes ",")
  unfolding parse_transform stringified build_options columns_option text_eq truthy_or_true names_of
  transform_read o = rw o (by_text (trim p.columns))
    where
      by_text :
          (t : Text)
          → parse_transform Z (stringified stringify (columns_option t p.columns))
            ≡ some (clean_up (names_of t p.columns), codes ",")
      by_text [] = refl
      by_text (c ∷ s) = rw (reads.strings-texts (trimmed_names (split_commas p.columns))) refl

  -- With values that zod reads back as they were written, what the page sends for the chosen operation
  -- is what the operation's schema reads: a resize to the width of the field, within it and never
  -- enlarging, if the width is from 1 to 8000, and nothing otherwise; a conversion to the field's format
  -- at quality 82, if it is one of the four; a thumbnail of the size of the field, if that is from 16 to
  -- 512, and nothing otherwise; a validation with header and commas; and a transform that trims, drops
  -- empty rows and keeps the columns that the field names, all of them for a blank field.
  pub sent_options_read :
      (p.operation ≡ image_resize → parse_resize Z sent ≡ resize_result (to_number p.width))
      × (p.operation ≡ image_convert
          → has p.format formats ≡ true
          → parse_convert Z sent ≡ some (p.format, 82))
      × (p.operation ≡ image_thumbnail
          → parse_thumbnail Z sent ≡ thumbnail_result (to_number p.size))
      × (p.operation ≡ csv_validate → parse_validate Z sent ≡ some (true, codes ","))
      × (p.operation ≡ csv_transform
          → parse_transform Z sent
            ≡ some (clean_up (names_of (trim p.columns) p.columns), codes ","))
  sent_options_read = (resize_read, convert_read, thumbnail_read, validate_read, transform_read)
