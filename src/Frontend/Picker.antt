-- ===== src/Frontend/Picker.antt =====
-- frontend/src/components/OperationPicker.tsx: the operation that is chosen and the options that go
-- with it. `Number` of a field's text is a parameter.
pub mod Options
mod Tests
use file_forge.Base.{
  ℕ, ◌≡◌, refl, Bool, true, false, not, Option, none, some, List, [], ◌∷◌, length, if◌then◌else◌,
  ◌==◌, All, arith,
}
use file_forge.Base.Text.{Text, codes}
use file_forge.Base.Split.{Lacks}
use file_forge.Upload.{trim}
use file_forge.Jobs.{
  Kind, image, csv, Operation, image_resize, image_convert, image_thumbnail, csv_validate,
  csv_transform,
}

-- The value of an option.
pub data Value : Type 0 where
  number : ℕ → Value
  text : Text → Value
  texts : List Text → Value

pub record Picker : Type 0 where
  pub kind : Kind
  pub operation : Operation
  pub width : Text
  pub format : Text
  pub size : Text
  pub columns : Text

-- `available[0]`
unfoldable pub first_operation : Kind → Operation
first_operation image = image_resize
first_operation csv = csv_validate

unfoldable pub mounted : Kind → Picker
unfolding first_operation
mounted kind = record {
  kind = kind;
  operation = first_operation kind;
  width = codes "800";
  format = codes "webp";
  size = codes "256";
  columns = [];
}

prepend : ℕ → List Text → List Text
prepend c [] = (c ∷ []) ∷ []
prepend c (part ∷ parts) = (c ∷ part) ∷ parts

-- `.split(',')`
pub split_commas : Text → List Text
unfolding prepend
split_commas [] = [] ∷ []
split_commas (c ∷ s) = let rest = split_commas s in if c == b',' then [] ∷ rest else prepend c rest

cons_unless_empty : Text → List Text → List Text
cons_unless_empty [] names = names
cons_unless_empty (c ∷ s) names = (c ∷ s) ∷ names

-- `.map((name) => name.trim()).filter(Boolean)`
pub trimmed_names : List Text → List Text
unfolding cons_unless_empty
trimmed_names [] = []
trimmed_names (name ∷ names) = cons_unless_empty (trim name) (trimmed_names names)

columns_option : Text → Text → List (Text × Value)
unfolding split_commas trimmed_names
columns_option [] columns = []
columns_option (c ∷ s) columns =
    (codes "columns", texts (trimmed_names (split_commas columns))) ∷ []

-- buildOptions
unfoldable pub build_options : (Text → ℕ) → Picker → List (Text × Value)
unfolding columns_option
build_options to_number p = elim p.operation [
  | image_resize ↦ (codes "width", number (to_number p.width)) ∷ []
  | image_convert ↦ (codes "format", text p.format) ∷ []
  | image_thumbnail ↦ (codes "size", number (to_number p.size)) ∷ []
  | csv_transform ↦ columns_option (trim p.columns) p.columns
  | csv_validate ↦ []
]
