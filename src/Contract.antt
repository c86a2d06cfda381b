-- ===== src/Contract.antt =====
-- shared/contract.ts: what a JSON text says, and how the schemas that the server and the page share
-- read it. The numbers of the messages are natural numbers.
pub mod Events
pub mod Uploads
pub mod Errors
pub mod Requests
pub mod Status
pub mod Links
use file_forge.Base.{ℕ, Bool, true, false, Option, none, some, List, [], ◌∷◌, leb, if◌then◌else◌}
use file_forge.Base.Text.{Text, codes, text_eq}
use file_forge.Jobs.{
  Operation, image_resize, image_convert, image_thumbnail, csv_validate, csv_transform,
}

-- A value as JSON.parse gives it; no two fields of an object have one name.
mutual
  pub data Json : Type 0 where
    null : Json
    bool : Bool → Json
    number : ℕ → Json
    string : Text → Json
    array : Items → Json
    object : Fields → Json

  pub data Items : Type 0 where
    no_items : Items
    item : Json → Items → Items

  pub data Fields : Type 0 where
    no_fields : Fields
    field : Text → Json → Fields → Fields

-- A response over HTTP: its status, and its body if that is JSON.
pub record Response : Type 0 where
  pub status : ℕ
  pub body : Option Json

unfoldable pub get_field : Text → Fields → Option Json
get_field k no_fields = none
get_field k (field j v r) = if text_eq k j then some v else get_field k r

-- Sequencing of readings that may fail.
infixl 5 ◌>>=◌
abbrev pub ◌>>=◌ : {A B : Type 0} → Option A → (A → Option B) → Option B
none >>= f = none
some a >>= f = f a

-- `z.object`
abbrev pub as_object : Json → Option Fields
as_object (object r) = some r
as_object _ = none

-- `z.string()`
abbrev pub as_string : Option Json → Option Text
as_string (some (string t)) = some t
as_string _ = none

-- `z.number()`
abbrev pub as_number : Option Json → Option ℕ
as_number (some (number n)) = some n
as_number _ = none

-- `z.boolean()`
abbrev pub as_bool : Option Json → Option Bool
as_bool (some (bool b)) = some b
as_bool _ = none

-- `z.string().optional()`
abbrev pub optional_string : Option Json → Option (Option Text)
optional_string none = some none
optional_string (some (string t)) = some (some t)
optional_string _ = none

-- The texts of OperationSchema.
unfoldable pub operation_text : Operation → Text
operation_text image_resize = codes "image.resize"
operation_text image_convert = codes "image.convert"
operation_text image_thumbnail = codes "image.thumbnail"
operation_text csv_validate = codes "csv.validate"
operation_text csv_transform = codes "csv.transform"

-- OperationSchema
unfoldable pub operation_of : Text → Option Operation
unfolding operation_text
operation_of t =
    if text_eq t (operation_text image_resize)
    then some image_resize
    else if text_eq t (operation_text image_convert)
    then some image_convert
    else if text_eq t (operation_text image_thumbnail)
    then some image_thumbnail
    else if text_eq t (operation_text csv_validate)
    then some csv_validate
    else if text_eq t (operation_text csv_transform)
    then some csv_transform
    else none
