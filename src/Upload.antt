-- ===== src/Upload.antt =====
-- files/upload.ts: which uploads are accepted, and under what name and key they are kept.
-- Text is walked by UTF-16 code unit, as the source's patterns do. `toLowerCase`, `extname` and
-- `randomUUID` are parameters.
pub mod Filename
pub mod Separators
pub mod Types
pub mod Filter
use file_forge.Base.{
  ℕ, suc, ◌-◌, ◌≤◌, Bool, true, false, not, ◌&&◌, ◌||◌, Option, none, some, List, [], ◌∷◌, ◌++◌,
  map, leb, ltb, ◌==◌, length, take, drop, filter, if◌then◌else◌,
}
use file_forge.Base.Text.{Text, codes, lookup, has}

abbrev pub allowed_mime_types : List Text
allowed_mime_types =
    codes "image/jpeg"
    ∷ codes "image/png"
    ∷ codes "image/webp"
    ∷ codes "image/gif"
    ∷ codes "image/tiff"
    ∷ codes "text/csv"
    ∷ codes "application/csv"
    ∷ codes "text/plain"
    ∷ []

abbrev pub allowed_extensions : List (Text × Text)
allowed_extensions =
    (codes ".jpg", codes "image/jpeg")
    ∷ (codes ".jpeg", codes "image/jpeg")
    ∷ (codes ".png", codes "image/png")
    ∷ (codes ".webp", codes "image/webp")
    ∷ (codes ".gif", codes "image/gif")
    ∷ (codes ".tif", codes "image/tiff")
    ∷ (codes ".tiff", codes "image/tiff")
    ∷ (codes ".csv", codes "text/csv")
    ∷ []

abbrev pub uninformative_types : List Text
uninformative_types = codes "application/octet-stream" ∷ codes "binary/octet-stream" ∷ [] ∷ []

-- `lastIndexOf('.')`, with `none` for -1.
pub last_index_of : ℕ → Text → Option ℕ
last_index_of c [] = none
last_index_of c (d ∷ s) = elim (last_index_of c s) [
  | some i ↦ some (suc i)
  | none ↦ if d == c then some 0 else none
]

-- `slice(i)`; at -1 it takes the last code unit.
slice_from : Option ℕ → Text → Text
slice_from (some i) s = drop i s
slice_from none s = drop (length s - 1) s

-- The index is that in the name, the slice that of the name in lower case.
unfoldable pub resolve_mime_type : (Text → Text) → Text → Text → Option Text
unfolding last_index_of slice_from
resolve_mime_type to_lower_case declared filename =
    if has declared allowed_mime_types
    then some declared
    else if has declared uninformative_types
    then lookup (slice_from (last_index_of b'.' filename) (to_lower_case filename))
        allowed_extensions
    else none

abbrev pub is_separator : ℕ → Bool
is_separator c = c == b'/' || c == b'\\'

-- What `.` does not match in a pattern.
abbrev pub is_line_end : ℕ → Bool
is_line_end c = c == 10 || c == 13 || c == 0x2028 || c == 0x2029

-- What stands behind the last separator of the first line.
after_separator : Text → Option Text
after_separator [] = none
after_separator (c ∷ s) =
    let later = after_separator s in
    let here = if is_separator c then some s else none in
    if is_line_end c then none else elim later [ some rest ↦ some rest | none ↦ here ]

or_whole : Text → Option Text → Text
or_whole s none = s
or_whole s (some rest) = rest

-- `replace(/^.*[\\/]/, '')`
pub without_path : Text → Text
unfolding after_separator or_whole
without_path s = or_whole s (after_separator s)

abbrev pub is_control : ℕ → Bool
is_control c = leb c 31 || c == 127

abbrev pub is_reserved : ℕ → Bool
is_reserved c =
    c == b'<' || c == b'>' || c == b':' || c == b'"' || c == b'|' || c == b'?' || c == b'*'

abbrev pub replace_reserved : ℕ → ℕ
replace_reserved c = if is_reserved c then b'_' else c

-- White space and line ends, as `trim` takes them off.
abbrev pub is_space : ℕ → Bool
is_space c =
    leb 9 c && leb c 13
    || c == 32
    || c == 0xa0
    || c == 0x1680
    || leb 0x2000 c && leb c 0x200a
    || is_line_end c
    || c == 0x202f
    || c == 0x205f
    || c == 0x3000
    || c == 0xfeff

pub trim_start : Text → Text
trim_start [] = []
trim_start (c ∷ s) = let rest = trim_start s in if is_space c then rest else c ∷ s

abbrev cons_unless_space : ℕ → Text → Text
cons_unless_space c [] = if is_space c then [] else c ∷ []
cons_unless_space c (d ∷ s) = c ∷ d ∷ s

pub trim_end : Text → Text
trim_end [] = []
trim_end (c ∷ s) = cons_unless_space c (trim_end s)

unfoldable pub trim : Text → Text
unfolding trim_start trim_end
trim s = trim_start (trim_end s)

pub or_unnamed : Text → Text
or_unnamed [] = codes "unnamed"
or_unnamed (c ∷ s) = c ∷ s

pub cleaned_name : Text → Text
unfolding without_path trim
cleaned_name name =
    trim (map replace_reserved (filter (λ c. not (is_control c)) (without_path name)))

-- `slice(0, 255)` behind the test on the length.
pub cut : Text → Text
cut s = if ltb 255 (length s) then take 255 s else s

pub sanitize_filename : Text → Text
unfolding cleaned_name or_unnamed cut
sanitize_filename name = cut (or_unnamed (cleaned_name name))

unfoldable pub storage_key_for : (Text → Text) → (Text → Text) → Text → Text → Text
storage_key_for extname to_lower_case random_uuid original_name =
    codes "uploads/" ++ (random_uuid ++ take 10 (to_lower_case (extname original_name)))
