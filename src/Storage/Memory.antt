-- ===== src/Storage/Memory.antt =====
-- A disk in memory that meets what the theorems about storage assume. A stream is its length.
use file_forge.Base.{ℕ, ◌≡◌, refl, true, Option, none, some, if◌then◌else◌, [], ◌∷◌, All, arith}
use file_forge.Base.Text.{Text, codes, text_eq, text_eq_self}
use file_forge.Storage.{
  FilePath, path_text, Rename, renamed, rename_failed, Disk, ok, exists, size, open_file, path_for,
  enter, starts_with, at_path, adopt, moved, err, io_error,
}
use file_forge.Storage.Names.{IsName}
use file_forge.Storage.Operations.{Moves}

-- The files in storage by their paths, and the local ones by their names.
pub record Files : Type 0 where
  pub stored : Text → Option ℕ
  pub local : Text → Option ℕ

abbrev put : (Text → Option ℕ) → Text → Option ℕ → Text → Option ℕ
put m k v j = if text_eq k j then v else m j

abbrev rename_local : Text → FilePath → Option ℕ → Files → Rename × Files
rename_local name path none d = (rename_failed, d)
rename_local name path (some bytes) d = (
  renamed,
  record { stored = put d.stored (path_text path) (some bytes); local = put d.local name none },
)

abbrev or_empty : Option ℕ → ℕ
or_empty none = 0
or_empty (some bytes) = bytes

abbrev pub memory : Disk
memory = record {
  State = Files;
  Source = ℕ;
  Stage = Unit {0};
  make_parent = λ path d. (some tt, d);
  pipeline = λ bytes stages path d.
      (some tt, record { stored = put d.stored (path_text path) (some bytes); local = d.local });
  stat = λ path d. d.stored (path_text path);
  read_stream = λ path d. or_empty (d.stored (path_text path));
  rename = λ name path d. rename_local name path (d.local name) d;
  local_stream = λ name d. or_empty (d.local name);
  remove_local = λ name d. (some tt, record { stored = d.stored; local = put d.local name none });
  remove =
      λ path d. (some tt, record { stored = put d.stored (path_text path) none; local = d.local });
}

abbrev pub Gone : Text → Files → Type 0
Gone name d = d.local name ≡ none

put_same : (m : Text → Option ℕ) (k : Text) (v : Option ℕ) → put m k v k ≡ v
put_same m k v = rw (text_eq_self k) refl

rename_local-Gone :
    (name : Text) (path : FilePath) (found : Option ℕ) (d : Files)
    → (rename_local name path found d).0 ≡ renamed
    → Gone name (rename_local name path found d).1
rename_local-Gone name path none d e = cc
rename_local-Gone name path (some bytes) d e = put_same d.local name none

pub memory-Moves : Moves memory Gone
memory-Moves = record {
  rename_gone = λ name path d e. rename_local-Gone name path (d.local name) d e;
  remove_gone = λ name d e. put_same d.local name none;
}

-- The directory /srv/files.
abbrev pub root : FilePath
root = codes "files" ∷ codes "srv" ∷ []

pub root-IsName : All IsName root
root-IsName = (
  (
    (λ e. cc),
    (
      (λ e. omega arith),
      ((λ e. omega arith), ((λ e. omega arith), ((λ e. omega arith), ((λ e. omega arith), tt)))),
    ),
  ),
  (((λ e. cc), ((λ e. omega arith), ((λ e. omega arith), ((λ e. omega arith), tt)))), tt),
)

-- Every path holds three bytes.
abbrev pub full : Files
full = record { stored = λ path. some 3; local = λ name. none }

abbrev pub sample_key : Text
sample_key = codes "outputs/a.png"

pub full-exists : exists memory root sample_key full ≡ (ok true, full)
unfolding exists path_for text_eq enter starts_with at_path
full-exists = refl

pub full-size : size memory root sample_key full ≡ (ok 3, full)
unfolding size path_for text_eq enter starts_with at_path
full-size = refl

pub full-open_file : open_file memory root sample_key full ≡ (ok 3, full)
unfolding open_file path_for text_eq enter starts_with at_path
full-open_file = refl

-- One staged file of three bytes, and an upload's key.
abbrev pub staged : Files
staged = record { stored = λ path. none; local = λ name. some 3 }

abbrev pub nothing : Files
nothing = record { stored = λ path. none; local = λ name. none }

abbrev pub upload_key : Text
upload_key = codes "uploads/1.csv"

abbrev pub moved_in : Files
moved_in = (memory.rename (codes "tmp") (codes "1.csv" ∷ codes "uploads" ∷ root) staged).1

pub staged-adopt :
    adopt memory root upload_key (codes "tmp") staged
    ≡ (ok (record { key = upload_key; size = 3 }), moved_in)
unfolding adopt path_for text_eq enter starts_with at_path moved
staged-adopt = refl

pub nothing-adopt : adopt memory root upload_key (codes "tmp") nothing ≡ (err io_error, nothing)
unfolding adopt path_for text_eq enter starts_with at_path moved
nothing-adopt = refl
