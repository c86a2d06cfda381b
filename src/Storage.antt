-- ===== src/Storage.antt =====
-- storage.ts: files by key under one directory. `join` and `resolve` of node:path are modelled for
-- POSIX paths; a path is the list of its names, the last one first. The disk is a parameter.
pub mod Names
pub mod Containment
pub mod Operations
pub mod Inside
pub mod Shelf
pub mod Memory
mod Tests
use file_forge.Base.{
  ℕ, Bool, true, false, not, ◌&&◌, ◌||◌, Option, none, some, List, [], ◌∷◌, ◌++◌, ◌==◌,
  if◌then◌else◌,
}
use file_forge.Base.Text.{Text, codes, text_eq}

abbrev pub FilePath : Type 0
FilePath = List Text

prepend : ℕ → List Text → List Text
prepend c [] = (c ∷ []) ∷ []
prepend c (part ∷ parts) = (c ∷ part) ∷ parts

pub split_path : Text → List Text
unfolding prepend
split_path [] = [] ∷ []
split_path (c ∷ s) = let rest = split_path s in if c == b'/' then [] ∷ rest else prepend c rest

parent : FilePath → FilePath
parent [] = []
parent (name ∷ up) = up

-- One name of a path: `.` and the empty name change nothing, `..` goes up, at the top nowhere.
unfoldable pub enter : FilePath → Text → FilePath
unfolding parent
enter path part =
    if text_eq part [] || text_eq part (codes ".")
    then path
    else if text_eq part (codes "..")
    then parent path
    else part ∷ path

unfoldable pub walk : FilePath → List Text → FilePath
walk path [] = path
walk path (part ∷ parts) = walk (enter path part) parts

-- resolve(join(root, key))
pub resolve_key : FilePath → Text → FilePath
unfolding walk split_path
resolve_key root key = walk root (split_path key)

pub below_root : FilePath → Text
below_root [] = []
below_root (name ∷ path) = below_root path ++ (b'/' ∷ name)

-- The path as text; the top is `/`.
pub path_text : FilePath → Text
unfolding below_root
path_text [] = b'/' ∷ []
path_text (name ∷ path) = below_root (name ∷ path)

unfoldable pub starts_with : Text → Text → Bool
starts_with s [] = true
starts_with [] (c ∷ p) = false
starts_with (d ∷ s) (c ∷ p) = d == c && starts_with s p

-- `pathFor`; `none` is the refusal of a key that escapes the root.
unfoldable pub path_for : FilePath → Text → Option FilePath
unfolding resolve_key path_text
path_for root key =
    let full = resolve_key root key in
    if not (text_eq (path_text full) (path_text root))
      && not (starts_with (path_text full) (path_text root ++ (b'/' ∷ [])))
    then none
    else some full

pub data Failure : Type 0 where
  escapes_root io_error : Failure

pub data Result (A : Type 0) : Type 0 where
  ok : A → Result A
  err : Failure → Result A

pub record StoredFile : Type 0 where
  pub key : Text
  pub size : ℕ

pub data Rename : Type 0 where
  renamed cross_device rename_failed : Rename

-- What the class uses of the disk and of streams. `none` is a promise that rejects.
pub record Disk : Type 1 where
  pub State : Type 0
  pub Source : Type 0
  pub Stage : Type 0
  -- mkdir(dirname(path), { recursive: true })
  pub make_parent : FilePath → State → Option (Unit {0}) × State
  -- pipeline(source, ...stages, createWriteStream(path))
  pub pipeline : Source → List Stage → FilePath → State → Option (Unit {0}) × State
  pub stat : FilePath → State → Option ℕ
  pub read_stream : FilePath → State → Source
  -- A local file outside the storage, by the name that the upload parser gave it.
  pub rename : Text → FilePath → State → Rename × State
  pub local_stream : Text → State → Source
  pub remove_local : Text → State → Option (Unit {0}) × State
  -- rm(path, { force: true })
  pub remove : FilePath → State → Option (Unit {0}) × State

module _ (D : Disk) (root : FilePath) where
  open D use {State, Source, Stage, make_parent, pipeline, stat, read_stream, rename}
  open D use {local_stream, remove_local, remove}

  abbrev Outcome : Type 0 → Type 0
  Outcome A = Result A × State

  -- Sequencing of promises that may reject, over the disk.
  and_then : {A : Type 0} → Option (Unit {0}) × State → (State → Outcome A) → Outcome A
  and_then (none, d) k = (err io_error, d)
  and_then (some _, d) k = k d

  abbrev found : {A : Type 0} → Option FilePath → State → (FilePath → Outcome A) → Outcome A
  found none d k = (err escapes_root, d)
  found (some path) d k = k path

  at_path : {A : Type 0} → Text → State → (FilePath → Outcome A) → Outcome A
  at_path key d k = found (path_for root key) d k

  measured : Text → FilePath → State → Outcome StoredFile
  measured key path d = elim (stat path d) [
    | none ↦ (err io_error, d)
    | some size ↦ (ok (record { key = key; size = size }), d)
  ]

  unfoldable pub save_from : Text → Source → List Stage → State → Outcome StoredFile
  unfolding and_then at_path measured
  save_from key source stages d = at_path key d λ path.
      and_then (make_parent path d)
        λ d1. and_then (pipeline source stages path d1) λ d2. measured key path d2

  pub save : Text → Source → State → Outcome StoredFile
  unfolding and_then at_path measured
  save key source d = at_path key d λ path.
      and_then (make_parent path d)
        λ d1. and_then (pipeline source [] path d1) λ d2. measured key path d2

  -- The `catch` of the rename.
  moved : Text → Text → FilePath → Rename × State → Outcome StoredFile
  unfolding and_then measured
  moved key local path (renamed, d) = measured key path d
  moved key local path (rename_failed, d) = (err io_error, d)
  moved key local path (cross_device, d) =
      and_then (pipeline (local_stream local d) [] path d)
        λ d1. and_then (remove_local local d1) λ d2. measured key path d2

  pub adopt : Text → Text → State → Outcome StoredFile
  unfolding and_then at_path moved
  adopt key local d =
      at_path key d
        λ path. and_then (make_parent path d) λ d1. moved key local path (rename local path d1)

  unfoldable pub open_file : Text → State → Outcome Source
  unfolding at_path
  open_file key d = at_path key d λ path. elim (stat path d) [
    | none ↦ (err io_error, d)
    | some size ↦ (ok (read_stream path d), d)
  ]

  pub delete : Text → State → Outcome (Unit {0})
  unfolding at_path and_then
  delete key d = at_path key d λ path. and_then (remove path d) λ d1. (ok tt, d1)

  pub exists : Text → State → Outcome Bool
  unfolding at_path
  exists key d =
      at_path key d λ path. elim (stat path d) [ none ↦ (ok false, d) | some size ↦ (ok true, d) ]

  pub size : Text → State → Outcome ℕ
  unfolding at_path
  size key d =
      at_path key d
        λ path. elim (stat path d) [ none ↦ (err io_error, d) | some bytes ↦ (ok bytes, d) ]
