-- ===== src/Storage/Shelf.antt =====
-- What storage.ts promises: a shelf that holds the size of each file, and the change that an
-- operation on a key makes to it.
pub mod Refines
pub mod History
mod Tests
use file_forge.Base.{
  ℕ, ◌≡◌, refl, sym, ◌∙◌, Bool, true, false, ◌&&◌, Option, none, some, List, [], ◌∷◌, if◌then◌else◌,
  arith, All,
}
use file_forge.Base.Text.{Text, text_eq, text_eq_self}
use file_forge.Storage
use file_forge.Storage.{
  Disk, FilePath, Result, StoredFile, path_for, save, save_from, adopt, delete,
}

abbrev pub Shelf : Type 0
Shelf = FilePath → Option ℕ

abbrev pub path_eq : FilePath → FilePath → Bool
path_eq [] [] = true
path_eq (s ∷ p) (t ∷ q) = text_eq s t && path_eq p q
path_eq [] (t ∷ q) = false
path_eq (s ∷ p) [] = false

pub path_eq_self : (p : FilePath) → path_eq p p ≡ true
path_eq_self [] = refl
path_eq_self (s ∷ p) = rw (text_eq_self s) (path_eq_self p)

-- The operations that change the storage.
pub data Operation (D : Disk) : Type 0 where
  save_op : Text → D.Source → Operation D
  save_from_op : Text → D.Source → List D.Stage → Operation D
  adopt_op : Text → Text → Operation D
  delete_op : Text → Operation D

-- What an operation that succeeds makes of its path: a file of that size, or none.
pub data Effect : Type 0 where
  stores : ℕ → Effect
  removes : Effect
  fails : Effect

module _ (D : Disk) (root : FilePath) where
  abbrev pub key_of : Operation D → Text
  key_of (save_op key source) = key
  key_of (save_from_op key source stages) = key
  key_of (adopt_op key local) = key
  key_of (delete_op key) = key

  stored_effect : Result StoredFile → Effect
  stored_effect (Storage.ok f) = stores f.size
  stored_effect (Storage.err e) = fails

  removed_effect : Result (Unit {0}) → Effect
  removed_effect (Storage.ok u) = removes
  removed_effect (Storage.err e) = fails

  pub perform : Operation D → D.State → Effect × D.State
  unfolding stored_effect removed_effect
  perform (save_op key source) d = let (r, d') = save D root key source d in (stored_effect r, d')
  perform (save_from_op key source stages) d =
      let (r, d') = save_from D root key source stages d in (stored_effect r, d')
  perform (adopt_op key local) d = let (r, d') = adopt D root key local d in (stored_effect r, d')
  perform (delete_op key) d = let (r, d') = delete D root key d in (removed_effect r, d')

  abbrev pub shelf : D.State → Shelf
  shelf d path = D.stat path d

-- The change that is allowed, on the paths of files: none without a path; the new size or nothing
-- at the path, and none elsewhere; after a failure, anything at the path and none elsewhere.
abbrev pub Allowed : (FilePath → Type 0) → Option FilePath → Effect → Shelf → Shelf → Type 0
Allowed IsFile none fails before after = (q : FilePath) → after q ≡ before q
Allowed IsFile none (stores n) before after = ⊥
Allowed IsFile none removes before after = ⊥
Allowed IsFile (some p) (stores n) before after =
    (after p ≡ some n) × ((q : FilePath) → IsFile q → path_eq p q ≡ false → after q ≡ before q)
Allowed IsFile (some p) removes before after =
    (after p ≡ none) × ((q : FilePath) → IsFile q → path_eq p q ≡ false → after q ≡ before q)
Allowed IsFile (some p) fails before after =
    (q : FilePath) → IsFile q → path_eq p q ≡ false → after q ≡ before q
