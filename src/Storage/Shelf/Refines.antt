-- ===== src/Storage/Shelf/Refines.antt =====
-- The operations of the storage make the changes that are allowed.
use mathlib.Core.Path.{subst}
use file_forge.Base.{ℕ, ◌≡◌, refl, sym, ◌∙◌, false, Option, none, some, List, []}
use file_forge.Base.Text.{Text}
use file_forge.Storage
use file_forge.Storage.{
  Disk, FilePath, Rename, renamed, cross_device, rename_failed, Result, StoredFile, escapes_root,
  io_error, and_then, found, at_path, measured, moved, path_for, save, save_from, adopt, delete,
}
use file_forge.Storage.Shelf.{
  Shelf, path_eq, Operation, save_op, save_from_op, adopt_op, delete_op, Effect, fails, key_of,
  stored_effect, removed_effect, perform, shelf, Allowed,
}

-- What is relied on of the file system. Making the directories above a file makes no file, whatever
-- is written to, moved to or removed from a path changes no file at another path, and a path that a
-- removal succeeds at is empty. No path of a file lies above another.
pub record Separate (D : Disk) (IsFile : FilePath → Type 0) : Type 0 where
  pub stat-make_parent :
      (p q : FilePath) (d : D.State)
      → IsFile p
      → IsFile q
      → D.stat q (D.make_parent p d).1 ≡ D.stat q d
  pub stat-pipeline :
      (s : D.Source) (stages : List D.Stage) (p q : FilePath) (d : D.State)
      → IsFile q
      → path_eq p q ≡ false
      → D.stat q (D.pipeline s stages p d).1 ≡ D.stat q d
  pub stat-rename :
      (local : Text) (p q : FilePath) (d : D.State)
      → IsFile q
      → path_eq p q ≡ false
      → D.stat q (D.rename local p d).1 ≡ D.stat q d
  pub stat-remove_local :
      (local : Text) (q : FilePath) (d : D.State)
      → IsFile q
      → D.stat q (D.remove_local local d).1 ≡ D.stat q d
  pub stat-remove :
      (p q : FilePath) (d : D.State)
      → IsFile q
      → path_eq p q ≡ false
      → D.stat q (D.remove p d).1 ≡ D.stat q d
  pub removed :
      (p : FilePath) (d : D.State) → (D.remove p d).0 ≡ some tt → D.stat p (D.remove p d).1 ≡ none

module _ (D : Disk) (root : FilePath) where
  abbrev written : FilePath → Text → D.Source → List D.Stage → D.State → Result StoredFile × D.State
  written p key s stages d =
      and_then D root (D.make_parent p d)
        λ d1. and_then D root (D.pipeline s stages p d1) λ d2. measured D root key p d2

  abbrev adopted : FilePath → Text → Text → D.State → Result StoredFile × D.State
  adopted p key local d =
      and_then D root (D.make_parent p d) λ d1. moved D root key local p (D.rename local p d1)

  abbrev deleted : FilePath → D.State → Result (Unit {0}) × D.State
  deleted p d = and_then D root (D.remove p d) λ d1. (Storage.ok tt, d1)

module _ (D : Disk) (IsFile : FilePath → Type 0) (laws : Separate D IsFile) (root : FilePath)
    (p : FilePath) (file : IsFile p) where
  abbrev Stored : Shelf → Result StoredFile × D.State → Type 0
  Stored before (r, d) = Allowed IsFile (some p) (stored_effect D root r) before (shelf D root d)

  abbrev Elsewhere : Shelf → D.State → Type 0
  Elsewhere before d = (q : FilePath) → IsFile q → path_eq p q ≡ false → D.stat q d ≡ before q

  measured-Stored :
      (key : Text) (before : Shelf) (d : D.State)
      → Elsewhere before d
      → Stored before (measured D root key p d)
  unfolding measured stored_effect
  measured-Stored key before d h = by_size (D.stat p d) refl
    where
      by_size :
          (o : Option ℕ)
          → D.stat p d ≡ o
          → Stored before (elim o [
            | none ↦ (Storage.err io_error, d)
            | some size ↦ (Storage.ok (record { key = key; size = size }), d)
          ])
      by_size none e = h
      by_size (some size) e = (e, h)

  and_then-Stored :
      (before : Shelf) (x : Option (Unit {0}) × D.State) (k : D.State → Result StoredFile × D.State)
      → Elsewhere before x.1
      → ((d : D.State) → Elsewhere before d → Stored before (k d))
      → Stored before (and_then D root x k)
  unfolding and_then stored_effect
  and_then-Stored before (none, d) k h next = h
  and_then-Stored before (some u, d) k h next = next d h

  piped-Elsewhere :
      (s : D.Source) (stages : List D.Stage) (before : Shelf) (d : D.State)
      → Elsewhere before d
      → Elsewhere before (D.pipeline s stages p d).1
  piped-Elsewhere s stages before d h q i n = laws.stat-pipeline s stages p q d i n ∙ h q i n

  parent-Elsewhere : (d : D.State) → Elsewhere (shelf D root d) (D.make_parent p d).1
  parent-Elsewhere d q i n = laws.stat-make_parent p q d file i

  moved-Stored :
      (key local : Text) (before : Shelf) (x : Rename × D.State)
      → Elsewhere before x.1
      → Stored before (moved D root key local p x)
  unfolding moved stored_effect
  moved-Stored key local before (renamed, d) h = measured-Stored key before d h
  moved-Stored key local before (rename_failed, d) h = h
  moved-Stored key local before (cross_device, d) h =
      and_then-Stored before (D.pipeline (D.local_stream local d) [] p d) _
        (piped-Elsewhere (D.local_stream local d) [] before d h)
        λ d1 h1.
          and_then-Stored before (D.remove_local local d1) _
            (λ q i n. laws.stat-remove_local local q d1 i ∙ h1 q i n)
            λ d2 h2. measured-Stored key before d2 h2

  written-Stored :
      (key : Text) (s : D.Source) (stages : List D.Stage) (d : D.State)
      → Stored (shelf D root d) (written D root p key s stages d)
  written-Stored key s stages d =
      and_then-Stored (shelf D root d) (D.make_parent p d) _ (parent-Elsewhere d) λ d1 h1.
        and_then-Stored (shelf D root d) (D.pipeline s stages p d1) _
          (piped-Elsewhere s stages (shelf D root d) d1 h1)
          λ d2 h2. measured-Stored key (shelf D root d) d2 h2

  adopted-Stored :
      (key local : Text) (d : D.State) → Stored (shelf D root d) (adopted D root p key local d)
  adopted-Stored key local d =
      and_then-Stored (shelf D root d) (D.make_parent p d) _ (parent-Elsewhere d) λ d1 h1.
        moved-Stored key local (shelf D root d) (D.rename local p d1)
          λ q i n. laws.stat-rename local p q d1 i n ∙ h1 q i n

  abbrev Removed : Shelf → Result (Unit {0}) × D.State → Type 0
  Removed before (r, d) = Allowed IsFile (some p) (removed_effect D root r) before (shelf D root d)

  deleted-Removed : (d : D.State) → Removed (shelf D root d) (deleted D root p d)
  unfolding and_then removed_effect
  deleted-Removed d =
      by_removal (D.remove p d) (laws.removed p d) (λ q i n. laws.stat-remove p q d i n)
    where
      by_removal :
          (x : Option (Unit {0}) × D.State)
          → (x.0 ≡ some tt → D.stat p x.1 ≡ none)
          → Elsewhere (shelf D root d) x.1
          → Removed (shelf D root d) (and_then D root x λ d1. (Storage.ok tt, d1))
      by_removal (none, d1) gone h = h
      by_removal (some u, d1) gone h = (gone refl, h)

module _ (D : Disk) (IsFile : FilePath → Type 0) (root : FilePath) (d : D.State) where
  abbrev Kept : {A : Type 0} → (Result A → Effect) → Option FilePath → Result A × D.State → Type 0
  Kept effect o x = Allowed IsFile o (effect x.0) (shelf D root d) (shelf D root x.1)

  at-Kept :
      {A : Type 0} (effect : Result A → Effect) (o : Option FilePath)
      (k : FilePath → Result A × D.State)
      → effect (Storage.err escapes_root) ≡ fails
      → ((p : FilePath) → o ≡ some p → IsFile p)
      → ((p : FilePath) → IsFile p → Kept effect (some p) (k p))
      → Kept effect o (found D root o d k)
  at-Kept effect none k e files h =
      subst (λ x. Allowed IsFile none x (shelf D root d) (shelf D root d)) (sym e) (λ q. refl)
  at-Kept effect (some p) k e files h = h p (files p refl)

-- Every operation on a key, succeeding or failing, makes the change to the shelf that it is
-- allowed: on a key that escapes the root none at all, and otherwise, on a file system that keeps
-- files apart and for a key whose path is a file's, at the key's path the size that it returns, or
-- nothing for a removal, and no change at any other file, failures included.
pub perform-Allowed :
    (D : Disk) (IsFile : FilePath → Type 0) (root : FilePath) (o : Operation D) (d : D.State)
    → Separate D IsFile
    → ((p : FilePath) → path_for root (key_of D root o) ≡ some p → IsFile p)
    → let out = perform D root o d in
      Allowed IsFile (path_for root (key_of D root o)) out.0 (shelf D root d) (shelf D root out.1)
unfolding perform stored_effect removed_effect save save_from adopt delete at_path
perform-Allowed D IsFile root (save_op key source) d laws files =
    at-Kept D IsFile root d (stored_effect D root) (path_for root key)
      (λ p. written D root p key source [] d) refl files
      (λ p file. written-Stored D IsFile laws root p file key source [] d)
perform-Allowed D IsFile root (save_from_op key source stages) d laws files =
    at-Kept D IsFile root d (stored_effect D root) (path_for root key)
      (λ p. written D root p key source stages d) refl files
      (λ p file. written-Stored D IsFile laws root p file key source stages d)
perform-Allowed D IsFile root (adopt_op key local) d laws files =
    at-Kept D IsFile root d (stored_effect D root) (path_for root key)
      (λ p. adopted D root p key local d) refl files
      (λ p file. adopted-Stored D IsFile laws root p file key local d)
perform-Allowed D IsFile root (delete_op key) d laws files =
    at-Kept D IsFile root d (removed_effect D root) (path_for root key) (λ p. deleted D root p d)
      refl files (λ p file. deleted-Removed D IsFile laws root p file d)
