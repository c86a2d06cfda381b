-- ===== src/Storage/Shelf/History.antt =====
-- A stored file through a sequence of operations.
use file_forge.Base.{
  ℕ, ◌≡◌, refl, sym, ◌∙◌, ap, false, Option, none, some, List, [], ◌∷◌, All, inl, inr, Option-cases,
}
use file_forge.Base.Text.{Text}
use file_forge.Storage
use file_forge.Storage.{
  Disk, FilePath, StoredFile, path_for, save, size, Result, io_error, found, at_path,
}
use file_forge.Storage.Operations.{saved-Readable, save_lem}
use file_forge.Storage.Shelf.{
  Shelf, path_eq, Operation, Effect, stores, removes, fails, key_of, perform, shelf, Allowed,
}
use file_forge.Storage.Shelf.Refines.{Separate, perform-Allowed}

module _ (D : Disk) (root : FilePath) where
  pub perform_all : List (Operation D) → D.State → D.State
  perform_all [] d = d
  perform_all (o ∷ os) d = perform_all os (perform D root o d).1

-- The operation's key escapes the root or stands for a file other than that at the path.
abbrev pub Elsewhere : (D : Disk) → (FilePath → Type 0) → FilePath → FilePath → Operation D → Type 0
Elsewhere D IsFile root q o =
    (p : FilePath) → path_for root (key_of D root o) ≡ some p → IsFile p × (path_eq p q ≡ false)

Allowed-same :
    (IsFile : FilePath → Type 0) (x : Option FilePath) (e : Effect) (before after : Shelf)
    (q : FilePath)
    → IsFile q
    → ((p : FilePath) → x ≡ some p → path_eq p q ≡ false)
    → Allowed IsFile x e before after
    → after q ≡ before q
Allowed-same IsFile none fails before after q i other h = h q
Allowed-same IsFile none (stores n) before after q i other h = absurd h
Allowed-same IsFile none removes before after q i other h = absurd h
Allowed-same IsFile (some p) fails before after q i other h = h q i (other p refl)
Allowed-same IsFile (some p) (stores n) before after q i other h = h.1 q i (other p refl)
Allowed-same IsFile (some p) removes before after q i other h = h.1 q i (other p refl)

module _ (D : Disk) (root : FilePath) (key : Text) (q : FilePath)
    (p : path_for root key ≡ some q) where
  size_of_stat : (n : ℕ) (x : D.State) → D.stat q x ≡ some n → size D root key x ≡ (Storage.ok n, x)
  unfolding size at_path
  size_of_stat n x there = rw p (rw (there, found) refl)

  size_of_none : (x : D.State) → D.stat q x ≡ none → size D root key x ≡ (Storage.err io_error, x)
  unfolding size at_path
  size_of_none x gone = rw p (rw (gone, found) refl)

  abbrev size_in : Result ℕ × D.State → Option ℕ
  size_in (Storage.ok n, x) = some n
  size_in (Storage.err e, x) = none

  stat_of_size : (n : ℕ) (x : D.State) → size D root key x ≡ (Storage.ok n, x) → D.stat q x ≡ some n
  stat_of_size n x e = elim (Option-cases (D.stat q x)) [
    | inl gone ↦ gone ∙ ap size_in (sym (size_of_none x gone) ∙ e)
    | inr (m, there) ↦ there ∙ ap size_in (sym (size_of_stat m x there) ∙ e)
  ]

  saved_stat :
      (source : D.Source) (d d' : D.State) (f : StoredFile)
      → save D root key source d ≡ (Storage.ok f, d')
      → D.stat q d' ≡ some f.size
  saved_stat source d d' f e =
      stat_of_size f.size d'
        (saved-Readable D root key d source [] f d' (sym (save_lem D root key d source) ∙ e)).2

module _ (D : Disk) (IsFile : FilePath → Type 0) (laws : Separate D IsFile) (root q : FilePath)
    (file : IsFile q) where
  untouched :
      (os : List (Operation D)) (d : D.State)
      → All (Elsewhere D IsFile root q) os
      → D.stat q (perform_all D root os d) ≡ D.stat q d
  unfolding perform_all
  untouched [] d h = refl
  untouched (o ∷ os) d (h, hs) =
      untouched os (perform D root o d).1 hs
      ∙ Allowed-same IsFile (path_for root (key_of D root o)) (perform D root o d).0
          (shelf D root d) (shelf D root (perform D root o d).1) q file (λ p e. (h p e).1)
          (perform-Allowed D IsFile root o d laws (λ p e. (h p e).0))

  -- A file that was saved has its size, and is not lost, as long as every operation that follows, whatever it is
  -- and whether it succeeds, is on a key that escapes the root or stands for another file; on a file system
  -- that keeps files apart.
  pub saved_stays :
      (key : Text) (source : D.Source) (d d' : D.State) (f : StoredFile) (os : List (Operation D))
      → path_for root key ≡ some q
      → save D root key source d ≡ (Storage.ok f, d')
      → All (Elsewhere D IsFile root q) os
      → size D root key (perform_all D root os d') ≡ (Storage.ok f.size, perform_all D root os d')
  saved_stays key source d d' f os p e h =
      size_of_stat D root key q p f.size (perform_all D root os d')
        (untouched os d' h ∙ saved_stat D root key q p source d d' f e)
