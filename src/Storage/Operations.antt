-- ===== src/Storage/Operations.antt =====
-- What the operations do with the disk.
use file_forge.Base.{◌≡◌, refl, true, Option, none, some, List, [], arith, inl, inr, Option-cases}
use mathlib.Core.Path.{subst}
use file_forge.Base.Text.{Text}
use file_forge.Storage.{
  FilePath, path_for, Disk, escapes_root, ok, err, Result, StoredFile, Rename, renamed,
  cross_device, rename_failed, save_from, save, adopt, moved, open_file, delete, exists, size,
  found, at_path, and_then, measured,
}

module _ (D : Disk) (root : FilePath) (key : Text) where
  -- The key and size that were reported, against the state that was left.
  abbrev pub Readable : StoredFile → D.State → Type 0
  Readable f d' =
      (f.key ≡ key)
      × (exists D root key d' ≡ (ok true, d'))
      × (size D root key d' ≡ (ok f.size, d'))
      × ((s : D.Source) × (open_file D root key d' ≡ (ok s, d')))

module _ (D : Disk) (root : FilePath) (key : Text) (d : D.State) where
  -- A key that escapes the root is refused by every operation, as that error and nothing milder,
  -- and the disk stays as it was.
  pub escaping_key_refused :
      path_for root key ≡ none
      → ((source : D.Source) → save D root key source d ≡ (err escapes_root, d))
        × ((source : D.Source) (stages : List D.Stage)
            → save_from D root key source stages d ≡ (err escapes_root, d))
        × ((local : Text) → adopt D root key local d ≡ (err escapes_root, d))
        × (open_file D root key d ≡ (err escapes_root, d))
        × (delete D root key d ≡ (err escapes_root, d))
        × (exists D root key d ≡ (err escapes_root, d))
        × (size D root key d ≡ (err escapes_root, d))
  unfolding save save_from adopt open_file delete exists size at_path
  escaping_key_refused e = (
    (λ source. rw (e, at_path)),
    (λ source stages. rw (e, at_path)),
    (λ local. rw (e, at_path)),
    rw (e, at_path),
    rw (e, at_path),
    rw (e, at_path),
    rw (e, at_path),
  )

  measured_lem :
      (path : FilePath) (d1 : D.State) (f : StoredFile) (d' : D.State)
      → measured D root key path d1 ≡ (ok f, d')
      → (D.stat path d' ≡ some f.size) × (f.key ≡ key) × (d1 ≡ d')
  unfolding measured
  measured_lem path d1 f d' e = ground arith

  measured-Readable :
      (path : FilePath) (d1 : D.State) (f : StoredFile) (d' : D.State)
      → path_for root key ≡ some path
      → measured D root key path d1 ≡ (ok f, d')
      → Readable D root key f d'
  unfolding exists size open_file at_path
  measured-Readable path d1 f d' p e =
      let (there, same, _) = measured_lem path d1 f d' e in
      (
        same,
        rw p (rw (there, found) refl),
        rw p (rw (there, found) refl),
        (D.read_stream path d', rw p (rw (there, found) refl)),
      )

  and_then_ok :
      {A : Type 0} (r : Option (Unit {0}) × D.State) (k : D.State → Result A × D.State) {a : A}
      {d' : D.State}
      → and_then D root r k ≡ (ok a, d')
      → (r.0 ≡ some tt) × (k r.1 ≡ (ok a, d'))
  unfolding and_then
  and_then_ok (none, d1) k e = cc
  and_then_ok (some tt, d1) k e = (refl, e)

  at_path_ok :
      {A : Type 0} (k : FilePath → Result A × D.State) {a : A} {d' : D.State}
      → at_path D root key d k ≡ (ok a, d')
      → (path : FilePath) × (path_for root key ≡ some path) × (k path ≡ (ok a, d'))
  unfolding at_path
  at_path_ok k e = elim (Option-cases (path_for root key)) [
    | inl refused ↦ cc (rw (refused, at_path) at e)
    | inr (path, found) ↦ (path, found, rw (found, at_path) at e)
  ]

  -- A successful write through any stages reports the key that was asked for, and leaves a file
  -- there that exists, has the reported size and can be opened.
  pub saved-Readable :
      (source : D.Source) (stages : List D.Stage) (f : StoredFile) (d' : D.State)
      → save_from D root key source stages d ≡ (ok f, d')
      → Readable D root key f d'
  unfolding save_from
  saved-Readable source stages f d' e =
      let (path, p, e1) = at_path_ok _ e in
      let (_, e2) = and_then_ok (D.make_parent path d) _ e1 in
      let (_, e3) = and_then_ok (D.pipeline source stages path (D.make_parent path d).1) _ e2 in
      measured-Readable path _ f d' p e3

  -- `save` is the pipeline without stages.
  pub save_lem : (source : D.Source) → save D root key source d ≡ save_from D root key source [] d
  unfolding save save_from
  save_lem source = refl

-- What is assumed of renaming and removing a local file, `Gone` standing for its absence.
pub record Moves (D : Disk) (Gone : Text → D.State → Type 0) : Type 0 where
  pub rename_gone :
      (local : Text) (path : FilePath) (d : D.State)
      → (D.rename local path d).0 ≡ renamed
      → Gone local (D.rename local path d).1
  pub remove_gone :
      (local : Text) (d : D.State)
      → (D.remove_local local d).0 ≡ some tt
      → Gone local (D.remove_local local d).1

module _ (D : Disk) (root : FilePath) (key : Text) (Gone : Text → D.State → Type 0)
    (moves : Moves D Gone) where
  moved-Readable :
      (local : Text) (path : FilePath) (r : Rename × D.State) (f : StoredFile) (d d' : D.State)
      → path_for root key ≡ some path
      → (r.0 ≡ renamed → Gone local r.1)
      → moved D root key local path r ≡ (ok f, d')
      → Readable D root key f d' × Gone local d'
  unfolding moved
  moved-Readable local path (renamed, d1) f d d' p g e = (
    measured-Readable D root key d path d1 f d' p e,
    subst (Gone local) (measured_lem D root key d path d1 f d' e).2 (g refl),
  )
  moved-Readable local path (rename_failed, d1) f d d' p g e = cc
  moved-Readable local path (cross_device, d1) f d d' p g e =
      let copied = D.pipeline (D.local_stream local d1) [] path d1 in
      let (_, e2) = and_then_ok D root key d copied _ e in
      let (taken, e3) = and_then_ok D root key d (D.remove_local local copied.1) _ e2 in
      let d2 = (D.remove_local local copied.1).1 in
      (
        measured-Readable D root key d path d2 f d' p e3,
        subst (Gone local) (measured_lem D root key d path d2 f d' e3).2
            (moves.remove_gone local copied.1 taken),
      )

  -- Adopting an upload that succeeds, by a rename or, across file systems, by a copy and a removal,
  -- leaves a readable file of the reported size under the key, and the local file is gone.
  pub adopted-Readable :
      (local : Text) (f : StoredFile) (d d' : D.State)
      → adopt D root key local d ≡ (ok f, d')
      → Readable D root key f d' × Gone local d'
  unfolding adopt
  adopted-Readable local f d d' e =
      let (path, p, e1) = at_path_ok D root key d _ e in
      let d1 = (D.make_parent path d).1 in
      let (_, e2) = and_then_ok D root key d (D.make_parent path d) _ e1 in
      moved-Readable local path (D.rename local path d1) f d d' p (moves.rename_gone local path d1)
        e2

module _ (D : Disk) (root : FilePath) where
  -- A key that exists is one that was accepted.
  pub exists-path_for :
      (key : Text) (d : D.State)
      → (exists D root key d).0 ≡ ok true
      → (path : FilePath) × (path_for root key ≡ some path)
  unfolding exists at_path
  exists-path_for key d e = elim (Option-cases (path_for root key)) [
    | inl refused ↦ cc (rw (refused, at_path) at e)
    | inr found ↦ found
  ]
