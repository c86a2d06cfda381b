-- ===== src/Files/Routes/Created.antt =====
-- What an upload leaves behind, across the storage and the records.
use file_forge.Base.{ℕ, ◌≡◌, refl, sym, ◌∙◌, ap, Bool, Option, none, some}
use mathlib.Core.Path.{subst}
use file_forge.Base.Text.{Text}
use file_forge.Storage
use file_forge.Storage.{Disk, FilePath, Result, StoredFile, adopt}
use file_forge.Storage.Operations.{Readable, Moves, adopted-Readable}
use file_forge.Files.Records.{
  FileRecord, Redis, save, get, uploads_total, bytes_uploaded_total, increment_counter,
}
use file_forge.Files.Records.Kept.{Keeps, get-save, get-increment}
use file_forge.Files.Routes.{
  StagedFile, UploadView, view_of, forwarded, created, shown, Fresh, Naming, fail, record_of, saved,
  adopted, key_of, post_upload, shown_or_not, get_upload,
}

module _ (D : Disk) (R : Redis) (naming : Naming) (root : FilePath) (ttl : ℕ) (counting : Bool)
    (fresh : Fresh) (file : StagedFile) where
  -- An upload that fails removes the staged file on every path, as the last thing done to the disk.
  pub failed_upload_removes :
      (d : D.State) (s : R.Store) (w : D.State × R.Store)
      → post_upload D R naming root ttl counting fresh (some file) (d, s) ≡ (forwarded, w)
      → (d1 : D.State) × (w.0 ≡ (D.remove_local file.path d1).1)
  unfolding post_upload adopted saved fail
  failed_upload_removes d s w e =
      go (adopt D root (key_of D R naming root ttl counting fresh file) file.path d) e
    where
      go2 :
          (r : FileRecord) (d1 : D.State) (x : Option (Unit {0}) × R.Store)
          → saved D R naming root ttl counting file r d1 x ≡ (forwarded, w)
          → (d2 : D.State) × (w.0 ≡ (D.remove_local file.path d2).1)
      go2 r d1 (none, s1) e = (d1, sym (ap (λ x. x.1.0) e))
      go2 r d1 (some _, s1) e = cc

      go :
          (x : Result StoredFile × D.State)
          → adopted D R naming root ttl counting fresh file x s ≡ (forwarded, w)
          → (d1 : D.State) × (w.0 ≡ (D.remove_local file.path d1).1)
      go (Storage.err f, d1) e = (d1, sym (ap (λ x. x.1.0) e))
      go (Storage.ok stored, d1) e =
          go2 (record_of D R naming root ttl counting fresh file stored) d1 _ e

  abbrev key : Text
  key = key_of D R naming root ttl counting fresh file

  module _ (keeps : Keeps R) (Gone : Text → D.State → Type 0) (moves : Moves D Gone) where
    saved-Shown :
        (r : FileRecord) (d1 d' : D.State) (s s' : R.Store) (v : UploadView)
        → saved D R naming root ttl counting file r d1 (save R ttl r s) ≡ (created v, (d', s'))
        → (get_upload D R naming root ttl counting r.id (d', s') ≡ shown v)
          × (d1 ≡ d')
          × (v ≡ view_of r)
    unfolding saved get_upload shown_or_not fail
    saved-Shown r d1 d' s s' v e = go (save R ttl r s) refl e
      where
        go :
            (x : Option (Unit {0}) × R.Store)
            → save R ttl r s ≡ x
            → saved D R naming root ttl counting file r d1 x ≡ (created v, (d', s'))
            → (get_upload D R naming root ttl counting r.id (d', s') ≡ shown v)
              × (d1 ≡ d')
              × (v ≡ view_of r)
        go (none, s1) q e = cc
        go (some tt, s1) q e =
            let s2 = increment_counter R counting uploads_total 1 s1 in
            let there : get R r.id s1 ≡ some (some r) =
              subst (λ x. get R r.id x ≡ some (some r)) (ap (λ x. x.1) q)
                (get-save R keeps ttl r s (ap (λ x. x.0) q)) in
            let left : increment_counter R counting bytes_uploaded_total r.size s2 ≡ s' = cc in
            let same : view_of r ≡ v = cc in
            let found : get R r.id s' ≡ some (some r) =
              subst (λ x. get R r.id x ≡ some (some r)) left
                (get-increment R keeps r.id counting bytes_uploaded_total r.size s2
                  ∙ get-increment R keeps r.id counting uploads_total 1 s1
                  ∙ there) in
            (rw found (ap (λ x. shown x) same), cc, sym same)

    -- An upload that is answered as created is there: asking for its id shows what was answered,
    -- its bytes are readable in storage under the generated key with the size that was answered,
    -- and the staged file is gone.
    pub created_upload_shown :
        (d d' : D.State) (s s' : R.Store) (v : UploadView)
        → post_upload D R naming root ttl counting fresh (some file) (d, s) ≡ (created v, (d', s'))
        → (get_upload D R naming root ttl counting v.id (d', s') ≡ shown v)
          × Readable D root key (record { key = key; size = v.size }) d'
          × Gone file.path d'
    unfolding post_upload adopted fail record_of view_of key_of
    created_upload_shown d d' s s' v e = go (adopt D root key file.path d) refl e
      where
        go :
            (x : Result StoredFile × D.State)
            → adopt D root key file.path d ≡ x
            → adopted D R naming root ttl counting fresh file x s ≡ (created v, (d', s'))
            → (get_upload D R naming root ttl counting v.id (d', s') ≡ shown v)
              × Readable D root key (record { key = key; size = v.size }) d'
              × Gone file.path d'
        go (Storage.err f, d1) q e = cc
        go (Storage.ok stored, d1) q e =
            let r = record_of D R naming root ttl counting fresh file stored in
            let (seen, same, view) = saved-Shown r d1 d' s s' v e in
            let (there, gone) = adopted-Readable D root key Gone moves file.path stored d d1 q in
            let stays = subst (λ x. Readable D root key stored x) same there in
            let sized : stored.size ≡ v.size = sym (ap (λ (x : UploadView). x.size) view) in
            let named : r.id ≡ v.id = sym (ap (λ (x : UploadView). x.id) view) in
            (
              subst (λ id. get_upload D R naming root ttl counting id (d', s') ≡ shown v) named
                  seen,
              (refl, stays.1, stays.2 ∙ ap (λ (n : ℕ). (Storage.ok n, d')) sized, stays.3),
              subst (Gone file.path) same gone,
            )
