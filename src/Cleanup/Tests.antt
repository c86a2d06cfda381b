-- ===== src/Cleanup/Tests.antt =====
-- A sweep over one directory with an old and a recent file.
use file_forge.Base.{
  ℕ, ◌≡◌, refl, ◌⊎◌, inl, inr, Bool, true, false, Option, none, some, List, [], ◌∷◌, if◌then◌else◌,
  Bool-cases,
}
use file_forge.Base.Text.{Text, codes, text_eq}
use file_forge.Cleanup.{Stats, Disk, cleanup_old_files}
use file_forge.Cleanup.Sweep.{cleanup_removes_only_old}
use file_forge.Cleanup.Complete.{Removes}

abbrev directory : Stats
directory = record { is_directory = true; is_file = false; mtime_ms = 0; size = 0 }

abbrev file_of : ℕ → Stats
file_of written = record { is_directory = false; is_file = true; mtime_ms = written; size = 7 }

-- The state tells of the second file whether it is still there; the first is from hour 0 and the
-- second from hour 20.
abbrev stat_at : List Text → Bool → Option Stats
stat_at (d ∷ []) kept = some directory
stat_at (d ∷ n ∷ []) kept =
    if text_eq n (codes "new")
    then some (file_of 72000000)
    else if kept
    then some (file_of 0)
    else none
stat_at _ kept = none

abbrev remove_at : List Text → Bool → Option (Unit {0}) × Bool
remove_at (d ∷ []) kept = (none, kept)
remove_at (d ∷ n ∷ []) kept = if text_eq n (codes "new") then (none, kept) else (some tt, false)
remove_at _ kept = (some tt, kept)

abbrev listing : List Text → List Text
listing [] = codes "images" ∷ []
listing (d ∷ more) = codes "old" ∷ codes "new" ∷ []

abbrev disk : Disk
disk = record {
  State = Bool;
  readdir = λ path kept. some (listing path);
  stat = stat_at;
  remove = remove_at;
}

gone :
    (p : List Text) (kept : Bool)
    → (remove_at p kept).0 ≡ some tt
    → stat_at p (remove_at p kept).1 ≡ none
gone [] kept e = refl
gone (d ∷ []) kept e = cc
gone (d ∷ n ∷ []) kept e = elim (Bool-cases (text_eq n (codes "new"))) [
  | inl same ↦ cc (rw same at e)
  | inr other ↦ rw other refl
]
gone (d ∷ n ∷ m ∷ p) kept e = refl

-- With the old file gone nothing else has changed.
dropped :
    (q : List Text) (kept : Bool) → (stat_at q false ≡ stat_at q kept) ⊎ (stat_at q false ≡ none)
dropped [] kept = inl refl
dropped (d ∷ []) kept = inl refl
dropped (d ∷ n ∷ []) kept = elim (Bool-cases (text_eq n (codes "new"))) [
  | inl same ↦ inl (rw same refl)
  | inr other ↦ inr (rw other refl)
]
dropped (d ∷ n ∷ m ∷ q) kept = inl refl

kept_or_gone :
    (p q : List Text) (kept : Bool)
    → (stat_at q (remove_at p kept).1 ≡ stat_at q kept) ⊎ (stat_at q (remove_at p kept).1 ≡ none)
kept_or_gone [] q kept = inl refl
kept_or_gone (d ∷ []) q kept = inl refl
kept_or_gone (d ∷ n ∷ []) q kept = elim (Bool-cases (text_eq n (codes "new"))) [
  | inl same ↦ rw same (inl refl)
  | inr other ↦ rw other (dropped q kept)
]
kept_or_gone (d ∷ n ∷ m ∷ p) q kept = inl refl

disk-Removes : Removes disk
disk-Removes = record { removed_gone = gone; others_kept = kept_or_gone }

-- The recent file is there before and after.
cleanup_removes_only_old_example :
    stat_at (codes "images" ∷ codes "new" ∷ []) (cleanup_old_files disk 24 100000000 true).1
    ≡ some (file_of 72000000)
unfolding text_eq
cleanup_removes_only_old_example =
    cleanup_removes_only_old disk 24 100000000
      (λ kept. stat_at (codes "images" ∷ codes "new" ∷ []) kept ≡ some (file_of 72000000))
      (λ entry name kept old there. refl) true refl
