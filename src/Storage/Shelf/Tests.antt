-- ===== src/Storage/Shelf/Tests.antt =====
-- A disk that is a shelf, and two files on it.
use file_forge.Base.{
  ℕ, ◌≡◌, refl, sym, ap, ◌∙◌, false, Option, none, some, List, [], ◌∷◌, if◌then◌else◌,
}
use mathlib.Core.Path.{subst}
use file_forge.Base.Text.{codes, text_eq}
use file_forge.Storage
use file_forge.Storage.{Disk, FilePath, renamed, path_for, size, save, enter, starts_with}
use file_forge.Storage.Shelf.{
  Shelf, path_eq, path_eq_self, Operation, delete_op, perform, shelf, Allowed,
}
use file_forge.Storage.Shelf.Refines.{Separate, perform-Allowed}
use file_forge.Storage.Shelf.History.{perform_all, Elsewhere, saved_stays}

abbrev shelf_disk : Disk
shelf_disk = record {
  State = Shelf;
  Source = ℕ;
  Stage = Unit {0};
  make_parent = λ p d. (some tt, d);
  pipeline = λ bytes stages p d. (some tt, λ q. if path_eq p q then some bytes else d q);
  stat = λ p d. d p;
  read_stream = λ p d. 0;
  rename = λ local p d. (renamed, λ q. if path_eq p q then some 3 else d q);
  local_stream = λ local d. 3;
  remove_local = λ local d. (some tt, d);
  remove = λ p d. (some tt, λ q. if path_eq p q then none else d q);
}

abbrev IsAny : FilePath → Type 0
IsAny p = Unit

shelf_disk-Separate : Separate shelf_disk IsAny
shelf_disk-Separate = record {
  stat-make_parent = λ p q d i j. refl;
  stat-pipeline = λ s stages p q d i n. rw n refl;
  stat-rename = λ local p q d i n. rw n refl;
  stat-remove_local = λ local q d i. refl;
  stat-remove = λ p q d i n. rw n refl;
  removed = λ p d e. rw (path_eq_self p) refl;
}

abbrev root : FilePath
root = codes "srv" ∷ []

abbrev one_file : Shelf
one_file p = if path_eq (codes "a" ∷ codes "srv" ∷ []) p then some 5 else none

perform-Allowed_example :
    let out = perform shelf_disk root (delete_op (codes "a")) one_file in
    Allowed IsAny
      (path_for root (codes "a"))
      out.0
      (shelf shelf_disk root one_file)
      (shelf shelf_disk root out.1)
perform-Allowed_example =
    perform-Allowed shelf_disk IsAny root (delete_op (codes "a")) one_file shelf_disk-Separate
      (λ p e. tt)

abbrev path_or_top : Option FilePath → FilePath
path_or_top none = []
path_or_top (some p) = p

some-injective : {p q : FilePath} → some p ≡ some q → p ≡ q
some-injective e = ap path_or_top e

b_path : path_for root (codes "b") ≡ some (codes "b" ∷ root)
unfolding path_for enter starts_with text_eq
b_path = refl

a_path : path_for root (codes "a") ≡ some (codes "a" ∷ root)
unfolding path_for enter starts_with text_eq
a_path = refl

-- `a` is removed, twice, behind a file saved as `b`.
abbrev removals : List (Operation shelf_disk)
removals = delete_op (codes "a") ∷ delete_op (codes "a") ∷ []

abbrev with_b : Shelf
with_b p = if path_eq (codes "b" ∷ root) p then some 7 else one_file p

saved_b :
    save shelf_disk root (codes "b") 7 one_file
    ≡ (Storage.ok (record { key = codes "b"; size = 7 }), with_b)
unfolding save path_for enter starts_with text_eq
saved_b = refl

a-Elsewhere : Elsewhere shelf_disk IsAny root (codes "b" ∷ root) (delete_op (codes "a"))
unfolding text_eq
a-Elsewhere p e =
    (tt, subst (λ q. path_eq q (codes "b" ∷ root) ≡ false) (some-injective (sym a_path ∙ e)) refl)

saved_stays_example :
    size shelf_disk root (codes "b") (perform_all shelf_disk root removals with_b)
    ≡ (Storage.ok 7, perform_all shelf_disk root removals with_b)
saved_stays_example =
    saved_stays shelf_disk IsAny shelf_disk-Separate root (codes "b" ∷ root) tt (codes "b") 7
      one_file with_b (record { key = codes "b"; size = 7 }) removals b_path saved_b
      (a-Elsewhere, (a-Elsewhere, tt))
