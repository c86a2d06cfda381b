-- ===== src/Storage/Names.antt =====
-- Paths as text: names without separators, and prefixes.
use file_forge.Base.{
  ℕ, ◌≡◌, ◌≢◌, refl, sym, ◌∙◌, ap, true, false, List, [], ◌∷◌, ◌++◌, arith, ◌==◌, ◌⊎◌, inl, inr,
  All, Bool-cases,
}
use mathlib.Core.List.{append_assoc, append-nil}
use mathlib.Core.Bool.{false≢true}
use file_forge.Base.Text.{Text, codes, text_eq, text_eq_iff}
use file_forge.Base.Split.{Lacks, split_last}
use file_forge.Storage.{
  FilePath, prepend, split_path, parent, enter, walk, resolve_key, below_root, starts_with,
}

abbrev pub IsName : Text → Type 0
IsName s = (s ≢ []) × Lacks b'/' s

prepend-Lacks :
    (c : ℕ) (parts : List Text)
    → c ≢ b'/'
    → All (Lacks b'/') parts
    → All (Lacks b'/') (prepend c parts)
unfolding prepend
prepend-Lacks c [] n h = ((n, tt), tt)
prepend-Lacks c (p ∷ parts) n (h, hs) = ((n, h), hs)

split_path-Lacks : (s : Text) → All (Lacks b'/') (split_path s)
unfolding split_path
split_path-Lacks [] = (tt, tt)
split_path-Lacks (c ∷ s) = elim (Bool-cases (c == b'/')) [
  | inl slash ↦ rw slash (tt, split_path-Lacks s)
  | inr other ↦
      let differs : c ≢ b'/' = ground arith in
      rw other (prepend-Lacks c (split_path s) differs (split_path-Lacks s))
]

parent-IsName : (path : FilePath) → All IsName path → All IsName (parent path)
unfolding parent
parent-IsName [] h = tt
parent-IsName (n ∷ path) h = h.1

enter-IsName :
    (path : FilePath) (part : Text)
    → All IsName path
    → Lacks b'/' part
    → All IsName (enter path part)
unfolding enter
enter-IsName path part h l = elim (Bool-cases (text_eq part [])) [
  | inl empty ↦ rw empty h
  | inr full ↦ elim (Bool-cases (text_eq part (codes "."))) [
    | inl dot ↦ rw (full, dot) h
    | inr word ↦ elim (Bool-cases (text_eq part (codes ".."))) [
      | inl up ↦ rw (full, word, up) (parent-IsName path h)
      | inr name ↦ rw (full, word, name) ((non_empty part full, l), h)
    ]
  ]
]
  where
    non_empty : (s : Text) → text_eq s [] ≡ false → s ≢ []
    non_empty s e q = false≢true (sym e ∙ (text_eq_iff s []).1 q)

walk-IsName :
    (path : FilePath) (parts : List Text)
    → All IsName path
    → All (Lacks b'/') parts
    → All IsName (walk path parts)
unfolding walk
walk-IsName path [] h l = h
walk-IsName path (part ∷ parts) h (l, ls) =
    walk-IsName (enter path part) parts (enter-IsName path part h l) ls

pub resolve_key-IsName :
    (root : FilePath) (key : Text) → All IsName root → All IsName (resolve_key root key)
unfolding resolve_key
resolve_key-IsName root key h = walk-IsName root (split_path key) h (split_path-Lacks key)

nil_append : (s t : Text) (c : ℕ) → [] ≢ s ++ (c ∷ t)
nil_append [] t c e = cc
nil_append (d ∷ s) t c e = cc

-- A path of names is determined by its text.
pub below_root-injective :
    (a b : FilePath) → All IsName a → All IsName b → below_root a ≡ below_root b → a ≡ b
unfolding below_root
below_root-injective [] [] h k e = refl
below_root-injective [] (n ∷ b) h k e = absurd (nil_append _ _ _ e)
below_root-injective (n ∷ a) [] h k e = absurd (nil_append _ _ _ (sym e))
below_root-injective (n ∷ a) (m ∷ b) h k e =
    let (up, name) = split_last b'/' _ _ n m h.0.1 k.0.1 e in
    let same = below_root-injective a b h.1 k.1 up in cc

last_slash :
    (s : Text) → Lacks b'/' s ⊎ ((a : Text) × (b : Text) × (s ≡ a ++ (b'/' ∷ b)) × Lacks b'/' b)
last_slash [] = inl tt
last_slash (c ∷ s) = elim (last_slash s) [
  | inr (a, b, e, l) ↦ inr (c ∷ a, b, ap (λ t. c ∷ t) e, l)
  | inl l ↦ elim (Bool-cases (c == b'/')) [
    | inl slash ↦ inr ([], s, ap (λ d. d ∷ s) (ground arith), l)
    | inr other ↦ inl ((ground arith), l)
  ]
]

-- If the text of a path begins with that of `root` and a separator, the path lies under `root`.
pub below_root_prefix :
    (st root : FilePath) (rest : Text)
    → All IsName st
    → All IsName root
    → below_root st ≡ below_root root ++ (b'/' ∷ rest)
    → (extra : FilePath) × (st ≡ extra ++ root)
unfolding below_root
below_root_prefix [] root rest h k e = absurd (nil_append _ _ _ e)
below_root_prefix (n ∷ st) root rest h k e = elim (last_slash rest) [
  | inl l ↦
      let (up, _) = split_last b'/' _ _ n rest h.0.1 l e in
      (n ∷ [], ap (λ p. n ∷ p) (below_root-injective st root h.1 k up))
  | inr (a, b, q, l) ↦
      let regrouped =
        e
        ∙ ap (λ t. below_root root ++ (b'/' ∷ t)) q
        ∙ sym (append_assoc (below_root root) (b'/' ∷ a) (b'/' ∷ b)) in
      let (up, _) = split_last b'/' _ _ n b h.0.1 l regrouped in
      let (extra, under) = below_root_prefix st root a h.1 k up in
      (n ∷ extra, ap (λ p. n ∷ p) under)
]

pub below_root-append :
    (extra root : FilePath) → below_root (extra ++ root) ≡ below_root root ++ below_root extra
unfolding below_root
below_root-append [] root = sym (append-nil _)
below_root-append (n ∷ extra) root =
    ap (λ t. t ++ (b'/' ∷ n)) (below_root-append extra root)
    ∙ append_assoc (below_root root) (below_root extra) (b'/' ∷ n)

pub below_root_cons : (n : Text) (up : FilePath) → (r : Text) × (below_root (n ∷ up) ≡ b'/' ∷ r)
unfolding below_root
below_root_cons n [] = (n, refl)
below_root_cons n (m ∷ up) =
    let (r, e) = below_root_cons m up in (r ++ (b'/' ∷ n), ap (λ t. t ++ (b'/' ∷ n)) e)

pub starts_with_sound : (s p : Text) → starts_with s p ≡ true → (r : Text) × (s ≡ p ++ r)
unfolding starts_with
starts_with_sound s [] h = (s, refl)
starts_with_sound [] (c ∷ p) h = cc
starts_with_sound (d ∷ s) (c ∷ p) h =
    let (r, e) = starts_with_sound s p (ground arith) in let same : d ≡ c = ground arith in (r, cc)

pub starts_with_append : (p r : Text) → starts_with (p ++ r) p ≡ true
unfolding starts_with
starts_with_append [] [] = refl
starts_with_append [] (d ∷ r) = refl
starts_with_append (c ∷ p) r = ground (arith, starts_with_append p r)
