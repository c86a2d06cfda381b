-- ===== src/Upload/Separators.antt =====
-- Whether a sanitised name can hold a directory separator.
use file_forge.Base.{
  ℕ, ◌+◌, ◌≤◌, ◌<◌, ◌≡◌, refl, ap, true, false, not, none, [], ◌∷◌, ◌++◌, map, ltb, arith, length,
  filter, All, All-append, length-append, All-filter, Bool-cases, Option-cases, ◌⊎◌, inl, inr,
}
use file_forge.Base.Text.{Text}
use file_forge.Upload.Filename.{All-trim, All-sanitize}
use file_forge.Upload.{
  is_separator, is_line_end, is_control, is_reserved, replace_reserved, is_space, trim_start,
  trim_end, trim, cons_unless_space, after_separator, or_whole, or_unnamed, cleaned_name, cut,
  sanitize_filename, without_path,
}

abbrev pub NotSeparator : ℕ → Type 0
NotSeparator c = is_separator c ≡ false

abbrev pub NotLineEnd : ℕ → Type 0
NotLineEnd c = is_line_end c ≡ false

-- In one line, nothing behind the last separator is one.
after_separator_clean :
    (s : Text) → All NotLineEnd s → All NotSeparator (or_whole s (after_separator s))
unfolding after_separator or_whole
after_separator_clean [] h = tt
after_separator_clean (c ∷ s) (p, h) =
    let ih = after_separator_clean s h in
    elim (Option-cases (after_separator s)) [
      | inr (rest, found) ↦ rw (p, found, after_separator) (rw (found, or_whole) at ih)
      | inl missing ↦
          let rest = rw (missing, or_whole) at ih in
          elim (Bool-cases (is_separator c)) [
            | inl sep ↦ rw (p, missing, sep, after_separator) rest
            | inr plain ↦ rw (p, missing, plain, after_separator) (plain, rest)
          ]
    ]

replace_separator : (c : ℕ) → NotSeparator c → NotSeparator (replace_reserved c)
replace_separator c h = elim (Bool-cases (is_reserved c)) [
  | inl reserved ↦ rw reserved refl
  | inr free ↦ rw free h
]

All-map :
    (P Q : ℕ → Type 0) (f : ℕ → ℕ)
    → ((c : ℕ) → P c → Q (f c))
    → (s : Text) → All P s
    → All Q (map f s)
All-map P Q f step [] h = tt
All-map P Q f step (c ∷ s) (p, h) = (step c p, All-map P Q f step s h)

-- A name without line ends keeps no directory separator, neither `/` nor `\`.
pub sanitize_no_separator :
    (name : Text) → All NotLineEnd name → All NotSeparator (sanitize_filename name)
unfolding cleaned_name without_path
sanitize_no_separator name h =
    All-sanitize NotSeparator name (refl, (refl, (refl, (refl, (refl, (refl, (refl, tt)))))))
      (All-trim NotSeparator _ (
        All-map NotSeparator NotSeparator replace_reserved replace_separator _
          (All-filter NotSeparator _ _ (after_separator_clean name h))))

-- A letter of a name that no step of the sanitiser touches.
abbrev pub IsPlain : ℕ → Type 0
IsPlain c =
    (is_separator c ≡ false)
    × (is_line_end c ≡ false)
    × (is_control c ≡ false)
    × (is_reserved c ≡ false)
    × (is_space c ≡ false)

-- A letter that is kept wherever it stands.
abbrev pub IsKept : ℕ → Type 0
IsKept c = (is_control c ≡ false) × (is_reserved c ≡ false) × (is_space c ≡ false)

IsKept-of_plain : (s : Text) → All IsPlain s → All IsKept s
IsKept-of_plain [] h = tt
IsKept-of_plain (c ∷ s) (p, h) = ((p.2, p.3, p.4), IsKept-of_plain s h)

filter_kept :
    (x y : Text)
    → All IsKept x
    → filter (λ c. not (is_control c)) (x ++ y) ≡ x ++ filter (λ c. not (is_control c)) y
filter_kept [] y h = refl
filter_kept (c ∷ x) y (p, h) = rw p.0 (ap (λ t. c ∷ t) (filter_kept x y h))

filter-All : (s : Text) → All IsKept s → filter (λ c. not (is_control c)) s ≡ s
filter-All [] h = refl
filter-All (c ∷ s) (p, h) = rw p.0 (ap (λ t. c ∷ t) (filter-All s h))

map_kept : (s : Text) → All IsKept s → map replace_reserved s ≡ s
map_kept [] h = refl
map_kept (c ∷ s) (p, h) = rw p.1 (ap (λ t. c ∷ t) (map_kept s h))

cons_kept : (c : ℕ) (s : Text) → is_space c ≡ false → cons_unless_space c s ≡ c ∷ s
cons_kept c [] h = rw h
cons_kept c (d ∷ s) h = refl

trim_end_kept : (s : Text) → All IsKept s → trim_end s ≡ s
unfolding trim_end
trim_end_kept [] h = refl
trim_end_kept (c ∷ s) (p, h) = rw (trim_end_kept s h) (cons_kept c s p.2)

trim_kept : (s : Text) → All IsKept s → trim s ≡ s
unfolding trim trim_start
trim_kept [] h = unfold trim_end in refl
trim_kept (c ∷ s) (p, h) = rw (trim_end_kept (c ∷ s) (p, h)) (rw p.2)

after_separator_stops :
    (x r : Text) (e : ℕ)
    → All IsPlain x
    → is_line_end e ≡ true
    → after_separator (x ++ (e ∷ r)) ≡ none
unfolding after_separator
after_separator_stops [] r e h he = rw he
after_separator_stops (c ∷ x) r e (p, h) he = rw (after_separator_stops x r e h he, p.0, p.1)

separator-IsKept : (c : ℕ) → is_separator c ≡ true → IsKept c
separator-IsKept c h = ground arith

or_unnamed_append : (x : Text) (c : ℕ) (y : Text) → or_unnamed (x ++ (c ∷ y)) ≡ x ++ (c ∷ y)
unfolding or_unnamed
or_unnamed_append [] c y = refl
or_unnamed_append (d ∷ x) c y = refl

cut_short : (s : Text) → length s ≤ 255 → cut s ≡ s
unfolding cut
cut_short s h = elim (Bool-cases (ltb 255 (length s))) [
  | inl long ↦ absurd (ground arith)
  | inr short ↦ rw short
]

-- The pattern that strips directories stops at the first line end. A carriage return or line feed is
-- then deleted as a control character, and a separator behind it is kept: in front of it plain
-- letters (no separator, line end, control or reserved character, no space), behind it any letters
-- that are no control or reserved characters and no spaces, every such name keeps its separator
-- and all that follows it.
pub sanitize_keeps_separator :
    (x y : Text) (e c : ℕ)
    → All IsPlain x
    → All IsKept y
    → length x + length y < 255
    → (e ≡ 10) ⊎ (e ≡ 13)
    → is_separator c ≡ true
    → sanitize_filename (x ++ (e ∷ c ∷ y)) ≡ x ++ (c ∷ y)
unfolding sanitize_filename cleaned_name without_path or_whole
sanitize_keeps_separator x y e c hx hy short he hc =
    let kx = IsKept-of_plain x hx in
    let ky = hy in
    let kc = separator-IsKept c hc in
    let deleted : is_control e ≡ true = ground arith in
    let all_kept = All-append IsKept x (c ∷ y) kx (kc, ky) in
    rw
      (
        after_separator_stops x (c ∷ y) e hx (ground arith),
        filter_kept x (e ∷ c ∷ y) kx,
        deleted,
        kc.0,
        filter-All y ky,
        map_kept (x ++ (c ∷ y)) all_kept,
        trim_kept (x ++ (c ∷ y)) all_kept,
        or_unnamed_append x c y,
      )
      (cut_short (x ++ (c ∷ y)) (omega (arith, length-append x (c ∷ y))))
