-- ===== src/Upload/Filename.antt =====
-- What every sanitised name is like.
use file_forge.Base.{
  ℕ, ◌≤◌, ◌<◌, ◌≡◌, refl, false, not, [], ◌∷◌, map, ltb, arith, length, take, filter, All, All-take,
  Bool-cases, inl, inr, length-take,
}
use file_forge.Base.Text.{Text, codes}
use file_forge.Upload.{
  is_control, is_reserved, replace_reserved, is_space, trim_start, trim_end, trim,
  cons_unless_space, or_unnamed, cleaned_name, cut, sanitize_filename, without_path,
}

-- Neither a control character nor one of `<>:"|?*`.
abbrev pub IsClean : ℕ → Type 0
IsClean c = (is_control c ≡ false) × (is_reserved c ≡ false)

module _ (P : ℕ → Type 0) where
  All-trim_start : (s : Text) → All P s → All P (trim_start s)
  unfolding trim_start
  All-trim_start [] h = tt
  All-trim_start (c ∷ s) h = elim (Bool-cases (is_space c)) [
    | inl space ↦ rw space (All-trim_start s h.1)
    | inr ink ↦ rw ink h
  ]

  All-cons_unless_space : (c : ℕ) (s : Text) → P c → All P s → All P (cons_unless_space c s)
  All-cons_unless_space c [] p h = elim (Bool-cases (is_space c)) [
    | inl space ↦ rw space tt
    | inr ink ↦ rw ink (p, tt)
  ]
  All-cons_unless_space c (d ∷ s) p h = (p, h)

  All-trim_end : (s : Text) → All P s → All P (trim_end s)
  unfolding trim_end
  All-trim_end [] h = tt
  All-trim_end (c ∷ s) (p, h) = All-cons_unless_space c (trim_end s) p (All-trim_end s h)

  pub All-trim : (s : Text) → All P s → All P (trim s)
  unfolding trim
  All-trim s h = All-trim_start (trim_end s) (All-trim_end s h)

  -- What holds of the default name and of a cleaned name holds of the sanitised one.
  pub All-sanitize :
      (name : Text)
      → All P (codes "unnamed")
      → All P (cleaned_name name)
      → All P (sanitize_filename name)
  unfolding sanitize_filename cut
  All-sanitize name d h =
      let whole : All P (or_unnamed (cleaned_name name)) = named (cleaned_name name) h in
      elim (Bool-cases (ltb 255 (length (or_unnamed (cleaned_name name))))) [
        | inl long ↦ rw long (All-take P 255 _ whole)
        | inr short ↦ rw short whole
      ]
    where
      named : (s : Text) → All P s → All P (or_unnamed s)
      named [] k = d
      named (c ∷ s) k = k

replace-IsClean : (c : ℕ) → is_control c ≡ false → IsClean (replace_reserved c)
replace-IsClean c plain = elim (Bool-cases (is_reserved c)) [
  | inl reserved ↦ rw reserved (refl, refl)
  | inr free ↦ rw free (plain, free)
]

replaced-IsClean :
    (s : Text) → All IsClean (map replace_reserved (filter (λ c. not (is_control c)) s))
replaced-IsClean [] = tt
replaced-IsClean (c ∷ s) = elim (Bool-cases (is_control c)) [
  | inl control ↦ rw control (replaced-IsClean s)
  | inr plain ↦ rw plain (replace-IsClean c plain, replaced-IsClean s)
]

length-or_unnamed : (s : Text) → 0 < length (or_unnamed s)
unfolding or_unnamed
length-or_unnamed [] = omega arith
length-or_unnamed (c ∷ s) = omega arith

length-take_pos :
    (n : ℕ) (s : Text) → 0 < n → 0 < length s → (0 < length (take n s)) × (length (take n s) ≤ n)
length-take_pos n s k h = omega (arith, length-take n s)

length-cut : (s : Text) → 0 < length s → (0 < length (cut s)) × (length (cut s) ≤ 255)
unfolding cut
length-cut s h = elim (Bool-cases (ltb 255 (length s))) [
  | inl long ↦ rw long (length-take_pos 255 s (omega arith) h)
  | inr short ↦ rw short (h, ground arith)
]

unnamed-IsClean : All IsClean (codes "unnamed")
unnamed-IsClean = (
  (refl, refl),
  (
    (refl, refl),
    ((refl, refl), ((refl, refl), ((refl, refl), ((refl, refl), ((refl, refl), tt))))),
  ),
)

-- Whatever the client calls its file, the name that is kept holds no control character and none of
-- `<>:"|?*`, is not empty, and has at most 255 code units.
pub sanitize-IsClean :
    (name : Text)
    → All IsClean (sanitize_filename name)
      × (0 < length (sanitize_filename name))
      × (length (sanitize_filename name) ≤ 255)
unfolding sanitize_filename cleaned_name
sanitize-IsClean name =
    let cleaned =
      trim (map replace_reserved (filter (λ c. not (is_control c)) (without_path name))) in
    let (positive, bounded) = length-cut (or_unnamed cleaned) (length-or_unnamed cleaned) in
    (
      All-sanitize IsClean name unnamed-IsClean
          (All-trim IsClean _ (replaced-IsClean (without_path name))),
      positive,
      bounded,
    )
