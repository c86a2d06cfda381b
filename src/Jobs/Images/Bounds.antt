-- ===== src/Jobs/Images/Bounds.antt =====
-- What sharp is ever asked to do.
use mathlib.Core.Path.{subst}
use file_forge.Base.{
  ℕ, ◌≤◌, ◌≡◌, refl, ap, Bool, true, Option, none, some, List, arith, Bool-cases, inl, inr,
}
use file_forge.Base.Text.{Text, codes, has, lookup, text_eq}
use file_forge.Jobs.Options.{Zod}
use file_forge.Jobs.Images.{
  ResizeOptions, max_dimension, max_thumbnail, fits, formats, parse_resize, parse_convert,
  parse_thumbnail, in_range, wrapped, one_of, optional_dimension, number_or, fit_or_inside, refined,
  some_dimension, format_of, both,
}
use file_forge.Jobs.Images.Process.{Transform, resized, to_format, cover_webp}

-- Absent, or a size within the bounds.
abbrev pub Within : Option ℕ → Type 0
Within none = Unit
Within (some n) = (1 ≤ n) × (n ≤ max_dimension)

abbrev pub IsBounded : Transform → Type 0
IsBounded (resized o) =
    Within o.width
    × Within o.height
    × (some_dimension o.width o.height ≡ true)
    × (has o.fit fits ≡ true)
IsBounded (to_format f q) = (has f formats ≡ true) × (1 ≤ q) × (q ≤ 100)
IsBounded (cover_webp n) = (16 ≤ n) × (n ≤ max_thumbnail)

module _ (Z : Zod) where
  in_range_sound :
      (low high : ℕ) (v : Option ℕ) (n : ℕ) → in_range low high v ≡ some n → (low ≤ n) × (n ≤ high)
  unfolding in_range
  in_range_sound low high none n e = cc
  in_range_sound low high (some m) n e = ground arith

  one_of_sound :
      (names : List Text) (v : Option Text) (t : Text)
      → one_of names v ≡ some t
      → has t names ≡ true
  unfolding one_of
  one_of_sound names none t e = cc
  one_of_sound names (some u) t e = elim (Bool-cases (has u names)) [
    | inl there ↦
        let same : some u ≡ some t = rw there at e in let u_eq : u ≡ t = cc in rw u_eq at there
    | inr missing ↦ let no_value : none ≡ some t = rw missing at e in cc
  ]

  number_or_sound :
      (low high default : ℕ) (v : Option Text) (n : ℕ)
      → low ≤ default
      → default ≤ high
      → number_or Z low high default v ≡ some n
      → (low ≤ n) × (n ≤ high)
  unfolding number_or
  number_or_sound low high default none n h k e = ground arith
  number_or_sound low high default (some v) n h k e = in_range_sound low high (Z.natural v) n e

  wrapped-Within :
      (x : Option ℕ) (n : Option ℕ)
      → ((m : ℕ) → x ≡ some m → (1 ≤ m) × (m ≤ max_dimension))
      → wrapped x ≡ some n
      → Within n
  unfolding wrapped
  wrapped-Within none n h e = cc
  wrapped-Within (some m) n h e = let same : some m ≡ n = cc in subst Within same (h m refl)

  dimension-Within : (v : Option Text) (n : Option ℕ) → optional_dimension Z v ≡ some n → Within n
  unfolding optional_dimension wrapped
  dimension-Within none n e = let same : none ≡ n = cc in subst Within same tt
  dimension-Within (some v) n e =
      wrapped-Within (in_range 1 max_dimension (Z.natural v)) n
        (λ m q. in_range_sound 1 max_dimension (Z.natural v) m q) e

  fit_sound : (v : Option Text) (f : Text) → fit_or_inside Z v ≡ some f → has f fits ≡ true
  unfolding fit_or_inside text_eq
  fit_sound none f e =
      let same : codes "inside" ≡ f = cc in subst (λ t. has t fits ≡ true) same refl
  fit_sound (some v) f e = one_of_sound fits (Z.string v) f e

  refined_sound :
      (w h : Option (Option ℕ)) (f : Option Text) (b : Bool) (r : ResizeOptions)
      → refined Z w h f b ≡ some r
      → (w ≡ some r.width)
        × (h ≡ some r.height)
        × (f ≡ some r.fit)
        × (some_dimension r.width r.height ≡ true)
  unfolding refined
  refined_sound none h f b r e = cc
  refined_sound (some w) none f b r e = cc
  refined_sound (some w) (some h) none b r e = cc
  refined_sound (some w) (some h) (some f) b r e = elim (Bool-cases (some_dimension w h)) [
    | inr neither ↦ let no_value : none ≡ some r = rw neither at e in cc
    | inl given ↦
        let made : ResizeOptions = record {
          width = w;
          height = h;
          fit = f;
          without_enlargement = b;
        } in
        let same : some made ≡ some r = rw given at e in
        let r_eq : made ≡ r = cc in
        (
          ap (λ (x : ResizeOptions). some x.width) r_eq,
          ap (λ (x : ResizeOptions). some x.height) r_eq,
          ap (λ (x : ResizeOptions). some x.fit) r_eq,
          subst (λ (x : ResizeOptions). some_dimension x.width x.height ≡ true) r_eq given,
        )
  ]

  pub parse_resize-IsBounded :
      (o : List (Text × Text)) (r : ResizeOptions)
      → parse_resize Z o ≡ some r
      → IsBounded (resized r)
  unfolding parse_resize
  parse_resize-IsBounded o r e =
      let (w, h, f, d) = refined_sound _ _ _ _ r e in
      (dimension-Within _ r.width w, dimension-Within _ r.height h, d, fit_sound _ r.fit f)

  both_sound :
      (f : Option Text) (q : Option ℕ) (g : Text) (n : ℕ)
      → both Z f q ≡ some (g, n)
      → (f ≡ some g) × (q ≡ some n)
  unfolding both
  both_sound none q g n e = cc
  both_sound (some f) none g n e = cc
  both_sound (some f) (some q) g n e = (cc, cc)

  format_sound : (v : Option Text) (f : Text) → format_of Z v ≡ some f → has f formats ≡ true
  unfolding format_of
  format_sound none f e = cc
  format_sound (some v) f e = one_of_sound formats (Z.string v) f e

  pub parse_convert-IsBounded :
      (o : List (Text × Text)) (f : Text) (q : ℕ)
      → parse_convert Z o ≡ some (f, q)
      → IsBounded (to_format f q)
  unfolding parse_convert
  parse_convert-IsBounded o f q e =
      let (named, given) = both_sound _ _ f q e in
      let (low, high) = number_or_sound 1 100 82 _ q (omega arith) (omega arith) given in
      (format_sound _ f named, low, high)

  pub parse_thumbnail-IsBounded :
      (o : List (Text × Text)) (n : ℕ) → parse_thumbnail Z o ≡ some n → IsBounded (cover_webp n)
  unfolding parse_thumbnail
  parse_thumbnail-IsBounded o n e =
      number_or_sound 16 max_thumbnail 256 (lookup (codes "size") o) n (omega arith) (omega arith) e
