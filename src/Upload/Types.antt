-- ===== src/Upload/Types.antt =====
-- Which content type an upload is given.
use file_forge.Base.{
  ℕ, ◌-◌, ◌≤◌, ◌<◌, ◌≡◌, refl, sym, ap, ◌∙◌, true, false, none, some, List, [], ◌∷◌, arith, length,
  length-drop, drop, All, Bool-cases, inl, inr,
}
use mathlib.Core.Bool.{false≢true}
use mathlib.Core.Path.{subst}
use file_forge.Base.Text.{Text, text_eq, text_eq_iff, lookup, has}
use file_forge.Base.Split.{Lacks}
use file_forge.Upload.{
  allowed_mime_types, allowed_extensions, uninformative_types, last_index_of, slice_from,
  resolve_mime_type,
}

module _ {ℓ κ} {V : Type ℓ} (P : V → Type κ) where
  pub lookup-All :
      (k : Text) (m : List (Text × V)) {v : V} → All (λ p. P p.1) m → lookup k m ≡ some v → P v
  lookup-All k [] h e = cc
  lookup-All k ((j, w) ∷ m) {v} h e = elim (Bool-cases (text_eq k j)) [
    | inl same ↦
        let found : some w ≡ some v = rw same at e in
        let value_eq : w ≡ v = cc in subst P value_eq h.0
    | inr other ↦ lookup-All k m h.1 (rw other at e)
  ]

pub has-All : (P : Text → Type 0) (k : Text) (m : List Text) → All P m → has k m ≡ true → P k
has-All P k [] h e = cc
has-All P k (j ∷ m) (p, h) e = elim (Bool-cases (text_eq k j)) [
  | inl same ↦ subst P (sym ((text_eq_iff k j).0 same)) p
  | inr other ↦ has-All P k m h (rw other at e)
]

lookup_short :
    (k : Text) (m : List (Text × Text))
    → length k ≤ 1
    → All (λ p. 1 < length p.0) m
    → lookup k m ≡ none
lookup_short k [] h a = refl
lookup_short k ((j, w) ∷ m) h (p, a) = elim (Bool-cases (text_eq k j)) [
  | inl same ↦ absurd (omega (arith, ap length ((text_eq_iff k j).0 same)))
  | inr other ↦ rw other (lookup_short k m h a)
]

last_index_of-Lacks : (c : ℕ) (s : Text) → Lacks c s → last_index_of c s ≡ none
unfolding last_index_of
last_index_of-Lacks c [] h = refl
last_index_of-Lacks c (d ∷ s) (p, h) = ground (arith, last_index_of-Lacks c s h)

length-drop_last : (s : Text) → length (drop (length s - 1) s) ≤ 1
length-drop_last s = omega (arith, length-drop (length s - 1) s)

none-some : {t : Text} → none ≡ some t → ⊥
none-some e = cc

extensions_allowed : All (λ p. has p.1 allowed_mime_types ≡ true) allowed_extensions
unfolding text_eq
extensions_allowed = (refl, (refl, (refl, (refl, (refl, (refl, (refl, (refl, tt))))))))

-- Whatever type and name a client declares, an accepted upload is given one of the allowed types:
-- the declared one if that is allowed, one that an extension stands for otherwise.
pub resolve-IsAllowed :
    (to_lower_case : Text → Text) (declared filename t : Text)
    → resolve_mime_type to_lower_case declared filename ≡ some t
    → (has t allowed_mime_types ≡ true) × (has declared allowed_mime_types ≡ true → t ≡ declared)
unfolding resolve_mime_type
resolve-IsAllowed to_lower_case declared filename t e =
    elim (Bool-cases (has declared allowed_mime_types)) [
      | inl named ↦
          let same : some declared ≡ some t = rw named at e in
          let t_eq : t ≡ declared = cc in
          (subst (λ x. has x allowed_mime_types ≡ true) (sym t_eq) named, λ _. t_eq)
      | inr unnamed ↦ elim (Bool-cases (has declared uninformative_types)) [
        | inr informative ↦ absurd (none-some (rw (unnamed, informative) at e))
        | inl generic ↦ (
          lookup-All (λ x. has x allowed_mime_types ≡ true)
              (slice_from (last_index_of b'.' filename) (to_lower_case filename)) allowed_extensions
              extensions_allowed (rw (unnamed, generic) at e),
          λ named. absurd (false≢true (sym unnamed ∙ named)),
        )
      ]
    ]

-- A name without a dot never decides the type, although the slice then taken is not empty: unless
-- the declared type is allowed, the upload is refused.
pub resolve_no_dot :
    (to_lower_case : Text → Text) (declared filename : Text)
    → has declared allowed_mime_types ≡ false
    → Lacks b'.' filename
    → resolve_mime_type to_lower_case declared filename ≡ none
unfolding resolve_mime_type slice_from
resolve_no_dot to_lower_case declared filename h l =
    elim (Bool-cases (has declared uninformative_types)) [
      | inr informative ↦ rw (h, informative)
      | inl generic ↦
          rw (h, generic, last_index_of-Lacks b'.' filename l)
            (lookup_short _ allowed_extensions (length-drop_last (to_lower_case filename))
              (omega arith))
    ]
