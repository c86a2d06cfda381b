-- ===== src/Csv/Transform/Columns.antt =====
-- Which columns the output has.
use file_forge.Base.{
  ◌≡◌, refl, sym, ◌∙◌, ap, Bool, true, false, ◌&&◌, some, List, [], ◌∷◌, arith, filter,
  if◌then◌else◌, Bool-cases, inl, inr,
}
use file_forge.Base.Text.{Text, text_eq, text_eq_iff, has}
use file_forge.Csv.Transform.{
  TransformOptions, Object, keys, set_field, cleaned, build_output, select_columns, is_nil,
  stringifier_columns,
}

keys-set_field :
    (k v : Text) (o : Object) (c : Text)
    → has c (keys (set_field k v o)) ≡ (if text_eq c k then true else has c (keys o))
unfolding keys set_field
keys-set_field k v [] c = refl
keys-set_field k v ((j, w) ∷ o) c =
    ground (arith, keys-set_field k v o c, text_eq_iff k j, text_eq_iff c j, text_eq_iff c k)

-- The output of a row has a value under every selected name and under no other, besides those that
-- were there before.
build_output-keys :
    (o : TransformOptions) (row : Object) (names : List Text) (out : Object) (b : Bool) (c : Text)
    → has c (keys (build_output o row names out b).0)
      ≡ (if has c names then true else has c (keys out))
unfolding build_output
build_output-keys o row [] out b c = refl
build_output-keys o row (name ∷ names) out b c = ground (
  arith,
  build_output-keys o row names (set_field name (cleaned o row name) out)
      (b && text_eq (cleaned o row name) []) c,
  keys-set_field name (cleaned o row name) out c,
)

has-filter :
    (ks : List Text) (names : List Text) (c : Text)
    → has c (filter (λ name. has name ks) names) ≡ (has c names && has c ks)
has-filter ks [] c = refl
has-filter ks (name ∷ names) c = elim (Bool-cases (text_eq c name)) [
  | inl same ↦
      let e : c ≡ name = (text_eq_iff c name).0 same in
      elim (Bool-cases (has name ks)) [
        | inl there ↦ rw (there, same) (sym (ap (λ t. has t ks) e ∙ there))
        | inr missing ↦
            rw (missing, same)
              (has-filter ks names c
                ∙ rw (ap (λ t. has t ks) e ∙ missing) (and_false (has c names)))
      ]
  | inr other ↦ elim (Bool-cases (has name ks)) [
    | inl there ↦ rw (there, other) (has-filter ks names c)
    | inr missing ↦ rw (missing, other) (has-filter ks names c)
  ]
]
  where
    and_false : (b : Bool) → (b && false) ≡ false
    and_false true = refl
    and_false false = refl

nil_has : (names : List Text) (c : Text) → has c names ≡ true → is_nil names ≡ false
unfolding is_nil
nil_has [] c h = cc
nil_has (n ∷ names) c h = refl

-- A requested column that the file lacks is not among the selected ones, and no row written has a
-- value under it; yet the stringifier, which is given the requested columns, lists it.
pub missing_column_listed :
    (o : TransformOptions) (row : Object) (c : Text)
    → has c o.columns ≡ true
    → has c (keys row) ≡ false
    → (has c (select_columns o row) ≡ false)
      × (has c (keys (build_output o row (select_columns o row) [] true).0) ≡ false)
      × (stringifier_columns o ≡ some o.columns)
unfolding select_columns stringifier_columns
missing_column_listed o row c asked missing =
    let wanted = nil_has o.columns c asked in
    let unselected : has c (select_columns o row) ≡ false =
      rw (wanted, select_columns) (has-filter (keys row) o.columns c ∙ rw (asked, missing) refl) in
    (
      unselected,
      build_output-keys o row (select_columns o row) [] true c
          ∙ rw unselected (unfold keys in refl),
      rw wanted,
    )
