-- ===== src/Storage/Containment.antt =====
-- A key is accepted exactly when it stays under the root.
use mathlib.Core.List.{append_assoc}
use file_forge.Base.{
  ◌≤◌, ◌≡◌, ◌≢◌, refl, sym, ◌∙◌, ap, true, false, not, ◌&&◌, none, some, [], ◌∷◌, ◌++◌, arith, ◌⊎◌,
  inl, inr, ◌↔◌, length, length-append, if◌then◌else◌, All, Bool-cases,
}
use file_forge.Base.Text.{Text, text_eq, text_eq_iff, text_eq→eq}
use file_forge.Storage.{FilePath, resolve_key, below_root, path_text, starts_with, path_for}
use file_forge.Storage.Names.{
  IsName, resolve_key-IsName, below_root-injective, below_root_prefix, below_root-append,
  below_root_cons, starts_with_sound, starts_with_append,
}

-- `path` is `root` or lies below it.
abbrev pub Under : FilePath → FilePath → Type 0
Under root path = (extra : FilePath) × (path ≡ extra ++ root)

text_of_top_short : (r : Text) (rs : FilePath) → IsName r → 2 ≤ length (below_root (r ∷ rs))
unfolding below_root
text_of_top_short [] rs h = absurd (h.0 refl)
text_of_top_short (c ∷ r) rs h = omega (arith, length-append (below_root rs) (b'/' ∷ c ∷ r))

module _ (r : Text) (rs full : FilePath) (names : All IsName (r ∷ rs))
    (full_names : All IsName full) where
  equal_sound : path_text full ≡ path_text (r ∷ rs) → Under (r ∷ rs) full
  unfolding path_text
  equal_sound e = go full full_names e
    where
      go : (p : FilePath) → All IsName p → path_text p ≡ path_text (r ∷ rs) → Under (r ∷ rs) p
      go [] k q = absurd (omega (arith, text_of_top_short r rs names.0, ap length q))
      go (n ∷ p) k q = ([], below_root-injective (n ∷ p) (r ∷ rs) k names q)

  prefix_sound :
      starts_with (path_text full) (path_text (r ∷ rs) ++ (b'/' ∷ [])) ≡ true → Under (r ∷ rs) full
  unfolding path_text
  prefix_sound e = go full full_names e
    where
      go :
          (p : FilePath)
          → All IsName p
          → starts_with (path_text p) (path_text (r ∷ rs) ++ (b'/' ∷ [])) ≡ true
          → Under (r ∷ rs) p
      go [] k q =
          let (t, s) = starts_with_sound (b'/' ∷ []) (below_root (r ∷ rs) ++ (b'/' ∷ [])) q in
          absurd (
            omega (
              arith,
              text_of_top_short r rs names.0,
              ap length s,
              length-append (below_root (r ∷ rs) ++ (b'/' ∷ [])) t,
              length-append (below_root (r ∷ rs)) (b'/' ∷ []),
            ))
      go (n ∷ p) k q =
          let (t, s) =
            starts_with_sound (below_root (n ∷ p)) (below_root (r ∷ rs) ++ (b'/' ∷ [])) q in
          below_root_prefix (n ∷ p) (r ∷ rs) t k names
            (s ∙ append_assoc (below_root (r ∷ rs)) (b'/' ∷ []) t)

prefix_complete :
    (n : Text) (extra : FilePath) (r : Text) (rs : FilePath)
    → starts_with (path_text (n ∷ (extra ++ (r ∷ rs)))) (path_text (r ∷ rs) ++ (b'/' ∷ [])) ≡ true
unfolding path_text
prefix_complete n extra r rs =
    let (t, e) = below_root_cons n extra in
    rw
      (below_root-append (n ∷ extra) (r ∷ rs)
        ∙ ap (λ s. below_root (r ∷ rs) ++ s) e
        ∙ sym (append_assoc (below_root (r ∷ rs)) (b'/' ∷ []) t))
      (starts_with_append (below_root (r ∷ rs) ++ (b'/' ∷ [])) t)

inside_complete :
    (r : Text) (rs extra : FilePath)
    → (path_text (extra ++ (r ∷ rs)) ≡ path_text (r ∷ rs))
      ⊎ (starts_with (path_text (extra ++ (r ∷ rs))) (path_text (r ∷ rs) ++ (b'/' ∷ [])) ≡ true)
inside_complete r rs [] = inl refl
inside_complete r rs (n ∷ extra) = inr (prefix_complete n extra r rs)

-- For a root other than `/`, a key is accepted exactly when the path that it resolves to is the
-- root or lies below it, and the path that is then used is that one. No name that merely begins
-- like the root's passes, and `..` never leads out.
pub path_for_iff :
    (root : FilePath) (key : Text) (path : FilePath)
    → root ≢ []
    → All IsName root
    → (path_for root key ≡ some path) ↔ ((path ≡ resolve_key root key) × Under root path)
unfolding path_for
path_for_iff [] key path n h = absurd (n refl)
path_for_iff (r ∷ rs) key path n h =
    let root = r ∷ rs in
    let full = resolve_key root key in
    let full_names = resolve_key-IsName root key h in
    (
      (λ e. elim (Bool-cases (text_eq (path_text full) (path_text root))) [
        | inl equal ↦
            let chosen : some full ≡ some path = rw equal at e in
            let same : path ≡ full = cc in
            (same, rw same (equal_sound r rs full h full_names (text_eq→eq _ _ equal)))
        | inr other ↦
            elim (Bool-cases (starts_with (path_text full) (path_text root ++ (b'/' ∷ [])))) [
              | inl below ↦
                  let chosen : some full ≡ some path = rw (other, below) at e in
                  let same : path ≡ full = cc in
                  (same, rw same (prefix_sound r rs full h full_names below))
              | inr outside ↦ absurd (none-some (rw (other, outside) at e))
            ]
      ]),
      (λ p. accepted full path p.0 p.1),
    )
  where
    none-some : {q : FilePath} → none ≡ some q → ⊥
    none-some e = cc

    accepted :
        (full path : FilePath)
        → path ≡ full
        → Under (r ∷ rs) path
        → (if not (text_eq (path_text full) (path_text (r ∷ rs)))
              && not (starts_with (path_text full) (path_text (r ∷ rs) ++ (b'/' ∷ [])))
            then none
            else some full)
          ≡ some path
    accepted full path same (extra, under) = elim (inside_complete r rs extra) [
      | inl equal ↦
          let top : text_eq (path_text full) (path_text (r ∷ rs)) ≡ true =
            (text_eq_iff _ _).1 (ap path_text (sym same ∙ under) ∙ equal) in
          rw top (ap some (sym same))
      | inr below ↦
          let started : starts_with (path_text full) (path_text (r ∷ rs) ++ (b'/' ∷ [])) ≡ true =
            ap (λ q. starts_with (path_text q) (path_text (r ∷ rs) ++ (b'/' ∷ [])))
              (sym same ∙ under)
            ∙ below in
          rw started
            (elim (text_eq (path_text full) (path_text (r ∷ rs)))
              as (λ b. (if not b && false then none else some full) ≡ some path) [
                | true ↦ ap some (sym same)
                | false ↦ ap some (sym same)
              ])
    ]
