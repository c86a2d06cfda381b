-- ===== src/Storage/Inside.antt =====
-- Where keys made of plain names lead.
use file_forge.Base.{
  ◌≡◌, ◌≢◌, refl, sym, ap, false, some, List, [], ◌∷◌, ◌++◌, ◌==◌, All, Bool-cases, inl, inr, arith,
}
use file_forge.Base.Text.{Text, codes, text_eq, text_eq→eq}
use file_forge.Base.Split.{Lacks}
use file_forge.Storage.{FilePath, prepend, split_path, parent, enter, walk, resolve_key, path_for}
use file_forge.Storage.Names.{IsName}
use file_forge.Storage.Containment.{path_for_iff}

-- One name that is none of the special ones.
pub record IsPlainName (s : Text) : Type 0 where
  pub some_text : s ≢ []
  pub not_here : s ≢ codes "."
  pub not_up : s ≢ codes ".."
  pub one_name : Lacks b'/' s

pub split_path-Lacks_self : (s : Text) → Lacks b'/' s → split_path s ≡ s ∷ []
unfolding split_path prepend
split_path-Lacks_self [] h = refl
split_path-Lacks_self (c ∷ s) (n, h) =
    let other : (c == b'/') ≡ false = ground arith in rw other (rw (split_path-Lacks_self s h) refl)

pub split_path-append :
    (a s : Text) → Lacks b'/' a → split_path (a ++ (b'/' ∷ s)) ≡ a ∷ split_path s
unfolding split_path prepend
split_path-append [] s h = refl
split_path-append (c ∷ a) s (n, h) =
    let other : (c == b'/') ≡ false = ground arith in rw other (rw (split_path-append a s h) refl)

text_ne : (s t : Text) → s ≢ t → text_eq s t ≡ false
text_ne s t n = elim (Bool-cases (text_eq s t)) [
  | inl same ↦ absurd (n (text_eq→eq s t same))
  | inr differ ↦ differ
]

pub enter_name : (path : FilePath) (s : Text) → IsPlainName s → enter path s ≡ s ∷ path
unfolding enter
enter_name path s h =
    rw (text_ne s [] h.some_text, text_ne s (codes ".") h.not_here, text_ne s (codes "..") h.not_up)
      refl

pub enter_up : (path : FilePath) (s : Text) → enter (s ∷ path) (codes "..") ≡ path
unfolding enter parent text_eq
enter_up path s = refl

module _ (root : FilePath) (top : root ≢ []) (names : All IsName root) where
  pub path_for_below :
      (key : Text) (extra : FilePath)
      → resolve_key root key ≡ extra ++ root
      → path_for root key ≡ some (extra ++ root)
  path_for_below key extra e =
      (path_for_iff root key (extra ++ root) top names).1 (sym e, (extra, refl))

  -- A key of two plain names is the file of the second in the directory of the first.
  pub path_for_two :
      (dir name : Text)
      → IsPlainName dir
      → IsPlainName name
      → path_for root (dir ++ (b'/' ∷ name)) ≡ some (name ∷ dir ∷ root)
  unfolding resolve_key walk
  path_for_two dir name d n = path_for_below (dir ++ (b'/' ∷ name)) (name ∷ dir ∷ []) (
      rw (split_path-append dir name d.one_name, split_path-Lacks_self name n.one_name)
        (rw (enter_name root dir d) (enter_name (dir ∷ root) name n)))

-- A key is walked name by name.
pub resolve_key_lem :
    (root : FilePath) (key : Text) (parts : List Text)
    → split_path key ≡ parts
    → resolve_key root key ≡ walk root parts
unfolding resolve_key
resolve_key_lem root key parts e = ap (walk root) e
