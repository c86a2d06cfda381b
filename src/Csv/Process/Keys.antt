-- ===== src/Csv/Process/Keys.antt =====
-- Where the results of CSV jobs go.
use mathlib.Core.Path.{subst}
use mathlib.Core.Bool.{false≢true}
use file_forge.Base.{
  ℕ, ◌≡◌, ◌≢◌, refl, sym, ◌∙◌, ap, false, none, some, [], ◌∷◌, ◌++◌, take, any, ◌==◌, arith, All,
  All-take, Bool-cases, Option-cases, inl, inr,
}
use file_forge.Base.Text.{Text, codes}
use file_forge.Base.Split.{Lacks}
use file_forge.Storage.{FilePath, path_for}
use file_forge.Storage.Names.{IsName}
use file_forge.Storage.Inside.{path_for_two}
use file_forge.Upload.{sanitize_filename, is_separator}
use file_forge.Upload.Separators.{NotSeparator, NotLineEnd, sanitize_no_separator}
use file_forge.Jobs.Images.Process.Output.{
  output_name, output_name-IsPlainName, outputs-IsPlainName,
}
use file_forge.Csv.Process.{starts_extension, before_extension, without_extension, output_key}

module _ (P : ℕ → Type 0) where
  before_extension-All : (s : Text) {b : Text} → All P s → before_extension s ≡ some b → All P b
  unfolding before_extension
  before_extension-All [] h e = cc
  before_extension-All (c ∷ s) {b} (p, h) e = elim (Option-cases (before_extension s)) [
    | inr (base, found) ↦
        let same : c ∷ base ≡ b = (let q = rw (found, before_extension) at e in cc) in
        subst (All P) same (p, before_extension-All s h found)
    | inl missing ↦
        let q = rw (missing, before_extension) at e in
        elim (Bool-cases (starts_extension c s)) [
          | inl here ↦
              let found : some [] ≡ some b = rw here at q in
              let same : [] ≡ b = cc in subst (All P) same tt
          | inr absent ↦ let no_value : none ≡ some b = rw absent at q in cc
        ]
  ]

  without_extension-All : (s : Text) → All P s → All P (without_extension s (before_extension s))
  unfolding without_extension
  without_extension-All s h = elim (Option-cases (before_extension s)) [
    | inl whole ↦ rw whole h
    | inr (base, cut) ↦ rw cut (before_extension-All s h cut)
  ]

not_slash : (s : Text) → All NotSeparator s → Lacks b'/' s
not_slash [] h = tt
not_slash (c ∷ s) (p, h) = ((λ e. absurd (false≢true (sym p ∙ ap is_separator e))), not_slash s h)

-- The result of a CSV job on an upload whose name has no line ends is a file directly in `outputs`
-- under the root, whatever else the name holds; for a root that is not the top and has proper names,
-- and a suffix, a UUID and an extension without slashes.
pub csv_output_in_outputs :
    (name uuid suffix ext : Text) (root : FilePath)
    → root ≢ []
    → All IsName root
    → All NotLineEnd name
    → Lacks b'/' suffix
    → Lacks b'/' (take 8 uuid)
    → Lacks b'/' ext
    → (file : Text) × (path_for root (output_key uuid (sanitize_filename name) suffix ext)
        ≡ some (file ∷ codes "outputs" ∷ root))
unfolding output_key
csv_output_in_outputs name uuid suffix ext root top names lines b c d =
    let clean = sanitize_filename name in
    let base = take 40 (without_extension clean (before_extension clean)) in
    let one = not_slash clean (sanitize_no_separator name lines) in
    let short = All-take (λ q. q ≢ b'/') 40 _ (without_extension-All (λ q. q ≢ b'/') clean one) in
    (
      output_name base suffix uuid ext,
      path_for_two root top names (codes "outputs") (output_name base suffix uuid ext)
          outputs-IsPlainName (output_name-IsPlainName base suffix uuid ext short b c d),
    )

any-Lacks : (x : Text) → Lacks b'.' x → any (λ d. d == b'.') x ≡ false
any-Lacks [] h = refl
any-Lacks (c ∷ x) (n, h) = ground (arith, any-Lacks x h)

before_extension-Lacks : (x : Text) → Lacks b'.' x → before_extension x ≡ none
unfolding before_extension starts_extension
before_extension-Lacks [] h = refl
before_extension-Lacks (c ∷ x) (n, h) =
    let other : (c == b'.') ≡ false = ground arith in
    rw (before_extension-Lacks x h, before_extension) (rw other refl)

pub before_extension-append :
    (u x : Text) (c : ℕ) → Lacks b'.' (c ∷ x) → before_extension (u ++ (b'.' ∷ c ∷ x)) ≡ some u
unfolding before_extension starts_extension
before_extension-append [] x c h = rw (before_extension-Lacks (c ∷ x) h, any-Lacks (c ∷ x) h) refl
before_extension-append (d ∷ u) x c h = rw (before_extension-append u x c h, before_extension) refl
