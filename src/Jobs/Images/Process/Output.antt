-- ===== src/Jobs/Images/Process/Output.antt =====
-- Where the results of image jobs go.
use mathlib.Core.Path.{subst}
use mathlib.Core.List.{append-nil}
use file_forge.Base.{
  ◌≡◌, ◌≢◌, refl, sym, ◌∙◌, ap, true, false, some, [], ◌∷◌, ◌++◌, take, drop, length, arith, ◌==◌,
  All, All-append,
}
use file_forge.Base.Text.{Text, codes}
use file_forge.Base.Split.{Lacks, not-Lacks-append}
use file_forge.Storage.{FilePath, starts_with, path_for}
use file_forge.Storage.Names.{IsName, starts_with_append}
use file_forge.Storage.Inside.{IsPlainName, path_for_two}
use file_forge.Upload.{storage_key_for}
use file_forge.Jobs.Images.Process.{output_key, remove_first, without_uploads}

starts_with_self : (s : Text) → starts_with s s ≡ true
unfolding starts_with
starts_with_self [] = refl
starts_with_self (c ∷ s) = ground (arith, starts_with_self s)

drop_self : (s : Text) → drop (length s) s ≡ []
drop_self [] = refl
drop_self (c ∷ s) = drop_self s

-- The first dot of a text that had none is taken out with what follows it.
remove_first_extension : (u e : Text) → Lacks b'.' u → remove_first (b'.' ∷ e) (u ++ (b'.' ∷ e)) ≡ u
unfolding remove_first starts_with
remove_first_extension [] e l = rw (starts_with_self e) (drop_self e)
remove_first_extension (c ∷ u) e (n, l) =
    let other : (c == b'.') ≡ false = ground arith in
    rw other (ap (λ t. c ∷ t) (remove_first_extension u e l))

remove_first_nil : (s : Text) → remove_first [] s ≡ s
unfolding remove_first starts_with
remove_first_nil [] = refl
remove_first_nil (c ∷ s) = refl

without_uploads_lem : (s : Text) → without_uploads (codes "uploads/" ++ s) ≡ s
unfolding without_uploads
without_uploads_lem s = rw (starts_with_append (codes "uploads/") s) refl

-- Nothing, or a dot and what follows it.
abbrev pub IsExtension : Text → Type 0
IsExtension [] = Unit
IsExtension (c ∷ e) = c ≡ b'.'

remove_extension : (u e : Text) → Lacks b'.' u → IsExtension e → remove_first e (u ++ e) ≡ u
remove_extension u [] l h = remove_first_nil (u ++ []) ∙ append-nil u
remove_extension u (c ∷ e) l h = rw h (remove_first_extension u e l)

-- The name of an output: the stored name without its extension, the suffix, a part of a new UUID.
abbrev pub output_name : Text → Text → Text → Text → Text
output_name stored suffix uuid ext = stored ++ (b'-' ∷ (suffix ++ (b'-' ∷ (take 8 uuid ++ ext))))

joined : (s t : Text) → Lacks b'/' s → Lacks b'/' t → Lacks b'/' (s ++ (b'-' ∷ t))
joined s t h k = All-append (λ q. q ≢ b'/') s (b'-' ∷ t) h ((λ e. omega arith), k)

pub output_name-IsPlainName :
    (stored suffix uuid ext : Text)
    → Lacks b'/' stored
    → Lacks b'/' suffix
    → Lacks b'/' (take 8 uuid)
    → Lacks b'/' ext
    → IsPlainName (output_name stored suffix uuid ext)
output_name-IsPlainName stored suffix uuid ext a b c d =
    let rest = suffix ++ (b'-' ∷ (take 8 uuid ++ ext)) in
    record {
      some_text = λ e. not-Lacks-append b'-' stored rest (subst (Lacks b'-') (sym e) tt);
      not_here = λ e.
          not-Lacks-append b'-' stored rest (subst (Lacks b'-') (sym e) ((λ q. omega arith), tt));
      not_up = λ e.
          not-Lacks-append b'-' stored rest
            (subst (Lacks b'-') (sym e) ((λ q. omega arith), ((λ q. omega arith), tt)));
      one_name =
          joined stored (suffix ++ (b'-' ∷ (take 8 uuid ++ ext))) a (
            joined suffix (take 8 uuid ++ ext) b
              (All-append (λ q. q ≢ b'/') (take 8 uuid) ext c d));
    }

pub outputs-IsPlainName : IsPlainName (codes "outputs")
outputs-IsPlainName = record {
  some_text = λ e. cc;
  not_here = λ e. cc;
  not_up = λ e. cc;
  one_name = omega arith;
}

-- The result of an image job on an upload is a file directly in `outputs` under the root, named
-- after the upload's UUID: for a stored key as uploads are given it, with a UUID that holds no dot,
-- an `extname` that gives the key's extension back, and parts without a slash.
pub image_output_in_outputs :
    (extname lower : Text → Text) (stored uuid name suffix ext : Text) (root : FilePath)
    → root ≢ []
    → All IsName root
    → Lacks b'.' stored
    → Lacks b'/' stored
    → Lacks b'/' suffix
    → Lacks b'/' (take 8 uuid)
    → Lacks b'/' ext
    → IsExtension (take 10 (lower (extname name)))
    → extname (storage_key_for extname lower stored name) ≡ take 10 (lower (extname name))
    → path_for root (output_key extname uuid (storage_key_for extname lower stored name) suffix ext)
      ≡ some (output_name stored suffix uuid ext ∷ codes "outputs" ∷ root)
unfolding output_key storage_key_for
image_output_in_outputs extname lower stored uuid name suffix ext root top names dots a b c d h e =
    let old = take 10 (lower (extname name)) in
    rw (e, without_uploads_lem (stored ++ old))
      (rw (remove_extension stored old dots h) (
        path_for_two root top names (codes "outputs") (output_name stored suffix uuid ext)
          outputs-IsPlainName (output_name-IsPlainName stored suffix uuid ext a b c d)))
