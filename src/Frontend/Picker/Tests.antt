-- ===== src/Frontend/Picker/Tests.antt =====
-- Values as texts that can be read back.
use file_forge.Base.{
  ℕ, ◌+◌, ◌-◌, ◌≡◌, refl, ap, true, false, Option, none, some, List, [], ◌∷◌, ◌==◌, if◌then◌else◌,
  arith,
}
use file_forge.Base.Text.{Text}
use file_forge.Jobs.Options.{Zod}
use file_forge.Frontend.Picker.{Value, number, text, texts}
use file_forge.Frontend.Picker.Options.{Reads}

-- Each text behind a 1, its letters raised by 2.
raised : Text → Text → Text
raised [] rest = rest
raised (c ∷ t) rest = (c + 2) ∷ raised t rest

flat : List Text → Text
unfolding raised
flat [] = []
flat (t ∷ ts) = 1 ∷ raised t (flat ts)

abbrev split_at : ℕ → Text × List Text → Text × List Text
split_at x (t, ts) = if x == 1 then ([], t ∷ ts) else ((x - 2) ∷ t, ts)

parts : Text → Text × List Text
parts [] = ([], [])
parts (x ∷ s) = split_at x (parts s)

parts-raised :
    (t rest : Text) (ts : List Text) → parts rest ≡ ([], ts) → parts (raised t rest) ≡ (t, ts)
unfolding parts raised
parts-raised [] rest ts h = h
parts-raised (c ∷ t) rest ts h =
    let other : (c + 2 == 1) ≡ false = ground arith in
    let back : c + 2 - 2 ≡ c = omega arith in rw (parts-raised t rest ts h) (rw (other, back) refl)

parts-flat : (ts : List Text) → parts (flat ts) ≡ ([], ts)
unfolding parts flat
parts-flat [] = refl
parts-flat (t ∷ ts) = rw (parts-raised t (flat ts) ts (parts-flat ts)) refl

stringify : Value → Text
unfolding flat
stringify (number n) = n ∷ []
stringify (text t) = t
stringify (texts ts) = flat ts

abbrev first : Text → Option ℕ
first [] = none
first (n ∷ s) = some n

abbrev zod : Zod
zod = record {
  natural = first;
  truthy = λ t. true;
  string = λ t. some t;
  strings = λ t. some (parts t).1;
  first_issue = λ o. [];
}

reads : Reads zod stringify
unfolding stringify
reads = record {
  natural-number = λ n. refl;
  string-text = λ t. refl;
  strings-texts = λ ts. ap (λ (x : Text × List Text). some x.1) (parts-flat ts);
}
