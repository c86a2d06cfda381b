-- ===== src/Frontend/Results.antt =====
-- frontend/src/components/ResultCard.tsx: the links of a job's outputs. An effect asks for all of
-- them at once and is cancelled by the effect behind it; effects are told apart by their number.
use file_forge.Base.{
  ℕ, ◌+◌, ◌≡◌, refl, ap, Bool, true, false, ◌&&◌, Option, none, some, List, [], ◌∷◌, map, ◌==◌,
  if◌then◌else◌,
}
use file_forge.Base.Text.{Text, codes}
use file_forge.Storage.{split_path}
use file_forge.Frontend.Api.{is_previewable}

pub record ResolvedOutput : Type 0 where
  pub key : Text
  pub url : Text
  pub previewable : Bool

pub record Card : Type 0 where
  pub outputs : List Text
  pub effect : ℕ
  pub asking : Bool  -- the last effect waits for its links
  pub resolved : List ResolvedOutput
  pub error : Option Text

abbrev pub at_start : Card
at_start = record { outputs = []; effect = 0; asking = false; resolved = []; error = none }

pub data Occurrence : Type 0 where
  outputs_given : List Text → Occurrence
  links_answered : ℕ → Option (Text → Text) → Occurrence  -- the effect, and the link of each key

last_or : Text → List Text → Text
last_or t [] = t
last_or t (part ∷ parts) = last_or part parts

-- fileNameFor
pub file_name_for : Text → Text
unfolding last_or
file_name_for key = last_or key (split_path key)

resolve : (Text → Text) → Text → ResolvedOutput
resolve url key = record { key = key; url = url key; previewable = is_previewable key }

-- The effect, the one before it being cancelled.
start : List Text → Card → Card
start [] c = record c { outputs = []; effect = c.effect + 1; asking = false; resolved = [] }
start (key ∷ keys) c = record c { outputs = key ∷ keys; effect = c.effect + 1; asking = true }

arrived : Option (Text → Text) → Card → Card
unfolding resolve
arrived none c = record c {
  asking = false;
  error = some (codes "Could not prepare the download link");
}
arrived (some url) c = record c {
  asking = false;
  resolved = map (resolve url) c.outputs;
  error = none;
}

pub step : Occurrence → Card → Card
unfolding start arrived
step (outputs_given outputs) c = start outputs c
step (links_answered n links) c = if n == c.effect && c.asking then arrived links c else c

pub run : List Occurrence → Card → Card
unfolding step
run [] c = c
run (o ∷ os) c = run os (step o c)

-- No output is shown but the current ones, once they are no longer asked for and asking did not
-- fail.
abbrev pub IsCurrent : Card → Type 0
IsCurrent c =
    c.asking ≡ false
    → c.error ≡ none
    → (map (λ (r : ResolvedOutput). r.key) c.resolved ≡ c.outputs)
      × (map (λ (r : ResolvedOutput). r.previewable) c.resolved ≡ map is_previewable c.outputs)

keys-resolve :
    (url : Text → Text) (keys : List Text)
    → map (λ (r : ResolvedOutput). r.key) (map (resolve url) keys) ≡ keys
unfolding resolve
keys-resolve url [] = refl
keys-resolve url (key ∷ keys) = ap (λ r. key ∷ r) (keys-resolve url keys)

kinds-resolve :
    (url : Text → Text) (keys : List Text)
    → map (λ (r : ResolvedOutput). r.previewable) (map (resolve url) keys) ≡ map is_previewable keys
unfolding resolve
kinds-resolve url [] = refl
kinds-resolve url (key ∷ keys) = ap (λ r. is_previewable key ∷ r) (kinds-resolve url keys)

either_way : (b : Bool) (x y : Card) → IsCurrent x → IsCurrent y → IsCurrent (if b then x else y)
either_way true x y h k = h
either_way false x y h k = k

arrived-IsCurrent : (links : Option (Text → Text)) (c : Card) → IsCurrent (arrived links c)
unfolding arrived
arrived-IsCurrent none c = λ a e. cc
arrived-IsCurrent (some url) c = λ a e. (keys-resolve url c.outputs, kinds-resolve url c.outputs)

step-IsCurrent : (o : Occurrence) (c : Card) → IsCurrent c → IsCurrent (step o c)
unfolding step start
step-IsCurrent (outputs_given []) c h = λ a e. (refl, refl)
step-IsCurrent (outputs_given (key ∷ keys)) c h = λ a e. cc
step-IsCurrent (links_answered n links) c h =
    either_way (n == c.effect && c.asking) (arrived links c) c (arrived-IsCurrent links c) h

runs-IsCurrent : (os : List Occurrence) (c : Card) → IsCurrent c → IsCurrent (run os c)
unfolding run
runs-IsCurrent [] c h = h
runs-IsCurrent (o ∷ os) c h = runs-IsCurrent os (step o c) (step-IsCurrent o c h)

-- Whichever outputs are given and in whatever order replies to earlier and current requests come:
-- when no current request is under way and there is no error, the links shown are those of the
-- current outputs, with a preview for just the keys that a browser can show.
pub run-IsCurrent : (os : List Occurrence) → IsCurrent (run os at_start)
run-IsCurrent os = runs-IsCurrent os at_start (λ a e. (refl, refl))
