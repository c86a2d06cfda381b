-- ===== src/Jobs/Routes/States.antt =====
-- The public vocabulary of job states.
use file_forge.Base.{◌≡◌, refl, true, List, [], ◌∷◌, ◌⊎◌, inl, inr, Option-cases, All}
use file_forge.Base.Text.{Text, codes, text_eq, lookup, has}
use file_forge.Jobs.Routes.{public_names, public_state, or_itself}
use file_forge.Upload.Types.{lookup-All}

-- JobStateSchema
abbrev pub job_states : List Text
job_states =
    codes "queued" ∷ codes "processing" ∷ codes "retrying" ∷ codes "completed" ∷ codes "failed" ∷ []

names_public : All (λ p. has p.1 job_states ≡ true) public_names
unfolding text_eq
names_public = (refl, (refl, (refl, (refl, (refl, (refl, (refl, tt)))))))

-- A state that the switch knows becomes one of the five of the contract; any other is passed on as
-- it is.
pub public_state_lem :
    (state : Text) → ((has (public_state state) job_states ≡ true) ⊎ (public_state state ≡ state))
unfolding public_state or_itself
public_state_lem state = elim (Option-cases (lookup state public_names)) [
  | inl unknown ↦ inr (rw unknown)
  | inr (name, known) ↦
      inl
        (rw known (lookup-All (λ x. has x job_states ≡ true) state public_names names_public known))
]
