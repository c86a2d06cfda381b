-- ===== src/Contract/Errors.antt =====
-- ApiErrorSchema, and the bodies of refusals.
use file_forge.Base.{ℕ, ◌≡◌, refl, Option, none, some, List, [], ◌∷◌}
use file_forge.Base.Text.{Text, codes, text_eq}
use file_forge.Contract.{
  Json, Response, Items, string, array, object, no_items, item, no_fields, field, get_field, ◌>>=◌,
  as_object, as_string,
}

pub record Issue : Type 0 where
  pub path : Text
  pub message : Text

pub record ApiError : Type 0 where
  pub error : Text
  pub message : Text
  pub issues : Option (List Issue)

parse_issue : Json → Option Issue
parse_issue json = do
  r ← as_object json
  path ← as_string (get_field (codes "path") r)
  message ← as_string (get_field (codes "message") r)
  some (record { path = path; message = message })

-- `z.array`, which reads every item.
parse_issues : Items → Option (List Issue)
unfolding parse_issue
parse_issues no_items = some []
parse_issues (item json items) = do
  issue ← parse_issue json
  issues ← parse_issues items
  some (issue ∷ issues)

optional_issues : Option Json → Option (Option (List Issue))
unfolding parse_issues
optional_issues none = some none
optional_issues (some (array items)) = do issues ← parse_issues items; some (some issues)
optional_issues _ = none

-- ApiErrorSchema.safeParse
unfoldable pub parse_error : Json → Option ApiError
unfolding optional_issues
parse_error json = do
  r ← as_object json
  error ← as_string (get_field (codes "error") r)
  message ← as_string (get_field (codes "message") r)
  issues ← optional_issues (get_field (codes "issues") r)
  some (record { error = error; message = message; issues = issues })

encode_issues : List Issue → Items
encode_issues [] = no_items
encode_issues (i ∷ issues) =
    item
      (object (
        field (codes "path") (string i.path)
          (field (codes "message") (string i.message) no_fields)))
      (encode_issues issues)

-- The body of a refusal, which has issues only where a request did not match its schema.
unfoldable pub encode_error : ApiError → Json
unfolding encode_issues
encode_error e = object (
    field (codes "error") (string e.error) (
      field (codes "message") (string e.message) (elim e.issues [
        | none ↦ no_fields
        | some issues ↦ field (codes "issues") (array (encode_issues issues)) no_fields
      ])))

-- A refusal without issues.
abbrev pub error_response : ℕ → Text → Text → Response
error_response status error message = record {
  status = status;
  body = some (encode_error (record { error = error; message = message; issues = none }));
}

parse-encode_issues : (issues : List Issue) → parse_issues (encode_issues issues) ≡ some issues
unfolding parse_issues encode_issues parse_issue get_field text_eq
parse-encode_issues [] = refl
parse-encode_issues (i ∷ issues) = rw (parse-encode_issues issues) refl

-- A refusal of the API is read as it was meant, by its shape.
pub parse-encode_error : (e : ApiError) → parse_error (encode_error e) ≡ some e
unfolding parse_error encode_error optional_issues get_field text_eq
parse-encode_error e =
    elim e.issues
      as (λ i.
        parse_error (encode_error (record e { issues = i })) ≡ some (record e { issues = i })) [
          | none ↦ refl
          | some issues ↦ rw (parse-encode_issues issues) refl
        ]
