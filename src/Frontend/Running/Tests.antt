-- ===== src/Frontend/Running/Tests.antt =====
-- A run on a file that is known, with a queue that counts.
use file_forge.Base.{ℕ, ◌+◌, ◌≡◌, refl, true, none, some, [], arith}
use file_forge.Base.Text.{codes, text_eq}
use file_forge.Jobs.{image_resize}
use file_forge.Jobs.Routes.{Services, post_job, enqueue, queued_reply}
use file_forge.Contract.{Fields, number, field, no_fields, get_field, operation_of}
use file_forge.Contract.Requests.{
  CreateJobRequest, parse_body, parse_request, encode_request, encode_data, parse_payload,
}
use file_forge.Contract.Status.{CreateJobResponse}
use file_forge.Frontend.Api.{Answer, create_job, given}
use file_forge.Frontend.Running.{fetch, posted, created_as, run_told}

-- The numbers of jobs added and counted.
abbrev counting : Services
counting = record {
  World = ℕ × ℕ;
  file_exists = λ id w. some true;
  add = λ p w. (some (codes "1"), (w.0 + 1, w.1));
  count_queued = λ w. (w.0, w.1 + 1);
  get_job = λ id w. some none;
}

abbrev width : Fields
width = field (codes "width") (number 800) no_fields

abbrev request : CreateJobRequest
request = record { file_id = codes "f"; operation = image_resize; options = some width }

run_told_example :
    let p = posted counting (λ j. codes "800") [] [] (0, 0) (codes "f") image_resize width in
    (◌≡◌ {A = Answer CreateJobResponse × (ℕ × ℕ)}
      (
        create_job (fetch counting (λ j. codes "800") [] [] (0, 0)) (codes "f") image_resize width,
        (post_job counting
            (parse_body (λ j. codes "800") (encode_request (codes "f") image_resize width))
            (0, 0)).1,
      )
      (given (created_as (codes "1") p), (1, 1)))
    × (parse_payload (λ j. codes "800") (encode_data request) ≡ some p)
unfolding post_job enqueue queued_reply parse_request encode_request get_field text_eq operation_of
run_told_example =
    run_told counting (λ j. codes "800") [] [] (0, 0) (codes "f") image_resize width request
      (λ e. ground arith) refl
