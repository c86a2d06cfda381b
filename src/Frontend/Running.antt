-- ===== src/Frontend/Running.antt =====
-- A run from the page to the queue and back: frontend/src/api.ts and App.tsx over shared/contract.ts,
-- jobs/routes.ts and jobs/queue.ts.
mod Tests
use file_forge.Base.{
  ℕ, ◌≡◌, ◌≢◌, refl, ap, ◌∙◌, Bool, true, false, Option, none, some, List, [], ◌∷◌, Option-cases,
  inl, inr,
}
use file_forge.Base.Text.{Text, codes}
use file_forge.Jobs.{Operation, JobPayload}
use file_forge.Jobs.Routes
use file_forge.Jobs.Routes.{
  Services, Reply, invalid_request, file_not_found, not_found, threw, accepted, post_job, enqueue,
  queued_reply,
}
use file_forge.Contract.{Json, Fields, Response}
use file_forge.Contract.Errors.{Issue, encode_error, error_response}
use file_forge.Contract.Requests.{
  encode_request, option_texts, CreateJobRequest, parse_request, payload_of, parse_body,
  encode_data, parse_payload, parse-encode_request, parse-encode_data,
}
use file_forge.Contract.Status.{
  queued, CreateJobResponse, parse_created, encode_created, encode_status, parse-encode_created,
}
use file_forge.Frontend.Api.{
  Answer, given, refused, broken, Request, get, post_json, post_file, create_job, is_ok,
  read_response, read_response-error_response, read_response-given,
}

-- The responses of jobs/routes.ts, for the issues that a schema found, and with the message of an error
-- that ends in the application's error handler.
unfoldable pub respond : List Issue → Text → Reply → Response
respond issues message invalid_request = record {
  status = 422;
  body = some (
      encode_error (record {
        error = codes "invalid_request";
        message = codes "Check fileId and operation";
        issues = some issues;
      }));
}
respond issues message file_not_found =
    error_response 404 (codes "file_not_found")
      (codes "No upload with that id (it may have expired)")
respond issues message not_found =
    error_response 404 (codes "not_found")
      (codes "No job with that id (it may have been cleaned up)")
respond issues message threw = error_response 500 (codes "internal_error") message
respond issues message (accepted id p) = record { status = 202; body = some (encode_created id p) }
respond issues message (Routes.status v) = record { status = 200; body = some (encode_status v) }

-- What createJob gives its caller when the request is accepted.
abbrev pub created_as : Text → JobPayload → CreateJobResponse
created_as id p = record { id = id; state = queued; operation = p.operation; file_id = p.file_id }

module _ (S : Services) (stringify : Json → Text) (issues : List Issue) (message : Text)
    (w : S.World) where
  -- What the page's request for a job comes back with.
  abbrev pub fetch : Request (Unit {0}) → Option Response
  fetch (post_json path body) =
      some (respond issues message (post_job S (parse_body stringify body) w).0)
  fetch _ = none

  abbrev pub posted : Text → Operation → Fields → JobPayload
  posted file_id o options = record {
    file_id = file_id;
    operation = o;
    options = option_texts stringify options;
  }

  -- The answer of createJob for a reply of the handler.
  abbrev pub told : Reply → Answer CreateJobResponse
  told file_not_found = refused (record {
    message = codes "No upload with that id (it may have expired)";
    status = 404;
    code = some (codes "file_not_found");
  })
  told threw =
      refused (record { message = message; status = 500; code = some (codes "internal_error") })
  told (accepted id p) = given (created_as id p)
  told _ = broken

  -- The response to what is told of a reply.
  abbrev AsTold : Reply → Type 0
  AsTold r = read_response parse_created (some (respond issues message r)) ≡ told r

  -- What a run comes to, for the payload that is meant: what its caller is told, and what the queue and
  -- the counter are left as.
  abbrev pub added : JobPayload → Option Text × S.World → Answer CreateJobResponse × S.World
  added p (none, w') = (told threw, w')
  added p (some id, w') = (given (created_as id p), S.count_queued w')

  abbrev pub asked : JobPayload → Option Bool → Answer CreateJobResponse × S.World
  asked p none = (told threw, w)
  asked p (some false) = (told file_not_found, w)
  asked p (some true) = added p (S.add p w)

  queued-added :
      (p : JobPayload) (r : Option Text × S.World)
      → (told (queued_reply S p r).0, (queued_reply S p r).1) ≡ added p r
  unfolding queued_reply
  queued-added p (none, w') = refl
  queued-added p (some id, w') = refl

  enqueued-asked :
      (p : JobPayload) (known : Option Bool)
      → (told (enqueue S p known w).0, (enqueue S p known w).1) ≡ asked p known
  unfolding enqueue
  enqueued-asked p none = refl
  enqueued-asked p (some false) = refl
  enqueued-asked p (some true) = queued-added p (S.add p w)

  threw-AsTold : AsTold threw
  unfolding respond is_ok
  threw-AsTold =
      read_response-error_response parse_created 500 (codes "internal_error") message refl

  queued-AsTold : (p : JobPayload) (r : Option Text × S.World) → AsTold (queued_reply S p r).0
  unfolding queued_reply respond is_ok
  queued-AsTold p (none, w') = threw-AsTold
  queued-AsTold p (some id, w') =
      read_response-given parse_created 202 (encode_created id p) (created_as id p) refl
        (parse-encode_created id p)

  enqueued-AsTold : (p : JobPayload) (known : Option Bool) → AsTold (enqueue S p known w).0
  unfolding enqueue respond is_ok
  enqueued-AsTold p none = threw-AsTold
  enqueued-AsTold p (some false) =
      read_response-error_response parse_created 404 (codes "file_not_found")
        (codes "No upload with that id (it may have expired)") refl
  enqueued-AsTold p (some true) = queued-AsTold p (S.add p w)

  -- A run that is pressed for a file looks for that file; if it is there, exactly one job is added, with
  -- exactly the file, the operation and the options that were chosen, it is counted, and the caller is told
  -- its id. If the file is missing the caller is told that error and nothing is added; and where a service
  -- fails the caller is told its message, and nothing is counted. Every request that is read as the page
  -- wrote it becomes data from which the worker reads that same payload.
  pub run_told :
      (file_id : Text) (o : Operation) (options : Fields) (q : CreateJobRequest)
      → file_id ≢ []
      → parse_request (encode_request file_id o options) ≡ some q
      → ((
        create_job fetch file_id o options,
        (post_job S (parse_body stringify (encode_request file_id o options)) w).1,
      )
          ≡ asked (posted file_id o options) (S.file_exists file_id w))
        × (parse_payload stringify (encode_data q) ≡ some (posted file_id o options))
  unfolding create_job post_job parse_body
  run_told file_id o options q named read =
      let p = posted file_id o options in
      let body = parse-encode_request stringify file_id o options named in
      let same : some (payload_of stringify q) ≡ some (posted file_id o options) =
        rw (read, parse_body) at body in
      (
        rw body (
            ap (λ a. (a, (enqueue S p (S.file_exists file_id w) w).1))
              (enqueued-AsTold p (S.file_exists file_id w))
            ∙ enqueued-asked p (S.file_exists file_id w)),
        parse-encode_data stringify q ∙ same,
      )
