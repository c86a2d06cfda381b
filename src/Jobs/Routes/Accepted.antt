-- ===== src/Jobs/Routes/Accepted.antt =====
-- When a job is queued.
use file_forge.Base.{◌≡◌, true, Option, some, arith}
use file_forge.Base.Text.{Text}
use file_forge.Jobs.{JobPayload}
use file_forge.Jobs.Routes.{Services, accepted, queued_reply, enqueue, post_job}

module _ (S : Services) where
  -- A request is answered as accepted only for a well-formed body whose file is known, with the id
  -- under which exactly that payload was added to the queue, and with the counter raised once.
  pub post_job-accepted :
      (body : Option JobPayload) (w w' : S.World) (id : Text) (p : JobPayload)
      → post_job S body w ≡ (accepted id p, w')
      → (body ≡ some p)
        × (S.file_exists p.file_id w ≡ some true)
        × ((S.add p w).0 ≡ some id)
        × (w' ≡ S.count_queued (S.add p w).1)
  unfolding post_job enqueue queued_reply
  post_job-accepted body w w' id p e = ground arith
