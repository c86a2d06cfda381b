-- ===== src/App/Answers.antt =====
-- app.ts: what createApp answers itself: the request's id, the readiness probe, and the last handler
-- of errors.
use file_forge.Base.{ℕ, ◌≡◌, refl, true, false, Option, none, some, [], ◌∷◌, if◌then◌else◌}
use file_forge.Base.Text.{Text, codes}
use file_forge.Config.{Config, is_production}

-- genReqId, on the header and what `randomUUID` gives.
request_id : Option Text → Text → Text
request_id none uuid = uuid
request_id (some []) uuid = uuid
request_id (some (c ∷ id)) uuid = c ∷ id

-- How a ping ends; a rejection that is no Error has no message.
data Ping : Type 0 where
  pong : Ping
  ping_failed : Option Text → Ping

record ReadyReply : Type 0 where
  status : ℕ
  state : Text
  redis : Text

-- GET /health/ready; `none` where no Redis is configured.
ready : Option Ping → ReadyReply
ready none = record { status = 503; state = codes "degraded"; redis = codes "not configured" }
ready (some pong) = record { status = 200; state = codes "ok"; redis = codes "ok" }
ready (some (ping_failed (some message))) = record {
  status = 503;
  state = codes "degraded";
  redis = message;
}
ready (some (ping_failed none)) = record {
  status = 503;
  state = codes "degraded";
  redis = codes "unreachable";
}

record ErrorReply : Type 0 where
  status : ℕ
  error : Text
  message : Text

-- The error handler, on the error's message.
error_handler : Config → Text → ErrorReply
error_handler c message = record {
  status = 500;
  error = codes "internal_error";
  message = if is_production c then codes "An unexpected error occurred" else message;
}

-- In production nothing in the answer depends on the error; elsewhere its message is sent.
error_handler_hides :
    (c : Config) (one other : Text)
    → (is_production c ≡ true → error_handler c one ≡ error_handler c other)
      × (is_production c ≡ false → (error_handler c one).message ≡ one)
unfolding error_handler
error_handler_hides c one other = (λ p. rw p refl, λ p. rw p refl)
