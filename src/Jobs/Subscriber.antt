-- ===== src/Jobs/Subscriber.antt =====
-- jobs/events.ts: subscribeToJob on the subscriber that all watchers share. Redis is a parameter; the
-- handlers registered for `message` are a list.
mod Tests
use file_forge.Base.{
  ℕ, ◌≡◌, ◌≢◌, refl, sym, ap, Bool, true, false, ◌&&◌, List, [], ◌∷◌, drop, ◌==◌, if◌then◌else◌,
  arith, Bool-cases, inl, inr,
}
use file_forge.Base.Text.{Text, codes, text_eq, text_eq_iff, text_eq_self}
use file_forge.Jobs.Events.{channel_for}

-- The Redis connection: whether it is subscribed to a channel.
pub record PubSub : Type 1 where
  pub State : Type 0
  pub subscribe : Text → State → State
  pub unsubscribe : Text → State → State
  pub is_subscribed : Text → State → Bool

-- What Redis documents: a connection is subscribed to a channel or not, however often it asked for
-- it, and channels do not touch each other.
pub record Documented (R : PubSub) : Type 0 where
  pub after_subscribe : (c : Text) (s : R.State) → R.is_subscribed c (R.subscribe c s) ≡ true
  pub after_unsubscribe : (c : Text) (s : R.State) → R.is_subscribed c (R.unsubscribe c s) ≡ false
  pub other_unsubscribe :
      (c e : Text) (s : R.State)
      → text_eq c e ≡ false
      → R.is_subscribed e (R.unsubscribe c s) ≡ R.is_subscribed e s

-- The handler of a watcher, and the channel that it compares with.
pub record Handler : Type 0 where
  pub watcher : ℕ
  pub channel : Text

module _ (R : PubSub) where
  pub record Subscriber : Type 0 where
    pub redis : R.State
    pub handlers : List Handler

  -- `off`, which takes one registration of the handler away.
  without : ℕ → Text → List Handler → List Handler
  without w c [] = []
  without w c (h ∷ hs) =
      let rest = without w c hs in if h.watcher == w && text_eq c h.channel then hs else h ∷ rest

  -- subscribeToJob
  pub subscribe_to_job : ℕ → Text → Subscriber → Subscriber
  subscribe_to_job w job_id s = record {
    redis = R.subscribe (channel_for job_id) s.redis;
    handlers = record { watcher = w; channel = channel_for job_id } ∷ s.handlers;
  }

  -- The function that it returns.
  pub unsubscribe_watcher : ℕ → Text → Subscriber → Subscriber
  unfolding without
  unsubscribe_watcher w job_id s = record {
    redis = R.unsubscribe (channel_for job_id) s.redis;
    handlers = without w (channel_for job_id) s.handlers;
  }

  pub on_channel : Text → List Handler → List ℕ
  on_channel c [] = []
  on_channel c (h ∷ hs) =
      let rest = on_channel c hs in if text_eq c h.channel then h.watcher ∷ rest else rest

  -- The watchers that are given an event of the job that is published now.
  pub hear_job : Text → Subscriber → List ℕ
  unfolding on_channel
  hear_job job_id s =
      if R.is_subscribed (channel_for job_id) s.redis
      then on_channel (channel_for job_id) s.handlers
      else []

  on_channel-without :
      (w : ℕ) (c e : Text) (hs : List Handler)
      → text_eq c e ≡ false
      → on_channel e (without w c hs) ≡ on_channel e hs
  unfolding on_channel without
  on_channel-without w c e [] other = refl
  on_channel-without w c e (h ∷ hs) other = ground (
    arith,
    on_channel-without w c e hs other,
    text_eq_iff c h.channel,
    text_eq_iff e h.channel,
    text_eq_iff c e,
  )

channel_for-differ : (i j : Text) → i ≢ j → text_eq (channel_for i) (channel_for j) ≡ false
unfolding channel_for
channel_for-differ i j differ = elim (Bool-cases (text_eq (channel_for i) (channel_for j))) [
  | inl same ↦ absurd (differ (ap (drop 11) ((text_eq_iff (channel_for i) (channel_for j)).0 same)))
  | inr other ↦ other
]

-- Once one of a job's watchers has unsubscribed, an event of the job reaches none of them, whoever
-- else is registered; after the next subscription it reaches the new watcher and all that are still
-- registered; and events of other jobs reach the same watchers as before. Redis is assumed to do as it
-- documents.
pub leaving_cuts_others :
    (R : PubSub) (w v : ℕ) (job_id : Text) (s : Subscriber R)
    → Documented R
    → let left = unsubscribe_watcher R w job_id s in
      (hear_job R job_id left ≡ [])
      × (hear_job R job_id (subscribe_to_job R v job_id left)
          ≡ v ∷ on_channel R (channel_for job_id) left.handlers)
      × ((other : Text) → job_id ≢ other → hear_job R other left ≡ hear_job R other s)
unfolding hear_job unsubscribe_watcher subscribe_to_job on_channel
leaving_cuts_others R w v job_id s doc =
    let c = channel_for job_id in
    (
      rw (doc.after_unsubscribe c s.redis) refl,
      rw (doc.after_subscribe c (R.unsubscribe c s.redis)) (rw (text_eq_self c) refl),
      λ other differ.
          let apart = channel_for-differ job_id other differ in
          rw (doc.other_unsubscribe c (channel_for other) s.redis apart)
            (rw (on_channel-without R w c (channel_for other) s.handlers apart) refl),
    )
