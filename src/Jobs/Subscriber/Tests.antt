-- ===== src/Jobs/Subscriber/Tests.antt =====
-- Two watchers of job 7, one of whom leaves.
use file_forge.Base.{◌≡◌, ◌≢◌, refl, true, false, Bool, [], ◌∷◌, if◌then◌else◌}
use file_forge.Base.Text.{Text, codes, text_eq, text_eq_self}
use file_forge.Jobs.Events.{channel_for}
use file_forge.Jobs.Subscriber.{
  PubSub, Documented, Subscriber, subscribe_to_job, unsubscribe_watcher, on_channel, hear_job,
  leaving_cuts_others,
}

abbrev channels : PubSub
channels = record {
  State = Text → Bool;
  subscribe = λ c s. λ e. if text_eq c e then true else s e;
  unsubscribe = λ c s. λ e. if text_eq c e then false else s e;
  is_subscribed = λ c s. s c;
}

channels-Documented : Documented channels
channels-Documented = record {
  after_subscribe = λ c s. rw (text_eq_self c) refl;
  after_unsubscribe = λ c s. rw (text_eq_self c) refl;
  other_unsubscribe = λ c e s other. rw other refl;
}

abbrev seven : Text
seven = codes "7"

abbrev two_watchers : Subscriber channels
two_watchers =
    subscribe_to_job channels 2 seven
      (subscribe_to_job channels 1 seven (record { redis = λ c. false; handlers = [] }))

both_hear : hear_job channels seven two_watchers ≡ 2 ∷ 1 ∷ []
unfolding hear_job subscribe_to_job on_channel channel_for text_eq
both_hear = refl

leaving_cuts_others_example :
    let left = unsubscribe_watcher channels 1 seven two_watchers in
    (hear_job channels seven left ≡ [])
    × (hear_job channels seven (subscribe_to_job channels 3 seven left)
        ≡ 3 ∷ on_channel channels (channel_for seven) left.handlers)
    × ((other : Text)
        → seven ≢ other
        → hear_job channels other left ≡ hear_job channels other two_watchers)
leaving_cuts_others_example =
    leaving_cuts_others channels 1 3 seven two_watchers channels-Documented
