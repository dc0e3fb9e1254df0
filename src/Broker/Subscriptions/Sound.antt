-- ===== src/Broker/Subscriptions/Sound.antt =====
-- broker/topics.rs: the invariant of the tree under every operation, and the load of a stored tree.
use squillion_mqtt.Prelude.{
  ℕ, true, false, Option, none, some, List, [], ◌∷◌, ◌≡◌, refl, ◌≢◌, ◌⊎◌, All,
}
use squillion_mqtt.Action.{Ensures, Ensures-bind, Ensures-weaken}
use squillion_mqtt.Messages.Publish.{MqttMessagePublish}
use squillion_mqtt.Sessions.State.{SessionId}
use squillion_mqtt.Broker.Topics.{Topic, no_child, find, clients, get_internal_id, topics}
use squillion_mqtt.Broker.Topics.Filters.{node_at, step_to}
use squillion_mqtt.Broker.Store.{BrokerError, PersistProvider, PersistedTopic, Store, Ensures-call}
use squillion_mqtt.Broker.Subscriptions.{
  levels, subscribe, unsubscribe, retain, insert_topic, set_all_subscribed, load_message,
  load_topics, load_persistent_state,
}
use squillion_mqtt.Broker.Subscriptions.Node.{is_none, new, set_subscribed, place}
use squillion_mqtt.Broker.Subscriptions.Views.{Payload, payload, payload_at, filled}
use squillion_mqtt.Broker.Subscriptions.Reached.{IsUpdate, levels_some}
use squillion_mqtt.Broker.Subscriptions.Clients.{
  IsKeyed, insert_entry-IsKeyed, remove_entry-IsKeyed,
}
use squillion_mqtt.Broker.Subscriptions.Changes.{
  IsBlank, SameUse, Change-update, IsSound, Still-IsSound, Change-IsSound,
}
use squillion_mqtt.Broker.Subscriptions.Writes.{place-view}
use squillion_mqtt.Broker.Subscriptions.Subscribing.{Outcome, Subscribed, subscribe-Subscribed}
use squillion_mqtt.Broker.Subscriptions.Removing.{unsubscribe-Removed}
use squillion_mqtt.Broker.Subscriptions.Retaining.{retain-Retained}

-- A sound tree behind an operation, and no panic.
abbrev pub Sound : {W A : Type 0} → A → Store W → Type 0
Sound a s = IsSound s.topics

abbrev pub SoundError : {W : Type 0} → BrokerError → Store W → Type 0
SoundError e s = (e ≢ BrokerError.unwrap_panic) × IsSound s.topics

filled_stored : (i : ℕ) (x : Option ℕ) → is_none (filled i x) ≡ true → Unit {0} × (false ≡ true)
filled_stored i none h = (tt, h)
filled_stored i (some j) h = (tt, h)

Subscribed-IsSound :
    {session : SessionId} {name : List ℕ} {qos q : ℕ} {t t' : Topic}
    → Subscribed session name qos q t t'
    → IsSound t
    → IsSound t'
Subscribed-IsSound {session} {name} {qos} {q} {t} {t'} r h =
    let (i, k) = by r.payload r.outcome in Change-IsSound (Change-update r.update i) k h
  where
    by :
        (v : Payload)
        → Outcome session qos (payload_at (levels name) t) q v
        → (is_none v.internal_id ≡ true
            → ((is_none (payload_at (levels name) t).internal_id ≡ true)
                × SameUse (payload_at (levels name) t) v)
              ⊎ IsBlank v)
          × All IsKeyed v.clients
    by v (Outcome.kept i e g) =
        rw e ((λ n. absurd (let k = (filled_stored i _ n).1 in (cc))), h.keyed (levels name))
    by v (Outcome.entered i e g) = rw e (
      (λ n. absurd (let k = (filled_stored i _ n).1 in (cc))),
      insert_entry-IsKeyed (record { session = session; qos = qos }) _ (h.keyed (levels name)),
    )

module _ {W : Type 0} (o : PersistProvider W) where
  -- `subscribe` keeps the tree sound, and its unwrap does not panic.
  pub subscribe-Sound :
      (session : SessionId) (name : List ℕ) (qos : ℕ) (s : Store W)
      → IsSound s.topics
      → Ensures Sound SoundError (subscribe o session name qos s)
  subscribe-Sound session name qos s h =
      Ensures-weaken (λ q s' r. Subscribed-IsSound r h)
        (λ e s' f. (f.not_panic, Still-IsSound f.still h))
        (subscribe-Subscribed o session name qos s)

  pub unsubscribe-Sound :
      (session : SessionId) (name : List ℕ) (s : Store W)
      → IsSound s.topics
      → Ensures Sound SoundError (unsubscribe o session name s)
  unsubscribe-Sound session name s h =
      let keyed = remove_entry-IsKeyed session.session _ (h.keyed (levels name)) in
      Ensures-weaken (λ q s' c. Change-IsSound c keyed h)
        (λ e s' f. (f.0, Change-IsSound f.1 keyed h)) (unsubscribe-Removed o name session s h)

  pub retain-Sound :
      (msg : MqttMessagePublish) (s : Store W)
      → IsSound s.topics
      → Ensures Sound SoundError (retain o msg s)
  retain-Sound msg s h =
      let keyed = h.keyed (levels msg.topic) in
      Ensures-weaken (λ q s' c. Change-IsSound c keyed h)
        (λ e s' f. (f.0, Change-IsSound f.1.1 keyed h)) (retain-Retained o msg s)

-- A node that is made from a stored topic.
record IsRow (i : ℕ) (t : Topic) : Type 0 where
  fresh : topics t ≡ no_child
  identifier : get_internal_id t ≡ some i
  keyed : All IsKeyed (clients t)

set_all_subscribed-IsRow :
    (subscriptions : List (SessionId × ℕ)) (i : ℕ) (t : Topic)
    → IsRow i t
    → IsRow i (set_all_subscribed subscriptions t)
unfolding set_all_subscribed
set_all_subscribed-IsRow [] i t r = r
set_all_subscribed-IsRow ((session, qos) ∷ subscriptions) i t r =
    set_all_subscribed-IsRow subscriptions i (set_subscribed session qos t).0 (record {
      fresh = r.fresh;
      identifier = r.identifier;
      keyed = insert_entry-IsKeyed (record { session = session; qos = qos }) _ r.keyed;
    })

insert_topic-IsSound :
    (name : List ℕ) (i : ℕ) (item t : Topic)
    → IsRow i item
    → IsSound t
    → IsSound (insert_topic name item t)
unfolding insert_topic
insert_topic-IsSound name i item t r h =
    let (l, ls, e) = levels_some name in
    let u : IsUpdate (levels name) (payload (some item)) t (place item (levels name) t) = record {
      view = rw e (place-view item r.fresh l ls t);
    } in
    Change-IsSound (Change-update u (λ n. absurd (let k = rw (r.identifier) at n in (cc)))) r.keyed
      h

module _ {W : Type 0} (o : PersistProvider W) where
  load_message-IsRow :
      (i : ℕ) (m : Option ℕ) (s : Store W)
      → IsSound s.topics
      → Ensures
          (λ t s'. IsRow i t × IsSound s'.topics)
          SoundError
          (load_message o m (new (some i)) s)
  unfolding load_message
  load_message-IsRow i none s h =
      Ensures.returned (record { fresh = refl; identifier = refl; keyed = tt }, h)
  load_message-IsRow i (some m) s h =
      Ensures-bind {P = λ _ s'. IsSound s'.topics}
        (Ensures-call s (λ a w. h) (λ x w. ((λ e. cc), h)) (o.load_persistent_message m))
        (λ a s' h'. Ensures.returned (record { fresh = refl; identifier = refl; keyed = tt }, h'))

  load_topics-Sound :
      (ts : List PersistedTopic) (s : Store W)
      → IsSound s.topics
      → Ensures Sound SoundError (load_topics o ts s)
  unfolding load_topics
  load_topics-Sound [] s h = Ensures.returned h
  load_topics-Sound (t ∷ ts) s h =
      Ensures-bind (load_message-IsRow t.topic_id t.retained_message_id s h) (λ item s1 r.
        Ensures-bind {P = λ _ s'. IsSound s'.topics}
          (Ensures-call s1 (λ a w. r.1) (λ x w. ((λ e. cc), r.1))
            (o.load_persistent_subscriptions t.topic_id))
          (λ subscriptions s2 h2. load_topics-Sound ts _ (
            insert_topic-IsSound t.topic_name t.topic_id _ s2.topics
              (set_all_subscribed-IsRow subscriptions t.topic_id item r.0) h2)))

  -- The load of a stored tree gives a sound tree, also where it fails.
  pub load_persistent_state-Sound :
      (s : Store W) → IsSound s.topics → Ensures Sound SoundError (load_persistent_state o s)
  unfolding load_persistent_state
  load_persistent_state-Sound s h =
      Ensures-bind {P = λ _ s'. IsSound s'.topics}
        (Ensures-call s (λ a w. h) (λ x w. ((λ e. cc), h)) o.load_persistent_topics)
        (λ ts s1 h1. Ensures-bind (load_topics-Sound ts s1 h1) (λ _ s2 h2. Ensures.returned h2))

-- The empty tree that `Subscriptions::new` makes.
pub new-IsSound : IsSound (new none)
unfolding node_at step_to find
new-IsSound = record { stored = at; keyed = ks }
  where
    at :
        (q : List (List ℕ))
        → is_none (payload_at q (new none)).internal_id ≡ true
        → IsBlank (payload_at q (new none))
    at [] h = (refl, refl)
    at (l ∷ ls) h = (refl, refl)

    ks : (q : List (List ℕ)) → All IsKeyed (payload_at q (new none)).clients
    ks [] = tt
    ks (l ∷ ls) = tt
