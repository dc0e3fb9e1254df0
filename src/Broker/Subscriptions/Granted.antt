-- ===== src/Broker/Subscriptions/Granted.antt =====
-- broker/topics.rs: what the callers of `subscribe`, `unsubscribe` and `retain` rely on.
use squillion_mqtt.Prelude.{
  ℕ, Bool, true, false, Option, none, some, List, [], ◌∷◌, ◌≡◌, refl, sym, ap, ◌∙◌, inl, inr,
  if◌then◌else◌, Bool-cases, bytes_eq, bytes_eq_refl, is_empty,
}
use squillion_mqtt.Result.{ok}
use squillion_mqtt.Action.{Ensures_ok}
use squillion_mqtt.Messages.Publish.{MqttMessagePublish}
use squillion_mqtt.Sessions.State.{SessionId}
use squillion_mqtt.Broker.Topics.{Topic, topic, message}
use squillion_mqtt.Broker.Topics.Filters.{node_at}
use squillion_mqtt.Broker.Store.{PersistProvider, Store}
use squillion_mqtt.Broker.Subscriptions.{
  levels, subscribe, unsubscribe, retain, get_retained_messages,
}
use squillion_mqtt.Broker.Subscriptions.Node.{get_client, entry_qos}
use squillion_mqtt.Broker.Subscriptions.Views.{
  Payload, payload, payload_at, path_eq, path_eq_refl, path_eq→eq, follow_node,
}
use squillion_mqtt.Broker.Subscriptions.Reached.{IsUpdate-self}
use squillion_mqtt.Broker.Subscriptions.Clients.{get_client-insert_entry, get_client-remove_entry}
use squillion_mqtt.Broker.Subscriptions.Changes.{Change-self, IsSound}
use squillion_mqtt.Broker.Subscriptions.Subscribing.{Outcome, subscribe-Subscribed}
use squillion_mqtt.Broker.Subscriptions.Removing.{unsubscribe-Removed}
use squillion_mqtt.Broker.Subscriptions.Retaining.{retain-Retained}

-- The entry of a session at a topic.
abbrev pub subscription : List ℕ → List (List ℕ) → Topic → Option ℕ
subscription session q t = entry_qos (get_client session (payload_at q t).clients)

abbrev pub retained : List (List ℕ) → Topic → Option MqttMessagePublish
retained q t = (payload_at q t).message

granted :
    {session : SessionId} {qos q : ℕ} {old v : Payload}
    → Outcome session qos old q v
    → entry_qos (get_client session.session v.clients) ≡ some q
granted (Outcome.kept i e h) = rw e h
granted {session} {qos} {q} {old} (Outcome.entered i e h) = rw e (
    rw (get_client-insert_entry session.session session.session _ old.clients)
      (rw (bytes_eq_refl session.session) (rw h)))

others :
    {session : SessionId} {qos q : ℕ} {old v : Payload}
    → Outcome session qos old q v
    → (k : List ℕ) → bytes_eq k session.session ≡ false
    → get_client k v.clients ≡ get_client k old.clients
others (Outcome.kept i e h) k n = rw e
others {session} {qos} {q} {old} (Outcome.entered i e h) k n =
    rw e (rw (get_client-insert_entry k session.session _ old.clients) (rw n))

same_message :
    {session : SessionId} {qos q : ℕ} {old v : Payload}
    → Outcome session qos old q v
    → v.message ≡ old.message
same_message (Outcome.kept i e h) = rw e
same_message (Outcome.entered i e h) = rw e

-- A SUBSCRIBE that is answered with the QoS `q` leaves the session subscribed to the topic at `q`;
-- the subscriptions of the other sessions to it, its message, and all other topics are as they were.
pub subscribe_grants :
    {W : Type 0} (o : PersistProvider W) (session : SessionId) (name : List ℕ) (qos : ℕ)
    (s s' : Store W) (q : ℕ)
    → subscribe o session name qos s ≡ (ok q, s')
    → (subscription session.session (levels name) s'.topics ≡ some q)
      × ((k : List ℕ)
          → bytes_eq k session.session ≡ false
          → subscription k (levels name) s'.topics ≡ subscription k (levels name) s.topics)
      × (retained (levels name) s'.topics ≡ retained (levels name) s.topics)
      × ((p : List (List ℕ))
          → path_eq p (levels name) ≡ false
          → payload_at p s'.topics ≡ payload_at p s.topics)
subscribe_grants o session name qos s s' q e =
    let r = Ensures_ok (subscribe-Subscribed o session name qos s) q s' e in
    let at = IsUpdate-self r.update in
    (
      rw at (granted r.outcome),
      (λ k n. rw at (ap entry_qos (others r.outcome k n))),
      ap (λ (v : Payload). v.message) at ∙ same_message r.outcome,
      (λ p n. r.update.view p ∙ rw n),
    )

-- An UNSUBSCRIBE that succeeds in a sound tree leaves the session without a subscription to the topic;
-- the subscriptions of the other sessions, also to other topics, and every message are as they were.
pub unsubscribe_removes :
    {W : Type 0} (o : PersistProvider W) (session : SessionId) (name : List ℕ) (s s' : Store W)
    → IsSound s.topics
    → unsubscribe o session name s ≡ (ok tt, s')
    → (subscription session.session (levels name) s'.topics ≡ none)
      × ((k : List ℕ) (p : List (List ℕ))
          → bytes_eq k session.session ≡ false
          → subscription k p s'.topics ≡ subscription k p s.topics)
      × ((k : List ℕ) (p : List (List ℕ))
          → path_eq p (levels name) ≡ false
          → subscription k p s'.topics ≡ subscription k p s.topics)
      × ((p : List (List ℕ)) → retained p s'.topics ≡ retained p s.topics)
unsubscribe_removes o session name s s' sound e =
    let c = Ensures_ok (unsubscribe-Removed o name session s sound) tt s' e in
    (
      rw (c.clients (levels name), path_eq_refl (levels name))
          (rw
            (get_client-remove_entry session.session session.session
              (payload_at (levels name) s.topics).clients)
            (rw (bytes_eq_refl session.session))),
      (λ k p n. elim (Bool-cases (path_eq p (levels name))) [
        | inl same ↦
            rw (c.clients p, same)
              (rw (path_eq→eq p (levels name) same) (
                rw
                  (get_client-remove_entry k session.session
                    (payload_at (levels name) s.topics).clients)
                  (rw n)))
        | inr other ↦ rw (c.clients p, other)
      ]),
      (λ k p n. rw (c.clients p, n)),
      (λ p. elim (Bool-cases (path_eq p (levels name))) [
        | inl same ↦ c.message p ∙ rw same (rw (path_eq→eq p (levels name) same))
        | inr other ↦ c.message p ∙ rw other
      ]),
    )

abbrev messages_of : Option MqttMessagePublish → List MqttMessagePublish
messages_of none = []
messages_of (some m) = m ∷ []

retained_messages_lem :
    (t : Topic) (name : List ℕ)
    → get_retained_messages t name ≡ messages_of (retained (levels name) t)
unfolding get_retained_messages
retained_messages_lem t name =
    rw (follow_node (levels name) t, get_retained_messages) (at (node_at (levels name) t))
  where
    at :
        (n : Option Topic)
        → elim n [ none ↦ [] | some entry ↦ elim (message entry) [ none ↦ [] | some m ↦ m ∷ [] ] ]
          ≡ messages_of (payload n).message
    at none = refl
    at (some (topic ts i cs none)) = refl
    at (some (topic ts i cs (some m))) = refl

-- A retained PUBLISH that succeeds leaves its topic with the message, or with none when the payload is
-- empty; every other topic keeps its message, and every topic its subscriptions.
pub retain_keeps :
    {W : Type 0} (o : PersistProvider W) (msg : MqttMessagePublish) (s s' : Store W)
    → retain o msg s ≡ (ok tt, s')
    → (get_retained_messages s'.topics msg.topic ≡ (if is_empty msg.message then [] else msg ∷ []))
      × ((name : List ℕ)
          → path_eq (levels name) (levels msg.topic) ≡ false
          → get_retained_messages s'.topics name ≡ get_retained_messages s.topics name)
      × ((k : List ℕ) (p : List (List ℕ)) → subscription k p s'.topics ≡ subscription k p s.topics)
retain_keeps o msg s s' e =
    let c = Ensures_ok (retain-Retained o msg s) tt s' e in
    (
      retained_messages_lem s'.topics msg.topic
          ∙ rw ((Change-self c).1) (after (is_empty msg.message)),
      (λ name n.
          retained_messages_lem s'.topics name
          ∙ ap messages_of (c.message (levels name) ∙ rw n)
          ∙ sym (retained_messages_lem s.topics name)),
      (λ k p. elim (Bool-cases (path_eq p (levels msg.topic))) [
        | inl same ↦ rw (c.clients p, same) (rw (path_eq→eq p (levels msg.topic) same))
        | inr other ↦ rw (c.clients p, other)
      ]),
    )
  where
    after : (b : Bool) → messages_of (if b then none else some msg) ≡ (if b then [] else msg ∷ [])
    after true = refl
    after false = refl
