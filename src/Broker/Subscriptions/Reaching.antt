-- ===== src/Broker/Subscriptions/Reaching.antt =====
-- broker/topics.rs: what `subscribe` and `unsubscribe` mean for the sessions that `get_subscribed` finds.
use squillion_mqtt.Prelude.{
  ℕ, true, false, Option, none, some, List, [], ◌∷◌, ◌≡◌, refl, sym, ap, ◌∙◌, inl, inr, Bool-cases,
  Option-cases, ◌≢◌, All, bytes_eq, bytes_eq→eq, bytes_eq_refl, arith,
}
use squillion_mqtt.Result.{ok}
use squillion_mqtt.Action.{Ensures_ok}
use squillion_mqtt.Sessions.State.{SessionId}
use squillion_mqtt.Broker.Topics.{TopicEntry, Topic, clients, same_session, get_subscribed}
use squillion_mqtt.Broker.Topics.Matching.{held, holds, same_session→eq}
use squillion_mqtt.Broker.Topics.Filters.{
  Matches, node_at, IsSubscribed, get_subscribed-IsSubscribed,
}
use squillion_mqtt.Broker.Store.{PersistProvider, Store}
use squillion_mqtt.Broker.Subscriptions.{levels, subscribe, unsubscribe}
use squillion_mqtt.Broker.Subscriptions.Node.{get_client, entry_qos}
use squillion_mqtt.Broker.Subscriptions.Views.{payload, payload_at, path_eq, path_eq→eq}
use squillion_mqtt.Broker.Subscriptions.Clients.{Clients, IsKeyed}
use squillion_mqtt.Broker.Subscriptions.Changes.{IsSound}
use squillion_mqtt.Broker.Subscriptions.Granted.{
  subscription, subscribe_grants, unsubscribe_removes,
}
use squillion_mqtt.Broker.Subscriptions.Sound.{subscribe-Sound, unsubscribe-Sound}

same_session_refl : (k : SessionId) → same_session k k ≡ true
unfolding same_session
same_session_refl k = rw (bytes_eq_refl k.session) (ground arith)

-- A session in the table of clients.
record Holder (name : List ℕ) (cs : Clients) : Type 0 where
  id : SessionId
  named : id.session ≡ name
  held_there : holds id cs ≡ true

holder :
    (name : List ℕ) (cs : Clients) (e : TopicEntry)
    → All IsKeyed cs
    → get_client name cs ≡ some e
    → Holder name cs
unfolding get_client holds
holder name [] e h g = cc
holder name ((key, e') ∷ cs) e (h, hs) g = elim (Bool-cases (bytes_eq name key)) [
  | inl same ↦ record {
    id = e'.session;
    named = h ∙ sym (bytes_eq→eq name key same);
    held_there = rw (same_session_refl e'.session);
  }
  | inr other ↦
      let r = holder name cs e hs (rw other at g) in
      record { id = r.id; named = r.named; held_there = rw (r.held_there) (ground arith) }
]

holder_found :
    (k : SessionId) (cs : Clients)
    → All IsKeyed cs
    → holds k cs ≡ true
    → get_client k.session cs ≢ none
unfolding get_client holds
holder_found k [] h g = λ e. cc
holder_found k ((key, e') ∷ cs) (h, hs) g = elim (Bool-cases (bytes_eq k.session key)) [
  | inl same ↦ rw same (λ e. cc)
  | inr other ↦ elim (Bool-cases (same_session k e'.session)) [
    | inl same ↦
        let e : k.session ≡ key =
          ap (λ (i : SessionId). i.session) (same_session→eq k e'.session same) ∙ h in
        absurd (let f : true ≡ false = rw (e, bytes_eq_refl key) at other in (cc))
    | inr apart ↦ rw other (holder_found k cs hs (rw apart at g))
  ]
]

holding :
    (k : List ℕ) (q : ℕ) (cs : Clients)
    → All IsKeyed cs
    → entry_qos (get_client k cs) ≡ some q
    → Holder k cs
holding k q cs h e = elim (Option-cases (get_client k cs)) [
  | inl gone ↦ absurd (let f : none ≡ some q = rw gone at e in (cc))
  | inr (entry, there) ↦ holder k cs entry h there
]

IsSubscribed-at :
    (k : SessionId) (p ls : List (List ℕ)) (t : Topic) (n : Option Topic)
    → node_at p t ≡ n
    → holds k (payload n).clients ≡ true
    → Matches p ls
    → IsSubscribed k t ls
unfolding holds
IsSubscribed-at k p ls t none e h m = cc
IsSubscribed-at k p ls t (some n) e h m = record {
  filter = p;
  node = n;
  matching = m;
  there = e;
  subscribed = h;
}

-- A session that a SUBSCRIBE has given a subscription in a sound tree is among the sessions that the
-- router finds for every topic that the filter matches.
pub subscribe_reaches :
    {W : Type 0} (o : PersistProvider W) (session : SessionId) (name : List ℕ) (qos : ℕ)
    (s s' : Store W) (q : ℕ) (topic : List ℕ)
    → IsSound s.topics
    → subscribe o session name qos s ≡ (ok q, s')
    → Matches (levels name) (levels topic)
    → (k : SessionId) × (k.session ≡ session.session)
      × (held k (get_subscribed s'.topics topic) ≡ true)
subscribe_reaches o session name qos s s' q topic sound e m =
    let sound' : IsSound s'.topics =
      Ensures_ok (subscribe-Sound o session name qos s sound) q s' e in
    let r =
      holding session.session q (payload_at (levels name) s'.topics).clients
        (sound'.keyed (levels name)) (subscribe_grants o session name qos s s' q e).0 in
    let there =
      IsSubscribed-at r.id (levels name) (levels topic) s'.topics (node_at (levels name) s'.topics)
        refl r.held_there m in
    (r.id, r.named, (get_subscribed-IsSubscribed r.id s'.topics topic).1 there)

some_qos : (c : Option TopicEntry) → c ≢ none → entry_qos c ≢ none
some_qos none n = absurd (n refl)
some_qos (some e) n = λ h. cc

subscription_of :
    (k : SessionId) (p : List (List ℕ)) (t n : Topic)
    → All IsKeyed (payload_at p t).clients
    → node_at p t ≡ some n
    → holds k (clients n) ≡ true
    → subscription k.session p t ≢ none
subscription_of k p t n keyed e h =
    some_qos (get_client k.session (payload_at p t).clients)
      (holder_found k (payload_at p t).clients keyed (rw e h))

-- In a sound tree, after an UNSUBSCRIBE of a session that succeeded: when that same session is still found
-- for a topic, it is by another filter that matches the topic and in which it has a subscription.
pub unsubscribe_silences :
    {W : Type 0} (o : PersistProvider W) (session : SessionId) (name : List ℕ) (s s' : Store W)
    (k : SessionId) (topic : List ℕ)
    → IsSound s.topics
    → unsubscribe o session name s ≡ (ok tt, s')
    → k.session ≡ session.session
    → held k (get_subscribed s'.topics topic) ≡ true
    → (p : List (List ℕ)) × Matches p (levels topic)
      × (path_eq p (levels name) ≡ false)
      × (subscription k.session p s'.topics ≢ none)
unsubscribe_silences o session name s s' k topic sound e same h =
    let sound' : IsSound s'.topics =
      Ensures_ok (unsubscribe-Sound o session name s sound) tt s' e in
    let r = (get_subscribed-IsSubscribed k s'.topics topic).0 h in
    let held_at : subscription k.session r.filter s'.topics ≢ none =
      subscription_of k r.filter s'.topics r.node (sound'.keyed r.filter) r.there r.subscribed in
    let gone = (unsubscribe_removes o session name s s' sound e).0 in
    (
      r.filter,
      r.matching,
      elim (Bool-cases (path_eq r.filter (levels name))) [
        | inr other ↦ other
        | inl here ↦ absurd (held_at (rw (path_eq→eq r.filter (levels name) here) (rw same gone)))
      ],
      held_at,
    )
