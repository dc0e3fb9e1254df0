-- ===== src/Broker/Subscriptions/Subscribing.antt =====
-- broker/topics.rs: what `subscribe` does to the tree.
use squillion_mqtt.Prelude.{
  ℕ, none, some, List, ◌≡◌, refl, sym, ap, ◌∙◌, inl, inr, ◌==◌, Bool-cases, Option-cases, arith,
}
use squillion_mqtt.Action.{Ensures, Ensures-bind}
use squillion_mqtt.Sessions.State.{SessionId}
use squillion_mqtt.Broker.Topics.{Topic, clients, get_internal_id}
use squillion_mqtt.Broker.Store.{BrokerError, PersistProvider, Store, Ensures-call, Ensures-attempt}
use squillion_mqtt.Broker.Subscriptions.{
  settle_update, levels, update_subscription, new_subscription, subscribe_at, subscribe,
}
use squillion_mqtt.Broker.Subscriptions.Node.{
  get_client, insert_entry, set_subscribed, entry_qos, write,
}
use squillion_mqtt.Broker.Subscriptions.Views.{Payload, payload_at, fill}
use squillion_mqtt.Broker.Subscriptions.Reached.{
  IsUpdate, Reached, payload-Reached, Reached-Still, identified, written, Failed, Failed-call,
  get_topic-Reached, get_topic_again,
}

-- The payload of a topic with the subscription of a session.
abbrev pub with_subscriber : SessionId → ℕ → Payload → Payload
with_subscriber session qos v = record v {
  clients = insert_entry session.session (record { session = session; qos = qos }) v.clients;
}

-- What `subscribe` may make of the payload of a topic when it returns the QoS `q`.
pub data Outcome (session : SessionId) (qos : ℕ) (old : Payload) (q : ℕ) (v : Payload)
    : Type 0 where
  kept :
      (i : ℕ)
      → v ≡ fill i old
      → entry_qos (get_client session.session old.clients) ≡ some q
      → Outcome session qos old q v
  entered :
      (i : ℕ) → v ≡ with_subscriber session qos (fill i old) → q ≡ qos → Outcome session qos old q v

pub record Subscribed (session : SessionId) (name : List ℕ) (qos q : ℕ) (t t' : Topic)
    : Type 0 where
  pub payload : Payload
  pub update : IsUpdate (levels name) payload t t'
  pub outcome : Outcome session qos (payload_at (levels name) t) q payload

module _ {W : Type 0} (o : PersistProvider W) (session : SessionId) (name : List ℕ) (qos : ℕ) where
  abbrev Post : Topic → ℕ → Store W → Type 0
  Post t q s' = Subscribed session name qos q t s'.topics

  abbrev Error : Topic → BrokerError → Store W → Type 0
  Error t e s' = Failed t e s'.topics

  unchanged :
      {t t' n : Topic} {q : ℕ}
      → Reached (levels name) t t' n
      → entry_qos (get_client session.session (clients n)) ≡ some q
      → Subscribed session name qos q t t'
  unchanged {t} r e = record {
    payload = fill r.fresh (payload_at (levels name) t);
    update = r.update;
    outcome =
        let c = ap (λ (v : Payload). v.clients) (payload-Reached r) in
        Outcome.kept r.fresh refl (rw c at e);
  }

  changed :
      {t t' n : Topic}
      → Reached (levels name) t t' n
      → Subscribed session name qos qos t
          (write (levels name) (λ u. (set_subscribed session qos u).0) t')
  changed r = record {
    payload = _;
    update = written (λ u. (set_subscribed session qos u).0) (λ u. refl) r;
    outcome = Outcome.entered r.fresh (ap (with_subscriber session qos) (payload-Reached r)) refl;
  }

  update_subscription-Subscribed :
      {t n : Topic} (j q : ℕ) (s : Store W)
      → Reached (levels name) t s.topics n
      → entry_qos (get_client session.session (clients n)) ≡ some q
      → Ensures (Post t) (Error t) (update_subscription o session name qos j q s)
  unfolding update_subscription settle_update
  update_subscription-Subscribed {t} j q s r e =
      Ensures-attempt s (settle_update o session name qos q)
        (λ a w.
          Ensures-bind (get_topic_again o name (record s { world = w }) r)
            (λ n' s' r'. Ensures.returned (changed r')))
        (λ x w. Ensures.returned (unchanged r e))
        (o.persist_update_subscribe session.internal_id j qos)

  same_clients :
      {t t' u' n n' : Topic}
      → Reached (levels name) t t' n
      → Reached (levels name) t u' n'
      → clients n' ≡ clients n
  same_clients r r' =
      ap (λ (v : Payload). v.clients) (payload-Reached r')
      ∙ sym (ap (λ (v : Payload). v.clients) (payload-Reached r))

  new_subscription-Subscribed :
      {t n : Topic} (j : ℕ) (s : Store W)
      → Reached (levels name) t s.topics n
      → get_client session.session (clients n) ≡ none
      → Ensures (Post t) (Error t) (new_subscription o session name qos j s)
  unfolding new_subscription
  new_subscription-Subscribed {t} {n} j s r e =
      Ensures-bind {P = λ b s'. s'.topics ≡ s.topics}
        (Ensures-call s (λ b w. refl) (λ x w. Failed-call x (Reached-Still r))
          (o.persist_subscribe session.internal_id j qos))
        (λ b s' same.
          Ensures-bind (get_topic_again o name {n = n} s' (rw same r))
            (λ n' s'' r'. rw (same_clients r r', e) (Ensures.returned (changed r'))))

  -- The unwrap of `subscribe` never panics, the answer is never 0x80, and the tree differs at the topic only.
  pub subscribe-Subscribed :
      (s : Store W) → Ensures (Post s.topics) (Error s.topics) (subscribe o session name qos s)
  unfolding subscribe subscribe_at
  subscribe-Subscribed s =
      Ensures-bind (get_topic-Reached o name s) (λ n s' r. at n s' r (identified r))
    where
      at :
          (n : Topic) (s' : Store W)
          → Reached (levels name) s.topics s'.topics n
          → (j : ℕ) × (get_internal_id n ≡ some j)
          → Ensures (Post s.topics) (Error s.topics) (subscribe_at o session name qos n s')
      at n s' r (j, e) = rw e (elim (Option-cases (get_client session.session (clients n))) [
        | inl absent ↦ rw absent (new_subscription-Subscribed j s' r absent)
        | inr (entry, present) ↦ rw present (elim (Bool-cases (entry.qos == qos)) [
          | inl same ↦ rw same (Ensures.returned (unchanged r (rw present (ground arith))))
          | inr other ↦ rw other (update_subscription-Subscribed j entry.qos s' r (rw present))
        ])
      ])
