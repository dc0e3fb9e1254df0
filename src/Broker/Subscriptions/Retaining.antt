-- ===== src/Broker/Subscriptions/Retaining.antt =====
-- broker/topics.rs: what `retain` does to the tree.
use squillion_mqtt.Prelude.{
  ℕ, ◌&&◌, Option, none, some, List, refl, ap, inl, inr, ◌==◌, if◌then◌else◌, Bool-cases, ◌≢◌,
  is_empty,
}
use squillion_mqtt.Action.{Ensures, Ensures-bind, Ensures-weaken, pure}
use squillion_mqtt.Messages.Publish.{MqttMessagePublish}
use squillion_mqtt.Broker.Topics.{Topic, clients, message}
use squillion_mqtt.Broker.Store.{BrokerError, PersistProvider, Store, call, Ensures-call}
use squillion_mqtt.Broker.Subscriptions.{levels, keep_message, retain_at, retain}
use squillion_mqtt.Broker.Subscriptions.Node.{is_none, set_message, get_num_subscribed, write}
use squillion_mqtt.Broker.Subscriptions.Views.{Payload, payload_at}
use squillion_mqtt.Broker.Subscriptions.Reached.{
  IsUpdate-self, Reached, payload-Reached, Reached-Still, identified, written, Failed, Failed-call,
  Still-refl, get_topic-Reached, get_topic_again,
}
use squillion_mqtt.Broker.Subscriptions.Changes.{
  Change, Change-refl, Change-Still, Change-written, Change-trans, Change-self, deletable,
}
use squillion_mqtt.Broker.Subscriptions.Removing.{delete_unused}

-- The message that a topic retains behind `retain`.
abbrev pub retained_of : MqttMessagePublish → Option MqttMessagePublish
retained_of msg = if is_empty msg.message then none else some msg

module _ {W : Type 0} (o : PersistProvider W) (msg : MqttMessagePublish) (t : Topic) where
  abbrev path : List (List ℕ)
  path = levels msg.topic

  abbrev pub Retained : Option MqttMessagePublish → Topic → Type 0
  Retained m t' = Change (levels msg.topic) (payload_at (levels msg.topic) t).clients m t t'

  -- An error leaves the subscriptions alone; the message may be gone.
  abbrev pub RetainError : BrokerError → Store W → Type 0
  RetainError e s' =
      (e ≢ BrokerError.unwrap_panic) × ((m : Option MqttMessagePublish) × Retained m s'.topics)

  failed :
      {m : Option MqttMessagePublish} {u : Topic} {e : BrokerError} (s' : Store W)
      → Retained m u
      → Failed u e s'.topics
      → RetainError e s'
  failed {m} s' c f = (f.not_panic, (m, Change-Still c f.still))

  set_message-Retained :
      (m : Option MqttMessagePublish) {u n : Topic}
      → Reached (levels msg.topic) t u n
      → Retained m (write (levels msg.topic) (set_message m) u)
  set_message-Retained m r =
      rw (ap (λ (v : Payload). v.clients) (payload-Reached r)) at
        (Change-written (set_message m) (λ u. refl) (λ u. refl) r)

  keep_message-Retained :
      (j : ℕ) (n : Topic) (s : Store W)
      → Reached (levels msg.topic) t s.topics n
      → Ensures
          (λ _ s'. Retained (retained_of msg) s'.topics)
          RetainError
          (keep_message o msg j n s)
  unfolding keep_message
  keep_message-Retained j n s r = elim (Bool-cases (is_empty msg.message)) [
    | inr full ↦ rw full (Ensures.returned (set_message-Retained (some msg) r))
    | inl empty ↦
        let c = set_message-Retained none r in
        let at = IsUpdate-self (written (set_message none) (λ u. refl) r) in
        rw empty (
          Ensures-weaken
            (λ a s' d. let (x, y) = Change-self c in Change-trans c (rw x at (rw y at d)))
            (λ e s' f. failed s' c f)
            (delete_unused o msg.topic j
              (is_none (message (set_message none n)) && get_num_subscribed n == 0) _
              (λ h. rw at (deletable none (clients n) h))))
  ]

  retain_at-Retained :
      (n : Topic) (s : Store W)
      → Reached (levels msg.topic) t s.topics n
      → Ensures (λ _ s'. Retained (retained_of msg) s'.topics) RetainError (retain_at o msg n s)
  unfolding retain_at
  retain_at-Retained n s r =
      let (j, e) = identified r in
      rw e (
        Ensures-bind {P = λ _ s'. Reached (levels msg.topic) t s'.topics n}
          (Ensures-call s (λ b w. r)
            (λ x w. failed (record s { world = w }) old (Failed-call x Still-refl))
            (o.persist_delete_retain j))
          (λ _ s1 r1.
            Ensures-bind {P = λ _ s'. Reached (levels msg.topic) t s'.topics n} (stored j s1 r1)
              (λ _ s2 r2.
                Ensures-bind
                  (Ensures-weaken (λ n' s' r'. r') (λ x s' f. failed s' Change-refl f)
                    (get_topic_again o msg.topic {n = n} s2 r2))
                  (λ n' s3 r3. keep_message-Retained j n' s3 r3))))
    where
      old : Retained (payload_at (levels msg.topic) t).message s.topics
      old = Change-Still Change-refl (Reached-Still r)

      stored :
          (j : ℕ) (s1 : Store W)
          → Reached (levels msg.topic) t s1.topics n
          → Ensures
              (λ _ s'. Reached (levels msg.topic) t s'.topics n)
              RetainError
              ((if is_empty msg.message then pure 0 else call (o.persist_retain j msg)) s1)
      stored j s1 r1 = elim (Bool-cases (is_empty msg.message)) [
        | inl empty ↦ rw empty (Ensures.returned r1)
        | inr full ↦ rw full (
            Ensures-call s1 (λ b w. r1)
              (λ x w.
                failed (record s1 { world = w }) (Change-Still Change-refl (Reached-Still r1))
                  (Failed-call x Still-refl))
              (o.persist_retain j msg))
      ]

module _ {W : Type 0} (o : PersistProvider W) (msg : MqttMessagePublish) where
  pub retain-Retained :
      (s : Store W)
      → Ensures
          (λ _ s'. Retained o msg s.topics (retained_of msg) s'.topics)
          (RetainError o msg s.topics)
          (retain o msg s)
  unfolding retain
  retain-Retained s =
      Ensures-bind
        (Ensures-weaken (λ n' s' r'. r') (λ x s' f. failed o msg s.topics s' Change-refl f)
          (get_topic-Reached o msg.topic s))
        (λ n s' r. retain_at-Retained o msg s.topics n s' r)
