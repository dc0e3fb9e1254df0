-- ===== src/Broker/Subscriptions/Removing.antt =====
-- broker/topics.rs: what `unsubscribe` does to the tree, and the deletion of a topic.
use squillion_mqtt.Prelude.{
  ℕ, Bool, true, false, ◌&&◌, Option, none, some, List, [], ◌≡◌, refl, ap, ◌∙◌, inl, inr, ◌==◌,
  if◌then◌else◌, Bool-cases, Option-cases, arith, ◌≢◌,
}
use squillion_mqtt.Action.{Ensures, Ensures-bind, Ensures-weaken, pure}
use squillion_mqtt.Sessions.State.{SessionId}
use squillion_mqtt.Broker.Topics.{Topic, clients, get_internal_id, message}
use squillion_mqtt.Broker.Topics.Filters.{node_at}
use squillion_mqtt.Broker.Store.{BrokerError, PersistProvider, Store, Ensures-call}
use squillion_mqtt.Broker.Subscriptions.{levels, delete_topic, forget, unsubscribe_at, unsubscribe}
use squillion_mqtt.Broker.Subscriptions.Node.{
  is_none, get_client, remove_entry, set_unsubscribed, set_internal_id, get_num_subscribed, write,
}
use squillion_mqtt.Broker.Subscriptions.Views.{Payload, payload, payload_at, follow_node}
use squillion_mqtt.Broker.Subscriptions.Writes.{write-view}
use squillion_mqtt.Broker.Subscriptions.Reached.{
  IsUpdate, IsUpdate-self, Reached, payload-Reached, written, Failed, Failed-call, Still-refl,
  get_topic_from,
}
use squillion_mqtt.Broker.Subscriptions.Changes.{
  IsBlank, Change, Change-Still, Change-update, Change-trans, Change-self, Change-refl, deletable,
  IsSound,
}

module _ {W : Type 0} (o : PersistProvider W) (name : List ℕ) where
  emptied :
      {t t' n : Topic}
      → Reached (levels name) t t' n
      → IsBlank (payload_at (levels name) t)
      → Change
          (levels name)
          (clients n)
          (message n)
          t
          (write (levels name) (set_internal_id none) t')
  emptied r (a, b) = Change-update (written (set_internal_id none) (λ u. refl) r) (λ h. inr (
    ap (λ (v : Payload). v.clients) (payload-Reached r) ∙ a,
    ap (λ (v : Payload). v.message) (payload-Reached r) ∙ b,
  ))

  -- The node of a deleted topic stays, without an identifier.
  pub delete_topic-Change :
      (topic_id : ℕ) (s : Store W)
      → IsBlank (payload_at (levels name) s.topics)
      → Ensures
          (λ _ s'. Change (levels name) [] none s.topics s'.topics)
          (λ e s'. Failed s.topics e s'.topics)
          (delete_topic o name topic_id s)
  unfolding delete_topic
  delete_topic-Change topic_id s blank =
      Ensures-bind {P = λ b s'. s'.topics ≡ s.topics}
        (Ensures-call s (λ b w. refl) (λ x w. Failed-call x Still-refl)
          (o.persist_delete_topic topic_id))
        (λ b s' same. Ensures-bind (get_topic_from o name s' same) (λ n s'' r. Ensures.returned (
          let c = ap (λ (v : Payload). v.clients) (payload-Reached r) ∙ blank.0 in
          let m = ap (λ (v : Payload). v.message) (payload-Reached r) ∙ blank.1 in
          rw c at (rw m at (emptied r blank)))))

  -- A topic that is deleted where nobody uses it.
  pub delete_unused :
      (topic_id : ℕ) (b : Bool) (s : Store W)
      → (b ≡ true → IsBlank (payload_at (levels name) s.topics))
      → Ensures
          (λ _ s'.
            Change
              (levels name)
              (payload_at (levels name) s.topics).clients
              (payload_at (levels name) s.topics).message
              s.topics
              s'.topics)
          (λ e s'. Failed s.topics e s'.topics)
          ((if b then delete_topic o name topic_id else pure tt) s)
  delete_unused topic_id true s blank =
      Ensures-weaken (λ a s' c. rw (blank refl).0 (rw (blank refl).1 c)) (λ e s' f. f)
        (delete_topic-Change topic_id s (blank refl))
  delete_unused topic_id false s blank = Ensures.returned Change-refl

  -- `unsubscribe` takes the session out of the table of the topic, on a success and on an error, and the
  -- unwrap of the identifier does not panic in a sound tree.
  module _ (session : SessionId) (t : Topic) where
    abbrev pub Removed : Topic → Type 0
    Removed t' =
        Change (levels name) (remove_entry session.session (payload_at (levels name) t).clients)
          (payload_at (levels name) t).message t t'

    abbrev pub RemovedError : BrokerError → Store W → Type 0
    RemovedError e s' = (e ≢ BrokerError.unwrap_panic) × Removed s'.topics

    RemovedError-Failed :
        {u : Topic} {e : BrokerError} {t' : Topic}
        → Removed u
        → Failed u e t'
        → (e ≢ BrokerError.unwrap_panic) × Removed t'
    RemovedError-Failed c f = (f.not_panic, Change-Still c f.still)

    forget-Removed :
        (entry : Topic) (s : Store W)
        → Removed s.topics
        → payload_at (levels name) s.topics ≡ payload (some entry)
        → is_none (get_internal_id entry) ≡ false
        → Ensures (λ _ s'. Removed s'.topics) RemovedError (forget o session name entry s)
    unfolding forget
    forget-Removed entry s c e i = elim (Option-cases (get_internal_id entry)) [
      | inl n ↦ absurd (ground arith)
      | inr (j, f) ↦ rw f (
          Ensures-bind {P = λ b s'. s'.topics ≡ s.topics}
            (Ensures-call s (λ b w. refl) (λ x w. RemovedError-Failed c (Failed-call x Still-refl))
              (o.persist_unsubscribe session.internal_id j))
            (λ b s' same. deleted j s' (rw same c) (rw same e)))
    ]
      where
        deleted :
            (j : ℕ) (s' : Store W)
            → Removed s'.topics
            → payload_at (levels name) s'.topics ≡ payload (some entry)
            → Ensures
                (λ _ s''. Removed s''.topics)
                RemovedError
                ((if is_none (message entry) && get_num_subscribed entry == 0
                    then delete_topic o name j
                    else pure tt)
                  s')
        deleted j s' c' e' =
            Ensures-weaken
              (λ a s'' d. let (x, y) = Change-self c' in Change-trans c' (rw x at (rw y at d)))
              (λ x s'' f. RemovedError-Failed c' f)
              (delete_unused j (is_none (message entry) && get_num_subscribed entry == 0) s'
                (λ h. rw e' (deletable (message entry) (clients entry) h)))

    -- A topic that is not in the tree.
    nothing : node_at (levels name) t ≡ none → Removed t
    unfolding remove_entry
    nothing e = rw e (rw e at (Change-refl {p = levels name} {t = t}))

    removed-IsUpdate :
        (n : Topic)
        → node_at (levels name) t ≡ some n
        → IsUpdate
            (levels name)
            (payload (some (set_unsubscribed session.session n).0))
            t
            (write (levels name) (λ u. (set_unsubscribed session.session u).0) t)
    removed-IsUpdate n e = record {
      view =
          write-view (λ u. (set_unsubscribed session.session u).0) (λ u. refl) (levels name) t n e;
    }

    -- A topic with a subscriber is a stored one.
    subscriber_stored :
        (n : Topic)
        → node_at (levels name) t ≡ some n
        → IsSound t
        → is_none (get_client session.session (clients n)) ≡ false
        → is_none (get_internal_id n) ≡ false
    unfolding get_client
    subscriber_stored n e sound present = elim (Bool-cases (is_none (get_internal_id n))) [
      | inr stored ↦ stored
      | inl gone ↦
          let blank = rw e at (sound.stored (levels name)) gone in
          absurd (let h : true ≡ false = rw (blank.0) at present in (cc))
    ]

    -- The node of the topic, whose entry is removed.
    Removed-write :
        (n : Topic)
        → node_at (levels name) t ≡ some n
        → IsSound t
        → Removed (write (levels name) (λ u. (set_unsubscribed session.session u).0) t)
    unfolding remove_entry
    Removed-write n e sound = rw e (
        Change-update (removed-IsUpdate n e)
          (λ h. inr (let (a, b) = rw e at (sound.stored (levels name)) h in (rw a, b))))

  pub unsubscribe-Removed :
      (session : SessionId) (s : Store W)
      → IsSound s.topics
      → Ensures
          (λ _ s'. Removed session s.topics s'.topics)
          (RemovedError session s.topics)
          (unsubscribe o session name s)
  unfolding unsubscribe unsubscribe_at
  unsubscribe-Removed session s sound =
      rw (follow_node (levels name) s.topics) (at (node_at (levels name) s.topics) refl)
    where
      at :
          (n : Option Topic)
          → node_at (levels name) s.topics ≡ n
          → Ensures
              (λ _ s'. Removed session s.topics s'.topics)
              (RemovedError session s.topics)
              (unsubscribe_at o session name n s)
      at none e = Ensures.returned (nothing session s.topics e)
      at (some n) e =
          let c = Removed-write session s.topics n e sound in
          elim (Bool-cases (is_none (get_client session.session (clients n)))) [
            | inl absent ↦ rw absent (Ensures.returned c)
            | inr present ↦ rw present (
                forget-Removed session s.topics _ _ c
                  (IsUpdate-self (removed-IsUpdate session s.topics n e))
                  (subscriber_stored session s.topics n e sound present))
          ]
