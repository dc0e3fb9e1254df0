-- ===== src/Broker/Subscriptions.antt =====
-- broker/topics.rs: the operations of `Subscriptions` on its tree and its database.
-- A reference to a node is the path of the node, the levels of its topic.
pub mod Node
pub mod Views
pub mod Loops
pub mod Writes
pub mod Reached
pub mod Subscribing
pub mod Clients
pub mod Changes
pub mod Removing
pub mod Retaining
pub mod Granted
pub mod Sound
pub mod Reaching
use squillion_mqtt.Prelude.{
  ℕ, ◌&&◌, Bool, Option, none, some, List, [], ◌∷◌, ◌==◌, if◌then◌else◌, is_empty,
}
use squillion_mqtt.Prelude.Split.{split}
use squillion_mqtt.Result.{Result, ok, err}
use squillion_mqtt.Action.{Action, ◌>>=◌, ◌>>◌, pure, gets, modify, attempt, or_fail}
use squillion_mqtt.Messages.Publish.{MqttMessagePublish}
use squillion_mqtt.Sessions.State.{SessionId}
use squillion_mqtt.Broker.Topics.{Topic, get_internal_id, message}
use squillion_mqtt.Broker.Store.{BrokerError, PersistedTopic, PersistProvider, Store, call}
use Node.{
  is_none, new, set_internal_id, set_message, get_num_subscribed, set_subscribed, set_unsubscribed,
  get_subscribed, follow, write, reserve, is_new, complete, last_node, place,
}

abbrev pub Broker : Type 0 → Type 0 → Type 0
Broker W A = Action (Store W) BrokerError A

abbrev pub levels : List ℕ → List (List ℕ)
levels topic = split b'/' topic

abbrev pub in_tree : {W : Type 0} → (Topic → Topic) → Broker W (Unit {0})
in_tree f = modify (λ s. record s { topics = f s.topics })

-- `topic.set_subscribed` for the stored subscriptions of a topic.
unfoldable pub set_all_subscribed : List (SessionId × ℕ) → Topic → Topic
set_all_subscribed [] t = t
set_all_subscribed ((session, qos) ∷ subscriptions) t =
    set_all_subscribed subscriptions (set_subscribed session qos t).0

unfoldable pub insert_topic : List ℕ → Topic → Topic → Topic
insert_topic name item root = place item (levels name) root

-- The messages of the topic, which is taken literally.
unfoldable pub get_retained_messages : Topic → List ℕ → List MqttMessagePublish
get_retained_messages root name = elim (follow (levels name) (some root)) [
  | none ↦ []
  | some entry ↦ elim (message entry) [ none ↦ [] | some m ↦ m ∷ [] ]
]

module _ {W : Type 0} (o : PersistProvider W) where
  -- The node of the topic, which is made and stored where it is missing.
  unfoldable pub get_topic : List ℕ → Broker W Topic
  get_topic name = do
    before ← gets (λ s. s.topics)
    in_tree (reserve (levels name))
    let new_topic = is_new (levels name) before
    internal_id ← if new_topic then call (o.persist_topic name) else pure 0
    reserved ← gets (λ s. s.topics)
    in_tree (complete new_topic internal_id (levels name))
    pure (last_node new_topic internal_id (levels name) reserved)

  -- The `if let Ok(_result)` of an update.
  unfoldable pub settle_update : SessionId → List ℕ → ℕ → ℕ → Result BrokerError Bool → Broker W ℕ
  settle_update session name qos subscribed_qos (ok _) = do
    _ ← get_topic name
    in_tree (write (levels name) (λ t. (set_subscribed session qos t).0))
    pure qos
  settle_update session name qos subscribed_qos (err _) = pure subscribed_qos

  unfoldable pub update_subscription : SessionId → List ℕ → ℕ → ℕ → ℕ → Broker W ℕ
  update_subscription session name qos topic_id subscribed_qos = do
    result ← attempt (call (o.persist_update_subscribe session.internal_id topic_id qos))
    settle_update session name qos subscribed_qos result

  unfoldable pub new_subscription : SessionId → List ℕ → ℕ → ℕ → Broker W ℕ
  new_subscription session name qos topic_id = do
    _ ← call (o.persist_subscribe session.internal_id topic_id qos)
    tm ← get_topic name
    in_tree (write (levels name) (λ t. (set_subscribed session qos t).0))
    pure (if (set_subscribed session qos tm).1 then qos else 0x80)

  -- `subscribe` behind its first `get_topic`.
  unfoldable pub subscribe_at : SessionId → List ℕ → ℕ → Topic → Broker W ℕ
  subscribe_at session name qos tm = do
    topic_id ← or_fail (get_internal_id tm) BrokerError.unwrap_panic
    elim (get_subscribed tm session) [
      | some subscribed_qos ↦
          if subscribed_qos == qos
          then pure qos
          else update_subscription session name qos topic_id subscribed_qos
      | none ↦ new_subscription session name qos topic_id
    ]

  unfoldable pub subscribe : SessionId → List ℕ → ℕ → Broker W ℕ
  subscribe session name qos = do tm ← get_topic name; subscribe_at session name qos tm

  -- The topic is deleted from the database, and its node loses its identifier.
  unfoldable pub delete_topic : List ℕ → ℕ → Broker W (Unit {0})
  delete_topic name topic_id = do
    _ ← call (o.persist_delete_topic topic_id)
    _ ← get_topic name
    in_tree (write (levels name) (set_internal_id none))

  -- The end of `retain`, behind the database: an empty message removes the retained one.
  unfoldable pub keep_message : MqttMessagePublish → ℕ → Topic → Broker W (Unit {0})
  keep_message msg topic_id tm =
      if is_empty msg.message
      then (do
        in_tree (write (levels msg.topic) (set_message none))
        let to_delete = is_none (message (set_message none tm)) && get_num_subscribed tm == 0
        if to_delete then delete_topic msg.topic topic_id else pure tt)
      else in_tree (write (levels msg.topic) (set_message (some msg)))

  -- `retain` behind its first `get_topic`.
  unfoldable pub retain_at : MqttMessagePublish → Topic → Broker W (Unit {0})
  retain_at msg tm = do
    topic_id ← or_fail (get_internal_id tm) BrokerError.unwrap_panic
    call (o.persist_delete_retain topic_id)
    _ ← if is_empty msg.message then pure 0 else call (o.persist_retain topic_id msg)
    tm' ← get_topic msg.topic
    keep_message msg topic_id tm'

  unfoldable pub retain : MqttMessagePublish → Broker W (Unit {0})
  retain msg = do tm ← get_topic msg.topic; retain_at msg tm

  -- The end of `unsubscribe`, for an entry that was removed.
  unfoldable pub forget : SessionId → List ℕ → Topic → Broker W (Unit {0})
  forget session name entry = do
    topic_id ← or_fail (get_internal_id entry) BrokerError.unwrap_panic
    let to_delete = is_none (message entry) && get_num_subscribed entry == 0
    _ ← call (o.persist_unsubscribe session.internal_id topic_id)
    if to_delete then delete_topic name topic_id else pure tt

  unfoldable pub unsubscribe_at : SessionId → List ℕ → Option Topic → Broker W (Unit {0})
  unsubscribe_at session name none = pure tt
  unsubscribe_at session name (some entry) = do
    in_tree (write (levels name) (λ t. (set_unsubscribed session.session t).0))
    let (entry', removed) = set_unsubscribed session.session entry
    if removed then forget session name entry' else pure tt

  unfoldable pub unsubscribe : SessionId → List ℕ → Broker W (Unit {0})
  unsubscribe session name = do
    root ← gets (λ s. s.topics)
    unsubscribe_at session name (follow (levels name) (some root))

  -- The retained message of a stored topic.
  unfoldable pub load_message : Option ℕ → Topic → Broker W Topic
  load_message none t = pure t
  load_message (some message_id) t = do
    m ← call (o.load_persistent_message message_id)
    pure (set_message (some m) t)

  unfoldable pub load_topics : List PersistedTopic → Broker W (Unit {0})
  load_topics [] = pure tt
  load_topics (t ∷ ts) = do
    item ← load_message t.retained_message_id (new (some t.topic_id))
    subscriptions ← call (o.load_persistent_subscriptions t.topic_id)
    in_tree (insert_topic t.topic_name (set_all_subscribed subscriptions item))
    load_topics ts

  unfoldable pub load_persistent_state : Broker W ℕ
  load_persistent_state = do stored ← call o.load_persistent_topics; load_topics stored; pure 0
