-- ===== src/Broker/Sql.antt =====
-- broker/persistsql.rs: the provider of the topic tree over SQLite.
pub mod Atomic
use squillion_mqtt.Prelude.{
  ℕ, ◌%◌, ◌^◌, Bool, true, false, Option, none, some, List, [], ◌∷◌, String, if◌then◌else◌, ◌==◌,
  map,
}
use squillion_mqtt.Result.{Result, ok, err}
use squillion_mqtt.Messages.Publish.{MqttMessagePublish}
use squillion_mqtt.Messages.Publish
use squillion_mqtt.Sessions.State.{SessionId}
use squillion_mqtt.Broker.Store.{PersistedTopic, PersistProvider}

-- The columns of a message and of a subscription with its session.
pub record MessageRow : Type 0 where
  pub qos : ℕ
  pub topic : List ℕ
  pub payload : List ℕ

pub record SubscriptionRow : Type 0 where
  pub id : ℕ
  pub name : List ℕ
  pub generation : ℕ
  pub qos : ℕ

-- What is outside: the pool, the thread of a connection (`interact`; a closure that panics is one that
-- it does not run to its end), and SQLite, with a function for each statement of the code. A statement
-- whose error is read returns its text, another one whether it was executed.
pub record Sqlite (W : Type 0) : Type 0 where
  pub pool_get : W → Bool × W
  pub interact : W → Bool × W
  pub create_tables : W → Result String (Unit {0}) × W
  pub select_version : W → Option ℕ × W
  pub prepare_topics : W → Result String (Unit {0}) × W
  pub select_topics : W → Option (List PersistedTopic) × W
  pub select_message : ℕ → W → Option MessageRow × W
  pub prepare_subscriptions : W → Result String (Unit {0}) × W
  pub select_subscriptions : ℕ → W → Option (List SubscriptionRow) × W
  pub insert_topic : List ℕ → W → Result String ℕ × W
  pub delete_topic : ℕ → W → Bool × W
  pub insert_subscription : (session_id topic_id qos : ℕ) → W → Bool × W
  pub update_subscription : (session_id topic_id qos : ℕ) → W → Bool × W
  pub delete_subscription : (session_id topic_id : ℕ) → W → Bool × W
  pub insert_message : MessageRow → W → Option ℕ × W
  pub set_retained : (topic_id : ℕ) → Option ℕ → W → Bool × W
  pub select_retained : ℕ → W → Option (Option ℕ) × W
  pub delete_message : ℕ → W → Bool × W
  pub begin : W → Bool × W
  pub commit : W → Bool × W
  pub rollback : W → W

abbrev pub Query : Type 0 → Type 0 → Type 0
Query W A = W → Result String A × W

-- A step that is executed or not, and one that has a value or not, with what follows.
abbrev pub checked : {W A : Type 0} → Bool × W → Query W A → Query W A → Result String A × W
checked (true, w) good bad = good w
checked (false, w) good bad = bad w

abbrev pub valued :
    {W A B : Type 0} → Option B × W → (B → Query W A) → Query W A → Result String A × W
valued (some b, w) good bad = good b w
valued (none, w) good bad = bad w

abbrev pub tried : {W A B : Type 0} → Result String B × W → (B → Query W A) → Result String A × W
tried (ok b, w) good = good b w
tried (err e, w) good = (err e, w)

abbrev pub failed : {W A : Type 0} → String → Query W A
failed text w = (err text, w)

abbrev pub done : {W A : Type 0} → A → Query W A
done a w = (ok a, w)

abbrev pub message_of : MessageRow → MqttMessagePublish
message_of row = record Publish.new {
  topic = row.topic;
  qos = row.qos % 2 ^ 8;
  message = row.payload;
}

abbrev pub session_of : SubscriptionRow → SessionId × ℕ
session_of row = (
  record { session = row.name; internal_id = row.id; session_generation = row.generation },
  row.qos % 2 ^ 8,
)

module _ {W : Type 0} (o : Sqlite W) where
  -- A closure on a connection of the pool; `text` is the error of the pool.
  unfoldable pub with_client : {A : Type 0} → String → Query W A → Query W A
  with_client text closure w =
      checked (o.pool_get w)
        (λ w1. checked (o.interact w1) closure (failed "Failed to get sqlite client")) (failed text)

  unfoldable pub create_db : Query W ℕ
  unfolding with_client
  create_db = with_client "No database client" (λ w. tried (o.create_tables w) (λ _. done 0))

  -- Every error is no version.
  unfoldable pub get_database_version : Query W (Option ℕ)
  get_database_version w =
      checked (o.pool_get w)
        (λ w1.
          checked (o.interact w1) (λ w2. let (v, w3) = o.select_version w2 in (ok v, w3))
            (done none))
        (done none)

  unfoldable pub checked_version : Option ℕ → Query W ℕ
  unfolding create_db
  checked_version none = create_db
  checked_version (some v) = if v == 1 then done 0 else failed "Unknown database version"

  unfoldable pub init_persistent_store : Query W ℕ
  unfolding checked_version get_database_version
  init_persistent_store w = tried (get_database_version w) checked_version

  unfoldable pub load_persistent_topics : Query W (List PersistedTopic)
  unfolding with_client
  load_persistent_topics = with_client "Failed to get db client" (λ w.
      tried (o.prepare_topics w)
        (λ _ w1. valued (o.select_topics w1) done (failed "Failed to load persistent topics")))

  unfoldable pub load_persistent_message : ℕ → Query W MqttMessagePublish
  unfolding with_client
  load_persistent_message message_id = with_client "Failed to get db client" (λ w.
      valued (o.select_message message_id w) (λ row. done (message_of row))
        (failed "Could not load persistent messages"))

  unfoldable pub load_persistent_subscriptions : ℕ → Query W (List (SessionId × ℕ))
  unfolding with_client
  load_persistent_subscriptions topic_id = with_client "Failed to get db client" (λ w.
      tried (o.prepare_subscriptions w) (λ _ w1.
        valued (o.select_subscriptions topic_id w1) (λ rows. done (map session_of rows))
          (failed "Could not load persistent subscriptions")))

  -- The INSERT with its RETURNING and the conversion of the row that comes back are one step, which may
  -- fail after the INSERT was executed.
  unfoldable pub persist_topic : List ℕ → Query W ℕ
  unfolding with_client
  persist_topic topic = with_client "Failed to get db client" (o.insert_topic topic)

  unfoldable pub persist_delete_topic : ℕ → Query W ℕ
  unfolding with_client
  persist_delete_topic topic_id = with_client "Failed to get db client" (λ w.
      checked (o.delete_topic topic_id w) (done topic_id) (failed "Persist delete topic failed"))

  unfoldable pub persist_subscribe : (session_id topic_id qos : ℕ) → Query W Bool
  unfolding with_client
  persist_subscribe session_id topic_id qos = with_client "Failed to get db client" (λ w.
      checked (o.insert_subscription session_id topic_id qos w) (done true)
        (failed "Persist subscribe failed"))

  unfoldable pub persist_update_subscribe : (session_id topic_id qos : ℕ) → Query W Bool
  unfolding with_client
  persist_update_subscribe session_id topic_id qos = with_client "Failed to get db client" (λ w.
      checked (o.update_subscription session_id topic_id qos w) (done true)
        (failed "Update subscribe failed"))

  unfoldable pub persist_unsubscribe : (session_id topic_id : ℕ) → Query W Bool
  unfolding with_client
  persist_unsubscribe session_id topic_id = with_client "Failed to get db client" (λ w.
      checked (o.delete_subscription session_id topic_id w) (done true)
        (failed "Unsubscribe failed"))

  -- The two statements are not in a transaction.
  unfoldable pub persist_retain : ℕ → MqttMessagePublish → Query W ℕ
  unfolding with_client
  persist_retain topic_id msg = with_client "Failed to get db client" (λ w.
      valued
        (o.insert_message (record { qos = msg.qos; topic = msg.topic; payload = msg.message }) w)
        (λ retid w1.
          checked (o.set_retained topic_id (some retid) w1) (done retid)
            (failed "Message retain failed"))
        (failed "Message retain failed"))

  -- A transaction that is dropped without a commit is rolled back.
  abbrev pub dropped : {A : Type 0} → String → Query W A
  dropped text w = (err text, o.rollback w)

  unfoldable pub delete_retained_message : Option ℕ → Query W (Unit {0})
  delete_retained_message none w =
      checked (o.commit w) (done tt) (dropped "Delete retained message commit failed")
  delete_retained_message (some mid) w =
      checked (o.delete_message mid w)
        (λ w1. checked (o.commit w1) (done tt) (dropped "Delete retained message commit failed"))
        (dropped "Delete retained message failed")

  unfoldable pub delete_retained : ℕ → Query W (Unit {0})
  unfolding delete_retained_message
  delete_retained topic_id w =
      checked (o.begin w)
        (λ w1.
          valued (o.select_retained topic_id w1)
            (λ message_id w2.
              checked (o.set_retained topic_id none w2) (delete_retained_message message_id)
                (dropped "Delete retained message from topic failed"))
            (dropped "Delete retained message getting message id failed"))
        (failed "Delete retained message unable to start transaction")

  unfoldable pub persist_delete_retain : ℕ → Query W (Unit {0})
  unfolding with_client delete_retained
  persist_delete_retain topic_id = with_client "Failed to get db client" (delete_retained topic_id)

  -- `impl PersistProvider for PersistTopicSQL`
  pub persist_topic_sql : PersistProvider W
  unfolding init_persistent_store load_persistent_topics load_persistent_message
      load_persistent_subscriptions persist_topic persist_delete_topic persist_subscribe
      persist_update_subscribe persist_retain persist_delete_retain persist_unsubscribe
  persist_topic_sql = record {
    create_persistent_connection = done 0;
    init_persistent_store = init_persistent_store;
    load_persistent_topics = load_persistent_topics;
    load_persistent_message = load_persistent_message;
    load_persistent_subscriptions = load_persistent_subscriptions;
    persist_topic = persist_topic;
    persist_delete_topic = persist_delete_topic;
    persist_subscribe = persist_subscribe;
    persist_update_subscribe = persist_update_subscribe;
    persist_retain = persist_retain;
    persist_delete_retain = persist_delete_retain;
    persist_unsubscribe = persist_unsubscribe;
  }
