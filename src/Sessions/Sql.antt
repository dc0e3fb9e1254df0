-- ===== src/Sessions/Sql.antt =====
-- sessions/persistsql.rs: the provider of the sessions over SQLite.
pub mod Loaded
pub mod Atomic
use squillion_mqtt.Prelude.{
  ℕ, ◌%◌, ◌^◌, Bool, true, false, Option, none, some, List, [], ◌∷◌, String, map, if◌then◌else◌,
}
use squillion_mqtt.Result.{Result, ok, err}
use squillion_mqtt.Messages.Types.{MqttMessageType, try_from}
use squillion_mqtt.Messages.Publish.{MqttMessagePublish}
use squillion_mqtt.Messages.Codec.{MqttMessage}
use squillion_mqtt.Broker.Sql.{MessageRow, Query, tried, done, failed, message_of}
use squillion_mqtt.Sessions.Machine.{PersistCall, Outside}

-- The columns of a queued message.
pub record QosoutRow : Type 0 where
  pub message_id : Option ℕ
  pub message_type : ℕ
  pub mid : ℕ
  pub dup : Bool

-- What is outside: the pool, the thread of a connection, and SQLite with a function for each statement of
-- the code, which is prepared and executed in one step, or fails with its text. The words before the text
-- of an error are left out.
pub record SessionSqlite (W : Type 0) : Type 0 where
  pub pool_get : W → Result String (Unit {0}) × W
  pub interact : W → Result String (Unit {0}) × W
  pub select_session : List ℕ → W → Result String (Option (ℕ × ℕ × ℕ)) × W
  pub insert_session : List ℕ → (generation : ℕ) → W → Result String ℕ × W
  pub select_subscribed : ℕ → W → Result String (List (List ℕ)) × W
  pub update_generation : (id generation : ℕ) → W → Result String ℕ × W
  pub update_mid : (id mid : ℕ) → W → Result String ℕ × W
  pub insert_qosin : (session_id mid : ℕ) → W → Result String ℕ × W
  pub delete_qosin : (session_id mid : ℕ) → W → Result String (Unit {0}) × W
  pub clear_qosin : ℕ → W → Result String (Unit {0}) × W
  pub select_qosin : ℕ → W → Result String (List ℕ) × W
  pub insert_qosout : (session_id message_type mid : ℕ) → Option ℕ → W → Result String ℕ × W
  pub select_message_id : (session_id mid : ℕ) → W → Result String (Option ℕ) × W
  pub select_message_ids : ℕ → W → Result String (List (Option ℕ)) × W
  pub delete_qosout : (session_id mid : ℕ) → W → Result String (Unit {0}) × W
  pub clear_qosout : ℕ → W → Result String (Unit {0}) × W
  pub update_dup : (session_id mid : ℕ) → Bool → W → Result String ℕ × W
  pub select_qosout : ℕ → W → Result String (List QosoutRow) × W
  pub insert_message : MessageRow → W → Result String ℕ × W
  pub select_message : ℕ → W → Result String MessageRow × W
  pub delete_message : ℕ → W → Result String (Unit {0}) × W
  pub begin : W → Result String (Unit {0}) × W
  pub commit : W → Result String (Unit {0}) × W
  pub rollback : W → W

-- `MQTTMessageType::Publish as i32` and `MQTTMessageType::PubRec as i32`.
abbrev pub publish_type : ℕ
publish_type = 3

abbrev pub pub_rec_type : ℕ
pub_rec_type = 5

abbrev pub the_ids : List (Option ℕ) → List ℕ
the_ids [] = []
the_ids (none ∷ xs) = the_ids xs
the_ids (some x ∷ xs) = x ∷ the_ids xs

module _ {W : Type 0} (o : SessionSqlite W) where
  unfoldable pub with_client : {A : Type 0} → Query W A → Query W A
  with_client closure w = tried (o.pool_get w) (λ _ w1. tried (o.interact w1) (λ _. closure))

  -- A transaction that is dropped without a commit is rolled back.
  unfoldable pub committed :
      {A : Type 0} → String → A → Result String (Unit {0}) × W → Result String A × W
  committed text a (ok _, w) = (ok a, w)
  committed text a (err _, w) = (err text, o.rollback w)

  unfoldable pub settled : {A : Type 0} → String → Result String A × W → Result String A × W
  unfolding committed
  settled text (ok a, w) = committed text a (o.commit w)
  settled text (err e, w) = (err e, o.rollback w)

  unfoldable pub in_transaction : {A : Type 0} → String → Query W A → Query W A
  unfolding settled
  in_transaction text body w = tried (o.begin w) (λ _ w1. settled text (body w1))

  -- The identifier, the generation, whether the session is clean, and the next message identifier.
  unfoldable pub found_session : List ℕ → Option (ℕ × ℕ × ℕ) → Query W (ℕ × ℕ × Bool × ℕ)
  found_session id (some (internal_id, generation, next_mid)) w =
      (ok (internal_id, generation, false, next_mid % 2 ^ 16), w)
  found_session id none w =
      tried (o.insert_session id 0 w) (λ internal_id. done (internal_id, 0, true, 1))

  unfoldable pub persist_session : List ℕ → Query W (ℕ × ℕ × Bool × ℕ)
  unfolding with_client found_session
  persist_session id = with_client (λ w. tried (o.select_session id w) (found_session id))

  unfoldable pub load_persistent_subscriptions : ℕ → Query W (List (List ℕ))
  unfolding with_client
  load_persistent_subscriptions session_id = with_client (o.select_subscribed session_id)

  unfoldable pub persist_qos_incoming_load : ℕ → Query W (List ℕ)
  unfolding with_client
  persist_qos_incoming_load session_id =
      with_client
        (λ w. tried (o.select_qosin session_id w) (λ mids. done (map (λ m. m % 2 ^ 16) mids)))

  unfoldable pub insert_queued : (session_id message_type mid : ℕ) → Option ℕ → Query W (Unit {0})
  insert_queued session_id message_type mid message_id w =
      tried (o.insert_qosout session_id message_type mid message_id w) (λ _. done tt)

  unfoldable pub store_message : (session_id mid : ℕ) → MqttMessage → Query W (Unit {0})
  unfolding insert_queued
  store_message session_id mid (MqttMessage.publish m) w =
      tried (o.insert_message (record { qos = m.qos; topic = m.topic; payload = m.message }) w)
        (λ message_id. insert_queued session_id publish_type mid (some message_id))
  store_message session_id mid (MqttMessage.pub_rec m) w =
      insert_queued session_id pub_rec_type mid none w
  store_message session_id mid _ w = (err "QoS outgoing message unknown message type", w)

  unfoldable pub persist_qos_outgoing_store :
      (session_id mid : ℕ) → MqttMessage → Query W (Unit {0})
  unfolding with_client in_transaction store_message
  persist_qos_outgoing_store session_id mid msg =
      with_client
        (in_transaction "QoS outgoing delete commit failed" (store_message session_id mid msg))

  unfoldable pub delete_messages : List ℕ → Query W (Unit {0})
  delete_messages [] w = (ok tt, w)
  delete_messages (id ∷ ids) w = tried (o.delete_message id w) (λ _. delete_messages ids)

  unfoldable pub delete_queued : (session_id mid : ℕ) → Query W (Unit {0})
  unfolding delete_messages
  delete_queued session_id mid w = tried (o.select_message_id session_id mid w) (λ message_id w1.
      tried (o.delete_qosout session_id mid w1) (λ _. delete_messages (the_ids (message_id ∷ []))))

  unfoldable pub persist_qos_outgoing_delete : (session_id mid : ℕ) → Query W (Unit {0})
  unfolding with_client in_transaction delete_queued
  persist_qos_outgoing_delete session_id mid =
      with_client
        (in_transaction "QoS outgoing delete commit failed" (delete_queued session_id mid))

  unfoldable pub clear_queued : ℕ → Query W (Unit {0})
  unfolding delete_messages
  clear_queued session_id w = tried (o.select_message_ids session_id w) (λ message_ids w1.
      tried (o.clear_qosout session_id w1) (λ _. delete_messages (the_ids message_ids)))

  unfoldable pub persist_qos_outgoing_clear : ℕ → Query W (Unit {0})
  unfolding with_client in_transaction clear_queued
  persist_qos_outgoing_clear session_id =
      with_client (in_transaction "Qosout clear delete message failed" (clear_queued session_id))

  -- A statement whose value the session does not read.
  unfoldable pub executed : {A : Type 0} → Query W A → Query W (Unit {0})
  unfolding with_client
  executed statement = with_client (λ w. tried (statement w) (λ _. done tt))

  -- The writes, each by its name.
  unfoldable pub persist : PersistCall → Query W (Unit {0})
  unfolding executed persist_qos_outgoing_store persist_qos_outgoing_delete
      persist_qos_outgoing_clear
  persist (PersistCall.update_session_generation id generation) =
      executed (o.update_generation id generation)
  persist (PersistCall.qos_incoming_store session_id mid) = executed (o.insert_qosin session_id mid)
  persist (PersistCall.qos_incoming_delete session_id mid) =
      executed (o.delete_qosin session_id mid)
  persist (PersistCall.qos_incoming_clear session_id) = executed (o.clear_qosin session_id)
  persist (PersistCall.qos_outgoing_store session_id mid msg) =
      persist_qos_outgoing_store session_id mid msg
  persist (PersistCall.qos_outgoing_delete session_id mid) =
      persist_qos_outgoing_delete session_id mid
  persist (PersistCall.qos_outgoing_update_dup session_id mid dup) =
      executed (o.update_dup session_id mid dup)
  persist (PersistCall.qos_outgoing_clear session_id) = persist_qos_outgoing_clear session_id
  persist (PersistCall.update_session_mid id mid) = executed (o.update_mid id mid)

  unfoldable pub client_load_persistent_message : ℕ → Query W MqttMessagePublish
  client_load_persistent_message message_id w =
      tried (o.select_message message_id w) (λ row. done (message_of row))

  unfoldable pub load_publish : QosoutRow → Option ℕ → Query W MqttMessage
  unfolding client_load_persistent_message
  load_publish row none w = (err "Error loading qosout messages, no id for publish message", w)
  load_publish row (some id) w = tried (client_load_persistent_message id w) (λ pubmsg.
      done (MqttMessage.publish (record pubmsg { identifier = row.mid % 2 ^ 16; dup = row.dup })))

  unfoldable pub load_typed : QosoutRow → Option MqttMessageType → Query W MqttMessage
  unfolding load_publish
  load_typed row (some MqttMessageType.publish) = load_publish row row.message_id
  load_typed row (some MqttMessageType.pub_rec) =
      done (MqttMessage.pub_rec (record { identifier = row.mid % 2 ^ 16 }))
  load_typed row _ = failed "Error loading qosout messages, unkown message type"

  unfoldable pub load_rows : List QosoutRow → Query W (List MqttMessage)
  unfolding load_typed
  load_rows [] w = (ok [], w)
  load_rows (row ∷ rows) w =
      tried (load_typed row (try_from row.message_type) w)
        (λ m w1. tried (load_rows rows w1) (λ ms. done (m ∷ ms)))

  unfoldable pub persistent_qosout_load : ℕ → Query W (List MqttMessage)
  unfolding with_client load_rows
  persistent_qosout_load session_id =
      with_client (λ w. tried (o.select_qosout session_id w) load_rows)

  -- A session over this provider, with the channels of `channels`.
  unfoldable pub sql_outside : Outside W → Outside W
  unfolding persist persist_session load_persistent_subscriptions persist_qos_incoming_load
      persistent_qosout_load
  sql_outside channels = record channels {
    persist = persist;
    create_persistent_connection = done tt;
    persist_session = persist_session;
    load_persistent_subscriptions = load_persistent_subscriptions;
    persist_qos_incoming_load = persist_qos_incoming_load;
    persistent_qosout_load = persistent_qosout_load;
  }
