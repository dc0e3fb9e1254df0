-- ===== src/Sessions/Loading.antt =====
-- sessions/sessionworker.rs: the state of a session comes back from the database.
pub mod Restored
use squillion_mqtt.Prelude.{ℕ, Bool, true, false, not, List, [], ◌∷◌, ◌++◌, String, if◌then◌else◌}
use squillion_mqtt.Result.{Result, ok, err}
use squillion_mqtt.Messages.Codec.{MqttMessage}
use squillion_mqtt.Sessions.State.{insert, insert_topic, MqttSession, SessionError}
use squillion_mqtt.Sessions.Machine.{
  Outside, Machine, Step, pure, fail, ◌>>=◌, ◌>>◌, get, modify, when, outside,
}

insert_topics : List (List ℕ) → List (List ℕ) → List (List ℕ)
insert_topics [] held = held
insert_topics (t ∷ ts) held = insert_topics ts (insert_topic t held)

module _ {W : Type 0} (o : Outside W) where
  -- The loop over the messages of the queue.
  unfoldable pub track_messages : List MqttMessage → Step W (Unit {0})
  track_messages [] = pure tt
  track_messages (MqttMessage.publish m ∷ ms) = do
    modify (λ s. record s { qos_outgoing = insert m.identifier s.qos_outgoing })
    track_messages ms
  track_messages (MqttMessage.pub_rec m ∷ ms) = do
    modify (λ s. record s { qos_outgoing = insert m.identifier s.qos_outgoing })
    track_messages ms
  track_messages (message ∷ ms) =
      fail (SessionError.persist "Error loading persistent state - unkown qos message")

  -- What is done with each part that is loaded, and the load of the next.
  unfoldable pub keep_queue : List MqttMessage → Step W (Unit {0})
  unfolding track_messages
  keep_queue qosmessages = do
    track_messages qosmessages
    modify (λ s. record s { qos_outgoing_messages = qosmessages })

  unfoldable pub keep_incoming : List ℕ → Step W (Unit {0})
  unfolding keep_queue
  keep_incoming qosin_mids = do
    modify (λ s. record s { qos_incoming = qosin_mids })
    self ← get
    qosmessages ← outside (o.persistent_qosout_load self.internal_id)
    keep_queue qosmessages

  unfoldable pub keep_subscriptions : List (List ℕ) → Step W (Unit {0})
  unfolding insert_topics keep_incoming
  keep_subscriptions subscriptions = do
    modify (λ s. record s { subscriptions = insert_topics subscriptions s.subscriptions })
    self ← get
    qosin_mids ← outside (o.persist_qos_incoming_load self.internal_id)
    keep_incoming qosin_mids

  unfoldable pub load_state : Step W (Unit {0})
  unfolding keep_subscriptions
  load_state = do
    self ← get
    subscriptions ← outside (o.load_persistent_subscriptions self.internal_id)
    keep_subscriptions subscriptions

  unfoldable pub keep_session : ℕ × ℕ × Bool × ℕ → Step W (Unit {0})
  unfolding load_state
  keep_session row = do
    modify (λ s. record s {
      internal_id = row.0;
      generation = row.1;
      clean = row.2;
      next_message_id = row.3;
    })
    when (not row.2) load_state

  unfoldable pub init_persist_session : Step W (Unit {0})
  unfolding keep_session
  init_persist_session = do self ← get; row ← outside (o.persist_session self.id); keep_session row
