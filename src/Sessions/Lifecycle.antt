-- ===== src/Sessions/Lifecycle.antt =====
-- sessions/sessionworker.rs: a client connects, and the session is cleaned.
pub mod Keeps
pub mod Once
use squillion_mqtt.Prelude.{
  ℕ, zero, suc, ◌+◌, ◌%◌, ◌^◌, Bool, true, false, not, ◌&&◌, ◌||◌, Option, none, some, List, [],
  ◌∷◌, ◌++◌, ◌==◌, if◌then◌else◌,
}
use squillion_mqtt.Result.{Result, ok, err}
use squillion_mqtt.Messages.Publish.{MqttMessagePublish}
use squillion_mqtt.Messages.Ack.{
  MqttMessagePuback, MqttMessagePubrec, MqttMessagePubrel, MqttMessagePubcomp, MqttMessageSuback,
}
use squillion_mqtt.Messages.Subscribe.{MqttMessageSubscribe, MqttMessageUnsubscribe}
use squillion_mqtt.Messages.Connect.{ReturnCode, accepted, server_unavailable, MqttMessageConnect}
use squillion_mqtt.Messages.Codec.{MqttMessage}
use squillion_mqtt.Sessions.State.{
  contains, insert, insert_topic, remove_topic, SessionId, RouterMessage,
  RouterPublishSubscribeResponse, MqttSession, SessionError, NewClient, SessionMessage, internal,
  client_message, new_client,
}
use squillion_mqtt.Sessions.Machine.{
  PersistCall, Outside, Machine, Step, pure, fail, ◌>>=◌, ◌>>◌, attempt, get, modify, when,
  session_id, is_ok, is_some, give, outside, persist, send_client_message, send_message_router,
}
use squillion_mqtt.Sessions.Queue.{
  qos_outgoing_set_dup, qos_outgoing_insert, qos_outgoing_remove, qos_incoming_store,
  qos_incoming_received, qos_incoming_remove, send_queued_messages,
}

unfoldable pub remove_topics : List (List ℕ) → List (List ℕ) → List (List ℕ)
remove_topics [] held = held
remove_topics (t ∷ ts) held = remove_topics ts (remove_topic t held)

module _ {W : Type 0} (o : Outside W) where
  pub unsubscribe : List (List ℕ) → Step W (Unit {0})
  unfolding remove_topics
  unsubscribe topics = do
    modify (λ s. record s { subscriptions = remove_topics topics s.subscriptions })
    self ← get
    send_message_router o (RouterMessage.unsubscribe (session_id self) topics)

  pub unsubscribe_all : Step W (Unit {0})
  unfolding unsubscribe
  unsubscribe_all = do
    self ← get
    unsubscribe self.subscriptions
    modify (λ s. record s { subscriptions = [] })

  pub clean_session : Step W (Unit {0})
  unfolding unsubscribe_all
  clean_session = do
    self ← get
    persist o (PersistCall.qos_incoming_clear self.internal_id)
    modify (λ s. record s { qos_incoming = [] })
    persist o (PersistCall.qos_outgoing_clear self.internal_id)
    modify (λ s. record s { qos_outgoing = []; qos_outgoing_messages = [] })
    unsubscribe_all
    modify (λ s. record s {
      clean = true;
      generation = (s.generation + 1) % 2 ^ 64;
      next_message_id = 1;
    })
    after ← get
    persist o (PersistCall.update_session_generation after.internal_id after.generation)

  -- Both branches of the old client end with `client = None`.
  drop_client : Step W (Unit {0})
  drop_client = do
    self ← get
    result ← attempt (when (is_some self.client) (send_client_message o MqttMessage.disconnect))
    modify (λ s. record s { client = none })

  -- The CONNACK, by the result of the clean-up, and the queue behind it.
  greet : NewClient → Result SessionError (Unit {0}) → Step W (Unit {0})
  greet n clean_result = do
    before ← get
    modify (λ s. record s { clean = false; client = some n.client })
    client_result ← attempt (
        send_client_message o (
          MqttMessage.conn_ack (record {
            return_code = if is_ok clean_result then accepted else server_unavailable;
            session_present = not before.clean;
          })))
    send_queued_messages o
    if is_ok clean_result then give client_result else give clean_result

  pub new_client_connected : NewClient → Step W (Unit {0})
  unfolding drop_client clean_session greet
  new_client_connected n = do
    drop_client
    clean_result ← attempt (when n.msg.clean_session clean_session)
    greet n clean_result
