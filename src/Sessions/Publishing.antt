-- ===== src/Sessions/Publishing.antt =====
-- sessions/sessionworker.rs: the handlers of messages and acknowledgements.
pub mod Keeps
pub mod Once
pub mod First
use squillion_mqtt.Prelude.{
  ℕ, zero, suc, ◌+◌, ◌%◌, ◌^◌, Bool, true, false, not, ◌&&◌, ◌||◌, Option, none, some, List, [],
  ◌∷◌, ◌++◌, ◌==◌, if◌then◌else◌,
}
use squillion_mqtt.Result.{Result, ok, err}
use squillion_mqtt.Messages.Publish.{MqttMessagePublish}
use squillion_mqtt.Messages.Ack.{
  MqttMessagePuback, MqttMessagePubrec, MqttMessagePubrel, MqttMessagePubcomp, MqttMessageSuback,
}
use squillion_mqtt.Messages.Subscribe.{MqttMessageSubscribe, MqttMessageUnsubscribe}
use squillion_mqtt.Messages.Connect.{ReturnCode, accepted, server_unavailable, MqttMessageConnect}
use squillion_mqtt.Messages.Codec.{MqttMessage}
use squillion_mqtt.Sessions.State.{
  contains, insert, insert_topic, remove_topic, SessionId, RouterMessage,
  RouterPublishSubscribeResponse, MqttSession, SessionError, NewClient, SessionMessage, internal,
  client_message, new_client,
}
use squillion_mqtt.Sessions.Machine.{
  PersistCall, Outside, Machine, Step, pure, fail, ◌>>=◌, ◌>>◌, attempt, get, modify, when,
  session_id, is_ok, is_some, give, outside, persist, send_client_message, send_message_router,
}
use squillion_mqtt.Sessions.Queue.{
  qos_outgoing_set_dup, qos_outgoing_insert, qos_outgoing_remove, qos_incoming_store,
  qos_incoming_received, qos_incoming_remove, send_queued_messages,
}

module _ {W : Type 0} (o : Outside W) where
  -- What `internal_publish_message` does for a connected client.
  send_then_flag : MqttMessage → Bool → ℕ → Step W (Unit {0})
  send_then_flag message queued mid = do
    send_client_message o message
    when queued do done ← qos_outgoing_set_dup o mid; pure tt

  pub internal_publish_message : MqttMessagePublish → Step W (Unit {0})
  unfolding send_then_flag
  internal_publish_message m = do
    let message = record m { dup = false }
    let qos = m.qos
    let queued = qos == 1 || qos == 2
    mid ← if queued then qos_outgoing_insert o (MqttMessage.publish message) else pure m.identifier
    self ← get
    when (is_some self.client)
        (send_then_flag (MqttMessage.publish (record message { identifier = mid })) queued mid)

  pub puback_message : MqttMessagePuback → Step W (Unit {0})
  puback_message m = do mid ← qos_outgoing_remove o m.identifier; pure tt

  pub pubrel_message : MqttMessagePubrel → Step W (Unit {0})
  pubrel_message m = do
    mid ← qos_incoming_remove o m.identifier
    send_client_message o (MqttMessage.pub_comp (record { identifier = m.identifier }))

  pub pubrec_message : MqttMessagePubrec → Step W (Unit {0})
  pubrec_message m = do
    mid ← qos_outgoing_insert o (MqttMessage.pub_rec m)
    send_client_message o (MqttMessage.pub_rel (record { identifier = mid }))

  pub pubcomp_message : MqttMessagePubcomp → Step W (Unit {0})
  pubcomp_message m = do mid ← qos_outgoing_remove o m.identifier; pure tt

  -- What follows the message to the router, by its QoS.
  unfoldable pub acknowledge : ℕ → ℕ → Step W (Unit {0})
  acknowledge qos mid =
      let puback = (do
        sent ← attempt (send_client_message o (MqttMessage.pub_ack (record { identifier = mid })))
        pure tt) in
      let pubrec = (do
        stored ← qos_incoming_store o mid
        sent ← attempt (send_client_message o (MqttMessage.pub_rec (record { identifier = mid })))
        pure tt) in
      if qos == 1 then puback else if qos == 2 then pubrec else pure tt

  -- A message that goes to the router.
  unfoldable pub forward : MqttMessagePublish → MqttSession → Step W (Unit {0})
  unfolding acknowledge
  forward m self = do
    send_message_router o (RouterMessage.publish (session_id self) (record m { dup = false }))
    acknowledge m.qos m.identifier

  unfoldable pub publish_message : MqttMessagePublish → Step W (Unit {0})
  unfolding forward
  publish_message m = do
    self ← get
    let pubrec = MqttMessage.pub_rec (record { identifier = m.identifier })
    if m.qos == 2 && qos_incoming_received self m.identifier
        then send_client_message o pubrec
        else forward m self
