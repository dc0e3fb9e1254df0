-- ===== src/Sessions/Subscribing.antt =====
-- sessions/sessionworker.rs: the handlers of SUBSCRIBE and UNSUBSCRIBE.
pub mod Keeps
pub mod Once
use squillion_mqtt.Prelude.{
  ℕ, zero, suc, ◌+◌, ◌%◌, ◌^◌, Bool, true, false, not, ◌&&◌, ◌||◌, Option, none, some, List, [],
  ◌∷◌, ◌++◌, ◌==◌, if◌then◌else◌,
}
use squillion_mqtt.Result.{Result, ok, err}
use squillion_mqtt.Messages.Publish.{MqttMessagePublish}
use squillion_mqtt.Messages.Ack.{
  MqttMessagePuback, MqttMessagePubrec, MqttMessagePubrel, MqttMessagePubcomp, MqttMessageSuback,
}
use squillion_mqtt.Messages.Subscribe.{MqttMessageSubscribe, MqttMessageUnsubscribe}
use squillion_mqtt.Messages.Connect.{ReturnCode, accepted, server_unavailable, MqttMessageConnect}
use squillion_mqtt.Messages.Codec.{MqttMessage}
use squillion_mqtt.Sessions.State.{
  contains, insert, insert_topic, remove_topic, SessionId, RouterMessage,
  RouterPublishSubscribeResponse, MqttSession, SessionError, NewClient, SessionMessage, internal,
  client_message, new_client,
}
use squillion_mqtt.Sessions.Machine.{
  PersistCall, Outside, Machine, Step, pure, fail, ◌>>=◌, ◌>>◌, attempt, get, modify, when,
  session_id, is_ok, is_some, give, outside, persist, send_client_message, send_message_router,
}
use squillion_mqtt.Sessions.Queue.{
  qos_outgoing_set_dup, qos_outgoing_insert, qos_outgoing_remove, qos_incoming_store,
  qos_incoming_received, qos_incoming_remove, send_queued_messages,
}
use squillion_mqtt.Sessions.Lifecycle.{unsubscribe}

-- The variables of the loop of `subscribe_message`.
pub record Answers : Type 0 where
  pub router_error : Bool
  pub responses : List ℕ
  pub retained_messages : List MqttMessagePublish

answer : ℕ → Result SessionError RouterPublishSubscribeResponse → Answers → Answers
answer qos (err e) a = record a { router_error = true; responses = a.responses ++ (0x80 ∷ []) }
answer qos (ok r) a =
    if not (r.ret == 0x80)
    then record a {
      responses = a.responses ++ (qos ∷ []);
      retained_messages = a.retained_messages ++ r.retained_messages;
    }
    else record a { responses = a.responses ++ (0x80 ∷ []) }

module _ {W : Type 0} (o : Outside W) where
  await_response : Step W RouterPublishSubscribeResponse
  await_response m =
      let (response, w) = o.subscribe_response m.world in
      elim response [
        | some r ↦ (ok r, record m { world = w })
        | none ↦ (err SessionError.router, record m { world = w })
      ]

  pub subscribe : List ℕ → ℕ → Step W RouterPublishSubscribeResponse
  unfolding await_response
  subscribe topic qos = do
    modify (λ s. record s { subscriptions = insert_topic topic s.subscriptions })
    self ← get
    send_message_router o (RouterMessage.subscribe (session_id self) topic qos)
    await_response

  pub subscribe_topics : List (List ℕ × ℕ) → Answers → Step W Answers
  unfolding answer subscribe
  subscribe_topics [] a = pure a
  subscribe_topics ((topic, qos) ∷ topics) a = do
    response ← attempt (subscribe topic qos)
    subscribe_topics topics (answer qos response a)

  -- The loop ends at the first message that the client does not take; the result is `client_error`.
  send_retained : List MqttMessagePublish → Step W Bool
  send_retained [] = pure false
  send_retained (m ∷ ms) = do
    sent ← attempt (send_client_message o (MqttMessage.publish m))
    if is_ok sent then send_retained ms else pure true

  pub subscribe_message : MqttMessageSubscribe → Step W (Unit {0})
  unfolding subscribe_topics send_retained
  subscribe_message m = do
    a ←
        subscribe_topics m.topics
          (record { router_error = false; responses = []; retained_messages = [] })
    sent ← attempt (
        send_client_message o
          (MqttMessage.sub_ack (record { identifier = m.identifier; response = a.responses })))
    client_error ← if is_ok sent then send_retained a.retained_messages else pure false
    if a.router_error
        then fail SessionError.router
        else if client_error
        then fail SessionError.client
        else pure tt

  pub unsubscribe_message : MqttMessageUnsubscribe → Step W (Unit {0})
  unsubscribe_message m = do
    unsubscribe o m.topics
    send_client_message o (MqttMessage.unsub_ack (record { identifier = m.identifier }))
