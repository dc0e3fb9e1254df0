-- ===== src/Sessions/Worker.antt =====
-- sessions/sessionworker.rs: the loop of a session.
pub mod Keeps
pub mod ExactlyOnce
use squillion_mqtt.Prelude.{
  ℕ, zero, suc, ◌+◌, ◌%◌, ◌^◌, Bool, true, false, not, ◌&&◌, ◌||◌, Option, none, some, List, [],
  ◌∷◌, ◌++◌, ◌==◌, if◌then◌else◌,
}
use squillion_mqtt.Result.{Result, ok, err}
use squillion_mqtt.Messages.Publish.{MqttMessagePublish}
use squillion_mqtt.Messages.Ack.{
  MqttMessagePuback, MqttMessagePubrec, MqttMessagePubrel, MqttMessagePubcomp, MqttMessageSuback,
}
use squillion_mqtt.Messages.Subscribe.{MqttMessageSubscribe, MqttMessageUnsubscribe}
use squillion_mqtt.Messages.Connect.{ReturnCode, accepted, server_unavailable, MqttMessageConnect}
use squillion_mqtt.Messages.Codec.{MqttMessage}
use squillion_mqtt.Sessions.State.{
  contains, insert, insert_topic, remove_topic, SessionId, RouterMessage,
  RouterPublishSubscribeResponse, MqttSession, SessionError, NewClient, SessionMessage, internal,
  client_message, new_client,
}
use squillion_mqtt.Sessions.Machine.{
  PersistCall, Outside, Machine, Step, pure, fail, ◌>>=◌, ◌>>◌, attempt, get, modify, when,
  session_id, is_ok, is_some, give, outside, persist, send_client_message, send_message_router,
}
use squillion_mqtt.Sessions.Queue.{
  qos_outgoing_set_dup, qos_outgoing_insert, qos_outgoing_remove, qos_incoming_store,
  qos_incoming_received, qos_incoming_remove, send_queued_messages,
}
use squillion_mqtt.Sessions.Loading.{init_persist_session}
use squillion_mqtt.Sessions.Lifecycle.{new_client_connected}
use squillion_mqtt.Sessions.Subscribing.{subscribe_message, unsubscribe_message}
use squillion_mqtt.Sessions.Publishing.{
  internal_publish_message, puback_message, pubrel_message, pubrec_message, pubcomp_message,
  publish_message,
}

-- `running` after a result.
abbrev pub goes_on : Result SessionError (Unit {0}) → Bool
goes_on (ok a) = true
goes_on (err SessionError.client) = true
goes_on (err SessionError.router) = false
goes_on (err (SessionError.persist e)) = false
goes_on (err SessionError.index_panic) = false

module _ {W : Type 0} (o : Outside W) where
  -- The match on the message of a client.
  pub client_step : MqttMessage → Step W (Unit {0})
  client_step (MqttMessage.publish m) = publish_message o m
  client_step (MqttMessage.pub_ack m) = puback_message o m
  client_step (MqttMessage.pub_rel m) = pubrel_message o m
  client_step (MqttMessage.pub_rec m) = pubrec_message o m
  client_step (MqttMessage.pub_comp m) = pubcomp_message o m
  client_step (MqttMessage.subscribe m) = subscribe_message o m
  client_step (MqttMessage.unsubscribe m) = unsubscribe_message o m
  client_step message = pure tt

  pub internal_step : MqttMessage → Step W (Unit {0})
  internal_step (MqttMessage.publish m) = internal_publish_message o m
  internal_step message = pure tt

  -- The match on an event in `run_loop`.
  pub step : SessionMessage → Step W (Unit {0})
  unfolding client_step internal_step
  step (internal i) = do
    self ← get
    when (i.session.session_generation == self.generation) (internal_step i.message)
  step (client_message m) = client_step m
  step (new_client n) = new_client_connected o n

  -- The loop over the events that arrive; the first part says whether it still runs.
  pub run_events : List SessionMessage → Machine W → Bool × Machine W
  unfolding step
  run_events [] m = (true, m)
  run_events (event ∷ events) m =
      let (result, m') = step event m in
      let rest = run_events events m' in if goes_on result then rest else (false, m')

  -- What `run_loop` does before its first event, and after its last.
  pub start : Step W (Unit {0})
  start = do outside o.create_persistent_connection; init_persist_session o

  close : Machine W → Machine W
  close m = (when (is_some m.session.client) (send_client_message o MqttMessage.disconnect) m).1

  -- The first part says whether the loop still waits for an event.
  pub run_loop : List SessionMessage → Machine W → Bool × Machine W
  unfolding start close run_events
  run_loop events m =
      let (result, m1) = start m in
      let (running, m2) = if is_ok result then run_events events m1 else (false, m1) in
      (running, if running then m2 else close m2)
