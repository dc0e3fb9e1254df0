-- ===== src/Tests/Session.antt =====
-- Events of a session of sessions/, with a database and channels that always answer.
use squillion_mqtt.Prelude.{some, ◌++◌, ◌+◌, true, false, none, List, [], ◌∷◌, ◌≡◌, refl}
use squillion_mqtt.Result.{ok}
use squillion_mqtt.Messages.Publish
use squillion_mqtt.Messages.Publish.{MqttMessagePublish}
use squillion_mqtt.Messages.Codec.{MqttMessage}
use squillion_mqtt.Sessions.State.{contains, MqttSession, SessionMessage, client_message}
use squillion_mqtt.Sessions.State
use squillion_mqtt.Sessions.Machine.{
  Outside, Machine, persist, send_message_router, send_client_message,
}
use squillion_mqtt.Sessions.Invariant.{IsTracked, Good}
use squillion_mqtt.Sessions.Once.{Remembered, routed}
use squillion_mqtt.Sessions.Queue.{
  qos_incoming_store, qos_incoming_received, send_queued_messages, send_from, send_queued,
  qos_outgoing_set_dup, set_dup_found, set_dup_at, qos_outgoing_message_position,
}
use squillion_mqtt.Sessions.Queue.Delivery.{deliveries, send_queued_messages-deliveries}
use squillion_mqtt.Sessions.Publishing.{publish_message, forward, acknowledge}
use squillion_mqtt.Sessions.Worker.{step, run_events}
use squillion_mqtt.Sessions.Worker.Keeps.{step-Good, run_events-IsTracked}
use squillion_mqtt.Sessions.Worker.ExactlyOnce.{run_events-Remembered, exactly_once}

-- A database with one message in its queue.
abbrev stored : MqttMessage
stored = MqttMessage.publish (record Publish.new { qos = 1; identifier = 5 })

abbrev ready : Outside (Unit {0})
ready = record {
  persist = λ c w. (ok tt, w);
  create_persistent_connection = λ w. (ok tt, w);
  persist_session = λ id w. (ok (1, 1, false, 6), w);
  load_persistent_subscriptions = λ id w. (ok [], w);
  persist_qos_incoming_load = λ id w. (ok [], w);
  persistent_qosout_load = λ id w. (ok (stored ∷ []), w);
  send_client = λ tx m w. (true, w);
  send_router = λ m w. (true, w);
  subscribe_response = λ w. (none, w);
}

abbrev begun : Machine (Unit {0})
begun = record { session = State.new []; world = tt; sent = [] }

begun_tracked : IsTracked begun.session
unfolding State.new
begun_tracked = record { kinds = tt; distinct = tt; listed = λ n h. cc }

-- A PUBLISH of QoS 2 with the identifier 7.
abbrev second : MqttMessagePublish
second = record Publish.new { qos = 2; identifier = 7 }

abbrev repeats : List SessionMessage
repeats =
    client_message (MqttMessage.publish second) ∷ client_message (MqttMessage.publish second) ∷ []

abbrev taken : Machine (Unit {0})
taken = (publish_message ready second begun).1

taken_done : publish_message ready second begun ≡ (ok tt, taken)
unfolding publish_message forward acknowledge State.new persist send_message_router
    send_client_message qos_incoming_store qos_incoming_received
taken_done = refl

begun_fresh : contains 7 begun.session.qos_incoming ≡ false
unfolding State.new
begun_fresh = refl

exactly_once_example : routed 7 ((run_events ready repeats taken).1.sent) ≡ 1 + routed 7 begun.sent
exactly_once_example =
    exactly_once ready second repeats begun taken refl begun_fresh taken_done (tt, (tt, tt))

taken-Remembered : Remembered 7 1 taken
unfolding publish_message forward acknowledge State.new persist send_message_router
    send_client_message qos_incoming_store qos_incoming_received
taken-Remembered = record { incoming = refl; count = refl }

run_events-Remembered_example : Remembered 7 1 ((run_events ready repeats taken).1)
run_events-Remembered_example =
    run_events-Remembered ready 7 1 repeats taken (tt, (tt, tt)) taken-Remembered

step-Good_example : Good (step ready (client_message (MqttMessage.publish second)) begun)
step-Good_example =
    step-Good ready (client_message (MqttMessage.publish second)) begun begun_tracked

run_events-IsTracked_example : IsTracked ((run_events ready repeats begun).1.session)
run_events-IsTracked_example = run_events-IsTracked ready repeats begun begun_tracked

-- The stored message waits for the client on channel 3.
abbrev waiting : Machine (Unit {0})
waiting = record {
  session = record (State.new []) {
    client = some (record { channel = 3 });
    qos_outgoing = 5 ∷ [];
    qos_outgoing_messages = stored ∷ [];
  };
  world = tt;
  sent = [];
}

waiting-IsTracked : IsTracked waiting.session
unfolding State.new
waiting-IsTracked = record { kinds = (refl, tt); distinct = (refl, tt); listed = λ n h. h }

abbrev emptied : Machine (Unit {0})
emptied = (send_queued_messages ready waiting).1

emptied_done : send_queued_messages ready waiting ≡ (ok tt, emptied)
unfolding send_queued_messages send_from send_queued qos_outgoing_set_dup set_dup_found set_dup_at
    qos_outgoing_message_position State.new persist send_client_message
emptied_done = refl

waiting_client : waiting.session.client ≡ some (record { channel = 3 })
unfolding State.new
waiting_client = refl

send_queued_messages-deliveries_example :
    emptied.sent
    ≡ waiting.sent ++ deliveries (record { channel = 3 }) waiting.session.qos_outgoing_messages
send_queued_messages-deliveries_example =
    send_queued_messages-deliveries ready (record { channel = 3 }) waiting emptied waiting-IsTracked
      waiting_client emptied_done
