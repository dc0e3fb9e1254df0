-- ===== src/Tests/Client.antt =====
-- Runs of client/clientworker.rs: a PUBLISH and a PINGREQ, then a closed connection.
use squillion_mqtt.Prelude.{false, some, List, [], ◌∷◌, ◌++◌, ◌≡◌, refl}
use squillion_mqtt.Result.{ok}
use squillion_mqtt.Messages.Ack.{MqttMessagePingReq}
use squillion_mqtt.Messages.Codec.{MqttMessage}
use squillion_mqtt.Client.Worker.{
  WillMessage, WorkerOutside, WorkerEvent, MqttClientWorker, new, run_loop,
}
use squillion_mqtt.Client.Worker.Relay.{trace, for_session, last_words, is_running}
use squillion_mqtt.Client.Worker.Relay.Runs.{run_loop_relays}

abbrev outside : WorkerOutside (Unit {0})
outside = record {
  send_stream = λ _ w. (ok tt, w);
  send_session = λ _ w. (ok tt, w);
  timers_insert = λ _ w. (5, w);
  timers_reset = λ _ _ w. w;
  timers_remove = λ _ w. w;
}

abbrev will : WillMessage
will = record { topic = b'w' ∷ []; qos = 1; retain = false; message = b'!' ∷ [] }

abbrev worker : MqttClientWorker (Unit {0})
worker = new 60 (some will) tt

abbrev publish : MqttMessage
publish = MqttMessage.publish (record {
  identifier = 7;
  topic = b'a' ∷ [];
  message = b'x' ∷ [];
  retain = false;
  dup = false;
  qos = 2;
})

abbrev lost_run : List WorkerEvent
lost_run =
    WorkerEvent.from_client publish
    ∷ WorkerEvent.from_client (MqttMessage.ping_req MqttMessagePingReq.ping_req)
    ∷ WorkerEvent.client_closed
    ∷ WorkerEvent.from_client publish
    ∷ []

run_loop_relays_example :
    ((run_loop outside lost_run worker).1.to_client
      ≡ worker.to_client ++ (trace lost_run).to_client)
    × ((run_loop outside lost_run worker).1.to_session
        ≡ (worker.to_session ++ for_session (trace lost_run).to_session)
          ++ last_words (trace lost_run).ending worker.will)
    × ((run_loop outside lost_run worker).0 ≡ is_running (trace lost_run).ending)
unfolding new
run_loop_relays_example = run_loop_relays outside (λ _ _. refl) (λ _ _. refl) lost_run worker refl
