-- ===== src/Tests/Requests.antt =====
-- Runs of broker/mod.rs: a session that is asked for again behind a router that has stopped.
use squillion_mqtt.Prelude.{true, List, [], ◌∷◌}
use squillion_mqtt.Result.{err}
use squillion_mqtt.Sessions.State.{SessionId, RouterMessage}
use squillion_mqtt.Broker.Store.{persist_topic_test}
use squillion_mqtt.Broker.Router.{RouterOutside}
use squillion_mqtt.Broker.Requests.{BrokerEvent, new, run_loop, handle_session_request}
use squillion_mqtt.Broker.Requests.Served.{IsAnswered, handle_session_request_answers}

abbrev reader : SessionId
reader = record { session = b'r' ∷ []; internal_id = 1; session_generation = 1 }

-- A database that takes no topic.
abbrev outside : RouterOutside (Unit {0})
outside = record {
  persist = record (persist_topic_test {W = Unit {0}}) {
    persist_topic = λ _ w. (err "disk full", w);
  };
  unbounded_send = λ _ _ w. (true, w);
  respond = λ _ w. (true, w);
}

abbrev events : List BrokerEvent
events =
    BrokerEvent.session_request (b'r' ∷ [])
    ∷ BrokerEvent.router_message (RouterMessage.subscribe reader (b'a' ∷ []) 1)
    ∷ BrokerEvent.session_ended (b'r' ∷ [])
    ∷ []

handle_session_request_answers_example :
    IsAnswered outside
      (b'r' ∷ [])
      (run_loop outside events (new tt))
      (handle_session_request outside (b'r' ∷ []) (run_loop outside events (new tt)))
handle_session_request_answers_example =
    handle_session_request_answers outside events tt (b'r' ∷ [])
