-- ===== src/Tests/Server.antt =====
-- Runs of server/mod.rs: a client of the list of users, on a server without a broker.
use squillion_mqtt.Prelude.{ℕ, true, Option, none, some, List, [], ◌∷◌, ◌≡◌, ◌⊎◌, refl, sym}
use squillion_mqtt.Prelude.Tests.{bytes_eq}
use squillion_mqtt.Prelude.Dict.{get, put_all}
use squillion_mqtt.Auth.Users.{check_password_list}
use squillion_mqtt.Broker.Requests.{BrokerEvent, handle_session_request, run_loop, start_router}
use squillion_mqtt.Broker.Requests
use squillion_mqtt.Broker.Router.{MessageRouter, init_persistent_store}
use squillion_mqtt.Broker.Router
use squillion_mqtt.Broker.Subscriptions.{load_persistent_state, load_topics}
use squillion_mqtt.Sessions.Table.{get_session, serve, get_entry}
use squillion_mqtt.Sessions.Table
use squillion_mqtt.Result.{ok, err}
use squillion_mqtt.Messages.Connect.{ReturnCode, MqttMessageConnect}
use squillion_mqtt.Messages.Connect
use squillion_mqtt.Messages.Codec.{MqttMessage}
use squillion_mqtt.Auth.Users.{load_passwords}
use squillion_mqtt.Auth.Service.{
  AuthConfig, AuthOutside, AuthProvider, AuthRequest, AuthResponse, answer,
}
use squillion_mqtt.Broker.Store.{persist_topic_test}
use squillion_mqtt.Server.Connecting.{
  BrokerId, default_broker, request_of, broker_eq, AuthReply, FirstFrame, MqttServer, ServerOutside,
  Joined, connect, connect_stream, client_of,
}
use squillion_mqtt.Server.Connecting.Admitted.{
  IsAccepted, IsAuthentic, connect_stream_authenticates, connect_stream_isolates,
}
use squillion_mqtt.Server.Connecting.Joining.{
  ServerEvent, empty_server, run_server, connect_stream_joins,
}

abbrev users : List (List ℕ × List ℕ)
users = (b'a' ∷ [], b'1' ∷ []) ∷ []

abbrev config : AuthConfig
config = record { auth_method = none; password_file = none; users = users }

abbrev auth : AuthOutside
auth = record { read_to_string = λ _. err "no file"; digest = λ s. s }

abbrev ask : AuthRequest → AuthReply
ask request = AuthReply.replied (
    answer auth config
      (AuthProvider.password_list_auth (load_passwords users (record { users = [] }))) request)

ask_answers :
    (request : AuthRequest) (a : AuthResponse)
    → ask request ≡ AuthReply.replied a
    → a
      ≡ answer auth config
          (AuthProvider.password_list_auth (load_passwords users (record { users = [] })))
          request
ask_answers request a e = sym (cc)

abbrev outside : ServerOutside (Unit {0})
outside = record {
  router = record {
    persist = persist_topic_test;
    unbounded_send = λ _ _ w. (true, w);
    respond = λ _ w. (true, w);
  };
  world = λ _. tt;
  send_new_client = λ _ _. true;
}

abbrev msg : MqttMessageConnect
msg = record Connect.new {
  client = b'c' ∷ [];
  username = b'a' ∷ [];
  password = b'1' ∷ [];
  version = 4;
  keepalive = 60;
}

abbrev frame : FirstFrame
frame = FirstFrame.received (MqttMessage.connect msg)

abbrev server : MqttServer (Unit {0})
server = record { brokers = [] }

abbrev joined : Joined
joined = record { connect_msg = msg; client = client_of 100 (b'h' ∷ []) none msg; session_tx = 0 }

connects : (connect_stream outside ask 10 100 (b'h' ∷ []) frame server).0 ≡ some joined
unfolding connect_stream connect answer check_password_list get load_passwords put_all bytes_eq
    handle_session_request run_loop start_router init_persistent_store load_persistent_state
    load_topics get_session serve get_entry Requests.new Router.new Table.new Table.enter_started
    Table.start_session
connects = refl

connect_stream_authenticates_example :
    IsAuthentic users 100 frame joined
      (connect_stream outside ask 10 100 (b'h' ∷ []) frame server).1
connect_stream_authenticates_example =
    connect_stream_authenticates outside ask 10 100 (b'h' ∷ []) auth config users ask_answers frame
      server joined connects

-- The broker of another tenant.
abbrev other_broker : BrokerId
other_broker = record { tenant_id = some (b't' ∷ []); broker_id = default_broker }

connect_stream_isolates_example :
    (connect_stream outside ask 10 100 (b'h' ∷ []) frame server ≡ (none, server))
    ⊎ ((m : MqttMessageConnect) × (tenant : Option (List ℕ)) × IsAccepted ask 10
          (b'h' ∷ [])
          frame
          m
          tenant
        × ((other_broker ≡ record { tenant_id = tenant; broker_id = default_broker })
            ⊎ (get broker_eq other_broker
                  (connect_stream outside ask 10 100 (b'h' ∷ []) frame server).1.brokers
                ≡ get broker_eq other_broker server.brokers)))
connect_stream_isolates_example =
    connect_stream_isolates outside ask 10 100 (b'h' ∷ []) frame server other_broker

asked :
    ask (request_of msg)
    ≡ AuthReply.replied (record { return_code = ReturnCode.accepted; tenant = none })
unfolding answer check_password_list get load_passwords put_all bytes_eq
asked = refl

router_starts :
    (r : MessageRouter (Unit {0})) → (n : ℕ) × ((init_persistent_store outside.router r).0 ≡ ok n)
unfolding init_persistent_store load_persistent_state load_topics
router_starts r = (0, refl)

-- A connection, and a session that ends.
abbrev events : List ServerEvent
events =
    ServerEvent.connection (b'h' ∷ []) frame
    ∷ ServerEvent.broker_event joined.client.broker_id (BrokerEvent.session_ended (b'c' ∷ []))
    ∷ []

connect_stream_joins_example :
    (j : Joined) × ((connect_stream outside ask 10 100
        (b'h' ∷ [])
        frame
        (run_server outside ask 10 100 events empty_server)).0
      ≡ some j)
    × (j.connect_msg ≡ msg)
    × (j.client.broker_id ≡ record { tenant_id = none; broker_id = default_broker })
connect_stream_joins_example =
    connect_stream_joins outside ask 10 100 router_starts (λ _ _. refl) events (b'h' ∷ []) msg none
      refl refl asked
