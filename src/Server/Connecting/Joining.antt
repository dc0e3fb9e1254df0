-- ===== src/Server/Connecting/Joining.antt =====
-- server/mod.rs: a server over its connections and the events of its brokers, and that a client that is
-- accepted gets its session.
use squillion_mqtt.Prelude.{
  ℕ, true, false, Option, none, some, List, [], ◌∷◌, ==_iff, is_empty, ◌≡◌, refl, ap, ◌∙◌,
  Bool-cases, inl, inr,
}
use squillion_mqtt.Prelude.Dict.{get, put, get-put}
use squillion_mqtt.Result.{ok}
use squillion_mqtt.Messages.Connect.{ReturnCode, MqttMessageConnect}
use squillion_mqtt.Messages.Codec.{MqttMessage}
use squillion_mqtt.Auth.Service.{AuthRequest}
use squillion_mqtt.Broker.Router.{MessageRouter, init_persistent_store}
use squillion_mqtt.Broker.Requests.{MqttBroker, BrokerEvent, handle_session_request}
use squillion_mqtt.Broker.Requests
use squillion_mqtt.Broker.Requests.Served.{
  IsLinked, IsAnswered, start_router-IsLinked, step-IsLinked, request-IsLinked, request-IsAnswered,
}
use squillion_mqtt.Server.Connecting.{
  BrokerId, default_broker, broker_eq, Client, FirstFrame, AuthReply, Connected, mqtt311_version,
  client_of, request_of, connect_replied, connect_message, connect, MqttServer, ServerOutside,
  Joined, broker_found, get_broker, join, request_session, settle_connect, connect_stream,
}
use squillion_mqtt.Server.Connecting.Serving.{broker_eq_iff}

-- What a server meets: a connection with its address and the end of the wait for its first packet, or an
-- event of one of its brokers.
pub data ServerEvent : Type 0 where
  connection : List ℕ → FirstFrame → ServerEvent
  broker_event : BrokerId → BrokerEvent → ServerEvent

abbrev pub empty_server : {W : Type 0} → MqttServer W
empty_server = record { brokers = [] }

-- The router of every broker that runs has a channel.
abbrev IsUp : {W : Type 0} → MqttServer W → Type 0
IsUp {W} s = (id : BrokerId) (b : MqttBroker W) → get broker_eq id s.brokers ≡ some b → IsLinked b

module _ {W : Type 0} (o : ServerOutside W) (ask : AuthRequest → AuthReply)
    (pre_auth_limit post_auth_limit : ℕ) where
  abbrev broker_step : BrokerId → BrokerEvent → MqttServer W → Option (MqttBroker W) → MqttServer W
  broker_step id e s none = s
  broker_step id e s (some b) = record s {
    brokers = put broker_eq id (Requests.step o.router e b) s.brokers;
  }

  pub step : ServerEvent → MqttServer W → MqttServer W
  step (ServerEvent.connection src frame) s =
      (connect_stream o ask pre_auth_limit post_auth_limit src frame s).1
  step (ServerEvent.broker_event id e) s = broker_step id e s (get broker_eq id s.brokers)

  pub run_server : List ServerEvent → MqttServer W → MqttServer W
  unfolding step
  run_server [] s = s
  run_server (e ∷ events) s = run_server events (step e s)

  put-IsUp :
      (s : MqttServer W) (id : BrokerId) (b : MqttBroker W)
      → IsUp s
      → IsLinked b
      → IsUp (record s { brokers = put broker_eq id b s.brokers })
  put-IsUp s id b up l k b' e = elim (Bool-cases (broker_eq k id)) [
    | inl same ↦
        let f : some b ≡ some b' =
          rw (get-put broker_eq broker_eq_iff k id b s.brokers, same) at e in
        let g : b ≡ b' = cc in rw (← g) l
    | inr other ↦ up k b' (rw (get-put broker_eq broker_eq_iff k id b s.brokers, other) at e)
  ]

  found-IsLinked :
      (id : BrokerId) (s : MqttServer W)
      → IsUp s
      → IsLinked (broker_found o id (get broker_eq id s.brokers))
  unfolding broker_found Requests.run_loop Requests.run_events
  found-IsLinked id s up = at (get broker_eq id s.brokers) refl
    where
      at :
          (b : Option (MqttBroker W))
          → get broker_eq id s.brokers ≡ b
          → IsLinked (broker_found o id b)
      at none e = start_router-IsLinked o.router (Requests.new (o.world id))
      at (some b) e = up id b e

  request_session-IsUp :
      (msg : MqttMessageConnect) (c : Client) (s : MqttServer W)
      → IsUp s
      → IsUp (request_session o msg c s).1
  unfolding request_session get_broker
  request_session-IsUp msg c s up =
      let b = broker_found o c.broker_id (get broker_eq c.broker_id s.brokers) in
      let l = found-IsLinked c.broker_id s up in
      put-IsUp (record s { brokers = put broker_eq c.broker_id b s.brokers }) c.broker_id
        (handle_session_request o.router c.id b).1 (put-IsUp s c.broker_id b up l)
        (request-IsLinked o.router c.id b l)

  settle_connect-IsUp :
      (x : Connected) (s : MqttServer W) → IsUp s → IsUp (settle_connect o post_auth_limit x s).1
  unfolding settle_connect
  settle_connect-IsUp (none, sent) s up = up
  settle_connect-IsUp (some (msg, c), sent) s up =
      request_session-IsUp msg (record c { max_packet_size = post_auth_limit }) s up

  step-IsUp : (e : ServerEvent) (s : MqttServer W) → IsUp s → IsUp (step e s)
  unfolding step connect_stream
  step-IsUp (ServerEvent.connection src frame) s up = settle_connect-IsUp _ s up
  step-IsUp (ServerEvent.broker_event id e) s up = at (get broker_eq id s.brokers) refl
    where
      at :
          (b : Option (MqttBroker W)) → get broker_eq id s.brokers ≡ b → IsUp (broker_step id e s b)
      at none f = up
      at (some b) f = put-IsUp s id _ up (step-IsLinked o.router e b (up id b f))

  run_server-IsUp :
      (events : List ServerEvent) (s : MqttServer W) → IsUp s → IsUp (run_server events s)
  unfolding run_server
  run_server-IsUp [] s up = up
  run_server-IsUp (e ∷ events) s up = run_server-IsUp events _ (step-IsUp e s up)

  empty_server-IsUp : IsUp {W = W} empty_server
  unfolding get
  empty_server-IsUp id b e = absurd (cc)

  module _
      (starts : (r : MessageRouter W) → (n : ℕ) × ((init_persistent_store o.router r).0 ≡ ok n))
      (takes : (tx : ℕ) (msg : MqttMessageConnect) → o.send_new_client tx msg ≡ true) where
    answered_some :
        (id : List ℕ) (b : MqttBroker W) (x : Option ℕ × MqttBroker W)
        → IsAnswered o.router id b x
        → (tx : ℕ) × (x.0 ≡ some tx)
    answered_some id b _ (IsAnswered.with_session tx b' _ _) = (tx, refl)
    answered_some id b _ (IsAnswered.without_session b' e _ f _ _) =
        let (n, g) = starts (Requests.new_router b.router) in absurd (cc)

    join-some :
        (msg : MqttMessageConnect) (c : Client) (tx : Option ℕ) (n : ℕ)
        → tx ≡ some n
        → (join o msg c tx ≡ some (record { connect_msg = msg; client = c; session_tx = n }))
    unfolding join
    join-some msg c tx n e = rw (e, takes n msg) refl

    connect_accepted :
        (src : List ℕ) (msg : MqttMessageConnect) (tenant : Option (List ℕ))
        → msg.version ≡ mqtt311_version
        → is_empty msg.client ≡ false
        → ask (request_of msg)
          ≡ AuthReply.replied (record { return_code = ReturnCode.accepted; tenant = tenant })
        → connect ask pre_auth_limit src (FirstFrame.received (MqttMessage.connect msg))
          ≡ (some (msg, client_of pre_auth_limit src tenant msg), [])
    unfolding connect connect_message connect_replied
    connect_accepted src msg tenant v n r = rw ((==_iff msg.version mqtt311_version).1 v, n, r) refl

    -- Where the router of every broker can start and the sessions take their clients: on a server that has met
    -- any connections and any events of its brokers, routers that stopped and sessions that ended
    -- included, a client whose first packet is a CONNECT with version 4 and a client identifier, and whom the
    -- service accepts for a tenant, gets a session, in the broker of that tenant.
    pub connect_stream_joins :
        (events : List ServerEvent) (src : List ℕ) (msg : MqttMessageConnect)
        (tenant : Option (List ℕ))
        → msg.version ≡ mqtt311_version
        → is_empty msg.client ≡ false
        → ask (request_of msg)
          ≡ AuthReply.replied (record { return_code = ReturnCode.accepted; tenant = tenant })
        → (j : Joined) × ((connect_stream o ask pre_auth_limit post_auth_limit src
              (FirstFrame.received (MqttMessage.connect msg))
              (run_server events empty_server)).0
            ≡ some j)
          × (j.connect_msg ≡ msg)
          × (j.client.broker_id ≡ record { tenant_id = tenant; broker_id = default_broker })
    unfolding connect_stream settle_connect request_session get_broker
    connect_stream_joins events src msg tenant v n r =
        let s = run_server events empty_server in
        let c = record (client_of pre_auth_limit src tenant msg) {
          max_packet_size = post_auth_limit;
        } in
        let b = broker_found o c.broker_id (get broker_eq c.broker_id s.brokers) in
        let up = run_server-IsUp events empty_server empty_server-IsUp in
        let (tx, e) =
          answered_some c.id b (handle_session_request o.router c.id b)
            (request-IsAnswered o.router c.id b (found-IsLinked c.broker_id s up)) in
        (
          record { connect_msg = msg; client = c; session_tx = tx },
          ap (λ (x : Connected). (settle_connect o post_auth_limit x s).0)
                (connect_accepted src msg tenant v n r)
              ∙ join-some msg c _ tx e,
          refl,
          refl,
        )
