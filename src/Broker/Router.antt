-- ===== src/Broker/Router.antt =====
-- broker/router.rs: the router of a broker, between its sessions and its topics.
pub mod Delivered
pub mod Keeps
use squillion_mqtt.Prelude.{
  String, ℕ, Bool, true, false, Option, none, some, List, [], ◌∷◌, ◌++◌, ltb, ◌==◌, if◌then◌else◌,
}
use squillion_mqtt.Result.{Result, ok, err}
use squillion_mqtt.Action.{Action, ◌>>=◌, ◌>>◌, pure, gets, modify}
use squillion_mqtt.Messages.Publish.{MqttMessagePublish}
use squillion_mqtt.Messages.Codec.{MqttMessage}
use squillion_mqtt.Sessions.State.{
  SessionId, SessionInternalMessage, RouterMessage, RouterPublishSubscribeResponse,
}
use squillion_mqtt.Sessions.Table.{Sessions, get_session_tx, get_session, stopped}
use squillion_mqtt.Sessions.Table
use squillion_mqtt.Broker.Topics.{Topic, get_subscribed}
use squillion_mqtt.Broker.Store.{BrokerError, PersistProvider, Store, call}
use squillion_mqtt.Broker.Subscriptions.{
  Broker, subscribe, unsubscribe, retain, get_retained_messages, load_persistent_state,
}
use squillion_mqtt.Broker.Subscriptions.Node

-- What is outside a router: the database, the channels to the sessions and the response channel of a
-- SUBSCRIBE (`true` when the message was taken).
pub record RouterOutside (W : Type 0) : Type 0 where
  pub persist : PersistProvider W
  pub unbounded_send : ℕ → SessionInternalMessage → W → Bool × W
  pub respond : RouterPublishSubscribeResponse → W → Bool × W

-- The router with the table of sessions that it shares with its broker. `sent` and `responses` are no
-- state of the code: they record what the channels took, in order.
pub record MessageRouter (W : Type 0) : Type 0 where
  pub topics : Topic
  pub sessions : Sessions
  pub world : W
  pub sent : List (ℕ × SessionInternalMessage)
  pub responses : List RouterPublishSubscribeResponse

-- `MessageRouter::new`, with the table of a broker that has no session yet.
unfoldable pub new : {W : Type 0} → W → MessageRouter W
new w = record {
  topics = Node.new none;
  sessions = Table.new;
  world = w;
  sent = [];
  responses = [];
}

abbrev pub Router : Type 0 → Type 0 → Type 0
Router W A = Action (MessageRouter W) BrokerError A

-- A call of `self.topics`.
abbrev pub lifted :
    {W A : Type 0}
    → MessageRouter W
    → Result BrokerError A × Store W
    → Result BrokerError A × MessageRouter W
lifted r (a, s) = (a, record r { topics = s.topics; world = s.world })

abbrev pub in_topics : {W A : Type 0} → Broker W A → Router W A
in_topics m r = lifted r (m (record { topics = r.topics; world = r.world }))

-- A QoS that is lowered to that of the subscription.
abbrev pub lower_qos : ℕ → MqttMessagePublish → MqttMessagePublish
lower_qos qos m = if ltb qos m.qos then record m { qos = qos } else m

abbrev pub lower_all : ℕ → List MqttMessagePublish → List MqttMessagePublish
lower_all qos [] = []
lower_all qos (m ∷ ms) = lower_qos qos m ∷ lower_all qos ms

-- The channel of a session, and the table: a session that does not run is started for QoS > 0 only.
unfoldable pub started_tx : Result String ℕ × Sessions → Option ℕ × Sessions
started_tx (ok tx, t) = (some tx, t)
started_tx (err e, t) = (none, t)

unfoldable pub reach_session : SessionId → ℕ → Option ℕ → Sessions → Option ℕ × Sessions
unfolding started_tx
reach_session session qos (some tx) t = (some tx, t)
reach_session session qos none t =
    if ltb 0 qos then started_tx (get_session session.session t) else (none, t)

-- A message for the router; between two of them, the broker asks for a session, or a session ends.
pub data RouterEvent : Type 0 where
  message : RouterMessage → RouterEvent
  session_asked session_ended : List ℕ → RouterEvent

module _ {W : Type 0} (o : RouterOutside W) where
  unfoldable pub send_session :
      Option ℕ → SessionInternalMessage → MessageRouter W → MessageRouter W
  send_session none m r = r
  send_session (some tx) m r =
      let (taken, w) = o.unbounded_send tx m r.world in
      record r { world = w; sent = if taken then r.sent ++ ((tx, m) ∷ []) else r.sent }

  -- One round of the loop over the subscribed sessions.
  unfoldable pub forward : MqttMessagePublish → SessionId × ℕ → MessageRouter W → MessageRouter W
  forward msg (session, qos) r =
      let (tx, t) =
        reach_session session qos (get_session_tx session.session r.sessions) r.sessions in
      send_session tx
        (record { session = session; message = MqttMessage.publish (lower_qos qos msg) })
        (record r { sessions = t })

  unfoldable pub forward_all :
      MqttMessagePublish → List (SessionId × ℕ) → MessageRouter W → MessageRouter W
  forward_all msg [] r = r
  forward_all msg (s ∷ subscribed) r = forward_all msg subscribed (forward msg s r)

  unfoldable pub publish_message : MqttMessagePublish → Router W (Unit {0})
  publish_message msg = do
    if msg.retain then in_topics (retain o.persist msg) else pure tt
    subscribed ← gets (λ r. get_subscribed r.topics msg.topic)
    modify (forward_all msg subscribed)

  unfoldable pub send_response : RouterPublishSubscribeResponse → MessageRouter W → MessageRouter W
  send_response response r =
      let (taken, w) = o.respond response r.world in
      record r {
        world = w;
        responses = if taken then r.responses ++ (response ∷ []) else r.responses;
      }

  -- The answer to a SUBSCRIBE, with the retained message of the topic.
  unfoldable pub response_of : SessionId → List ℕ → ℕ → Topic → RouterPublishSubscribeResponse
  response_of session topic qos root = record {
    session = session;
    ret = if qos == 0x80 then 0x80 else qos;
    retained_messages =
        if qos == 0x80 then [] else lower_all qos (get_retained_messages root topic);
  }

  unfoldable pub subscribe_message : SessionId → List ℕ → ℕ → Router W (Unit {0})
  subscribe_message session topic wanted = do
    qos ← in_topics (subscribe o.persist session topic wanted)
    modify (λ r. send_response (response_of session topic qos r.topics) r)

  unfoldable pub unsubscribe_message : SessionId → List (List ℕ) → Router W (Unit {0})
  unsubscribe_message session [] = pure tt
  unsubscribe_message session (topic ∷ topics) = do
    in_topics (unsubscribe o.persist session topic)
    unsubscribe_message session topics

  unfoldable pub init_persistent_store : Router W ℕ
  init_persistent_store = do
    _ ← in_topics (call o.persist.create_persistent_connection)
    _ ← in_topics (call o.persist.init_persistent_store)
    _ ← in_topics (load_persistent_state o.persist)
    pure 0

  unfoldable pub handle : RouterMessage → Router W (Unit {0})
  handle (RouterMessage.publish session msg) = publish_message msg
  handle (RouterMessage.subscribe session topic qos) = subscribe_message session topic qos
  handle (RouterMessage.unsubscribe session topics) = unsubscribe_message session topics

  -- Whether the loop goes on, and with what.
  unfoldable pub goes_on :
      (MessageRouter W → Bool × MessageRouter W)
      → Result BrokerError (Unit {0}) × MessageRouter W
      → Bool × MessageRouter W
  goes_on rest (ok _, r) = rest r
  goes_on rest (err _, r) = (false, r)

  -- `start`, over what happens: whether the router still runs, and the router.
  unfoldable pub start : List RouterEvent → MessageRouter W → Bool × MessageRouter W
  unfolding goes_on
  start [] r = (true, r)
  start (RouterEvent.message m ∷ events) r = goes_on (start events) (handle m r)
  start (RouterEvent.session_asked id ∷ events) r =
      start events (record r { sessions = (get_session id r.sessions).1 })
  start (RouterEvent.session_ended id ∷ events) r =
      start events (record r { sessions = stopped id r.sessions })
