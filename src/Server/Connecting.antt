-- ===== src/Server/Connecting.antt =====
-- server/mod.rs: from the first packet of a client to its session.
pub mod Serving
pub mod Admitted
pub mod Joining
use squillion_mqtt.Prelude.{
  ℕ, Bool, true, false, not, Option, none, some, List, [], ◌∷◌, String, if◌then◌else◌, ◌==◌, ◌&&◌,
  bytes_eq, is_empty,
}
use squillion_mqtt.Prelude.Dict.{get, put}
use squillion_mqtt.Messages.Connect.{ReturnCode, MqttMessageConnack, MqttMessageConnect}
use squillion_mqtt.Messages.Codec.{MqttMessage}
use squillion_mqtt.Client.Worker.{WillMessage, is_accepted}
use squillion_mqtt.Auth.Service.{AuthRequest, AuthResponse}
use squillion_mqtt.Broker.Router.{RouterOutside}
use squillion_mqtt.Broker.Requests.{MqttBroker, handle_session_request}
use squillion_mqtt.Broker.Requests

pub record BrokerId : Type 0 where
  pub tenant_id : Option (List ℕ)
  pub broker_id : List ℕ

abbrev pub tenant_eq : Option (List ℕ) → Option (List ℕ) → Bool
tenant_eq none none = true
tenant_eq (some a) (some b) = bytes_eq a b
tenant_eq _ _ = false

-- The derived equality of `BrokerId`.
abbrev pub broker_eq : BrokerId → BrokerId → Bool
broker_eq a b = tenant_eq a.tenant_id b.tenant_id && bytes_eq a.broker_id b.broker_id

-- A client; of its stream there is the limit of the codec.
pub record Client : Type 0 where
  pub broker_id : BrokerId
  pub id : List ℕ
  pub src_address : List ℕ
  pub max_packet_size : ℕ
  pub keep_alive : ℕ
  pub will : Option WillMessage

-- How the wait for the first packet ends.
pub data FirstFrame : Type 0 where
  timed_out closed receive_error : FirstFrame
  received : MqttMessage → FirstFrame

-- How the request to the authentication service ends: it was not sent, or its channel was dropped, or
-- there is an answer.
pub data AuthReply : Type 0 where
  unsent dropped : AuthReply
  replied : AuthResponse → AuthReply

-- A connected client and the packets that `stream.send` was called with.
abbrev pub Connected : Type 0
Connected = Option (MqttMessageConnect × Client) × List MqttMessage

abbrev pub mqtt311_version : ℕ
mqtt311_version = 4

abbrev pub default_broker : List ℕ
default_broker = b'd' ∷ b'e' ∷ b'f' ∷ b'a' ∷ b'u' ∷ b'l' ∷ b't' ∷ []

-- Not connected, with the CONNACK that says why.
abbrev pub refused : ReturnCode → Connected
refused code =
    (none, MqttMessage.conn_ack (record { return_code = code; session_present = false }) ∷ [])

abbrev pub will_of : MqttMessageConnect → Option WillMessage
will_of msg =
    if msg.will
    then some (record {
      topic = msg.willtopic;
      qos = msg.willqos;
      retain = msg.willretain;
      message = msg.willmsg;
    })
    else none

abbrev pub client_of : ℕ → List ℕ → Option (List ℕ) → MqttMessageConnect → Client
client_of limit src_address tenant msg = record {
  broker_id = record { tenant_id = tenant; broker_id = default_broker };
  id = msg.client;
  src_address = src_address;
  max_packet_size = limit;
  keep_alive = msg.keepalive;
  will = will_of msg;
}

abbrev pub request_of : MqttMessageConnect → AuthRequest
request_of msg = record { username = msg.username; password = msg.password }

-- `ask` is the service behind its channel; `limit` the limit of the codec before authentication.
module _ (ask : AuthRequest → AuthReply) (limit : ℕ) (src_address : List ℕ) where
  unfoldable pub connect_replied : MqttMessageConnect → AuthReply → Connected
  connect_replied msg AuthReply.unsent = refused ReturnCode.server_unavailable
  connect_replied msg AuthReply.dropped = (none, [])
  connect_replied msg (AuthReply.replied r) =
      if is_accepted r.return_code
      then (some (msg, client_of limit src_address r.tenant msg), [])
      else refused r.return_code

  unfoldable pub connect_message : MqttMessageConnect → Connected
  unfolding connect_replied
  connect_message msg =
      if not (msg.version == mqtt311_version)
      then refused ReturnCode.unacceptable_version
      else if is_empty msg.client
      then refused ReturnCode.identifier_rejected
      else connect_replied msg (ask (request_of msg))

  unfoldable pub connect : FirstFrame → Connected
  unfolding connect_message
  connect (FirstFrame.received (MqttMessage.connect msg)) = connect_message msg
  connect _ = (none, [])

-- The brokers of a server. The map of the code has the channel of a broker in place of the broker.
pub record MqttServer (W : Type 0) : Type 0 where
  pub brokers : List (BrokerId × MqttBroker W)

-- What is outside: what the routers use, the world that a new broker finds, and whether a session takes
-- its new client.
pub record ServerOutside (W : Type 0) : Type 0 where
  pub router : RouterOutside W
  pub world : BrokerId → W
  pub send_new_client : ℕ → MqttMessageConnect → Bool

-- A client whose worker runs, with its session.
pub record Joined : Type 0 where
  pub connect_msg : MqttMessageConnect
  pub client : Client
  pub session_tx : ℕ

module _ {W : Type 0} (o : ServerOutside W) where
  -- The broker; the loop of a new one starts its router first.
  unfoldable pub broker_found : BrokerId → Option (MqttBroker W) → MqttBroker W
  broker_found id none = Requests.run_loop o.router [] (Requests.new (o.world id))
  broker_found id (some b) = b

  unfoldable pub get_broker : BrokerId → MqttServer W → MqttBroker W × MqttServer W
  unfolding broker_found
  get_broker id s =
      let b = broker_found id (get broker_eq id s.brokers) in
      (b, record s { brokers = put broker_eq id b s.brokers })

  unfoldable pub join : MqttMessageConnect → Client → Option ℕ → Option Joined
  join msg client none = none
  join msg client (some tx) =
      if o.send_new_client tx msg
      then some (record { connect_msg = msg; client = client; session_tx = tx })
      else none

  -- The session of a connected client, whose codec takes larger packets from now on. The channels to a
  -- broker and back do not fail, since the loop of a broker never ends.
  unfoldable pub request_session :
      MqttMessageConnect → Client → MqttServer W → Option Joined × MqttServer W
  unfolding get_broker join
  request_session msg client s =
      let (b, s') = get_broker client.broker_id s in
      let (tx, b') = handle_session_request o.router client.id b in
      (join msg client tx, record s' { brokers = put broker_eq client.broker_id b' s'.brokers })

  unfoldable pub settle_connect : ℕ → Connected → MqttServer W → Option Joined × MqttServer W
  unfolding request_session
  settle_connect post_auth_limit (none, sent) s = (none, s)
  settle_connect post_auth_limit (some (msg, client), sent) s =
      request_session msg (record client { max_packet_size = post_auth_limit }) s

  -- Up to the start of the worker of the client.
  unfoldable pub connect_stream :
      (AuthRequest → AuthReply)
      → (pre_auth_limit post_auth_limit : ℕ) → List ℕ
      → FirstFrame
      → MqttServer W
      → Option Joined × MqttServer W
  unfolding settle_connect
  connect_stream ask pre_auth_limit post_auth_limit src_address frame s =
      settle_connect post_auth_limit (connect ask pre_auth_limit src_address frame) s
