-- ===== src/Sessions/State.antt =====
-- The data of sessions/sessionworker.rs, and the messages of broker/router.rs that it sends.
-- A `HashSet<u16>` is a list of numbers and `subscriptions` the list of its keys (each is mapped to
-- `true`); the order of the list stands for the order in which the table is walked.
use squillion_mqtt.Prelude.{
  ℕ, Bool, true, false, ◌||◌, Option, none, List, [], ◌∷◌, ◌++◌, String, ◌==◌, if◌then◌else◌,
  bytes_eq,
}
use squillion_mqtt.Messages.Publish.{MqttMessagePublish}
use squillion_mqtt.Messages.Connect.{MqttMessageConnect}
use squillion_mqtt.Messages.Codec.{MqttMessage}

abbrev pub contains : ℕ → List ℕ → Bool
contains n [] = false
contains n (x ∷ xs) = n == x || contains n xs

abbrev pub insert : ℕ → List ℕ → List ℕ
insert n xs = if contains n xs then xs else xs ++ (n ∷ [])

abbrev pub remove : ℕ → List ℕ → List ℕ
remove n [] = []
remove n (x ∷ xs) = if n == x then remove n xs else x ∷ remove n xs

abbrev pub has_topic : List ℕ → List (List ℕ) → Bool
has_topic t [] = false
has_topic t (x ∷ xs) = bytes_eq t x || has_topic t xs

abbrev pub insert_topic : List ℕ → List (List ℕ) → List (List ℕ)
insert_topic t xs = if has_topic t xs then xs else xs ++ (t ∷ [])

abbrev pub remove_topic : List ℕ → List (List ℕ) → List (List ℕ)
remove_topic t [] = []
remove_topic t (x ∷ xs) = if bytes_eq t x then remove_topic t xs else x ∷ remove_topic t xs

pub record SessionId : Type 0 where
  pub session : List ℕ
  pub internal_id : ℕ
  pub session_generation : ℕ

pub record RouterPublishSubscribeResponse : Type 0 where
  pub session : SessionId
  pub ret : ℕ
  pub retained_messages : List MqttMessagePublish

-- The sender of the response that a `Subscribe` carries is left out: `Outside.subscribe_response` says
-- what comes back.
pub data RouterMessage : Type 0 where
  publish : (session : SessionId) (message : MqttMessagePublish) → RouterMessage
  subscribe : (session : SessionId) (topic : List ℕ) (qos : ℕ) → RouterMessage
  unsubscribe : (session : SessionId) (topics : List (List ℕ)) → RouterMessage

-- `index_panic` is not a value of the code: it is a vector indexed out of bounds.
pub data SessionError : Type 0 where
  client router : SessionError
  persist : String → SessionError
  index_panic : SessionError

-- The transmit half of the channel of a client, by a number.
pub record ClientTx : Type 0 where
  pub channel : ℕ

pub record NewClient : Type 0 where
  pub msg : MqttMessageConnect
  pub client : ClientTx

pub record SessionInternalMessage : Type 0 where
  pub session : SessionId
  pub message : MqttMessage

pub data SessionMessage : Type 0 where
  internal : SessionInternalMessage → SessionMessage
  client_message : MqttMessage → SessionMessage
  new_client : NewClient → SessionMessage

-- `MQTTSession` without its logger, its counters and the receiving half of its channel.
-- The generation is an `i64`, kept as the 64 bits of it.
pub record MqttSession : Type 0 where
  pub id : List ℕ
  pub subscriptions : List (List ℕ)
  pub client : Option ClientTx
  pub clean : Bool
  pub generation : ℕ
  pub internal_id : ℕ
  pub next_message_id : ℕ
  pub qos_outgoing : List ℕ
  pub qos_outgoing_messages : List MqttMessage
  pub qos_incoming : List ℕ

unfoldable pub new : List ℕ → MqttSession
new id = record {
  id = id;
  subscriptions = [];
  client = none;
  clean = true;
  generation = 0;
  internal_id = 0;
  next_message_id = 1;
  qos_outgoing = [];
  qos_outgoing_messages = [];
  qos_incoming = [];
}
