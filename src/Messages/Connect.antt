-- ===== src/Messages/Connect.antt =====
-- messages/mod.rs: `MQTTMessageConnect`, `MQTTMessageConnack` and the return codes.
pub mod Accepted
use squillion_mqtt.Prelude.{
  ℕ, ◌+◌, ◌*◌, ◌/◌, ◌^◌, Bool, true, false, not, ◌&&◌, ◌||◌, List, [], ◌∷◌, ◌==◌, if◌then◌else◌,
  bit_and, bit_or,
}
use squillion_mqtt.Messages.Fault.{io, other, Checked}
use squillion_mqtt.Messages.Validation.{qos_valid, client_id_valid, publish_topic_valid}
use squillion_mqtt.Messages.Reader.{
  Parse, pure, ◌>>=◌, ◌>>◌, reject_if, read_u8, read_u16, read_bytes, read_varint,
  read_mqtt_string_prefixed, from_utf8, skip, expect_end, run,
}

pub data ReturnCode : Type 0 where
  accepted unacceptable_version identifier_rejected : ReturnCode
  server_unavailable bad_username_or_password not_authorized : ReturnCode

-- `code as u8`
pub code_number : ReturnCode → ℕ
code_number accepted = 0
code_number unacceptable_version = 1
code_number identifier_rejected = 2
code_number server_unavailable = 3
code_number bad_username_or_password = 4
code_number not_authorized = 5

pub record MqttMessageConnack : Type 0 where
  pub return_code : ReturnCode
  pub session_present : Bool

pub connack_to_bytes : MqttMessageConnack → List ℕ
unfolding code_number
connack_to_bytes m =
    let flags : ℕ = if m.session_present then bit_or 0 1 else 0 in
    2 * 2 ^ 4 ∷ 2 ∷ flags ∷ code_number m.return_code ∷ []

pub record MqttMessageConnect : Type 0 where
  pub client : List ℕ
  pub username : List ℕ
  pub password : List ℕ
  pub will : Bool
  pub willtopic : List ℕ
  pub willmsg : List ℕ
  pub willqos : ℕ
  pub willretain : Bool
  pub version : ℕ
  pub keepalive : ℕ
  pub clean_session : Bool

abbrev pub new : MqttMessageConnect
new = record {
  client = [];
  username = [];
  password = [];
  will = false;
  willtopic = [];
  willmsg = [];
  willqos = 0;
  willretain = false;
  version = 0;
  keepalive = 0;
  clean_session = false;
}

-- The will: present by a flag, and otherwise its other flags must be 0.
pub parse_will : ℕ → MqttMessageConnect → Parse MqttMessageConnect
parse_will flags self =
    let willretain = bit_and flags 0x20 == 0x20 in
    let willqos = bit_and flags 0x18 / 2 ^ 3 in
    if bit_and flags 0x04 == 0x04
    then (do
      reject_if (not (qos_valid willqos)) (io (other "Connect message invalid qos"))
      willtopic_len ← read_u16
      willtopicbytes ← read_bytes willtopic_len
      reject_if (not (publish_topic_valid willtopicbytes))
          (io (other "Connect message invalid will topic"))
      willtopic ← from_utf8 willtopicbytes "Connect will topic invalid UTF-8"
      willmsg_len ← read_u16
      willmsg ← read_bytes willmsg_len
      pure (record self {
        will = true;
        willtopic = willtopic;
        willmsg = willmsg;
        willqos = willqos;
        willretain = willretain;
      }))
    else (do
      reject_if (not (willqos == 0) || willretain) (io (other "Connect message invalid will flags"))
      pure self)

-- A string that a flag announces.
pub optional_string : Bool → List ℕ → Parse (List ℕ)
optional_string present unset = if present then read_mqtt_string_prefixed else pure unset

pub parse : MqttMessageConnect → Parse MqttMessageConnect
unfolding parse_will optional_string
parse self = do
  fixed ← read_u8
  reject_if (not (bit_and fixed 0x0f == 0)) (io (other "Connect invalid header flags"))
  (len, lensize) ← read_varint
  skip 6
  version ← read_u8
  flags ← read_u8
  reject_if (bit_and flags 0x01 == 0x01) (io (other "Connect message invalid flags"))
  keepalive ← read_u16
  client_len ← read_u16
  client_id_bytes ← read_bytes client_len
  reject_if (not (client_id_valid client_id_bytes)) (io (other "Connect message invalid client id"))
  client ← from_utf8 client_id_bytes "Connect client id invalid UTF-8"
  willed ← parse_will flags (record self {
    version = version;
    clean_session = bit_and flags 0x02 == 0x02;
    keepalive = keepalive;
    client = client;
  })
  username ← optional_string (bit_and flags 0x80 == 0x80) self.username
  password ← optional_string (bit_and flags 0x40 == 0x40) self.password
  expect_end "Connect message length incorrect"
  pure (record willed { username = username; password = password })

pub from_bytes : MqttMessageConnect → List ℕ → Checked MqttMessageConnect
unfolding parse
from_bytes self buf = run (parse self) buf
