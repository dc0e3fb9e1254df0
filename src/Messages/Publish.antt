-- ===== src/Messages/Publish.antt =====
-- messages/mod.rs: `MQTTMessagePublish`.
pub mod RoundTrip
pub mod Accepted
use squillion_mqtt.Prelude.{
  ℕ, ◌+◌, ◌*◌, ◌/◌, ◌%◌, ◌^◌, Bool, true, false, not, ◌&&◌, List, [], ◌∷◌, ◌++◌, length, ltb, ◌==◌,
  if◌then◌else◌, bit_and, bit_or,
}
use squillion_mqtt.Messages.Fault.{io, invalid_data, other, Checked}
use squillion_mqtt.Messages.Length.{encode_length}
use squillion_mqtt.Messages.Validation.{qos_valid, publish_topic_valid}
use squillion_mqtt.Messages.Reader.{
  Parse, pure, ◌>>=◌, ◌>>◌, reject_if, read_u8, read_u16, read_bytes, read_varint, from_utf8,
  expect_end, checked_sub, run,
}

pub record MqttMessagePublish : Type 0 where
  pub identifier : ℕ
  pub topic : List ℕ
  pub message : List ℕ
  pub retain : Bool
  pub dup : Bool
  pub qos : ℕ

abbrev pub new : MqttMessagePublish
new = record { identifier = 0; topic = []; message = []; retain = false; dup = false; qos = 0 }

-- The packet identifier, for QoS > 0 only, and the bytes that it takes.
pub identifier_field : ℕ → ℕ → Parse (ℕ × ℕ)
identifier_field qos identifier =
    if ltb 0 qos
    then (do
      id ← read_u16
      reject_if (id == 0) (io (other "Publish zero identifier"))
      pure (id, 2))
    else pure (identifier, 0)

-- The part of `from_bytes` behind the first byte.
pub parse_body : MqttMessagePublish → Parse MqttMessagePublish
unfolding identifier_field
parse_body self = do
  (len, lensize) ← read_varint
  topiclen ← read_u16
  tb ← read_bytes topiclen
  reject_if (not (publish_topic_valid tb)) (io (other "Publish message invalid topic"))
  topic ← from_utf8 tb "Publish invalid topic UTF-8"
  (identifier, id_size) ← identifier_field self.qos self.identifier
  msglen ← checked_sub len (topiclen + id_size + 2) (io (invalid_data "Publish length underflow"))
  message ← read_bytes msglen
  expect_end "Publish message length incorrect"
  pure (record self { identifier = identifier; topic = topic; message = message })

pub parse : MqttMessagePublish → Parse MqttMessagePublish
unfolding parse_body
parse self = do
  fixed ← read_u8
  let dup = bit_and fixed 0x8 == 0x8
  let qos = bit_and fixed 0x6 / 2 ^ 1
  reject_if (not (qos_valid qos)) (io (other "Publish message invalid qos"))
  reject_if (dup && qos == 0) (io (other "Publish message invalid dup set and qos 0"))
  parse_body (record self { dup = dup; qos = qos; retain = bit_and fixed 1 == 1 })

pub from_bytes : MqttMessagePublish → List ℕ → Checked MqttMessagePublish
unfolding parse
from_bytes self buf = run (parse self) buf

-- The first byte. It is 0x30 with the retain bit and the QoS joined in.
pub fixed_header : Bool → ℕ → ℕ
fixed_header retain qos =
    let flags : ℕ = 3 * 2 ^ 4 in
    let flags' : ℕ = if retain then bit_or flags 1 else flags in
    if ltb 0 qos then bit_or flags' (qos * 2 ^ 1 % 256) else flags'

abbrev pub id_size : ℕ → ℕ
id_size qos = if ltb 0 qos then 2 else 0

-- `(n >> 8) as u8` and `(n & 0xff) as u8`
abbrev pub u16_bytes : ℕ → List ℕ
u16_bytes n = (n / 2 ^ 8 % 256) ∷ bit_and n 0xff ∷ []

pub to_bytes : MqttMessagePublish → List ℕ
unfolding fixed_header
to_bytes m =
    let topiclen = length m.topic in
    let len = topiclen + length m.message + id_size m.qos + 2 in
    (fixed_header m.retain m.qos ∷ [])
    ++ (encode_length len
        ++ (u16_bytes topiclen
            ++ (m.topic ++ ((if ltb 0 m.qos then u16_bytes m.identifier else []) ++ m.message))))
