-- ===== src/Messages/Ack.antt =====
-- messages/mod.rs: the messages that carry a packet identifier and nothing else, and the two of the
-- keep-alive.
pub mod RoundTrip
use squillion_mqtt.Prelude.{
  ℕ, ◌+◌, ◌*◌, ◌/◌, ◌%◌, ◌^◌, Bool, true, false, not, ◌&&◌, List, [], ◌∷◌, ◌++◌, length, ltb, ◌==◌,
  if◌then◌else◌, bit_and, bit_or, String,
}
use squillion_mqtt.Messages.Fault.{io, invalid_data, other, Checked}
use squillion_mqtt.Messages.Length.{encode_length}
use squillion_mqtt.Messages.Publish.{u16_bytes}
use squillion_mqtt.Messages.Reader.{
  Parse, pure, ◌>>=◌, ◌>>◌, reject_if, read_u8, read_u16, read_bytes, read_varint, from_utf8,
  expect_end, checked_sub, run,
}

pub record MqttMessagePuback : Type 0 where
  pub identifier : ℕ

pub record MqttMessagePubrec : Type 0 where
  pub identifier : ℕ

pub record MqttMessagePubrel : Type 0 where
  pub identifier : ℕ

pub record MqttMessagePubcomp : Type 0 where
  pub identifier : ℕ

pub record MqttMessageUnsuback : Type 0 where
  pub identifier : ℕ

pub record MqttMessageSuback : Type 0 where
  pub identifier : ℕ
  pub response : List ℕ

pub data MqttMessagePingReq : Type 0 where
  ping_req : MqttMessagePingReq

pub data MqttMessagePingResp : Type 0 where
  ping_resp : MqttMessagePingResp

-- The body that the four `from_bytes` share, by the flags that they want and their error texts.
pub parse_identifier : ℕ → String → String → String → Parse ℕ
parse_identifier flags invalid_flags invalid_length incorrect = do
  fixed ← read_u8
  reject_if (not (bit_and fixed 0xf == flags)) (io (other invalid_flags))
  (len, lensize) ← read_varint
  reject_if (not (len == 2)) (io (other invalid_length))
  identifier ← read_u16
  expect_end incorrect
  pure identifier

pub puback_from_bytes : List ℕ → Checked MqttMessagePuback
unfolding parse_identifier
puback_from_bytes = run do
  identifier ←
      parse_identifier 0x0 "Puback invalid flags" "Puback invalid length"
        "Puback message length incorrect"
  pure (record { identifier = identifier })

pub pubrec_from_bytes : List ℕ → Checked MqttMessagePubrec
unfolding parse_identifier
pubrec_from_bytes = run do
  identifier ←
      parse_identifier 0x0 "Pubrec invalid flags" "Pubrec invalid length"
        "Pubrec message length incorrect"
  pure (record { identifier = identifier })

pub pubrel_from_bytes : List ℕ → Checked MqttMessagePubrel
unfolding parse_identifier
pubrel_from_bytes = run do
  identifier ←
      parse_identifier 0x2 "Pubrel invalid flags" "Pubrel invalid length"
        "Pubrel message length incorrect"
  pure (record { identifier = identifier })

pub pubcomp_from_bytes : List ℕ → Checked MqttMessagePubcomp
unfolding parse_identifier
pubcomp_from_bytes = run do
  identifier ←
      parse_identifier 0x0 "Pubcomp invalid flags" "Pubcomp invalid length"
        "Pubcomp message length incorrect"
  pure (record { identifier = identifier })

pub pingreq_from_bytes : List ℕ → Checked MqttMessagePingReq
pingreq_from_bytes = run do
  fixed ← read_u8
  reject_if (not (bit_and fixed 0xf == 0x0)) (io (other "Pingreq invalid flags"))
  (len, lensize) ← read_varint
  expect_end "Pingreq message length incorrect"
  pure ping_req

pub puback_to_bytes : MqttMessagePuback → List ℕ
puback_to_bytes m = 4 * 2 ^ 4 ∷ 2 ∷ u16_bytes m.identifier

pub pubrec_to_bytes : MqttMessagePubrec → List ℕ
pubrec_to_bytes m = 5 * 2 ^ 4 ∷ 2 ∷ u16_bytes m.identifier

pub pubrel_to_bytes : MqttMessagePubrel → List ℕ
pubrel_to_bytes m = bit_or (6 * 2 ^ 4) 0x2 ∷ 2 ∷ u16_bytes m.identifier

pub pubcomp_to_bytes : MqttMessagePubcomp → List ℕ
pubcomp_to_bytes m = 7 * 2 ^ 4 ∷ 2 ∷ u16_bytes m.identifier

pub suback_to_bytes : MqttMessageSuback → List ℕ
suback_to_bytes m =
    (9 * 2 ^ 4 ∷ [])
    ++ (encode_length (2 + length m.response) ++ (u16_bytes m.identifier ++ m.response))

pub unsuback_to_bytes : MqttMessageUnsuback → List ℕ
unsuback_to_bytes m = 11 * 2 ^ 4 ∷ 2 ∷ u16_bytes m.identifier

pub pingresp_to_bytes : MqttMessagePingResp → List ℕ
pingresp_to_bytes ping_resp = 13 * 2 ^ 4 ∷ 0 ∷ []
