-- ===== src/Messages/Subscribe.antt =====
-- messages/mod.rs: `MQTTMessageSubscribe` and `MQTTMessageUnsubscribe`.
pub mod Accepted
use squillion_mqtt.Prelude.{
  ℕ, zero, suc, Bool, true, false, not, List, [], ◌∷◌, ◌++◌, ◌==◌, if◌then◌else◌, bit_and, is_empty,
}
use squillion_mqtt.Messages.Fault.{io, other, out_of_fuel, Checked}
use squillion_mqtt.Messages.Validation.{qos_valid, topic_filter_valid}
use squillion_mqtt.Result.{ok}
use squillion_mqtt.Messages.Reader
use squillion_mqtt.Messages.Reader.{
  Parse, pure, fail, ◌>>=◌, ◌>>◌, reject_if, remaining, read_u8, read_u16, read_bytes, read_varint,
  from_utf8, run,
}

pub record MqttMessageSubscribe : Type 0 where
  pub identifier : ℕ
  pub topics : List (List ℕ × ℕ)

pub record MqttMessageUnsubscribe : Type 0 where
  pub identifier : ℕ
  pub topics : List (List ℕ)

-- `r.is_empty()`, and the bytes left, of which a round of a loop below takes at least two.
at_end : Parse Bool
at_end r = ok (Reader.is_empty r, r)

left : Parse ℕ
left r = ok (remaining r, r)

-- One filter with its QoS, behind the length of the filter.
pub subscribe_entry : ℕ → Parse (List ℕ × ℕ)
subscribe_entry topic_length = do
  topic_bytes ← read_bytes topic_length
  reject_if (not (topic_filter_valid topic_bytes)) (io (other "Subscribe invalid topic"))
  topic ← from_utf8 topic_bytes "Subscribe invalid topic UTF-8"
  qos ← read_u8
  reject_if (not (qos_valid qos)) (io (other "Subscribe invalid qos"))
  pure (topic, qos)

-- `while !r.is_empty()`, pushing each filter with its QoS.
pub subscribe_loop : ℕ → List (List ℕ × ℕ) → Parse (List (List ℕ × ℕ))
unfolding at_end subscribe_entry
subscribe_loop zero topics = fail out_of_fuel
subscribe_loop (suc fuel) topics = do
  done ← at_end
  let round = do
    topic_length ← read_u16
    entry ← subscribe_entry topic_length
    subscribe_loop fuel (topics ++ (entry ∷ []))
  if done then pure topics else round

pub subscribe_parse : Parse MqttMessageSubscribe
unfolding subscribe_loop left
subscribe_parse = do
  fixed ← read_u8
  reject_if (not (bit_and fixed 0xf == 0x2)) (io (other "Subscribe invalid flags"))
  (len, lensize) ← read_varint
  id ← read_u16
  reject_if (id == 0) (io (other "Subscribe zero identifier"))
  bytes ← left
  topics ← subscribe_loop (suc bytes) []
  reject_if (is_empty topics) (io (other "Subscribe no topics"))
  pure (record { identifier = id; topics = topics })

pub subscribe_from_bytes : List ℕ → Checked MqttMessageSubscribe
unfolding subscribe_parse
subscribe_from_bytes buf = run subscribe_parse buf

pub unsubscribe_entry : ℕ → Parse (List ℕ)
unsubscribe_entry topic_length = do
  topic_bytes ← read_bytes topic_length
  reject_if (not (topic_filter_valid topic_bytes)) (io (other "Unsubscribe invalid topic"))
  from_utf8 topic_bytes "Unsubscribe invalid topic UTF-8"

pub unsubscribe_loop : ℕ → List (List ℕ) → Parse (List (List ℕ))
unfolding at_end unsubscribe_entry
unsubscribe_loop zero topics = fail out_of_fuel
unsubscribe_loop (suc fuel) topics = do
  done ← at_end
  let round = do
    topic_length ← read_u16
    entry ← unsubscribe_entry topic_length
    unsubscribe_loop fuel (topics ++ (entry ∷ []))
  if done then pure topics else round

pub unsubscribe_parse : Parse MqttMessageUnsubscribe
unfolding unsubscribe_loop left
unsubscribe_parse = do
  fixed ← read_u8
  reject_if (not (bit_and fixed 0xf == 0x2)) (io (other "Unsubscribe invalid flags"))
  (len, lensize) ← read_varint
  id ← read_u16
  bytes ← left
  topics ← unsubscribe_loop (suc bytes) []
  reject_if (is_empty topics) (io (other "Unsubscribe no topics"))
  pure (record { identifier = id; topics = topics })

pub unsubscribe_from_bytes : List ℕ → Checked MqttMessageUnsubscribe
unfolding unsubscribe_parse
unsubscribe_from_bytes buf = run unsubscribe_parse buf
