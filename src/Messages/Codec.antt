-- ===== src/Messages/Codec.antt =====
-- messages/codec.rs: the codec of the stream.
pub mod Decode
pub mod Frames
pub mod Waiting
pub mod RoundTrip
use squillion_mqtt.Prelude.{
  ℕ, ◌+◌, ◌/◌, ◌^◌, Bool, true, false, ◌||◌, Option, none, some, List, [], ◌∷◌, ◌++◌, String,
  length, take, drop, ltb, ◌==◌, if◌then◌else◌,
}
use squillion_mqtt.Result.{Result, ok, err}
use squillion_mqtt.Messages.Fault.{Fault, io, invalid_data, Checked}
use squillion_mqtt.Messages.Length.{max_length, read_size_check}
use squillion_mqtt.Messages.Types.{MqttMessageType, try_from}
use squillion_mqtt.Messages.Publish
use squillion_mqtt.Messages.Publish.{MqttMessagePublish}
use squillion_mqtt.Messages.Connect
use squillion_mqtt.Messages.Connect.{MqttMessageConnect, MqttMessageConnack, connack_to_bytes}
use squillion_mqtt.Messages.Subscribe.{
  MqttMessageSubscribe, MqttMessageUnsubscribe, subscribe_from_bytes, unsubscribe_from_bytes,
}
use squillion_mqtt.Messages.Ack.{
  MqttMessagePuback, MqttMessagePubrec, MqttMessagePubrel, MqttMessagePubcomp, MqttMessageUnsuback,
  MqttMessageSuback, MqttMessagePingReq, MqttMessagePingResp, puback_from_bytes, pubrec_from_bytes,
  pubrel_from_bytes, pubcomp_from_bytes, pingreq_from_bytes, puback_to_bytes, pubrec_to_bytes,
  pubrel_to_bytes, pubcomp_to_bytes, suback_to_bytes, unsuback_to_bytes, pingresp_to_bytes,
}

pub data MqttMessage : Type 0 where
  connect : MqttMessageConnect → MqttMessage
  conn_ack : MqttMessageConnack → MqttMessage
  publish : MqttMessagePublish → MqttMessage
  pub_ack : MqttMessagePuback → MqttMessage
  pub_rec : MqttMessagePubrec → MqttMessage
  pub_rel : MqttMessagePubrel → MqttMessage
  pub_comp : MqttMessagePubcomp → MqttMessage
  subscribe : MqttMessageSubscribe → MqttMessage
  sub_ack : MqttMessageSuback → MqttMessage
  unsubscribe : MqttMessageUnsubscribe → MqttMessage
  unsub_ack : MqttMessageUnsuback → MqttMessage
  ping_req : MqttMessagePingReq → MqttMessage
  ping_resp : MqttMessagePingResp → MqttMessage
  disconnect : MqttMessage

-- The codec without its logger.
pub record MqttCodec : Type 0 where
  pub max_packet_size : ℕ

pub set_max_packet_size : MqttCodec → ℕ → MqttCodec
set_max_packet_size self max = record self { max_packet_size = max }

-- The bytes of a message that the server sends; `none` is the error log.
pub message_bytes : MqttMessage → Option (List ℕ)
message_bytes (publish m) = some (Publish.to_bytes m)
message_bytes (conn_ack m) = some (connack_to_bytes m)
message_bytes (sub_ack m) = some (suback_to_bytes m)
message_bytes (unsub_ack m) = some (unsuback_to_bytes m)
message_bytes (ping_resp m) = some (pingresp_to_bytes m)
message_bytes (pub_ack m) = some (puback_to_bytes m)
message_bytes (pub_rec m) = some (pubrec_to_bytes m)
message_bytes (pub_rel m) = some (pubrel_to_bytes m)
message_bytes (pub_comp m) = some (pubcomp_to_bytes m)
message_bytes (connect m) = none
message_bytes (subscribe m) = none
message_bytes (unsubscribe m) = none
message_bytes (ping_req m) = none
message_bytes disconnect = none

-- `encode` appends to the buffer and never fails.
pub encode : MqttMessage → List ℕ → List ℕ
unfolding message_bytes
encode message buf = elim (message_bytes message) [ some bytes ↦ buf ++ bytes | none ↦ buf ]

-- The macro `decode_msg`.
pub decode_msg : {A : Type 0} → (A → MqttMessage) → Checked A → Checked (Option MqttMessage)
decode_msg variant (ok m) = ok (some (variant m))
decode_msg variant (err e) = err e

pub unknown : Checked (Option MqttMessage)
unknown = err (io (invalid_data "Unknown msg received"))

-- The match on the packet type.
pub decode_type : Option MqttMessageType → List ℕ → Checked (Option MqttMessage)
unfolding decode_msg unknown
decode_type (some MqttMessageType.connect) msg =
    decode_msg connect (Connect.from_bytes Connect.new msg)
decode_type (some MqttMessageType.subscribe) msg = decode_msg subscribe (subscribe_from_bytes msg)
decode_type (some MqttMessageType.unsubscribe) msg =
    decode_msg unsubscribe (unsubscribe_from_bytes msg)
decode_type (some MqttMessageType.publish) msg =
    decode_msg publish (Publish.from_bytes Publish.new msg)
decode_type (some MqttMessageType.ping_req) msg = decode_msg ping_req (pingreq_from_bytes msg)
decode_type (some MqttMessageType.pub_ack) msg = decode_msg pub_ack (puback_from_bytes msg)
decode_type (some MqttMessageType.pub_rec) msg = decode_msg pub_rec (pubrec_from_bytes msg)
decode_type (some MqttMessageType.pub_rel) msg = decode_msg pub_rel (pubrel_from_bytes msg)
decode_type (some MqttMessageType.pub_comp) msg = decode_msg pub_comp (pubcomp_from_bytes msg)
decode_type (some MqttMessageType.disconnect) msg = ok (some disconnect)
decode_type (some MqttMessageType.conn_ack) msg = unknown
decode_type (some MqttMessageType.sub_ack) msg = unknown
decode_type (some MqttMessageType.unsub_ack) msg = unknown
decode_type (some MqttMessageType.ping_resp) msg = unknown
decode_type none msg = unknown

-- The result, and the buffer that is left.
abbrev pub Decoded : Type 0
Decoded = Checked (Option MqttMessage) × List ℕ

-- `decode` once the length is known.
unfoldable pub decode_frame : MqttCodec → ℕ → List ℕ → ℕ → ℕ → Decoded
unfolding decode_type
decode_frame self msgtype buf len lensize =
    let frame_len : ℕ = 1 + lensize + len in
    if ltb self.max_packet_size len
    then (err (io (invalid_data "Decoder: packet exceeds maximum allowed size")), buf)
    else if ltb max_length len
    then (err (io (invalid_data "Decoder: packet exceeds MQTT protocol max length")), buf)
    else if ltb (length buf) frame_len
    then (ok none, buf)
    else (decode_type (try_from msgtype) (take frame_len buf), drop frame_len buf)

-- The match on the result of `read_size_check`.
unfoldable pub decode_sized : MqttCodec → ℕ → List ℕ → Result (Unit {0}) (Option (ℕ × ℕ)) → Decoded
unfolding decode_frame
decode_sized self msgtype buf (ok (some (len, lensize))) = decode_frame self msgtype buf len lensize
decode_sized self msgtype buf (ok none) = (ok none, buf)
decode_sized self msgtype buf (err e) = (err (io (invalid_data "Invalid message length")), buf)

unfoldable pub decode : MqttCodec → List ℕ → Decoded
unfolding decode_sized
decode self [] = (ok none, [])
decode self (b ∷ rest) = decode_sized self (b / 2 ^ 4) (b ∷ rest) (read_size_check rest)

pub decode_eof : MqttCodec → List ℕ → Decoded
unfolding decode
decode_eof self buf = decode self buf
