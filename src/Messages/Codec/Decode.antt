-- ===== src/Messages/Codec/Decode.antt =====
-- What `decode` takes from the buffer, and what it leaves.
use squillion_mqtt.Prelude.{
  ℕ, ◌+◌, ◌/◌, ◌^◌, Bool, true, false, Option, none, some, List, [], ◌∷◌, length, ltb,
  if◌then◌else◌,
}
use squillion_mqtt.Result.{Result, ok, err}
use squillion_mqtt.Messages.Fault.{IoError, io, Checked}
use squillion_mqtt.Messages.Length.{max_length, read_size_check}
use squillion_mqtt.Messages.Publish.Accepted.{from_bytes-Settled}
use squillion_mqtt.Messages.Connect.Accepted.{connect-Settled}
use squillion_mqtt.Messages.Subscribe.Accepted.{subscribe-Settled, unsubscribe-Settled}
use squillion_mqtt.Messages.Ack.RoundTrip.{
  puback-Settled, pubrec-Settled, pubrel-Settled, pubcomp-Settled, pingreq-Settled,
}
use squillion_mqtt.Messages.Reader.Safe.{Settled}
use squillion_mqtt.Messages.Types.{MqttMessageType, try_from}
use squillion_mqtt.Messages.Codec.{
  MqttMessage, MqttCodec, decode_msg, unknown, decode_type, decode_frame, decode_sized, decode,
  Decoded,
}

Settled-decode_msg :
    {A : Type 0} (variant : A → MqttMessage) {x : Checked A}
    → Settled x
    → Settled (decode_msg variant x)
unfolding decode_msg
Settled-decode_msg variant Settled.parsed = Settled.parsed
Settled-decode_msg variant Settled.refused = Settled.refused

Settled-decode_type :
    (type : Option MqttMessageType) (msg : List ℕ) → Settled (decode_type type msg)
unfolding decode_type unknown
Settled-decode_type (some MqttMessageType.connect) msg =
    Settled-decode_msg _ (connect-Settled _ msg)
Settled-decode_type (some MqttMessageType.subscribe) msg =
    Settled-decode_msg _ (subscribe-Settled msg)
Settled-decode_type (some MqttMessageType.unsubscribe) msg =
    Settled-decode_msg _ (unsubscribe-Settled msg)
Settled-decode_type (some MqttMessageType.publish) msg =
    Settled-decode_msg _ (from_bytes-Settled _ msg)
Settled-decode_type (some MqttMessageType.ping_req) msg = Settled-decode_msg _ (pingreq-Settled msg)
Settled-decode_type (some MqttMessageType.pub_ack) msg = Settled-decode_msg _ (puback-Settled msg)
Settled-decode_type (some MqttMessageType.pub_rec) msg = Settled-decode_msg _ (pubrec-Settled msg)
Settled-decode_type (some MqttMessageType.pub_rel) msg = Settled-decode_msg _ (pubrel-Settled msg)
Settled-decode_type (some MqttMessageType.pub_comp) msg = Settled-decode_msg _ (pubcomp-Settled msg)
Settled-decode_type (some MqttMessageType.disconnect) msg = Settled.parsed
Settled-decode_type (some MqttMessageType.conn_ack) msg = Settled.refused
Settled-decode_type (some MqttMessageType.sub_ack) msg = Settled.refused
Settled-decode_type (some MqttMessageType.unsub_ack) msg = Settled.refused
Settled-decode_type (some MqttMessageType.ping_resp) msg = Settled.refused
Settled-decode_type none msg = Settled.refused

Settled-if :
    (b : Bool) (e : IoError) (x : Decoded) (buf : List ℕ)
    → Settled (x.0)
    → Settled ((if◌then◌else◌ {A = Decoded} b (err (io e), buf) x).0)
Settled-if true e x buf h = Settled.refused
Settled-if false e x buf h = h

Settled-whole :
    (b : Bool) (x : Checked (Option MqttMessage)) (buf rest : List ℕ)
    → Settled x
    → Settled ((if◌then◌else◌ {A = Decoded} b (ok none, buf) (x, rest)).0)
Settled-whole true x buf rest h = Settled.parsed
Settled-whole false x buf rest h = h

Settled-decode_sized :
    (self : MqttCodec) (msgtype : ℕ) (buf : List ℕ) (size : Result (Unit {0}) (Option (ℕ × ℕ)))
    → Settled ((decode_sized self msgtype buf size).0)
unfolding decode_sized decode_frame
Settled-decode_sized self msgtype buf (ok none) = Settled.parsed
Settled-decode_sized self msgtype buf (err e) = Settled.refused
Settled-decode_sized self msgtype buf (ok (some (len, lensize))) =
    Settled-if (ltb self.max_packet_size len) _ _ buf (
      Settled-if (ltb max_length len) _ _ buf (
        Settled-whole (ltb (length buf) (1 + lensize + len)) _ buf _
          (Settled-decode_type (try_from msgtype) _)))

-- Whatever bytes a client sends, `decode` does not panic: it returns a message, waits for more bytes,
-- or returns an error of the code.
pub decode-Settled : (self : MqttCodec) (buf : List ℕ) → Settled ((decode self buf).0)
unfolding decode
decode-Settled self [] = Settled.parsed
decode-Settled self (b ∷ rest) =
    Settled-decode_sized self (b / 2 ^ 4) (b ∷ rest) (read_size_check rest)
