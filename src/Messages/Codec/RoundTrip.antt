-- ===== src/Messages/Codec/RoundTrip.antt =====
-- src/messages/codec.rs: `encode` at one end and `decode` at the other.
use squillion_mqtt.Prelude.{
  ℕ, ◌+◌, ◌/◌, ◌^◌, ◌≤◌, ◌<◌, false, some, List, [], ◌∷◌, ◌++◌, length, take, drop, ltb, ◌≡◌, ◌∙◌,
  sym, arith, length-append, take-append_exact, drop-append_exact,
}
use squillion_mqtt.Result.{ok}
use squillion_mqtt.Messages.Length.{max_length, read_size_check, encode_length}
use squillion_mqtt.Messages.Length.RoundTrip.{read_size_check-encode_length}
use squillion_mqtt.Messages.Publish.{MqttMessagePublish, fixed_header, u16_bytes}
use squillion_mqtt.Messages.Publish.RoundTrip.{
  IsSendable, received, from_bytes-to_bytes, payload, to_bytes_lem, length-payload,
  fixed_header_type,
}
use squillion_mqtt.Messages.Ack.{
  MqttMessagePuback, MqttMessagePubrec, MqttMessagePubrel, MqttMessagePubcomp,
}
use squillion_mqtt.Messages.Ack.RoundTrip.{
  puback_from_bytes-to_bytes, pubrec_from_bytes-to_bytes, pubrel_from_bytes-to_bytes,
  pubcomp_from_bytes-to_bytes, puback_to_bytes_lem, pubrec_to_bytes_lem, pubrel_to_bytes_lem,
  pubcomp_to_bytes_lem,
}
use squillion_mqtt.Messages.Types.{try_from}
use squillion_mqtt.Messages.Codec.{
  MqttMessage, publish, pub_ack, pub_rec, pub_rel, pub_comp, MqttCodec, message_bytes, encode,
  decode_msg, decode_type, decode_frame, decode_sized, decode,
}
use mathlib.Core.List.{append_assoc}

-- The frame of a packet, in front of anything.
decode-frame :
    (self : MqttCodec) (first : ℕ) (body rest : List ℕ)
    → length body ≤ max_length
    → length body ≤ self.max_packet_size
    → decode self (first ∷ (encode_length (length body) ++ body) ++ rest) ≡ (
      decode_type (try_from (first / 2 ^ 4)) (first ∷ (encode_length (length body) ++ body)),
      rest,
    )
unfolding decode decode_sized decode_frame
decode-frame self first body rest legal allowed =
    let size : List ℕ = encode_length (length body) in
    let frame : List ℕ = first ∷ (size ++ body) in
    let n : ℕ = 1 + length size + length body in
    let exact : length frame ≡ n = omega (arith, length-append size body) in
    let a : ltb self.max_packet_size (length body) ≡ false = ground arith in
    let b : ltb max_length (length body) ≡ false = ground arith in
    let c : ltb (length (frame ++ rest)) n ≡ false = ground (arith, length-append frame rest) in
    let t : take n (frame ++ rest) ≡ frame = take-append_exact n frame rest (sym exact) in
    let d : drop n (frame ++ rest) ≡ rest = drop-append_exact n frame rest (sym exact) in
    let s : read_size_check ((size ++ body) ++ rest) ≡ ok (some (length body, length size)) =
      rw (append_assoc size body rest)
        (read_size_check-encode_length (length body) (body ++ rest) legal) in
    rw (s, a, b, c, t, d)

-- The packets that go both ways, and what is asked of them: the limits of their fields, and that their
-- length is allowed by the codec.
pub data Exchanged (self : MqttCodec) : MqttMessage → MqttMessage → Type 0 where
  published :
      (m : MqttMessagePublish)
      → IsSendable m
      → length (payload m) ≤ self.max_packet_size
      → Exchanged self (publish m) (publish (received m))
  acked :
      (m : MqttMessagePuback)
      → m.identifier < 65536
      → 2 ≤ self.max_packet_size
      → Exchanged self (pub_ack m) (pub_ack m)
  recorded :
      (m : MqttMessagePubrec)
      → m.identifier < 65536
      → 2 ≤ self.max_packet_size
      → Exchanged self (pub_rec m) (pub_rec m)
  released :
      (m : MqttMessagePubrel)
      → m.identifier < 65536
      → 2 ≤ self.max_packet_size
      → Exchanged self (pub_rel m) (pub_rel m)
  completed :
      (m : MqttMessagePubcomp)
      → m.identifier < 65536
      → 2 ≤ self.max_packet_size
      → Exchanged self (pub_comp m) (pub_comp m)

-- A PUBLISH that may be sent, or a PUBACK, PUBREC, PUBREL or PUBCOMP whose identifier fits 16 bits, of a
-- length that the codec allows: `decode` gives back what `encode` appended, but for the DUP flag and the
-- unused identifier of a PUBLISH, and leaves what follows.
pub decode-encode :
    (self : MqttCodec) (sent got : MqttMessage) (rest : List ℕ)
    → Exchanged self sent got
    → decode self (encode sent [] ++ rest) ≡ (ok (some got), rest)
unfolding encode message_bytes decode_type decode_msg try_from
decode-encode self sent got rest (Exchanged.published m v allowed) =
    let h : fixed_header m.retain m.qos / 2 ^ 4 ≡ 3 =
      fixed_header_type m.retain m.qos v.qos_allowed in
    let n : length (payload m) ≤ max_length = rw (length-payload m) v.short_enough in
    let parsed = rw (to_bytes_lem m) at (from_bytes-to_bytes m v) in
    rw (to_bytes_lem m) (decode-frame self _ (payload m) rest n allowed ∙ rw h (rw parsed))
decode-encode self sent got rest (Exchanged.acked m range allowed) =
    let parsed = rw (puback_to_bytes_lem m) at (puback_from_bytes-to_bytes m range) in
    rw (puback_to_bytes_lem m)
      (decode-frame self 0x40 (u16_bytes m.identifier) rest (omega arith) allowed ∙ rw parsed)
decode-encode self sent got rest (Exchanged.recorded m range allowed) =
    let parsed = rw (pubrec_to_bytes_lem m) at (pubrec_from_bytes-to_bytes m range) in
    rw (pubrec_to_bytes_lem m)
      (decode-frame self 0x50 (u16_bytes m.identifier) rest (omega arith) allowed ∙ rw parsed)
decode-encode self sent got rest (Exchanged.released m range allowed) =
    let parsed = rw (pubrel_to_bytes_lem m) at (pubrel_from_bytes-to_bytes m range) in
    rw (pubrel_to_bytes_lem m)
      (decode-frame self 0x62 (u16_bytes m.identifier) rest (omega arith) allowed ∙ rw parsed)
decode-encode self sent got rest (Exchanged.completed m range allowed) =
    let parsed = rw (pubcomp_to_bytes_lem m) at (pubcomp_from_bytes-to_bytes m range) in
    rw (pubcomp_to_bytes_lem m)
      (decode-frame self 0x70 (u16_bytes m.identifier) rest (omega arith) allowed ∙ rw parsed)
