-- ===== src/Messages/Codec/Waiting.antt =====
-- src/messages/codec.rs: how much a codec lets arrive before it answers.
use squillion_mqtt.Prelude.{
  ℕ, ◌+◌, ◌/◌, ◌^◌, ◌≤◌, Option, none, some, List, [], ◌∷◌, length, ltb, ◌≡◌, ◌≢◌, refl, ap, arith,
  Bool-cases, inl, inr,
}
use squillion_mqtt.Result.{Result, ok, err}
use squillion_mqtt.Messages.Fault.{Checked}
use squillion_mqtt.Messages.Length.{max_length, read_size_check}
use squillion_mqtt.Messages.Length.Decode.{read_size_check_bounds, read_size_check_waits_length}
use squillion_mqtt.Messages.Types.{MqttMessageType, try_from}
use squillion_mqtt.Messages.Codec.{
  MqttMessage, MqttCodec, decode_msg, unknown, decode_type, decode_frame, decode_sized, decode,
}

-- A whole frame is never waited for.
decode_msg_answers : {A : Type 0} (c : A → MqttMessage) (x : Checked A) → decode_msg c x ≢ ok none
unfolding decode_msg
decode_msg_answers c (ok m) = λ e. cc
decode_msg_answers c (err e) = λ f. cc

decode_type_answers : (t : Option MqttMessageType) (frame : List ℕ) → decode_type t frame ≢ ok none
unfolding decode_type unknown
decode_type_answers (some MqttMessageType.connect) frame = decode_msg_answers _ _
decode_type_answers (some MqttMessageType.subscribe) frame = decode_msg_answers _ _
decode_type_answers (some MqttMessageType.unsubscribe) frame = decode_msg_answers _ _
decode_type_answers (some MqttMessageType.publish) frame = decode_msg_answers _ _
decode_type_answers (some MqttMessageType.ping_req) frame = decode_msg_answers _ _
decode_type_answers (some MqttMessageType.pub_ack) frame = decode_msg_answers _ _
decode_type_answers (some MqttMessageType.pub_rec) frame = decode_msg_answers _ _
decode_type_answers (some MqttMessageType.pub_rel) frame = decode_msg_answers _ _
decode_type_answers (some MqttMessageType.pub_comp) frame = decode_msg_answers _ _
decode_type_answers (some MqttMessageType.disconnect) frame = λ e. cc
decode_type_answers _ frame = λ e. cc

decode_frame_waits :
    (self : MqttCodec) (msgtype : ℕ) (buf rest : List ℕ) (len lensize : ℕ)
    → lensize ≤ 4
    → decode_frame self msgtype buf len lensize ≡ (ok none, rest)
    → (rest ≡ buf) × (length buf ≤ 4 + self.max_packet_size) × (length buf ≤ 4 + max_length)
unfolding decode_frame
decode_frame_waits self msgtype buf rest len lensize k e =
    elim (Bool-cases (ltb self.max_packet_size len)) [
      | inl large ↦ absurd (let e' = rw large at e in cc)
      | inr allowed ↦ elim (Bool-cases (ltb max_length len)) [
        | inl large ↦ absurd (let e' = rw (allowed, large) at e in cc)
        | inr legal ↦ elim (Bool-cases (ltb (length buf) (1 + lensize + len))) [
          | inl short ↦
              let e' = rw (allowed, legal, short) at e in
              let same : rest ≡ buf = cc in (same, ground arith, ground arith)
          | inr whole ↦
              let e' = rw (allowed, legal, whole) at e in
              absurd (decode_type_answers (try_from msgtype) _ (ap (λ p. p.0) e'))
        ]
      ]
    ]

decode_sized_waits :
    (self : MqttCodec) (msgtype : ℕ) (b : ℕ) (bytes rest : List ℕ)
    (size : Result (Unit {0}) (Option (ℕ × ℕ)))
    → read_size_check bytes ≡ size
    → decode_sized self msgtype (b ∷ bytes) size ≡ (ok none, rest)
    → (rest ≡ b ∷ bytes)
      × (length (b ∷ bytes) ≤ 4 + self.max_packet_size)
      × (length (b ∷ bytes) ≤ 4 + max_length)
unfolding decode_sized
decode_sized_waits self msgtype b bytes rest (ok none) r e =
    let same : rest ≡ b ∷ bytes = cc in
    let few = read_size_check_waits_length bytes r in (same, omega (arith, few), omega (arith, few))
decode_sized_waits self msgtype b bytes rest (err x) r e = absurd (cc)
decode_sized_waits self msgtype b bytes rest (ok (some (len, k))) r e =
    let (_, _, hi, _) = read_size_check_bounds bytes len k r in
    decode_frame_waits self msgtype (b ∷ bytes) rest len k hi e

-- A codec that waits for more bytes has left the buffer as it is, and holds at most four bytes more than
-- its limit for a packet, and than `MAX_LENGTH`: whatever a client sends and however it writes the length,
-- a codec with a longer buffer does not wait.
pub decode_waits_bounded :
    (self : MqttCodec) (buf rest : List ℕ)
    → decode self buf ≡ (ok none, rest)
    → (rest ≡ buf) × (length buf ≤ 4 + self.max_packet_size) × (length buf ≤ 4 + max_length)
unfolding decode
decode_waits_bounded self [] rest e = let same : rest ≡ [] = cc in (same, omega arith, omega arith)
decode_waits_bounded self (b ∷ bytes) rest e =
    decode_sized_waits self (b / 2 ^ 4) b bytes rest (read_size_check bytes) refl e
