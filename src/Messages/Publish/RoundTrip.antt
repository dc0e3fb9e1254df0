-- ===== src/Messages/Publish/RoundTrip.antt =====
-- src/messages/mod.rs: `from_bytes` of PUBLISH on what its `to_bytes` writes.
use squillion_mqtt.Prelude.{
  ℕ, zero, suc, ◌+◌, ◌*◌, ◌/◌, ◌%◌, ◌^◌, ◌≤◌, ◌<◌, Bool, true, false, not, ◌&&◌, List, [], ◌∷◌,
  ◌++◌, length, ltb, ◌==◌, if◌then◌else◌, bit_and, ◌≡◌, refl, arith, length-append, Bool-cases, inl,
  inr,
}
use squillion_mqtt.Prelude.Bits.{low_byte}
use squillion_mqtt.Result.{ok}
use squillion_mqtt.Messages.Length.{max_length, encode_length}
use squillion_mqtt.Messages.Utf8.{is_utf8}
use squillion_mqtt.Messages.Validation.{qos_valid, publish_topic_valid}
use squillion_mqtt.Messages.Publish.{
  MqttMessagePublish, new, identifier_field, parse_body, parse, from_bytes, fixed_header, id_size,
  u16_bytes, to_bytes,
}
use squillion_mqtt.Messages.Reader.{read_u16}
use squillion_mqtt.Messages.Reader.Reads.{
  Reads, Reads-pure, Reads-bind, Reads-then, Reads-end, Reads-read_u8, Reads-read_u16,
  Reads-read_bytes, Reads-from_utf8, Reads-reject_if, Reads-checked_sub, Reads-expect_end,
  run-Reads,
}
use squillion_mqtt.Messages.Reader.Varint.{Reads-read_varint}
use mathlib.Core.Path.{subst}

-- The pair of bytes of a `u16`.
pub Reads-u16_bytes : (n : ℕ) (s : List ℕ) → n < 65536 → Reads read_u16 (u16_bytes n) s n
Reads-u16_bytes n s h =
    let low : bit_and n 0xff < 256 = omega (arith, low_byte n) in
    let whole : n / 2 ^ 8 % 256 * 256 + bit_and n 0xff ≡ n = omega (arith, low_byte n) in
    subst (Reads read_u16 (u16_bytes n) s) whole
      (Reads-read_u16 (n / 2 ^ 8 % 256) (bit_and n 0xff) s low)

-- What the first byte says, for each QoS.
record HeaderBits (retain : Bool) (qos : ℕ) : Type 0 where
  dup : (bit_and (fixed_header retain qos) 0x8 == 0x8) ≡ false
  level : bit_and (fixed_header retain qos) 0x6 / 2 ^ 1 ≡ qos
  kept : (bit_and (fixed_header retain qos) 1 == 1) ≡ retain

header_bits : (retain : Bool) (qos : ℕ) → qos ≤ 2 → HeaderBits retain qos
unfolding fixed_header
header_bits true zero h = record { dup = refl; level = refl; kept = refl }
header_bits false zero h = record { dup = refl; level = refl; kept = refl }
header_bits true (suc zero) h = record { dup = refl; level = refl; kept = refl }
header_bits false (suc zero) h = record { dup = refl; level = refl; kept = refl }
header_bits true (suc (suc zero)) h = record { dup = refl; level = refl; kept = refl }
header_bits false (suc (suc zero)) h = record { dup = refl; level = refl; kept = refl }
header_bits retain (suc (suc (suc q))) h = absurd (omega arith)

abbrev pub identifier_bytes : ℕ → ℕ → List ℕ
identifier_bytes qos identifier = if ltb 0 qos then u16_bytes identifier else []

Reads-identifier_field :
    (qos identifier : ℕ) (s : List ℕ)
    → (0 < qos → (0 < identifier) × (identifier < 65536))
    → Reads
        (identifier_field qos 0)
        (identifier_bytes qos identifier)
        s
        (if ltb 0 qos then identifier else 0, id_size qos)
unfolding identifier_field
Reads-identifier_field qos identifier s h = elim (Bool-cases (ltb 0 qos)) [
  | inr none ↦ rw none (Reads-pure (0, 0) s)
  | inl some ↦
      let range : (0 < identifier) × (identifier < 65536) = h (ground arith) in
      rw some (
        Reads-end _ _ s _ (
          Reads-bind _ _ (u16_bytes identifier) [] s identifier (identifier, 2)
            (Reads-u16_bytes identifier s range.1)
            (Reads-then _ _ [] [] s (identifier, 2) (Reads-reject_if _ _ s (ground arith))
              (Reads-pure (identifier, 2) s))))
]

-- A message that the server may send: the header of its packet has room for its length.
pub record IsSendable (m : MqttMessagePublish) : Type 0 where
  pub qos_allowed : m.qos ≤ 2
  pub topic_allowed : publish_topic_valid m.topic ≡ true
  pub topic_text : is_utf8 m.topic ≡ true
  pub topic_short : length m.topic < 65536
  pub identifier_used : 0 < m.qos → (0 < m.identifier) × (m.identifier < 65536)
  pub short_enough : length m.topic + length m.message + id_size m.qos + 2 ≤ max_length

-- What a reader gets: the DUP flag is never written, and the identifier only for QoS > 0.
abbrev pub received : MqttMessagePublish → MqttMessagePublish
received m = record m { dup = false; identifier = if ltb 0 m.qos then m.identifier else 0 }

abbrev body : MqttMessagePublish → List ℕ
body m =
    encode_length (length m.topic + length m.message + id_size m.qos + 2)
    ++ (u16_bytes (length m.topic)
        ++ (m.topic ++ (identifier_bytes m.qos m.identifier ++ m.message)))

Reads-parse_body :
    (m self : MqttMessagePublish)
    → IsSendable m
    → self ≡ record new { qos = m.qos; retain = m.retain }
    → Reads (parse_body self) (body m) [] (received m)
unfolding parse_body
Reads-parse_body m self v same =
    let len : ℕ = length m.topic + length m.message + id_size m.qos + 2 in
    let ids : List ℕ = identifier_bytes m.qos m.identifier in
    let n : ℕ = length m.topic in
    let id : ℕ = if ltb 0 m.qos then m.identifier else 0 in
    rw same (
      Reads-bind _ _ (encode_length len) _ [] (len, length (encode_length len)) _
        (Reads-read_varint len _ v.short_enough)
        (Reads-bind _ _ (u16_bytes n) _ [] n _ (Reads-u16_bytes n _ v.topic_short) (
          Reads-bind _ _ m.topic _ [] m.topic _ (Reads-read_bytes m.topic _) (
            Reads-then _ _ [] _ [] _ (Reads-reject_if _ _ _ (rw v.topic_allowed)) (
              Reads-bind _ _ [] _ [] m.topic _ (Reads-from_utf8 m.topic _ _ v.topic_text) (
                Reads-bind _ _ ids m.message [] (id, id_size m.qos) _
                  (Reads-identifier_field m.qos m.identifier _ v.identifier_used)
                  (Reads-bind _ _ [] m.message [] (length m.message) _
                    (Reads-checked_sub _ _ _ _ (length m.message) (omega arith))
                    (Reads-end _ m.message [] _ (
                      Reads-bind _ _ m.message [] [] m.message _ (Reads-read_bytes m.message [])
                        (Reads-then _ _ [] [] [] _ (Reads-expect_end _) (Reads-pure _ [])))))))))))

qos_checked : (qos : ℕ) → qos ≤ 2 → not (qos_valid qos) ≡ false
unfolding qos_valid
qos_checked qos h = ground arith

-- Reading a PUBLISH that may be sent gives the message back, but for the DUP flag and, at QoS 0, the
-- identifier, which are not sent.
pub from_bytes-to_bytes :
    (m : MqttMessagePublish) → IsSendable m → from_bytes new (to_bytes m) ≡ ok (received m)
unfolding from_bytes parse to_bytes
from_bytes-to_bytes m v =
    let hb = header_bits m.retain m.qos v.qos_allowed in
    let h : ℕ = fixed_header m.retain m.qos in
    let self : MqttMessagePublish = record new {
      dup = bit_and h 0x8 == 0x8;
      qos = bit_and h 0x6 / 2 ^ 1;
      retain = bit_and h 1 == 1;
    } in
    run-Reads (parse new) (to_bytes m) (received m) (
      Reads-bind _ _ (h ∷ []) (body m) [] h (received m) (Reads-read_u8 h _) (
        Reads-then _ _ [] (body m) [] (received m)
          (Reads-reject_if (not (qos_valid (bit_and h 0x6 / 2 ^ 1))) _ _
            (rw hb.level (qos_checked m.qos v.qos_allowed)))
          (Reads-then _ _ [] (body m) [] (received m)
            (Reads-reject_if (bit_and h 0x8 == 0x8 && bit_and h 0x6 / 2 ^ 1 == 0) _ _ (rw hb.dup))
            (Reads-parse_body m self v (rw (hb.dup, hb.level, hb.kept))))))

-- The shape of the packet: what follows the length has that length.
abbrev pub payload : MqttMessagePublish → List ℕ
payload m =
    u16_bytes (length m.topic) ++ (m.topic ++ (identifier_bytes m.qos m.identifier ++ m.message))

pub length-payload :
    (m : MqttMessagePublish)
    → length (payload m) ≡ length m.topic + length m.message + id_size m.qos + 2
length-payload m = elim (Bool-cases (ltb 0 m.qos)) [
  | inl some ↦ rw some (omega (arith, length-append m.topic (u16_bytes m.identifier ++ m.message)))
  | inr none ↦ rw none (omega (arith, length-append m.topic m.message))
]

pub to_bytes_lem :
    (m : MqttMessagePublish)
    → to_bytes m ≡ fixed_header m.retain m.qos ∷ (encode_length (length (payload m)) ++ payload m)
unfolding to_bytes
to_bytes_lem m = rw (length-payload m)

-- The packet type of the first byte.
pub fixed_header_type : (retain : Bool) (qos : ℕ) → qos ≤ 2 → fixed_header retain qos / 2 ^ 4 ≡ 3
unfolding fixed_header
fixed_header_type true zero h = refl
fixed_header_type false zero h = refl
fixed_header_type true (suc zero) h = refl
fixed_header_type false (suc zero) h = refl
fixed_header_type true (suc (suc zero)) h = refl
fixed_header_type false (suc (suc zero)) h = refl
fixed_header_type retain (suc (suc (suc q))) h = absurd (omega arith)
