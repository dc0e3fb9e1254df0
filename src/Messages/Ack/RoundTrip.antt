-- ===== src/Messages/Ack/RoundTrip.antt =====
-- src/messages/mod.rs: parsers and writers of the acknowledgements that have an identifier.
use squillion_mqtt.Prelude.{
  ℕ, ◌<◌, true, not, List, [], ◌∷◌, ◌++◌, String, length, ◌==◌, bit_and, ◌≡◌, refl, arith,
}
use squillion_mqtt.Result.{ok}
use squillion_mqtt.Messages.Fault.{io, other}
use squillion_mqtt.Messages.Length.{encode_length}
use squillion_mqtt.Messages.Length.Encode.{encode_length-two}
use squillion_mqtt.Messages.Publish.{u16_bytes}
use squillion_mqtt.Messages.Publish.RoundTrip.{Reads-u16_bytes}
use squillion_mqtt.Messages.Reader.{pure, ◌>>=◌, read_varint}
use squillion_mqtt.Messages.Reader.Reads.{
  Reads, Reads-pure, Reads-bind, Reads-then, Reads-end, Reads-read_u8, Reads-reject_if,
  Reads-expect_end, run-Reads,
}
use squillion_mqtt.Messages.Reader.Safe.{Safe, safe_rules, Settled, Settled-run}
use squillion_mqtt.Messages.Reader.Varint.{Reads-read_varint}
use squillion_mqtt.Messages.Ack.{
  MqttMessagePuback, MqttMessagePubrec, MqttMessagePubrel, MqttMessagePubcomp, parse_identifier,
  puback_from_bytes, pubrec_from_bytes, pubrel_from_bytes, pubcomp_from_bytes, pingreq_from_bytes,
  puback_to_bytes, pubrec_to_bytes, pubrel_to_bytes, pubcomp_to_bytes,
}

Reads-length_two : (s : List ℕ) → Reads read_varint (2 ∷ []) s (2, 1)
Reads-length_two s = rw encode_length-two at (Reads-read_varint 2 s (omega arith))

-- The parser of the four, and what is made of the identifier.
Reads-parse_identifier :
    {A : Type 0} (first flags identifier : ℕ) (a b c : String) (make : ℕ → A)
    → (bit_and first 0xf == flags) ≡ true
    → identifier < 65536
    → Reads
        (parse_identifier flags a b c >>= (λ n. pure (make n)))
        (first ∷ 2 ∷ u16_bytes identifier)
        []
        (make identifier)
unfolding parse_identifier
Reads-parse_identifier first flags identifier a b c make h range =
    let ids : List ℕ = u16_bytes identifier in
    Reads-end _ (first ∷ 2 ∷ ids) [] _ (
      Reads-bind _ _ (first ∷ 2 ∷ ids) [] [] identifier _
        (Reads-bind _ _ (first ∷ []) (2 ∷ ids) [] first _ (Reads-read_u8 first _) (
          Reads-then _ _ [] (2 ∷ ids) [] _
            (Reads-reject_if (not (bit_and first 0xf == flags)) _ _ (rw h))
            (Reads-bind _ _ (2 ∷ []) ids [] (2, 1) _ (Reads-length_two _)
              (Reads-then _ _ [] ids [] _ (Reads-reject_if (not (2 == 2)) (io (other b)) _ refl) (
                Reads-end _ ids [] _ (
                  Reads-bind _ _ ids [] [] identifier _ (Reads-u16_bytes identifier _ range)
                    (Reads-then _ _ [] [] [] _ (Reads-expect_end _) (Reads-pure _ []))))))))
        (Reads-pure _ []))

pub puback_from_bytes-to_bytes :
    (m : MqttMessagePuback) → m.identifier < 65536 → puback_from_bytes (puback_to_bytes m) ≡ ok m
unfolding puback_from_bytes puback_to_bytes
puback_from_bytes-to_bytes m h =
    run-Reads _ _ m
      (Reads-parse_identifier 0x40 0x0 m.identifier _ _ _ (λ n. record { identifier = n }) refl h)

pub pubrec_from_bytes-to_bytes :
    (m : MqttMessagePubrec) → m.identifier < 65536 → pubrec_from_bytes (pubrec_to_bytes m) ≡ ok m
unfolding pubrec_from_bytes pubrec_to_bytes
pubrec_from_bytes-to_bytes m h =
    run-Reads _ _ m
      (Reads-parse_identifier 0x50 0x0 m.identifier _ _ _ (λ n. record { identifier = n }) refl h)

-- A PUBREL whose identifier fits 16 bits is read back as it was written.
pub pubrel_from_bytes-to_bytes :
    (m : MqttMessagePubrel) → m.identifier < 65536 → pubrel_from_bytes (pubrel_to_bytes m) ≡ ok m
unfolding pubrel_from_bytes pubrel_to_bytes
pubrel_from_bytes-to_bytes m h =
    run-Reads _ _ m
      (Reads-parse_identifier 0x62 0x2 m.identifier _ _ _ (λ n. record { identifier = n }) refl h)

pub pubcomp_from_bytes-to_bytes :
    (m : MqttMessagePubcomp) → m.identifier < 65536 → pubcomp_from_bytes (pubcomp_to_bytes m) ≡ ok m
unfolding pubcomp_from_bytes pubcomp_to_bytes
pubcomp_from_bytes-to_bytes m h =
    run-Reads _ _ m
      (Reads-parse_identifier 0x70 0x0 m.identifier _ _ _ (λ n. record { identifier = n }) refl h)

Safe-parse_identifier :
    {lo : ℕ} {buf : List ℕ} (flags : ℕ) (a b c : String)
    → Safe lo buf (parse_identifier flags a b c)
unfolding parse_identifier
Safe-parse_identifier flags a b c = search safe_rules depth 30

pub puback-Settled : (buf : List ℕ) → Settled (puback_from_bytes buf)
unfolding puback_from_bytes
puback-Settled buf = Settled-run _ buf (search (safe_rules, Safe-parse_identifier))

pub pubrec-Settled : (buf : List ℕ) → Settled (pubrec_from_bytes buf)
unfolding pubrec_from_bytes
pubrec-Settled buf = Settled-run _ buf (search (safe_rules, Safe-parse_identifier))

pub pubrel-Settled : (buf : List ℕ) → Settled (pubrel_from_bytes buf)
unfolding pubrel_from_bytes
pubrel-Settled buf = Settled-run _ buf (search (safe_rules, Safe-parse_identifier))

pub pubcomp-Settled : (buf : List ℕ) → Settled (pubcomp_from_bytes buf)
unfolding pubcomp_from_bytes
pubcomp-Settled buf = Settled-run _ buf (search (safe_rules, Safe-parse_identifier))

pub pingreq-Settled : (buf : List ℕ) → Settled (pingreq_from_bytes buf)
unfolding pingreq_from_bytes
pingreq-Settled buf = Settled-run _ buf (search safe_rules depth 30)

pub puback_to_bytes_lem :
    (m : MqttMessagePuback)
    → puback_to_bytes m
      ≡ 0x40 ∷ (encode_length (length (u16_bytes m.identifier)) ++ u16_bytes m.identifier)
unfolding puback_to_bytes
puback_to_bytes_lem m = rw encode_length-two

pub pubrec_to_bytes_lem :
    (m : MqttMessagePubrec)
    → pubrec_to_bytes m
      ≡ 0x50 ∷ (encode_length (length (u16_bytes m.identifier)) ++ u16_bytes m.identifier)
unfolding pubrec_to_bytes
pubrec_to_bytes_lem m = rw encode_length-two

pub pubrel_to_bytes_lem :
    (m : MqttMessagePubrel)
    → pubrel_to_bytes m
      ≡ 0x62 ∷ (encode_length (length (u16_bytes m.identifier)) ++ u16_bytes m.identifier)
unfolding pubrel_to_bytes
pubrel_to_bytes_lem m = rw encode_length-two

pub pubcomp_to_bytes_lem :
    (m : MqttMessagePubcomp)
    → pubcomp_to_bytes m
      ≡ 0x70 ∷ (encode_length (length (u16_bytes m.identifier)) ++ u16_bytes m.identifier)
unfolding pubcomp_to_bytes
pubcomp_to_bytes_lem m = rw encode_length-two
