-- ===== src/Messages/Publish/Accepted.antt =====
-- src/messages/mod.rs: `from_bytes` of PUBLISH on any packet.
use squillion_mqtt.Prelude.{
  ℕ, ◌/◌, ◌^◌, ◌≤◌, ◌<◌, List, Bool, true, false, not, ◌&&◌, ltb, ◌==◌, ◌≡◌, bit_and, arith,
}
use squillion_mqtt.Result.{ok}
use squillion_mqtt.Messages.Fault.{io, other}
use squillion_mqtt.Messages.Reader.{
  read_u16, read_varint, read_bytes, from_utf8, checked_sub, expect_end, read_u8,
}
use squillion_mqtt.Messages.Utf8.{is_utf8}
use squillion_mqtt.Messages.Validation.{qos_valid, publish_topic_valid}
use squillion_mqtt.Messages.Reader.Ensures.{
  Ensures, Ensures-pure, Ensures-bind, Ensures-then, Ensures-reject_if, Ensures-if, Ensures-known,
  Ensures-from_utf8, run-Ensures,
}
use squillion_mqtt.Messages.Publish.{
  MqttMessagePublish, identifier_field, parse_body, parse, from_bytes,
}
use squillion_mqtt.Messages.Reader.Safe.{Safe, safe_rules, Settled, Settled-run}

Safe-identifier_field :
    {lo : ℕ} {buf : List ℕ} (qos identifier : ℕ) → Safe lo buf (identifier_field qos identifier)
unfolding identifier_field
Safe-identifier_field qos identifier = search safe_rules

Safe-parse_body :
    {lo : ℕ} {buf : List ℕ} (self : MqttMessagePublish) → Safe lo buf (parse_body self)
unfolding parse_body
Safe-parse_body self = search (safe_rules, Safe-identifier_field) depth 30

-- On any packet `from_bytes` returns a message or an error of the code.
pub from_bytes-Settled : (self : MqttMessagePublish) (buf : List ℕ) → Settled (from_bytes self buf)
unfolding from_bytes parse
from_bytes-Settled self buf =
    Settled-run (parse self) buf (search (safe_rules, Safe-parse_body) depth 20)

not-false : {b : Bool} → not b ≡ false → b ≡ true
not-false h = ground arith

qos_le : (qos : ℕ) → not (qos_valid qos) ≡ false → qos ≤ 2
unfolding qos_valid
qos_le qos h = ground arith

-- What the server relies on when it has parsed a PUBLISH.
pub record IsAccepted (m : MqttMessagePublish) : Type 0 where
  pub qos_allowed : m.qos ≤ 2
  pub dup_only_with_qos : m.dup ≡ true → 0 < m.qos
  pub topic_allowed : publish_topic_valid m.topic ≡ true
  pub topic_text : is_utf8 m.topic ≡ true
  pub identifier_used : 0 < m.qos → 0 < m.identifier

Ensures-identifier_field :
    (qos identifier : ℕ) → Ensures (identifier_field qos identifier) (λ p. 0 < qos → 0 < p.0)
unfolding identifier_field
Ensures-identifier_field qos identifier =
    Ensures-if (ltb 0 qos) _ _
      (λ some. Ensures-bind read_u16 _ (λ id.
        Ensures-reject_if (id == 0) (io (other "Publish zero identifier")) _
          (λ e. Ensures-pure (id, 2) (λ h. ground arith))))
      (λ none. Ensures-pure (identifier, 0) (λ h. absurd (ground arith)))

Ensures-parse_body :
    (self : MqttMessagePublish)
    → self.qos ≤ 2
    → (self.dup ≡ true → 0 < self.qos)
    → Ensures (parse_body self) IsAccepted
unfolding parse_body
Ensures-parse_body self hq hd = Ensures-bind read_varint _ (λ len.
    Ensures-bind read_u16 _ (λ topiclen. Ensures-bind (read_bytes topiclen) _ (λ tb.
      Ensures-reject_if (not (publish_topic_valid tb)) (io (other "Publish message invalid topic"))
        _
        (λ valid. Ensures-known (from_utf8 tb _) _ (Ensures-from_utf8 tb _) (λ topic text.
          Ensures-known (identifier_field self.qos self.identifier) _
            (Ensures-identifier_field self.qos self.identifier)
            (λ p used. Ensures-bind (checked_sub len.0 _ _) _ (λ msglen.
              Ensures-bind (read_bytes msglen) _ (λ message. Ensures-then (expect_end _) _ (
                Ensures-pure (record self { identifier = p.0; topic = topic; message = message })
                  (record {
                    qos_allowed = hq;
                    dup_only_with_qos = hd;
                    topic_allowed = rw text.0 (not-false valid);
                    topic_text = text.1;
                    identifier_used = used;
                  }))))))))))

-- A PUBLISH that `from_bytes` accepts has a QoS of at most 2, the DUP flag only with a QoS above 0, a
-- valid topic in UTF-8, and with a QoS above 0 an identifier that is not 0.
pub from_bytes-IsAccepted :
    (self m : MqttMessagePublish) (buf : List ℕ) → from_bytes self buf ≡ ok m → IsAccepted m
unfolding from_bytes parse
from_bytes-IsAccepted self m buf e =
    run-Ensures (parse self) buf m
      (Ensures-bind read_u8 _ (λ fixed.
        Ensures-reject_if (not (qos_valid (bit_and fixed 0x6 / 2 ^ 1))) (io (other _)) _ (λ q.
          Ensures-reject_if (bit_and fixed 0x8 == 0x8 && bit_and fixed 0x6 / 2 ^ 1 == 0)
            (io (other _)) _
            (λ d.
              Ensures-parse_body
                (record self {
                  dup = bit_and fixed 0x8 == 0x8;
                  qos = bit_and fixed 0x6 / 2 ^ 1;
                  retain = bit_and fixed 1 == 1;
                })
                (qos_le _ q) (λ dup. ground arith)))))
      e
