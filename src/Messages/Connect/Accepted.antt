-- ===== src/Messages/Connect/Accepted.antt =====
-- src/messages/mod.rs: the parser of CONNECT on any packet.
use squillion_mqtt.Prelude.{ℕ, List, Bool}
use squillion_mqtt.Messages.Connect.{
  MqttMessageConnect, parse_will, optional_string, parse, from_bytes,
}
use squillion_mqtt.Messages.Reader.Safe.{
  Safe, safe_rules, Settled, Settled-run, Safe-read_mqtt_string_prefixed,
}

Safe-parse_will :
    {lo : ℕ} {buf : List ℕ} (flags : ℕ) (self : MqttMessageConnect)
    → Safe lo buf (parse_will flags self)
unfolding parse_will
Safe-parse_will flags self = search safe_rules depth 30

Safe-optional_string :
    {lo : ℕ} {buf : List ℕ} (present : Bool) (unset : List ℕ)
    → Safe lo buf (optional_string present unset)
unfolding optional_string
Safe-optional_string present unset = search (safe_rules, Safe-read_mqtt_string_prefixed)

-- On any packet the parser of CONNECT returns a message or an error of the code: it does not panic.
pub connect-Settled : (self : MqttMessageConnect) (buf : List ℕ) → Settled (from_bytes self buf)
unfolding from_bytes parse
connect-Settled self buf =
    Settled-run (parse self) buf
      (search (safe_rules, Safe-parse_will, Safe-optional_string) depth 60 fits 20000)
