-- ===== src/Tests/Wire.antt =====
-- Packets of messages/.
use squillion_mqtt.Prelude.{
  none, ◌+◌, false, ℕ, ◌≤◌, Bool, ◌&&◌, some, List, [], ◌∷◌, ◌++◌, length, ◌≡◌, refl, arith,
}
use squillion_mqtt.Prelude.Split.{split}
use squillion_mqtt.Result.{ok}
use squillion_mqtt.Messages.Length.{check_loop, max_length, read_size_check, encode_length}
use squillion_mqtt.Messages.Length.RoundTrip.{read_size_check-encode_length}
use squillion_mqtt.Messages.Length.Decode.{read_size_check_bounds, read_size_check-append_some}
use squillion_mqtt.Messages.Length.Encode.{groups, encode_length-groups}
use squillion_mqtt.Messages.Utf8.{is_utf8}
use squillion_mqtt.Messages.Reader.Safe.{Settled}
use squillion_mqtt.Messages.Validation.{
  publish_topic_valid, topic_filter_valid, for_chars, publish_topic_char,
}
use squillion_mqtt.Messages.Validation.Total.{for_chars_total}
use squillion_mqtt.Messages.Validation.MultiByte.{publish_topic_valid_multi_byte}
use squillion_mqtt.Messages.Validation.Ascii.{
  IsAscii, is_plain, length_allowed, levels_valid, publish_topic_valid-ascii,
  topic_filter_valid-ascii,
}
use squillion_mqtt.Messages.Publish
use squillion_mqtt.Messages.Publish.{MqttMessagePublish}
use squillion_mqtt.Messages.Publish.RoundTrip.{IsSendable, received, from_bytes-to_bytes}
use squillion_mqtt.Messages.Publish.Accepted.{IsAccepted, from_bytes-Settled, from_bytes-IsAccepted}
use squillion_mqtt.Messages.Connect
use squillion_mqtt.Messages.Connect.Accepted.{connect-Settled}
use squillion_mqtt.Messages.Ack.{MqttMessagePubrel}
use squillion_mqtt.Messages.Codec.{
  decode_sized, decode_frame, MqttMessage, MqttCodec, encode, decode,
}
use squillion_mqtt.Messages.Codec.Decode.{decode-Settled}
use squillion_mqtt.Messages.Codec.Frames.{Framed, decode-Framed, decode-append}
use squillion_mqtt.Messages.Codec.Waiting.{decode_waits_bounded}
use squillion_mqtt.Messages.Codec.RoundTrip.{Exchanged, decode-encode}

abbrev codec : MqttCodec
codec = record { max_packet_size = 1024 }

-- "a/b" and "hi"
abbrev greeting : MqttMessagePublish
greeting = record Publish.new {
  topic = 97 ∷ 47 ∷ 98 ∷ [];
  message = 104 ∷ 105 ∷ [];
  qos = 1;
  identifier = 42;
}

abbrev release : MqttMessagePubrel
release = record { identifier = 300 }

topic-IsAscii : IsAscii (97 ∷ 47 ∷ 98 ∷ [])
topic-IsAscii = (omega arith, (omega arith, (omega arith, tt)))

greeting-IsSendable : IsSendable greeting
unfolding is_utf8 is_plain
greeting-IsSendable = record {
  qos_allowed = omega arith;
  topic_allowed = publish_topic_valid-ascii (97 ∷ 47 ∷ 98 ∷ []) topic-IsAscii;
  topic_text = refl;
  topic_short = omega arith;
  identifier_used = λ h. (omega arith, omega arith);
  short_enough = omega arith;
}

greeting-Exchanged :
    Exchanged codec (MqttMessage.publish greeting) (MqttMessage.publish (received greeting))
greeting-Exchanged = Exchanged.published greeting greeting-IsSendable (omega arith)

release-Exchanged : Exchanged codec (MqttMessage.pub_rel release) (MqttMessage.pub_rel release)
release-Exchanged = Exchanged.released release (omega arith) (omega arith)

-- A PUBLISH and a PUBREL in one buffer.
abbrev stream : List ℕ
stream = encode (MqttMessage.publish greeting) [] ++ encode (MqttMessage.pub_rel release) []

stream_read :
    decode codec stream
    ≡ (ok (some (MqttMessage.publish (received greeting))), encode (MqttMessage.pub_rel release) [])
stream_read = decode-encode codec _ _ (encode (MqttMessage.pub_rel release) []) greeting-Exchanged

decode-encode_example :
    decode codec (encode (MqttMessage.publish greeting) [] ++ (0 ∷ []))
    ≡ (ok (some (MqttMessage.publish (received greeting))), 0 ∷ [])
decode-encode_example =
    decode-encode codec (MqttMessage.publish greeting) (MqttMessage.publish (received greeting))
      (0 ∷ []) greeting-Exchanged

decode-Settled_example : Settled ((decode codec (0x30 ∷ 0x05 ∷ 0xff ∷ 0xff ∷ [])).0)
decode-Settled_example = decode-Settled codec (0x30 ∷ 0x05 ∷ 0xff ∷ 0xff ∷ [])

decode-Framed_example : Framed codec (0xc0 ∷ 0 ∷ 0x30 ∷ []) (decode codec (0xc0 ∷ 0 ∷ 0x30 ∷ []))
decode-Framed_example = decode-Framed codec (0xc0 ∷ 0 ∷ 0x30 ∷ [])

decode-append_example : decode codec (stream ++ (0xc0 ∷ 0 ∷ [])) ≡ (
  ok (some (MqttMessage.publish (received greeting))),
  encode (MqttMessage.pub_rel release) [] ++ (0xc0 ∷ 0 ∷ []),
)
decode-append_example =
    decode-append codec stream (0xc0 ∷ 0 ∷ []) (encode (MqttMessage.pub_rel release) [])
      (MqttMessage.publish (received greeting)) stream_read

-- The length is written with one byte more than it needs, and the rest of the packet is still to come.
abbrev beginning : List ℕ
beginning = 0x30 ∷ 0x85 ∷ 0 ∷ 0 ∷ []

beginning_waits : decode codec beginning ≡ (ok none, beginning)
unfolding decode decode_sized decode_frame read_size_check check_loop
beginning_waits = refl

decode_waits_bounded_example :
    (beginning ≡ beginning) × (length beginning ≤ 4 + 1024) × (length beginning ≤ 4 + max_length)
decode_waits_bounded_example = decode_waits_bounded codec beginning beginning beginning_waits

from_bytes-to_bytes_example :
    Publish.from_bytes Publish.new (Publish.to_bytes greeting) ≡ ok (received greeting)
from_bytes-to_bytes_example = from_bytes-to_bytes greeting greeting-IsSendable

from_bytes-IsAccepted_example : IsAccepted (received greeting)
from_bytes-IsAccepted_example =
    from_bytes-IsAccepted Publish.new (received greeting) (Publish.to_bytes greeting)
      (from_bytes-to_bytes greeting greeting-IsSendable)

from_bytes-Settled_example : Settled (Publish.from_bytes Publish.new (0x32 ∷ 2 ∷ 0 ∷ 9 ∷ []))
from_bytes-Settled_example = from_bytes-Settled Publish.new (0x32 ∷ 2 ∷ 0 ∷ 9 ∷ [])

connect-Settled_example : Settled (Connect.from_bytes Connect.new (0x10 ∷ 2 ∷ 0 ∷ 4 ∷ []))
connect-Settled_example = connect-Settled Connect.new (0x10 ∷ 2 ∷ 0 ∷ 4 ∷ [])

read_size_check-encode_length_example :
    read_size_check (encode_length 321 ++ (7 ∷ [])) ≡ ok (some (321, length (encode_length 321)))
read_size_check-encode_length_example = read_size_check-encode_length 321 (7 ∷ []) (omega arith)

encoded_321 : encode_length 321 ≡ 0xc1 ∷ 2 ∷ []
unfolding groups
encoded_321 = encode_length-groups 321 (omega arith)

read_321 : read_size_check (0xc1 ∷ 2 ∷ []) ≡ ok (some (321, 2))
read_321 = rw encoded_321 at (read_size_check-encode_length 321 [] (omega arith))

read_size_check_bounds_example : (321 ≤ max_length) × (1 ≤ 2) × (2 ≤ 4) × (2 ≤ 2)
read_size_check_bounds_example = read_size_check_bounds (0xc1 ∷ 2 ∷ []) 321 2 read_321

read_size_check-append_some_example : read_size_check (0xc1 ∷ 2 ∷ 9 ∷ []) ≡ ok (some (321, 2))
read_size_check-append_some_example =
    read_size_check-append_some (0xc1 ∷ 2 ∷ []) (9 ∷ []) (321, 2) read_321

for_chars_total_example :
    (b : Bool) × (for_chars publish_topic_char 4 0 (97 ∷ 47 ∷ 98 ∷ []) ≡ some b)
unfolding publish_topic_char
for_chars_total_example =
    for_chars_total publish_topic_char (λ previous. refl) 4 0 (97 ∷ 47 ∷ 98 ∷ []) (omega arith)

publish_topic_valid-ascii_example :
    publish_topic_valid (97 ∷ 47 ∷ 98 ∷ [])
    ≡ (length_allowed (97 ∷ 47 ∷ 98 ∷ []) && is_plain (97 ∷ 47 ∷ 98 ∷ []))
publish_topic_valid-ascii_example = publish_topic_valid-ascii (97 ∷ 47 ∷ 98 ∷ []) topic-IsAscii

topic_filter_valid-ascii_example :
    topic_filter_valid (97 ∷ 47 ∷ 98 ∷ [])
    ≡ (length_allowed (97 ∷ 47 ∷ 98 ∷ []) && levels_valid (split 47 (97 ∷ 47 ∷ 98 ∷ [])))
topic_filter_valid-ascii_example = topic_filter_valid-ascii (97 ∷ 47 ∷ 98 ∷ []) topic-IsAscii

publish_topic_valid_multi_byte_example : publish_topic_valid (0xc3 ∷ 0xa3 ∷ 111 ∷ []) ≡ false
publish_topic_valid_multi_byte_example =
    publish_topic_valid_multi_byte 0xc3 (111 ∷ []) (omega arith) (omega arith)
