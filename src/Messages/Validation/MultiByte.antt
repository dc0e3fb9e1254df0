-- ===== src/Messages/Validation/MultiByte.antt =====
-- src/messages/validation.rs: characters of two bytes.
use squillion_mqtt.Prelude.{
  ℕ, suc, ◌≤◌, ◌<◌, true, false, List, ◌∷◌, some, length, ◌==◌, ◌≡◌, refl, bit_and, bit_or, arith,
}
use squillion_mqtt.Prelude.Bits.{top_bit, top_three}
use squillion_mqtt.Messages.Validation.Total.{for_chars_stop}
use squillion_mqtt.Messages.Validation.{
  two_bytes, next, for_chars, or_false, all_chars, publish_topic_char, publish_topic_valid,
}

-- The first byte of the character does not matter.
next_two_bytes :
    (b c : ℕ) (rest : List ℕ)
    → 0xc0 ≤ b
    → b < 0xe0
    → (bit_and c 0xc0 == 0x80) ≡ true
    → next (b ∷ c ∷ rest) ≡ some (bit_or 0 (bit_and c 0x3f), rest)
unfolding next two_bytes
next_two_bytes b c rest lo hi follows =
    let multi : (bit_and b 0x80 == 0) ≡ false = ground (arith, top_bit b (omega arith)) in
    let two : (bit_and b 0xe0 == 0xc0) ≡ true = ground (arith, top_three b (omega arith)) in
    rw (multi, two, follows)

rejected_at_once :
    (fuel previous : ℕ) (string rest : List ℕ)
    → next string ≡ some (0x23, rest)
    → for_chars publish_topic_char (suc fuel) previous string ≡ some false
unfolding publish_topic_char
rejected_at_once fuel previous string rest e =
    for_chars_stop publish_topic_char fuel previous string 0x23 rest e refl

-- A topic that begins with a character of two bytes whose second byte is A3 is rejected, as if it began
-- with the wildcard `#`, whatever the first byte and the rest.
pub publish_topic_valid_multi_byte :
    (b : ℕ) (rest : List ℕ) → 0xc0 ≤ b → b < 0xe0 → publish_topic_valid (b ∷ 0xa3 ∷ rest) ≡ false
unfolding publish_topic_valid all_chars or_false
publish_topic_valid_multi_byte b rest lo hi =
    let e =
      rejected_at_once (length (b ∷ 0xa3 ∷ rest)) 0 (b ∷ 0xa3 ∷ rest) rest
        (next_two_bytes b 0xa3 rest lo hi refl) in
    rw e (ground arith)
