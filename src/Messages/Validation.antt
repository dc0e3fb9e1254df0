-- ===== src/Messages/Validation.antt =====
-- messages/validation.rs: which topics, topic filters and client names are accepted.
pub mod Total
pub mod Ascii
pub mod MultiByte
use squillion_mqtt.Prelude.{
  ℕ, zero, suc, ◌+◌, ◌*◌, ◌^◌, Bool, true, false, not, ◌&&◌, ◌||◌, List, [], ◌∷◌, Option, none,
  some, length, leb, ltb, ◌==◌, if◌then◌else◌, bit_and, bit_or,
}

-- `UTF8Iterator` as the bytes that it has not passed, `string[index..]`. `next` returns the value
-- and what is left. Where a sequence is cut off or its lead byte is unknown, the value is 0 and
-- `index` stays.
two_bytes : ℕ → List ℕ → ℕ × List ℕ
two_bytes b [] = (0, b ∷ [])
two_bytes b (b2 ∷ rest) =
    (if bit_and b2 0xc0 == 0x80 then bit_or (bit_and 0 0x1f * 2 ^ 6) (bit_and b2 0x3f) else 0, rest)

three_bytes : ℕ → List ℕ → ℕ × List ℕ
three_bytes b (b2 ∷ b3 ∷ rest) = (
  if bit_and b2 0xc0 == 0x80 && bit_and b3 0xc0 == 0x80
      then bit_or (bit_or (bit_and 0 0x0f * 2 ^ 12) (bit_and b2 0x3f * 2 ^ 6)) (bit_and b3 0x3f)
      else 0,
  rest,
)
three_bytes b rest = (0, b ∷ rest)

four_bytes : ℕ → List ℕ → ℕ × List ℕ
four_bytes b (b2 ∷ b3 ∷ b4 ∷ rest) = (
  if bit_and b2 0xc0 == 0x80 && bit_and b3 0xc0 == 0x80 && bit_and b4 0xc0 == 0x80
      then bit_or
          (bit_or (bit_or (bit_and 0 0x07 * 2 ^ 18) (bit_and b2 0x3f * 2 ^ 12))
            (bit_and b3 0x3f * 2 ^ 6))
          (bit_and b4 0x3f)
      else 0,
  rest,
)
four_bytes b rest = (0, b ∷ rest)

pub next : List ℕ → Option (ℕ × List ℕ)
unfolding two_bytes three_bytes four_bytes
next [] = none
next (b ∷ rest) = some (
    if bit_and b 0x80 == 0
    then (b, rest)
    else if bit_and b 0xe0 == 0xc0
    then two_bytes b rest
    else if bit_and b 0xf0 == 0xe0
    then three_bytes b rest
    else if bit_and b 0xf8 == 0xf0
    then four_bytes b rest
    else (0, b ∷ rest))

-- `for c in UTF8Iterator::new(string)`: the body returns the next `previous`, or `none` where the
-- code returns `false`; after the loop the code returns `true`. The outer `none` is lack of fuel.
pub for_chars : (ℕ → ℕ → Option ℕ) → ℕ → ℕ → List ℕ → Option Bool
for_chars body zero previous string = none
for_chars body (suc fuel) previous string = elim (next string) [
  | none ↦ some true
  | some (c, rest) ↦ elim (body previous c) [
    | none ↦ some false
    | some p ↦ for_chars body fuel p rest
  ]
]

pub or_false : Option Bool → Bool
or_false none = false
or_false (some b) = b

-- Each round passes a byte or ends the loop, so one more round than bytes is enough.
pub all_chars : (ℕ → ℕ → Option ℕ) → List ℕ → Bool
unfolding for_chars or_false next
all_chars body string = or_false (for_chars body (suc (length string)) 0 string)

unfoldable pub qos_valid : ℕ → Bool
qos_valid qos = leb qos 2

pub client_id_char : ℕ → ℕ → Option ℕ
client_id_char previous c = if c == 0 then none else some previous

pub client_id_valid : List ℕ → Bool
unfolding all_chars client_id_char
client_id_valid string =
    if ltb 65535 (length string) then false else all_chars client_id_char string

unfoldable pub publish_topic_char : ℕ → ℕ → Option ℕ
publish_topic_char previous c =
    if c == 0 then none else if c == 0x2b then none else if c == 0x23 then none else some previous

pub publish_topic_valid : List ℕ → Bool
unfolding all_chars publish_topic_char
publish_topic_valid topic =
    if not (leb 1 (length topic) && leb (length topic) 65535)
    then false
    else all_chars publish_topic_char topic

pub topic_filter_char : ℕ → ℕ → Option ℕ
topic_filter_char previous c =
    if c == 0
    then none
    else if previous == 0x23
    then none
    else if c == 0x23 && not (previous == 0) && not (previous == 0x2f)
    then none
    else if previous == 0x2b && not (c == 0x2f)
    then none
    else if c == 0x2b && not (previous == 0) && not (previous == 0x2f)
    then none
    else some c

pub topic_filter_valid : List ℕ → Bool
unfolding all_chars topic_filter_char
topic_filter_valid topic =
    if not (leb 1 (length topic) && leb (length topic) 65535)
    then false
    else all_chars topic_filter_char topic
