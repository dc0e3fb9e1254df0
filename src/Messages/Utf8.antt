-- ===== src/Messages/Utf8.antt =====
-- The check of `String::from_utf8`: the well-formed byte sequences of the Unicode standard, as an
-- automaton. A `String` of the program is the list of its bytes.
use squillion_mqtt.Prelude.{
  ℕ, Bool, true, false, ◌&&◌, List, [], ◌∷◌, leb, ltb, ◌==◌, if◌then◌else◌,
}

-- What may come next: the start of a character, or a given number of continuation bytes, of which
-- the first is restricted after the lead bytes E0, ED, F0 and F4.
pub data State : Type 0 where
  start : State
  tail₁ tail₂ tail₃ : State
  after_e0 after_ed after_f0 after_f4 : State
  bad : State

abbrev within : ℕ → ℕ → ℕ → Bool
within lo hi b = leb lo b && leb b hi

step : State → ℕ → State
step start b =
    if ltb b 0x80
    then start
    else if within 0xc2 0xdf b
    then tail₁
    else if b == 0xe0
    then after_e0
    else if b == 0xed
    then after_ed
    else if within 0xe1 0xef b
    then tail₂
    else if b == 0xf0
    then after_f0
    else if b == 0xf4
    then after_f4
    else if within 0xf1 0xf3 b
    then tail₃
    else bad
step tail₁ b = if within 0x80 0xbf b then start else bad
step tail₂ b = if within 0x80 0xbf b then tail₁ else bad
step tail₃ b = if within 0x80 0xbf b then tail₂ else bad
step after_e0 b = if within 0xa0 0xbf b then tail₁ else bad
step after_ed b = if within 0x80 0x9f b then tail₁ else bad
step after_f0 b = if within 0x90 0xbf b then tail₂ else bad
step after_f4 b = if within 0x80 0x8f b then tail₂ else bad
step bad b = bad

run : State → List ℕ → Bool
unfolding step
run start [] = true
run _ [] = false
run s (b ∷ bs) = run (step s b) bs

unfoldable pub is_utf8 : List ℕ → Bool
unfolding run
is_utf8 bytes = run start bytes

-- ASCII text is well formed.
