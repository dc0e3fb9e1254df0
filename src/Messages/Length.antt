-- ===== src/Messages/Length.antt =====
-- messages/length.rs: the variable-length integer of the fixed header.
-- A byte is a number below 256; `usize` has 64 bits, and no value here comes near 2 ^ 64.
pub mod Encode
pub mod Decode
pub mod RoundTrip
use squillion_mqtt.Prelude.{
  ℕ, zero, suc, ◌+◌, ◌*◌, ◌/◌, ◌%◌, ◌^◌, ◌≤◌, ◌<◌, bit_and, bit_or, ◌≡◌, refl, Bool, true, false,
  ◌&&◌, ◌||◌, Option, none, some, List, [], ◌∷◌, ◌++◌, ltb, ◌==◌, if◌then◌else◌, arith,
}
use squillion_mqtt.Prelude.Order.{lt_wf}
use squillion_mqtt.Result.{Result, ok, err}
use mathlib.Core.Logic.{dite}
use mathlib.Core.WellFounded.{Acc}
use native.Mathlib.Decide.{dec_lt}

abbrev pub max_length : ℕ
max_length = 268435455

abbrev pub IsByte : ℕ → Type 0
IsByte b = b < 256

-- `(byte & 0x80) == 0x80`
abbrev pub continues : ℕ → Bool
continues b = bit_and b 0x80 == 0x80

-- `len |= (byte & 0x7F) << (7 * lensize)`
abbrev pub join_group : ℕ → ℕ → ℕ → ℕ
join_group len c lensize = bit_or len (bit_and c 0x7f * 2 ^ (7 * lensize))

-- The loop of `read_size`: `b` is `buf[idx]` and the list is `buf[idx + 1..]`.
-- `none` is the panic of an index out of bounds.
pub read_loop : ℕ → List ℕ → ℕ → ℕ → Option (ℕ × ℕ)
read_loop b [] len lensize = if continues b then none else some (len, lensize)
read_loop b (c ∷ rest) len lensize =
    let more = read_loop c rest (join_group len c lensize) (lensize + 1) in
    if continues b then more else some (len, lensize)

pub read_size : List ℕ → Option (ℕ × ℕ)
read_size [] = none
read_size (b ∷ rest) = read_loop b rest (bit_and b 0x7f) 1

-- The loop of `read_size_check`, over the same variables.
unfoldable pub check_loop : ℕ → List ℕ → ℕ → ℕ → Result (Unit {0}) (Option (ℕ × ℕ))
check_loop b [] len lensize = if continues b then ok none else ok (some (len, lensize))
check_loop b (c ∷ rest) len lensize =
    let more = check_loop c rest (join_group len c lensize) (lensize + 1) in
    if continues b
    then if ltb 4 (lensize + 1) || (lensize + 1 == 4 && continues c) then err tt else more
    else ok (some (len, lensize))

unfoldable pub read_size_check : List ℕ → Result (Unit {0}) (Option (ℕ × ℕ))
read_size_check [] = ok none
read_size_check (b ∷ rest) = check_loop b rest (bit_and b 0x7f) 1

quotient_shrinks : (n : ℕ) → 0 < n / 128 → n / 128 < n
quotient_shrinks n h = omega arith

-- `length /= 128` until it is 0; each round pushes one byte.
pub encode_loop : List ℕ → (length : ℕ) → Acc ◌<◌ length → List ℕ
encode_loop encoded length (Acc.intro _ smaller) =
    dite (dec_lt 0 (length / 128))
      (λ more.
        encode_loop (encoded ++ (bit_and (bit_or (length % 128) 128) 0xff ∷ [])) (length / 128)
          (smaller _ (quotient_shrinks length more)))
      (λ _. encoded ++ (bit_and (length % 128) 0xff ∷ []))

pub encode_length : ℕ → List ℕ
unfolding lt_wf dec_lt
encode_length length = encode_loop [] length (lt_wf.apply length)
