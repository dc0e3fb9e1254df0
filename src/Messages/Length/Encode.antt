-- ===== src/Messages/Length/Encode.antt =====
-- What `encode_length` writes, as groups of seven bits.
use squillion_mqtt.Prelude.{
  ℕ, zero, suc, ◌+◌, ◌/◌, ◌%◌, ◌^◌, ◌≤◌, ◌<◌, bit_and, bit_or, ◌≡◌, refl, ◌∙◌, List, [], ◌∷◌, ◌++◌,
  length, ltb, if◌then◌else◌, All, arith, Bool-cases, inl, inr,
}
use squillion_mqtt.Prelude.Bits.{low_byte, set_top_bit}
use squillion_mqtt.Messages.Length.{
  max_length, IsByte, quotient_shrinks, encode_loop, encode_length,
}
use mathlib.Core.Logic.{dif_pos}
use native.Mathlib.Bridge.{le_prop}
use native.Mathlib.Nat.{pow-suc}
use mathlib.Core.List.{append_assoc}
use mathlib.Core.WellFounded.{Acc}

encode_last :
    (encoded : List ℕ) (n : ℕ) (w : Acc ◌<◌ n)
    → n < 128
    → encode_loop encoded n w ≡ encoded ++ (n ∷ [])
unfolding encode_loop
encode_last encoded n (Acc.intro _ smaller) h =
    let b : bit_and (n % 128) 0xff ≡ n = omega (arith, low_byte (n % 128)) in grind (arith, b)

encode_more :
    (encoded : List ℕ) (n : ℕ) (w : Acc ◌<◌ n)
    → 128 ≤ n
    → (w' : Acc ◌<◌ (n / 128)) × (encode_loop encoded n w
        ≡ encode_loop (encoded ++ ((n % 128 + 128) ∷ [])) (n / 128) w')
unfolding encode_loop
encode_more encoded n (Acc.intro _ smaller) h =
    let p : 0 < n / 128 = omega arith in
    let b : bit_and (bit_or (n % 128) 128) 0xff ≡ n % 128 + 128 =
      omega (arith, low_byte (bit_or (n % 128) 128), set_top_bit (n % 128)) in
    (smaller _ (quotient_shrinks n p), rw (dif_pos _ le_prop p, b))

-- The groups of seven bits of `n`, lowest first, in at most `k + 1` bytes; all but the last byte have
-- the top bit set.
unfoldable pub groups : ℕ → ℕ → List ℕ
groups zero n = n ∷ []
groups (suc k) n =
    let rest = groups k (n / 128) in if ltb n 128 then n ∷ [] else (n % 128 + 128) ∷ rest

encode_loop-groups :
    (k : ℕ) (encoded : List ℕ) (n : ℕ) (w : Acc ◌<◌ n)
    → n < 128 ^ suc k
    → encode_loop encoded n w ≡ encoded ++ groups k n
unfolding groups
encode_loop-groups zero encoded n w h = encode_last encoded n w h
encode_loop-groups (suc k) encoded n w h = elim (Bool-cases (ltb n 128)) [
  | inl small ↦ rw small (encode_last encoded n w (ground arith))
  | inr large ↦
      let (w', e) = encode_more encoded n w (ground arith) in
      rw (large, e)
        (encode_loop-groups k (encoded ++ ((n % 128 + 128) ∷ [])) (n / 128) w' (fits k n h)
          ∙ append_assoc encoded _ _)
]
  where
    fits : (k n : ℕ) → n < 128 ^ suc (suc k) → n / 128 < 128 ^ suc k
    fits k n h = omega (arith, pow-suc 128 (suc k))

-- The bytes of `encode_length`, up to the largest length that the protocol allows.
pub encode_length-groups : (n : ℕ) → n ≤ max_length → encode_length n ≡ groups 3 n
unfolding encode_length
encode_length-groups n h = encode_loop-groups 3 [] n _ (omega arith)

pub groups-IsByte : (k n : ℕ) → n < 128 ^ suc k → All IsByte (groups k n)
unfolding groups
groups-IsByte zero n h = omega arith
groups-IsByte (suc k) n h = ground (arith, pow-suc 128 (suc k), groups-IsByte k (n / 128))

pub length-groups : (k n : ℕ) → (1 ≤ length (groups k n)) × (length (groups k n) ≤ k + 1)
unfolding groups
length-groups zero n = omega arith
length-groups (suc k) n = ground (arith, length-groups k (n / 128))

pub encode_length-two : encode_length 2 ≡ 2 ∷ []
unfolding encode_length encode_loop
encode_length-two = refl
