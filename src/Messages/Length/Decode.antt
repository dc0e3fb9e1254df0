-- ===== src/Messages/Length/Decode.antt =====
-- src/messages/length.rs: `read_size_check` on any bytes.
use squillion_mqtt.Prelude.{ltb, none, refl}
use squillion_mqtt.Prelude.{
  ℕ, suc, ◌+◌, ◌*◌, ◌%◌, ◌^◌, ◌≤◌, ◌<◌, bit_and, ◌≡◌, true, false, List, [], ◌∷◌, ◌++◌, length,
  arith, some,
}
use squillion_mqtt.Prelude.Bits.{low_seven, top_bit, bit_or-low}
use squillion_mqtt.Result.{ok, err}
use squillion_mqtt.Messages.Length.{
  max_length, continues, join_group, read_loop, read_size, check_loop, read_size_check,
}
use native.Mathlib.Nat.{pow-suc, pow-le-pow_right}

pub continues-high : (b : ℕ) → b < 256 → 128 ≤ b → continues b ≡ true
continues-high b h k = ground (arith, top_bit b h)

pub continues-low : (b : ℕ) → b < 128 → continues b ≡ false
continues-low b h = ground (arith, top_bit b)

-- Joining a group is a sum, as long as the bits below it are free.
pub join_group-sum :
    (len c k : ℕ) → len < 2 ^ (7 * k) → join_group len c k ≡ len + c % 128 * 2 ^ (7 * k)
join_group-sum len c k h = rw low_seven (bit_or-low (7 * k) (c % 128) len h)

pub pow_seven : (k : ℕ) → 2 ^ (7 * (k + 1)) ≡ 128 * 2 ^ (7 * k)
pow_seven k =
    let e : 7 * (k + 1) ≡ suc (suc (suc (suc (suc (suc (suc (7 * k))))))) = omega arith in
    rw e (simp pow-suc (omega arith))

pub join_group-fits : (len c k : ℕ) → len < 2 ^ (7 * k) → join_group len c k < 2 ^ (7 * (k + 1))
join_group-fits len c k h = rw (join_group-sum len c k h, pow_seven) (scaled (2 ^ (7 * k)) h)
  where
    scaled : (p : ℕ) → len < p → len + c % 128 * p < 128 * p
    scaled p q = let g : c % 128 ≤ 127 = omega arith in grind arith

-- A byte without the top bit ends the loop, whatever follows.
pub check_loop_last :
    (b : ℕ) (rest : List ℕ) (len lensize : ℕ)
    → continues b ≡ false
    → check_loop b rest len lensize ≡ ok (some (len, lensize))
unfolding check_loop
check_loop_last b [] len lensize h = rw h
check_loop_last b (c ∷ rest) len lensize h = rw h

pub first_fits : (b : ℕ) → bit_and b 0x7f < 2 ^ (7 * 1)
first_fits b = rw low_seven (omega arith)

-- What a successful read says: the number fits its groups of seven bits, of which there are at most
-- four, and the bytes are there.
check_loop_bounds :
    (b : ℕ) (rest : List ℕ) (len lensize n k : ℕ)
    → len < 2 ^ (7 * lensize)
    → lensize ≤ 4
    → check_loop b rest len lensize ≡ ok (some (n, k))
    → (n < 2 ^ (7 * k)) × (lensize ≤ k) × (k ≤ 4) × (k ≤ lensize + length rest)
unfolding check_loop
check_loop_bounds b [] len lensize n k h l e = ground arith
check_loop_bounds b (c ∷ rest) len lensize n k h l e = ground (
  arith,
  join_group-fits len c lensize h,
  check_loop_bounds c rest (join_group len c lensize) (lensize + 1) n k,
)

-- A length that is read is at most the protocol's `MAX_LENGTH`, and stands in one to four bytes of
-- the buffer.
pub read_size_check_bounds :
    (buf : List ℕ) (n k : ℕ)
    → read_size_check buf ≡ ok (some (n, k))
    → (n ≤ max_length) × (1 ≤ k) × (k ≤ 4) × (k ≤ length buf)
unfolding read_size_check
read_size_check_bounds [] n k e = cc
read_size_check_bounds (b ∷ rest) n k e =
    let (fits, lo, hi, have) = check_loop_bounds b rest _ 1 n k (first_fits b) (omega arith) e in
    let cap : 2 ^ (7 * k) ≤ 2 ^ 28 = pow-le-pow_right (omega arith) {j = 28} (omega arith) in
    (omega arith, lo, hi, omega arith)

-- A length of which more bytes are to come has at most three.
check_loop_waits :
    (b : ℕ) (rest : List ℕ) (len lensize : ℕ)
    → lensize ≤ 4
    → (lensize ≡ 4 → continues b ≡ false)
    → check_loop b rest len lensize ≡ ok none
    → lensize + length rest ≤ 3
unfolding check_loop
check_loop_waits b [] len lensize l h e = ground arith
check_loop_waits b (c ∷ rest) len lensize l h e =
    ground (arith, check_loop_waits c rest (join_group len c lensize) (lensize + 1))

pub read_size_check_waits_length : (buf : List ℕ) → read_size_check buf ≡ ok none → length buf ≤ 3
unfolding read_size_check
read_size_check_waits_length [] e = omega arith
read_size_check_waits_length (b ∷ rest) e =
    let h = check_loop_waits b rest _ 1 (omega arith) (λ f. absurd (omega (arith, f))) e in
    omega (arith, h)

-- Bytes behind a length that was read, or refused, do not change the outcome.
check_loop-append_some :
    (b : ℕ) (rest more : List ℕ) (len lensize : ℕ) (r : ℕ × ℕ)
    → check_loop b rest len lensize ≡ ok (some r)
    → check_loop b (rest ++ more) len lensize ≡ ok (some r)
unfolding check_loop
check_loop-append_some b [] more len lensize r e =
    ground (arith, check_loop_last b more len lensize)
check_loop-append_some b (c ∷ rest) more len lensize r e =
    ground (arith, check_loop-append_some c rest more (join_group len c lensize) (lensize + 1) r)

check_loop-append_err :
    (b : ℕ) (rest more : List ℕ) (len lensize : ℕ)
    → check_loop b rest len lensize ≡ err tt
    → check_loop b (rest ++ more) len lensize ≡ err tt
unfolding check_loop
check_loop-append_err b [] more len lensize e = ground arith
check_loop-append_err b (c ∷ rest) more len lensize e =
    ground (arith, check_loop-append_err c rest more (join_group len c lensize) (lensize + 1))

pub read_size_check-append_some :
    (buf more : List ℕ) (r : ℕ × ℕ)
    → read_size_check buf ≡ ok (some r)
    → read_size_check (buf ++ more) ≡ ok (some r)
unfolding read_size_check
read_size_check-append_some [] more r e = cc
read_size_check-append_some (b ∷ rest) more r e = check_loop-append_some b rest more _ 1 r e

pub read_size_check-append_err :
    (buf more : List ℕ) → read_size_check buf ≡ err tt → read_size_check (buf ++ more) ≡ err tt
unfolding read_size_check
read_size_check-append_err [] more e = cc
read_size_check-append_err (b ∷ rest) more e = check_loop-append_err b rest more _ 1 e

-- The unchecked reader agrees wherever the checked one succeeds.
check_loop-read_loop :
    (b : ℕ) (rest : List ℕ) (len lensize : ℕ) (r : ℕ × ℕ)
    → check_loop b rest len lensize ≡ ok (some r)
    → read_loop b rest len lensize ≡ some r
unfolding check_loop read_loop
check_loop-read_loop b [] len lensize r e = ground arith
check_loop-read_loop b (c ∷ rest) len lensize r e =
    ground (arith, check_loop-read_loop c rest (join_group len c lensize) (lensize + 1) r)

-- Where `read_size_check` reads a length, the unchecked `read_size` returns the same length and the
-- same number of bytes, without an index out of bounds.
pub read_size_agrees :
    (buf : List ℕ) (r : ℕ × ℕ) → read_size_check buf ≡ ok (some r) → read_size buf ≡ some r
unfolding read_size_check read_size
read_size_agrees [] r e = cc
read_size_agrees (b ∷ rest) r e = check_loop-read_loop b rest _ 1 r e

pub check_loop_grows :
    (b : ℕ) (rest : List ℕ) (len lensize n k : ℕ)
    → check_loop b rest len lensize ≡ ok (some (n, k))
    → lensize ≤ k
unfolding check_loop
check_loop_grows b [] len lensize n k e = ground arith
check_loop_grows b (c ∷ rest) len lensize n k e =
    ground (arith, check_loop_grows c rest (join_group len c lensize) (lensize + 1) n k)

-- The two outcomes of a round in which `check_loop` goes on to success.
pub check_loop_stop :
    (b : ℕ) (rest : List ℕ) (len lensize n k : ℕ)
    → continues b ≡ false
    → check_loop b rest len lensize ≡ ok (some (n, k))
    → (len ≡ n) × (lensize ≡ k)
unfolding check_loop
check_loop_stop b [] len lensize n k c e = ground arith
check_loop_stop b (x ∷ rest) len lensize n k c e = ground arith

pub check_loop_next :
    (b c : ℕ) (rest : List ℕ) (len lensize n k : ℕ)
    → continues b ≡ true
    → check_loop b (c ∷ rest) len lensize ≡ ok (some (n, k))
    → (ltb 4 (lensize + 1) ≡ false)
      × (check_loop c rest (join_group len c lensize) (lensize + 1) ≡ ok (some (n, k)))
unfolding check_loop
check_loop_next b c rest len lensize n k h e = ground arith

-- After a byte with the top bit set, nothing is read at the end of the buffer.
pub check_loop_ends :
    (b len lensize n k : ℕ) → check_loop b [] len lensize ≡ ok (some (n, k)) → continues b ≡ false
unfolding check_loop
check_loop_ends b len lensize n k e = ground arith

pub read_size_check-nil : read_size_check [] ≡ ok none
unfolding read_size_check
read_size_check-nil = refl

pub read_size_check-cons :
    (b : ℕ) (rest : List ℕ) → read_size_check (b ∷ rest) ≡ check_loop b rest (bit_and b 0x7f) 1
unfolding read_size_check
read_size_check-cons b rest = refl
