-- ===== src/Messages/Length/RoundTrip.antt =====
-- src/messages/length.rs: the readers on what `encode_length` writes.
use squillion_mqtt.Prelude.{
  ℕ, zero, suc, ◌+◌, ◌*◌, ◌/◌, ◌%◌, ◌^◌, ◌≤◌, ◌<◌, bit_and, ◌≡◌, refl, sym, ◌⊎◌, ap, ◌∙◌, true,
  false, List, [], ◌∷◌, ◌++◌, length, length-append, ltb, arith, Bool-cases, inl, inr, some, none,
  Option,
}
use squillion_mqtt.Result.{Result, ok, err}
use squillion_mqtt.Prelude.Bits.{low_seven}
use squillion_mqtt.Messages.Length.{
  max_length, continues, join_group, check_loop, read_size_check, encode_length,
}
use squillion_mqtt.Messages.Length.Encode.{groups, encode_length-groups}
use squillion_mqtt.Messages.Length.Decode.{
  continues-high, continues-low, join_group-sum, join_group-fits, check_loop_last, pow_seven,
  read_size_check-append_some, read_size_check-append_err, read_size_check_bounds,
}
use mathlib.Core.List.{append-nil}
use native.Mathlib.Nat.{pow-suc, div-add-mod}

group_fits : (n len k : ℕ) → len < 2 ^ (7 * k) → len + n % 128 * 2 ^ (7 * k) < 2 ^ (7 * (k + 1))
group_fits n len k h = rw (sym (join_group-sum len n k h)) (join_group-fits len n k h)

pair_eq : {a b c d : ℕ} → a ≡ b → c ≡ d → ◌≡◌ {A = ℕ × ℕ} (a, c) (b, d)
pair_eq p q = cc

-- One more byte, while at most four are read.
check_loop_more :
    (b c : ℕ) (rest : List ℕ) (len lensize : ℕ)
    → continues b ≡ true
    → (lensize ≤ 3)
    → (lensize ≡ 3 → continues c ≡ false)
    → check_loop b (c ∷ rest) len lensize
      ≡ check_loop c rest (join_group len c lensize) (lensize + 1)
unfolding check_loop
check_loop_more b c rest len lensize h le last = ground arith

last_group :
    (n b len lensize : ℕ) (rest : List ℕ)
    → n < 128
    → continues b ≡ true
    → lensize ≤ 3
    → len < 2 ^ (7 * lensize)
    → check_loop b (n ∷ rest) len lensize ≡ ok (some (len + n * 2 ^ (7 * lensize), lensize + 1))
last_group n b len lensize rest hn hb hk hl =
    let small : n % 128 ≡ n = omega arith in
    rw (check_loop_more b n rest len lensize hb hk (λ _. continues-low n hn)) (
      check_loop_last n rest _ _ (continues-low n hn) ∙ rw (join_group-sum len n lensize hl, small))

-- The lowest group of `n` and the rest, both shifted.
split_groups :
    (n len k : ℕ)
    → len + n % 128 * 2 ^ (7 * k) + n / 128 * 2 ^ (7 * (k + 1)) ≡ len + n * 2 ^ (7 * k)
split_groups n len k = omega (
  arith,
  ap (λ (t : ℕ). t * 2 ^ (7 * k)) (div-add-mod n 128),
  ap (λ (t : ℕ). n / 128 * t) (pow_seven k),
)

inner_group :
    (n b len lensize : ℕ) (rest : List ℕ)
    → continues b ≡ true
    → lensize ≤ 2
    → len < 2 ^ (7 * lensize)
    → check_loop b ((n % 128 + 128) ∷ rest) len lensize
      ≡ check_loop (n % 128 + 128) rest (len + n % 128 * 2 ^ (7 * lensize)) (lensize + 1)
inner_group n b len lensize rest hb hk hl =
    let c : ℕ = n % 128 + 128 in
    let low : c % 128 ≡ n % 128 = omega arith in
    rw (check_loop_more b c rest len lensize hb (omega arith) (λ e. absurd (omega arith)))
      (rw (join_group-sum len c lensize hl, low))

check_loop-groups :
    (k n b len lensize : ℕ) (rest : List ℕ)
    → n < 128 ^ suc k
    → continues b ≡ true
    → lensize + k ≤ 3
    → len < 2 ^ (7 * lensize)
    → check_loop b (groups k n ++ rest) len lensize
      ≡ ok (some (len + n * 2 ^ (7 * lensize), lensize + length (groups k n)))
unfolding groups
check_loop-groups zero n b len lensize rest hn hb hk hl =
    last_group n b len lensize rest hn hb (omega arith) hl
check_loop-groups (suc k) n b len lensize rest hn hb hk hl = elim (Bool-cases (ltb n 128)) [
  | inl small ↦ rw small (last_group n b len lensize rest (ground arith) hb (omega arith) hl)
  | inr large ↦
      let len' : ℕ = len + n % 128 * 2 ^ (7 * lensize) in
      rw large (
        inner_group n b len lensize _ hb (omega arith) hl
        ∙ check_loop-groups k (n / 128) (n % 128 + 128) len' (lensize + 1) rest
            (omega (arith, pow-suc 128 (suc k))) (continues-high _ (omega arith) (omega arith))
            (omega arith) (group_fits n len lensize hl)
        ∙ ap (λ r. ok (some r)) (pair_eq (split_groups n len lensize) (omega arith)))
]

read_last :
    (n : ℕ) (rest : List ℕ) → n < 128 → check_loop n rest (bit_and n 0x7f) 1 ≡ ok (some (n, 1))
read_last n rest h =
    let small : bit_and n 0x7f ≡ n = omega (arith, low_seven n) in
    rw small (check_loop_last n rest n 1 (continues-low n h))

read_size_check-groups :
    (k n : ℕ) (rest : List ℕ)
    → k ≤ 3
    → n < 128 ^ suc k
    → read_size_check (groups k n ++ rest) ≡ ok (some (n, length (groups k n)))
unfolding read_size_check groups
read_size_check-groups zero n rest hk hn = read_last n rest hn
read_size_check-groups (suc k) n rest hk hn = elim (Bool-cases (ltb n 128)) [
  | inl small ↦ rw small (read_last n rest (ground arith))
  | inr large ↦
      let c : ℕ = n % 128 + 128 in
      let start : bit_and c 0x7f ≡ n % 128 = omega (arith, low_seven c) in
      rw (large, start)
        (check_loop-groups k (n / 128) c (n % 128) 1 rest (omega (arith, pow-suc 128 (suc k)))
            (continues-high _ (omega arith) (omega arith)) (omega arith) (omega arith)
          ∙ ap (λ r. ok (some r)) (pair_eq (omega arith) (omega arith)))
]

-- `read_size_check` reads back every length up to `MAX_LENGTH`, and the number of its bytes, whatever
-- follows.
pub read_size_check-encode_length :
    (n : ℕ) (rest : List ℕ)
    → n ≤ max_length
    → read_size_check (encode_length n ++ rest) ≡ ok (some (n, length (encode_length n)))
read_size_check-encode_length n rest h =
    rw (encode_length-groups n h) (read_size_check-groups 3 n rest (omega arith) (omega arith))

outcomes :
    (r : Result (Unit {0}) (Option (ℕ × ℕ)))
    → (r ≡ ok none) ⊎ (((p : ℕ × ℕ) × (r ≡ ok (some p))) ⊎ (r ≡ err tt))
outcomes (ok none) = inl refl
outcomes (ok (some p)) = inr (inl (p, refl))
outcomes (err tt) = inr (inr refl)

-- On every proper prefix of an encoded length, `read_size_check` asks for more bytes.
pub read_size_check_waits :
    (n x : ℕ) (front back : List ℕ)
    → n ≤ max_length
    → encode_length n ≡ front ++ (x ∷ back)
    → read_size_check front ≡ ok none
read_size_check_waits n x front back h e = elim (outcomes (read_size_check front)) [
  | inl waits ↦ waits
  | inr (inl (r, p)) ↦ ground (
    arith,
    whole,
    read_size_check-append_some front (x ∷ back) r p,
    read_size_check_bounds front r.0 r.1 p,
    length-append front (x ∷ back),
  )
  | inr (inr p) ↦ cc (whole, read_size_check-append_err front (x ∷ back) p)
]
  where
    whole : read_size_check (front ++ (x ∷ back)) ≡ ok (some (n, length (front ++ (x ∷ back))))
    whole = rw (append-nil, e) at (read_size_check-encode_length n [] h)
