-- ===== src/Messages/Reader/Safe.antt =====
-- src/messages/reader.rs: the outcomes of the cursor's operations, on any buffer and from any position in it.
use squillion_mqtt.Prelude.{
  ℕ, zero, suc, ◌+◌, ◌-◌, ◌≤◌, ◌<◌, true, List, [], ◌∷◌, length, leb, ltb, ◌≡◌, refl, ap, arith,
  Bool-cases, inl, inr,
}
use squillion_mqtt.Result.{ok, err}
use squillion_mqtt.Messages.Fault.{io, IoError, Checked}
use squillion_mqtt.Messages.Length.{continues, join_group}
use squillion_mqtt.Messages.Reader.{
  Reader, Parse, ◌>>=◌, ◌>>◌, new, need, nth, run, read_u8, read_u16, read_bytes,
  read_mqtt_string_prefixed, varint_loop, read_varint, skip,
}
use squillion_mqtt.Messages.Reader.Reads.{InBounds}
pub use squillion_mqtt.Messages.Reader.Fine.{
  Fine, done, failed, Safe, Safe-bind, Safe-then, Safe-pure, Safe-error, Safe-if, Safe-reject_if,
  Safe-from_utf8, Safe-expect_end, Safe-checked_sub,
}

-- An index inside the list gives a byte.
nth_total : (bs : List ℕ) (i : ℕ) → i < length bs → (b : ℕ) × (nth bs i ≡ ok b)
unfolding nth
nth_total [] i h = elim h [ ]
nth_total (b ∷ bs) zero h = (b, refl)
nth_total (b ∷ bs) (suc i) h = nth_total bs i (omega arith)

-- Reading `n` bytes by a parser that is fine wherever they are there.
guarded :
    {A : Type 0} {lo : ℕ} {buf : List ℕ} (n : ℕ) (m : Parse A) (r : Reader)
    → (r.pos + n ≤ length r.buf → Fine lo buf (m r))
    → InBounds r
    → Fine lo buf ((need n >> m) r)
unfolding need
guarded n m r h i = elim (Bool-cases (ltb (length r.buf - r.pos) n)) [
  | inl short ↦ rw short failed
  | inr enough ↦ rw enough (h (ground arith))
]

pub Fine-weaken :
    {A : Type 0} {lo lo' : ℕ} {buf : List ℕ} {x : Checked (A × Reader)}
    → lo ≤ lo'
    → Fine lo' buf x
    → Fine lo buf x
Fine-weaken h (done s l i) = done s (omega arith) i
Fine-weaken h failed = failed

room :
    {lo : ℕ} {buf : List ℕ} (r : Reader)
    → r.buf ≡ buf
    → lo ≤ r.pos
    → r.pos + 2 ≤ length r.buf
    → lo + 2 ≤ length buf
room r s l h = omega (arith, ap (length {A = ℕ}) s)

-- The two bytes of a `u16` are passed before the rest of the parser runs.
pub Safe-read_u16_then :
    {A : Type 0} {lo : ℕ} {buf : List ℕ} (f : ℕ → Parse A)
    → (lo + 2 ≤ length buf → (v : ℕ) → Safe (lo + 2) buf (f v))
    → Safe lo buf (read_u16 >>= f)
unfolding read_u16
Safe-read_u16_then {lo = lo} {buf = buf} f h = record {
  at = λ r s l i. elim (Bool-cases (ltb (length r.buf - r.pos) 2)) [
    | inl short ↦ rw short failed
    | inr enough ↦
        let (hi, e) = nth_total r.buf (r.pos + 0) (ground arith) in
        let (low, e') = nth_total r.buf (r.pos + 1) (ground arith) in
        rw (enough, e, e')
          (Fine-weaken {lo' = lo + 2} (omega arith) (
            (h (room r s l (ground arith)) _).at (record r { pos = r.pos + 2 }) s (omega arith)
              (ground arith)))
  ];
}

module _ {lo : ℕ} {buf : List ℕ} where
  pub Safe-read_u8 : Safe lo buf read_u8
  unfolding read_u8
  Safe-read_u8 = record {
    at = λ r s l i.
        guarded 1 _ r
          (λ h.
            let (b, e) = nth_total r.buf (r.pos + 0) (omega arith) in
            rw e (done s (omega arith) (omega arith)))
          i;
  }

  pub Safe-read_u16 : Safe lo buf read_u16
  unfolding read_u16
  Safe-read_u16 = record {
    at = λ r s l i.
        guarded 2 _ r
          (λ h.
            let (hi, e) = nth_total r.buf (r.pos + 0) (omega arith) in
            let (low, e') = nth_total r.buf (r.pos + 1) (omega arith) in
            rw (e, e') (done s (omega arith) (omega arith)))
          i;
  }

  pub Safe-read_bytes : (n : ℕ) → Safe lo buf (read_bytes n)
  unfolding read_bytes
  Safe-read_bytes n = record {
    at = λ r s l i.
        guarded n _ r
          (λ h.
            let e : leb (r.pos + n) (length r.buf) ≡ true = ground arith in
            rw e (done s (omega arith) h))
          i;
  }

  pub Safe-skip : (n : ℕ) → Safe lo buf (skip n)
  unfolding skip
  Safe-skip n = record { at = λ r s l i. guarded n _ r (λ h. done s (omega arith) h) i }

-- The loop of `read_varint`, with the rest of the parser behind it.
loop-Fine :
    {A : Type 0} (lo : ℕ) (buf : List ℕ) (fuel len lensize : ℕ) (k : ℕ → Parse A) (r : Reader)
    → lo ≤ r.pos
    → r.buf ≡ buf
    → fuel + lensize ≡ 5
    → lensize ≤ 4
    → r.pos < length r.buf
    → ((n : ℕ) (r' : Reader)
        → lo ≤ r'.pos
        → r'.buf ≡ buf
        → r'.pos < length r'.buf
        → Fine lo buf (k n r'))
    → Fine lo buf ((varint_loop fuel len lensize >>= k) r)
unfolding varint_loop
loop-Fine lo buf zero len lensize k r l s fu le i h = absurd (omega arith)
loop-Fine lo buf (suc fuel) len lensize k r l s fu le i h =
    let (b, e) = nth_total r.buf (r.pos + 0) (omega arith) in
    elim (Bool-cases (continues b)) [
      | inr stop ↦ rw (e, stop) (h len r l s i)
      | inl more ↦ elim (Bool-cases (ltb (length r.buf - (r.pos + 1)) 1)) [
        | inl short ↦ rw (e, more, short) failed
        | inr enough ↦
            let (c, e') = nth_total r.buf (r.pos + 1 + 0) (ground arith) in
            elim (Bool-cases (ltb 4 (lensize + 1))) [
              | inl long ↦ rw (e, more, enough, e', long) failed
              | inr room ↦
                  rw (e, more, enough, e', room)
                    (loop-Fine lo buf fuel (join_group len c lensize) (lensize + 1) k
                      (record r { pos = r.pos + 1 }) (omega arith) s (omega arith) (ground arith)
                      (ground arith) h)
            ]
      ]
    ]

pub Safe-read_varint : {lo : ℕ} {buf : List ℕ} → Safe lo buf read_varint
unfolding read_varint
Safe-read_varint {lo} {buf} = record {
  at = λ r s l i.
      guarded 1 _ r
        (λ h.
          let (b, e) = nth_total r.buf (r.pos + 0) (omega arith) in
          rw e (
            loop-Fine lo buf 4 _ 1 _ r l s refl (omega arith) (omega arith)
              (λ n r' l' s' q. done s' (omega arith) (omega arith))))
        i;
}

pub ruleset safe_rules = (
  Safe-bind, Safe-then, Safe-pure, Safe-error, Safe-if, Safe-reject_if, Safe-from_utf8,
  Safe-read_u8, Safe-read_u16, Safe-read_varint, Safe-read_bytes, Safe-skip, Safe-expect_end,
  Safe-checked_sub,
)

pub Safe-read_mqtt_string_prefixed : {lo : ℕ} {buf : List ℕ} → Safe lo buf read_mqtt_string_prefixed
unfolding read_mqtt_string_prefixed
Safe-read_mqtt_string_prefixed = search safe_rules

-- A packet whose parser is safe gives a message or an error of the code.
pub data Settled {A : Type 0} : Checked A → Type 0 where
  parsed : {a : A} → Settled (ok a)
  refused : {e : IoError} → Settled (err (io e))

settle :
    {A : Type 0} {buf : List ℕ} {x : Checked (A × Reader)}
    → Fine 0 buf x
    → Settled (elim x as (λ _. Checked A) [ ok (a, r) ↦ ok a | err e ↦ err e ])
settle (done s l i) = parsed
settle failed = refused

pub Settled-run : {A : Type 0} (p : Parse A) (buf : List ℕ) → Safe 0 buf p → Settled (run p buf)
unfolding run new
Settled-run p buf h = settle (h.at (new buf) refl (omega arith) (omega arith))
