-- ===== src/Messages/Reader/Varint.antt =====
-- src/messages/reader.rs: `read_varint`, next to `read_size_check` of src/messages/length.rs.
use squillion_mqtt.Prelude.{
  ℕ, zero, suc, ◌+◌, ◌-◌, ◌≤◌, true, false, List, [], ◌∷◌, length, ltb, ◌≡◌, refl, ap, ◌∙◌, sym,
  arith, some, Bool-cases, inl, inr,
}
use squillion_mqtt.Result.{ok}
use squillion_mqtt.Messages.Fault.{Checked}
use squillion_mqtt.Messages.Length.{
  continues, join_group, check_loop, read_size_check, max_length, encode_length,
}
use squillion_mqtt.Messages.Length.Decode.{
  check_loop_grows, check_loop_stop, check_loop_next, check_loop_ends, read_size_check-nil,
  read_size_check-cons,
}
use squillion_mqtt.Messages.Length.RoundTrip.{read_size_check-encode_length}
use squillion_mqtt.Messages.Reader.{
  Reader, Parse, continue_with, ◌>>=◌, need, nth, peek, varint_loop, read_varint,
}
use squillion_mqtt.Messages.Reader.Reads.{
  Reads, unread, moved, InBounds, InBounds-moved, unread-moved, Reads-need, Reads-peek, moved-moved,
  moved-zero,
}

-- One step of a parser whose first action is known.
step-bind :
    {A B : Type 0} (m : Parse A) (f : A → Parse B) (r r' : Reader) (a : A)
    → m r ≡ ok (a, r')
    → (m >>= f) r ≡ f a r'
step-bind m f r r' a e = ap (λ q. continue_with q f) e

peek_head : (r : Reader) (b : ℕ) (s : List ℕ) → InBounds r → unread r ≡ b ∷ s → peek 0 r ≡ ok (b, r)
unfolding nth
peek_head r b s i h = (Reads-peek 0 b (b ∷ s) refl).at r i h ∙ ap (λ q. ok (b, q)) (moved-zero r)

need_one : (r : Reader) (b : ℕ) (s : List ℕ) → InBounds r → unread r ≡ b ∷ s → need 1 r ≡ ok (tt, r)
need_one r b s i h =
    (Reads-need 1 (b ∷ s) (omega arith)).at r i h ∙ ap (λ q. ok (tt, q)) (moved-zero r)

varint_stop :
    (fuel b : ℕ) (s : List ℕ) (len lensize : ℕ) (r : Reader)
    → InBounds r
    → unread r ≡ b ∷ s
    → continues b ≡ false
    → varint_loop (suc fuel) len lensize r ≡ ok (len, r)
unfolding varint_loop
varint_stop fuel b s len lensize r i h c = step-bind (peek 0) _ r r b (peek_head r b s i h) ∙ rw c

varint_more :
    (fuel b c : ℕ) (s : List ℕ) (len lensize : ℕ) (r : Reader)
    → InBounds r
    → unread r ≡ b ∷ c ∷ s
    → continues b ≡ true
    → ltb 4 (lensize + 1) ≡ false
    → varint_loop (suc fuel) len lensize r
      ≡ varint_loop fuel (join_group len c lensize) (lensize + 1) (moved r 1)
unfolding varint_loop
varint_more fuel b c s len lensize r i h t small =
    let r' = moved r 1 in
    let h' : unread r' ≡ c ∷ s = unread-moved r (b ∷ []) (c ∷ s) h in
    let i' : InBounds r' = InBounds-moved r (b ∷ []) (c ∷ s) i h in
    step-bind (peek 0) _ r r b (peek_head r b (c ∷ s) i h)
    ∙ rw t (
        step-bind (need 1) _ r' r' tt (need_one r' c s i' h')
        ∙ step-bind (peek 0) _ r' r' c (peek_head r' c s i' h')
        ∙ rw small)

result_eq :
    {a b : ℕ} {r s : Reader}
    → a ≡ b
    → r ≡ s
    → ◌≡◌ {A = Checked (ℕ × Reader)} (ok (a, r)) (ok (b, s))
result_eq p q = cc

stopped :
    (fuel b : ℕ) (s : List ℕ) (len lensize n k : ℕ) (r : Reader)
    → InBounds r
    → unread r ≡ b ∷ s
    → continues b ≡ false
    → check_loop b s len lensize ≡ ok (some (n, k))
    → varint_loop (suc fuel) len lensize r ≡ ok (n, moved r (k - lensize))
stopped fuel b s len lensize n k r i h f e =
    let (p, q) = check_loop_stop b s len lensize n k f e in
    let none_left : k - lensize ≡ 0 = omega arith in
    varint_stop fuel b s len lensize r i h f
    ∙ result_eq p (sym (ap (moved r) none_left ∙ moved-zero r))

full : (lensize : ℕ) → ltb 4 (lensize + 1) ≡ false → 0 + lensize ≡ 4 → ⊥
full lensize h e = ground arith

step_back : (l k : ℕ) → l + 1 ≤ k → 1 + (k - (l + 1)) ≡ k - l
step_back l k h = omega arith

varint_loop-check_loop :
    (fuel b : ℕ) (rest : List ℕ) (len lensize n k : ℕ) (r : Reader)
    → fuel + lensize ≡ 4
    → InBounds r
    → unread r ≡ b ∷ rest
    → check_loop b rest len lensize ≡ ok (some (n, k))
    → varint_loop (suc fuel) len lensize r ≡ ok (n, moved r (k - lensize))
varint_loop-check_loop fuel b [] len lensize n k r fu i h e =
    stopped fuel b [] len lensize n k r i h (check_loop_ends b len lensize n k e) e
varint_loop-check_loop zero b (c ∷ rest) len lensize n k r fu i h e =
    elim (Bool-cases (continues b)) [
      | inl t ↦ absurd (full lensize (check_loop_next b c rest len lensize n k t e).0 fu)
      | inr f ↦ stopped zero b (c ∷ rest) len lensize n k r i h f e
    ]
varint_loop-check_loop (suc fuel) b (c ∷ rest) len lensize n k r fu i h e =
    elim (Bool-cases (continues b)) [
      | inl t ↦
          let (small, e') = check_loop_next b c rest len lensize n k t e in
          varint_more (suc fuel) b c rest len lensize r i h t small
          ∙ varint_loop-check_loop fuel c rest (join_group len c lensize) (lensize + 1) n k
              (moved r 1) (omega arith) (InBounds-moved r (b ∷ []) (c ∷ rest) i h)
              (unread-moved r (b ∷ []) (c ∷ rest) h) e'
          ∙ result_eq refl (
              moved-moved r 1 (k - (lensize + 1))
              ∙ ap (moved r) (step_back lensize k (check_loop_grows c rest _ _ n k e')))
      | inr f ↦ stopped (suc fuel) b (c ∷ rest) len lensize n k r i h f e
    ]

spans :
    (n k p : ℕ) (buf : List ℕ)
    → 1 ≤ k
    → ◌≡◌ {A = (ℕ × ℕ) × Reader}
        ((n, p + (k - 1) + 1 - p), record { buf = buf; pos = p + (k - 1) + 1 })
        ((n, k), record { buf = buf; pos = p + k })
spans n k p buf h =
    let size : p + (k - 1) + 1 - p ≡ k = omega arith in
    let end : p + (k - 1) + 1 ≡ p + k = omega arith in cc

read_at :
    (bs : List ℕ) (r : Reader) (n k : ℕ)
    → InBounds r
    → unread r ≡ bs
    → read_size_check bs ≡ ok (some (n, k))
    → read_varint r ≡ ok ((n, k), moved r k)
unfolding read_varint
read_at [] r n k i h e = cc (e, read_size_check-nil)
read_at (b ∷ rest) r n k i h e =
    let e' = rw read_size_check-cons at e in
    let le : 1 ≤ k = check_loop_grows b rest _ 1 n k e' in
    let r' = moved r (k - 1) in
    step-bind (need 1) _ r r tt (need_one r b rest i h)
    ∙ step-bind (peek 0) _ r r b (peek_head r b rest i h)
    ∙ step-bind (varint_loop 4 _ 1) _ r r' n (varint_loop-check_loop 3 b rest _ 1 n k r refl i h e')
    ∙ ap (λ q. ok q) (spans n k r.pos r.buf le)

-- Where `read_size_check` reads a length from the unread bytes, `read_varint` returns the same result
-- and moves the cursor by its bytes.
pub read_varint-read_size_check :
    (r : Reader) (n k : ℕ)
    → InBounds r
    → read_size_check (unread r) ≡ ok (some (n, k))
    → read_varint r ≡ ok ((n, k), moved r k)
read_varint-read_size_check r n k i e = read_at (unread r) r n k i refl e

-- `read_varint` reads back every length that `encode_length` writes.
pub Reads-read_varint :
    (n : ℕ) (s : List ℕ)
    → n ≤ max_length
    → Reads read_varint (encode_length n) s (n, length (encode_length n))
Reads-read_varint n s h = record {
  at = λ r i e.
      read_varint-read_size_check r n (length (encode_length n)) i
        (rw e (read_size_check-encode_length n s h));
}
