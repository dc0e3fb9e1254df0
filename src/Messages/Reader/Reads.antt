-- ===== src/Messages/Reader/Reads.antt =====
-- What the cursor's operations read, at any position of the buffer.
use squillion_mqtt.Prelude.{
  ℕ, zero, suc, ◌+◌, ◌*◌, ◌≤◌, ◌<◌, Bool, true, false, List, [], ◌∷◌, ◌++◌, String, length, drop,
  ◌≡◌, refl, ap, ◌∙◌, sym, arith, length-append, length-drop, drop-drop, drop-append, take-append,
}
use squillion_mqtt.Prelude.{ltb, ◌-◌}
use squillion_mqtt.Messages.Reader.{new}
use squillion_mqtt.Prelude.Bits.{bit_or-high}
use squillion_mqtt.Result.{ok}
use squillion_mqtt.Messages.Fault.{Fault}
use squillion_mqtt.Messages.Utf8.{is_utf8}
use squillion_mqtt.Messages.Reader.{
  Reader, Parse, pure, continue_with, ◌>>=◌, ◌>>◌, reject_if, remaining, need, nth, with_reader,
  peek, advance, run, checked_sub, slice, read_u8, read_u16, read_bytes, from_utf8, expect_end,
}
use mathlib.Core.List.{append_assoc, append-nil}
use native.Mathlib.Nat.{zero-add, suc-add}

abbrev pub unread : Reader → List ℕ
unread r = drop r.pos r.buf

abbrev pub moved : Reader → ℕ → Reader
moved r n = record r { pos = r.pos + n }

-- The position never passes the end of the buffer.
abbrev pub InBounds : Reader → Type 0
InBounds r = r.pos ≤ length r.buf

-- With `bs` and then `s` unread, `p` consumes `bs` and returns `a`.
pub record Reads {A : Type 0} (p : Parse A) (bs s : List ℕ) (a : A) : Type 0 where
  pub at : (r : Reader) → InBounds r → unread r ≡ bs ++ s → p r ≡ ok (a, moved r (length bs))

pub moved-zero : (r : Reader) → moved r 0 ≡ r
moved-zero r = ap (λ p. record r { pos = p }) (omega arith)

pub moved-moved : (r : Reader) (m n : ℕ) → moved (moved r m) n ≡ moved r (m + n)
moved-moved r m n = ap (λ p. record r { pos = p }) (omega arith)

pub unread-moved :
    (r : Reader) (bs s : List ℕ) → unread r ≡ bs ++ s → unread (moved r (length bs)) ≡ s
unread-moved r bs s h =
    sym (drop-drop (length bs) r.pos r.buf) ∙ ap (drop (length bs)) h ∙ drop-append bs s

length-unread : (r : Reader) → length (unread r) ≡ remaining r
unfolding remaining
length-unread r = length-drop r.pos r.buf

pub InBounds-moved :
    (r : Reader) (bs s : List ℕ) → InBounds r → unread r ≡ bs ++ s → InBounds (moved r (length bs))
InBounds-moved r bs s i h =
    omega (arith, ap (length {A = ℕ}) h, length-drop r.pos r.buf, length-append bs s)

module _ {A : Type 0} where
  pub Reads-pure_eq : {a b : A} (s : List ℕ) → a ≡ b → Reads (pure a) [] s b
  Reads-pure_eq s e = record { at = λ r i h. rw (moved-zero r, e) }

  pub Reads-pure : (a : A) (s : List ℕ) → Reads (pure a) [] s a
  Reads-pure a s = record { at = λ r i h. ap (λ q. ok (a, q)) (sym (moved-zero r)) }

  pub Reads-bind :
      {B : Type 0} (m : Parse A) (f : A → Parse B) (bs cs s : List ℕ) (a : A) (b : B)
      → Reads m bs (cs ++ s) a
      → Reads (f a) cs s b
      → Reads (m >>= f) (bs ++ cs) s b
  Reads-bind m f bs cs s a b hm hf = record {
    at = λ r i h.
        let h' : unread r ≡ bs ++ (cs ++ s) = h ∙ append_assoc bs cs s in
        ap (λ q. continue_with q f) (hm.at r i h')
        ∙ hf.at (moved r (length bs)) (InBounds-moved r bs (cs ++ s) i h')
            (unread-moved r bs (cs ++ s) h')
        ∙ ap (λ q. ok (b, q)) (moved-moved r _ _ ∙ ap (moved r) (sym (length-append bs cs)));
  }

pub Reads-then :
    {B : Type 0} (m : Parse (Unit {0})) (k : Parse B) (bs cs s : List ℕ) (b : B)
    → Reads m bs (cs ++ s) tt
    → Reads k cs s b
    → Reads (m >> k) (bs ++ cs) s b
Reads-then m k bs cs s b hm hk = Reads-bind m (λ _. k) bs cs s tt b hm hk

pub Reads-end :
    {A : Type 0} (p : Parse A) (bs s : List ℕ) (a : A) → Reads p (bs ++ []) s a → Reads p bs s a
Reads-end p bs s a h = rw append-nil at h

pub Reads-need : (n : ℕ) (s : List ℕ) → n ≤ length s → Reads (need n) [] s tt
unfolding need
Reads-need n s h = record {
  at = λ r i e. rw (moved-zero r) (ground (arith, ap (length {A = ℕ}) e, length-unread r));
}

nth-drop : (k i : ℕ) (bs : List ℕ) → nth bs (k + i) ≡ nth (drop k bs) i
unfolding nth
nth-drop zero i bs = rw zero-add
nth-drop (suc k) i [] = refl
nth-drop (suc k) i (b ∷ bs) = rw suc-add (nth-drop k i bs)

pub Reads-peek : (i b : ℕ) (s : List ℕ) → nth s i ≡ ok b → Reads (peek i) [] s b
unfolding peek with_reader
Reads-peek i b s e = record { at = λ r _ h. rw (nth-drop r.pos i r.buf, h, e) (rw (moved-zero r)) }

pub Reads-advance : (bs s : List ℕ) → Reads (advance (length bs)) bs s tt
unfolding advance
Reads-advance bs s = record { at = λ r i h. refl }

pub Reads-slice : (bs s : List ℕ) → Reads (slice (length bs)) [] (bs ++ s) bs
unfolding slice
Reads-slice bs s = record {
  at = λ r i h. rw (moved-zero r, h, take-append bs s) (ground (arith, InBounds-moved r bs s i h));
}

pub Reads-read_u8 : (b : ℕ) (s : List ℕ) → Reads read_u8 (b ∷ []) s b
unfolding read_u8 nth
Reads-read_u8 b s = Reads-then _ _ [] (b ∷ []) s b (Reads-need 1 (b ∷ s) (omega arith)) (
    Reads-bind _ _ [] (b ∷ []) s b b (Reads-peek 0 b (b ∷ s) refl)
      (Reads-then _ _ (b ∷ []) [] s b (Reads-advance (b ∷ []) s) (Reads-pure b s)))

-- A big-endian pair of bytes.
pub Reads-read_u16 :
    (hi lo : ℕ) (s : List ℕ) → lo < 256 → Reads read_u16 (hi ∷ lo ∷ []) s (hi * 256 + lo)
unfolding read_u16 nth
Reads-read_u16 hi lo s h =
    let bs : List ℕ = hi ∷ lo ∷ [] in
    let v : ℕ = hi * 256 + lo in
    Reads-then _ _ [] bs s v (Reads-need 2 (bs ++ s) (omega arith)) (
      Reads-bind _ _ [] bs s hi v (Reads-peek 0 hi (bs ++ s) refl) (
        Reads-bind _ _ [] bs s lo v (Reads-peek 1 lo (bs ++ s) refl) (
          Reads-then _ _ bs [] s v (Reads-advance bs s) (Reads-pure_eq s (bit_or-high 8 hi lo h)))))

pub Reads-read_bytes : (bs s : List ℕ) → Reads (read_bytes (length bs)) bs s bs
unfolding read_bytes
Reads-read_bytes bs s =
    Reads-then _ _ [] bs s bs (Reads-need (length bs) (bs ++ s) (omega (arith, length-append bs s)))
      (Reads-bind _ _ [] bs s bs bs (Reads-slice bs s)
        (Reads-end _ bs s bs (Reads-then _ _ bs [] s bs (Reads-advance bs s) (Reads-pure bs s))))

pub Reads-from_utf8 :
    (bs s : List ℕ) (context : String) → is_utf8 bs ≡ true → Reads (from_utf8 bs context) [] s bs
unfolding from_utf8
Reads-from_utf8 bs s context h = record { at = λ r i e. rw (h, moved-zero r) }

pub Reads-reject_if :
    (b : Bool) (e : Fault) (s : List ℕ) → b ≡ false → Reads (reject_if b e) [] s tt
Reads-reject_if b e s h = rw h (Reads-pure tt s)

pub Reads-expect_end : (context : String) → Reads (expect_end context) [] [] tt
unfolding expect_end
Reads-expect_end context = record {
  at = λ r i e. rw (moved-zero r) (ground (arith, ap (length {A = ℕ}) e, length-unread r));
}

pub Reads-checked_sub :
    (a b : ℕ) (e : Fault) (s : List ℕ) (d : ℕ) → a ≡ d + b → Reads (checked_sub a b e) [] s d
unfolding checked_sub
Reads-checked_sub a b e s d h = record {
  at = λ r i _. rw (moved-zero r) (
      let low : ltb a b ≡ false = ground arith in
      let rest : a - b ≡ d = omega arith in rw (low, rest));
}

-- A parser that reads the whole packet.
pub run-Reads :
    {A : Type 0} (p : Parse A) (buf : List ℕ) (a : A) → Reads p buf [] a → run p buf ≡ ok a
unfolding run
run-Reads p buf a h = rw (h.at (new buf) (omega arith) (sym (append-nil buf)), run)
