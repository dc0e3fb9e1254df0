-- ===== src/Messages/Reader/Ensures.antt =====
-- What a successful parse says of its result, one rule for each way to build a parser.
use squillion_mqtt.Prelude.{
  ℕ, Bool, true, false, List, String, if◌then◌else◌, ◌≡◌, ◌∙◌, refl, arith,
}
use mathlib.Core.Path.{subst}
use squillion_mqtt.Result.{ok, err}
use squillion_mqtt.Messages.Fault.{Fault, Checked}
use squillion_mqtt.Messages.Utf8.{is_utf8}
use squillion_mqtt.Messages.Reader.{
  Reader, Parse, pure, continue_with, ◌>>=◌, ◌>>◌, reject_if, new, from_utf8, run,
}

pub record Ensures {A : Type 0} (p : Parse A) (Q : A → Type 0) : Type 0 where
  pub at : (r r' : Reader) (a : A) → p r ≡ ok (a, r') → Q a

module _ {B : Type 0} {Q : B → Type 0} where
  pub Ensures-pure : (b : B) → Q b → Ensures (pure b) Q
  Ensures-pure b q = record { at = λ r r' a e. subst Q (let p : b ≡ a = cc in p) q }

  invert :
      {A : Type 0} (x : Checked (A × Reader)) (f : A → Parse B) (r' : Reader) (b : B)
      → ((a : A) → Ensures (f a) Q)
      → continue_with x f ≡ ok (b, r')
      → Q b
  invert (ok (a, r)) f r' b h e = (h a).at r r' b e
  invert (err x) f r' b h e = cc

  pub Ensures-bind :
      {A : Type 0} (m : Parse A) (f : A → Parse B)
      → ((a : A) → Ensures (f a) Q)
      → Ensures (m >>= f) Q
  Ensures-bind m f h = record { at = λ r r' b e. invert (m r) f r' b h e }

  pub Ensures-then : (m : Parse (Unit {0})) (k : Parse B) → Ensures k Q → Ensures (m >> k) Q
  Ensures-then m k h = Ensures-bind m (λ _. k) (λ _. h)

  pub Ensures-reject_if :
      (b : Bool) (e : Fault) (k : Parse B)
      → (b ≡ false → Ensures k Q)
      → Ensures (reject_if b e >> k) Q
  Ensures-reject_if true e k h = record { at = λ r r' b q. cc }
  Ensures-reject_if false e k h = h refl

  pub Ensures-if :
      (b : Bool) (m n : Parse B)
      → (b ≡ true → Ensures m Q)
      → (b ≡ false → Ensures n Q)
      → Ensures (if b then m else n) Q
  Ensures-if true m n hm hn = hm refl
  Ensures-if false m n hm hn = hn refl

  -- A rule that keeps what is known of the first result.
  pub Ensures-known :
      {A : Type 0} {P : A → Type 0} (m : Parse A) (f : A → Parse B)
      → Ensures m P
      → ((a : A) → P a → Ensures (f a) Q)
      → Ensures (m >>= f) Q
  Ensures-known {A} {P} m f hm h = record { at = λ r r' b e. go r (m r) refl r' b e }
    where
      go :
          (r : Reader) (x : Checked (A × Reader))
          → m r ≡ x
          → (r' : Reader) (b : B) → continue_with x f ≡ ok (b, r')
          → Q b
      go r (ok (a, r1)) known r' b e = (h a (hm.at r r1 a known)).at r1 r' b e
      go r (err x) known r' b e = cc

pub Ensures-from_utf8 :
    (bytes : List ℕ) (context : String)
    → Ensures (from_utf8 bytes context) (λ s. (s ≡ bytes) × (is_utf8 s ≡ true))
unfolding from_utf8
Ensures-from_utf8 bytes context = record { at = λ r r' s e. ground arith }

pub run-Ensures :
    {A : Type 0} {Q : A → Type 0} (p : Parse A) (buf : List ℕ) (a : A)
    → Ensures p Q
    → run p buf ≡ ok a
    → Q a
unfolding run
run-Ensures {A} {Q} p buf a h e = go (p (new buf)) refl e
  where
    go :
        (x : Checked (A × Reader))
        → p (new buf) ≡ x
        → (elim x as (λ _. Checked A) [ ok (b, r) ↦ ok b | err f ↦ err f ]) ≡ ok a
        → Q a
    go (ok (b, r)) known q = h.at (new buf) r a (known ∙ cc q)
    go (err f) known q = cc
