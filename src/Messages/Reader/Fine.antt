-- ===== src/Messages/Reader/Fine.antt =====
-- Outcomes of a parser without a panic, and the rules to build parsers that have only those.
use squillion_mqtt.Prelude.{
  ℕ, ◌≤◌, Bool, true, false, List, String, ltb, ◌==◌, if◌then◌else◌, ◌≡◌, Bool-cases, inl, inr,
}
use squillion_mqtt.Result.{ok, err}
use squillion_mqtt.Messages.Fault.{io, IoError, Checked}
use squillion_mqtt.Messages.Utf8.{is_utf8}
use squillion_mqtt.Messages.Reader.{
  Reader, Parse, pure, fail, continue_with, ◌>>=◌, ◌>>◌, reject_if, remaining, checked_sub,
  from_utf8, expect_end,
}
use squillion_mqtt.Messages.Reader.Reads.{InBounds}

-- Outcomes over `buf`, no earlier than `lo`.
pub data Fine {A : Type 0} (lo : ℕ) (buf : List ℕ) : Checked (A × Reader) → Type 0 where
  done : {a : A} {r : Reader} → r.buf ≡ buf → lo ≤ r.pos → InBounds r → Fine lo buf (ok (a, r))
  failed : {e : IoError} → Fine lo buf (err (io e))

-- From any position of `buf` that is not before `lo`, `p` is fine.
pub record Safe {A : Type 0} (lo : ℕ) (buf : List ℕ) (p : Parse A) : Type 0 where
  pub at : (r : Reader) → r.buf ≡ buf → lo ≤ r.pos → InBounds r → Fine lo buf (p r)

module _ {lo : ℕ} {buf : List ℕ} where
  Fine-continue :
      {A B : Type 0} {x : Checked (A × Reader)} (f : A → Parse B)
      → Fine lo buf x
      → ((a : A) → Safe lo buf (f a))
      → Fine lo buf (continue_with x f)
  Fine-continue f (done {a = a} {r = r} s l i) h = (h a).at r s l i
  Fine-continue f failed h = failed

  pub Safe-bind :
      {A B : Type 0} (m : Parse A) (f : A → Parse B)
      → Safe lo buf m
      → ((a : A) → Safe lo buf (f a))
      → Safe lo buf (m >>= f)
  Safe-bind m f hm hf = record { at = λ r s l i. Fine-continue f (hm.at r s l i) hf }

  pub Safe-then :
      {B : Type 0} (m : Parse (Unit {0})) (k : Parse B)
      → Safe lo buf m
      → Safe lo buf k
      → Safe lo buf (m >> k)
  Safe-then m k hm hk = Safe-bind m (λ _. k) hm (λ _. hk)

  pub Safe-pure : {A : Type 0} (a : A) → Safe lo buf (pure a)
  Safe-pure a = record { at = λ r s l i. done s l i }

  pub Safe-error : {A : Type 0} (e : IoError) → Safe lo buf (fail {A = A} (io e))
  Safe-error e = record { at = λ r s l i. failed }

  pub Safe-if :
      {A : Type 0} (b : Bool) (m n : Parse A)
      → Safe lo buf m
      → Safe lo buf n
      → Safe lo buf (if b then m else n)
  Safe-if true m n hm hn = hm
  Safe-if false m n hm hn = hn

  pub Safe-reject_if : (b : Bool) (e : IoError) → Safe lo buf (reject_if b (io e))
  Safe-reject_if true e = record { at = λ r s l i. failed }
  Safe-reject_if false e = record { at = λ r s l i. done s l i }

  -- A test whose branches are a value and an error of the code.
  Fine-if :
      {A : Type 0} (b : Bool) (a : A) (e : IoError) (r : Reader)
      → r.buf ≡ buf
      → lo ≤ r.pos
      → InBounds r
      → Fine lo buf (if b then ok (a, r) else err (io e))
  Fine-if true a e r s l i = done s l i
  Fine-if false a e r s l i = failed

  pub Safe-from_utf8 : (bytes : List ℕ) (context : String) → Safe lo buf (from_utf8 bytes context)
  unfolding from_utf8
  Safe-from_utf8 bytes context = record { at = λ r s l i. Fine-if (is_utf8 bytes) bytes _ r s l i }

  pub Safe-expect_end : (context : String) → Safe lo buf (expect_end context)
  unfolding expect_end
  Safe-expect_end context = record { at = λ r s l i. Fine-if (remaining r == 0) tt _ r s l i }

  pub Safe-checked_sub : (a b : ℕ) (e : IoError) → Safe lo buf (checked_sub a b (io e))
  unfolding checked_sub
  Safe-checked_sub a b e = record {
    at = λ r s l i. elim (Bool-cases (ltb a b)) [
      | inl less ↦ rw less failed
      | inr fits ↦ rw fits (done s l i)
    ];
  }
