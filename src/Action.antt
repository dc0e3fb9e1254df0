-- ===== src/Action.antt =====
-- Stateful code that can fail: a function of the state to a result and the state. An error keeps the
-- changes made before it, as with `&mut self`.
use squillion_mqtt.Prelude.{Option, none, some, ◌≡◌}
use squillion_mqtt.Result.{Result, ok, err}

abbrev pub Action : Type 0 → Type 0 → Type 0 → Type 0
Action S E A = S → Result E A × S

abbrev pub continue_with : {S E A B : Type 0} → Result E A × S → (A → Action S E B) → Result E B × S
continue_with (ok a, s) f = f a s
continue_with (err e, s) f = (err e, s)

infixl 5 ◌>>=◌ ◌>>◌
abbrev pub ◌>>=◌ : {S E A B : Type 0} → Action S E A → (A → Action S E B) → Action S E B
◌>>=◌ m f s = continue_with (m s) f

abbrev pub ◌>>◌ : {S E B : Type 0} → Action S E (Unit {0}) → Action S E B → Action S E B
m >> k = m >>= λ _. k

module _ {S E A : Type 0} where
  abbrev pub pure : A → Action S E A
  pure a s = (ok a, s)

  abbrev pub fail : E → Action S E A
  fail e s = (err e, s)

  abbrev pub gets : (S → A) → Action S E A
  gets f s = (ok (f s), s)

  -- A result that the code inspects in place of passing an error on.
  abbrev pub attempt : Action S E A → Action S E (Result E A)
  attempt m s = let (r, s') = m s in (ok r, s')

  abbrev pub or_fail : Option A → E → Action S E A
  or_fail none e = fail e
  or_fail (some a) e = pure a

  -- What holds after a result, and after an error.
  pub data Ensures (P : A → S → Type 0) (Q : E → S → Type 0) : Result E A × S → Type 0 where
    returned : {a : A} {s : S} → P a s → Ensures P Q (ok a, s)
    failed : {e : E} {s : S} → Q e s → Ensures P Q (err e, s)

abbrev pub modify : {S E : Type 0} → (S → S) → Action S E (Unit {0})
modify f s = (ok tt, f s)

pub Ensures-bind :
    {S E A B : Type 0} {P : A → S → Type 0} {P' : B → S → Type 0} {Q : E → S → Type 0}
    {r : Result E A × S} {f : A → Action S E B}
    → Ensures P Q r
    → ((a : A) (s : S) → P a s → Ensures P' Q (f a s))
    → Ensures P' Q (continue_with r f)
Ensures-bind (Ensures.returned {a} {s} p) k = k a s p
Ensures-bind (Ensures.failed q) k = Ensures.failed q

module _ {S E A : Type 0} {P : A → S → Type 0} {Q : E → S → Type 0} where
  pub Ensures_ok : {r : Result E A × S} → Ensures P Q r → (a : A) (s : S) → r ≡ (ok a, s) → P a s
  Ensures_ok (Ensures.returned {a} {s} p) a' s' e =
      let ea : a ≡ a' = cc in let es : s ≡ s' = cc in rw (← ea) (rw (← es) p)
  Ensures_ok (Ensures.failed q) a' s' e = cc

  pub Ensures_err : {r : Result E A × S} → Ensures P Q r → (e : E) (s : S) → r ≡ (err e, s) → Q e s
  Ensures_err (Ensures.returned p) e' s' h = cc
  Ensures_err (Ensures.failed {e} {s} q) e' s' h =
      let ee : e ≡ e' = cc in let es : s ≡ s' = cc in rw (← ee) (rw (← es) q)

pub Ensures-weaken :
    {S E A : Type 0} {P P' : A → S → Type 0} {Q Q' : E → S → Type 0} {r : Result E A × S}
    → ((a : A) (s : S) → P a s → P' a s)
    → ((e : E) (s : S) → Q e s → Q' e s)
    → Ensures P Q r
    → Ensures P' Q' r
Ensures-weaken good bad (Ensures.returned {a} {s} p) = Ensures.returned (good a s p)
Ensures-weaken good bad (Ensures.failed {e} {s} q) = Ensures.failed (bad e s q)
