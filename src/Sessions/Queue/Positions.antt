-- ===== src/Sessions/Queue/Positions.antt =====
-- The vector of the queue, searched and changed at a position.
use squillion_mqtt.Prelude.{
  ◌∙◌, length, drop, ℕ, zero, suc, true, false, List, [], ◌∷◌, Option, none, some, ◌≡◌, ◌==◌, refl,
  ap, sym, arith, Bool-cases, inl, inr,
}
use squillion_mqtt.Messages.Codec.{MqttMessage}
use squillion_mqtt.Sessions.State.{contains, remove}
use squillion_mqtt.Sessions.Invariant.{is_queued, mid_of, ids, AllQueued, Distinct}
use squillion_mqtt.Sessions.Invariant.Ids.{remove_absent}
use squillion_mqtt.Sessions.Queue.{has_mid, position, get_elem?, set_elem, remove_elem}

has_mid_same :
    (mid : ℕ) (x : MqttMessage) → has_mid mid x ≡ true → (mid_of x ≡ mid) × (is_queued x ≡ true)
has_mid_same mid (MqttMessage.publish m) h = ground arith
has_mid_same mid (MqttMessage.pub_rec m) h = ground arith
has_mid_same mid _ h = absurd (ground arith)

has_mid_other :
    (mid : ℕ) (x : MqttMessage)
    → is_queued x ≡ true
    → has_mid mid x ≡ false
    → mid == mid_of x ≡ false
has_mid_other mid (MqttMessage.publish m) q h = ground arith
has_mid_other mid (MqttMessage.pub_rec m) q h = ground arith
has_mid_other mid _ q h = absurd (ground arith)

-- What is at the position that a search returned.
pub record Found (mid : ℕ) (xs : List MqttMessage) (i : ℕ) : Type 0 where
  pub elem : MqttMessage
  pub there : get_elem? xs i ≡ some elem
  pub queued : is_queued elem ≡ true
  pub same_mid : mid_of elem ≡ mid
  pub held : contains mid (ids xs) ≡ true
  pub ids_removed : ids (remove_elem i xs) ≡ remove mid (ids xs)

pub position-Found :
    (mid : ℕ) (xs : List MqttMessage) (i : ℕ)
    → AllQueued xs
    → Distinct (ids xs)
    → position (has_mid mid) xs ≡ some i
    → Found mid xs i
position-Found mid [] i q d h = absurd (ground arith)
position-Found mid (x ∷ xs) i (qx, q) (fresh, d) h = elim (Bool-cases (has_mid mid x)) [
  | inl here ↦
      let (same, _) = has_mid_same mid x here in
      let zero_at : 0 ≡ i = ground arith in
      let gone : contains mid (ids xs) ≡ false = rw same at fresh in
      rw (sym zero_at) (record {
        elem = x;
        there = refl;
        queued = qx;
        same_mid = same;
        held = ground (arith, same);
        ids_removed =
            let e : mid == mid_of x ≡ true = ground (arith, same) in
            rw e (sym (remove_absent mid (ids xs) gone));
      })
  | inr other ↦ later (λ j. position-Found mid xs j q d) (position (has_mid mid) xs) refl other h
]
  where
    later :
        ((j : ℕ) → position (has_mid mid) xs ≡ some j → Found mid xs j)
        → (p : Option ℕ) → position (has_mid mid) xs ≡ p
        → has_mid mid x ≡ false
        → position (has_mid mid) (x ∷ xs) ≡ some i
        → Found mid (x ∷ xs) i
    later rest none e other h = let h' = rw (other, e) at h in cc
    later rest (some j) e other h =
        let h' : some (suc j) ≡ some i = rw (other, e) at h in
        let at_j : suc j ≡ i = cc in
        let f : Found mid xs j = rest j e in
        let ne : mid == mid_of x ≡ false = has_mid_other mid x qx other in
        rw (sym at_j) (record {
          elem = f.elem;
          there = f.there;
          queued = f.queued;
          same_mid = f.same_mid;
          held = ground (arith, f.held);
          ids_removed = rw (ne, f.ids_removed);
        })

pub position-none :
    (mid : ℕ) (xs : List MqttMessage)
    → AllQueued xs
    → position (has_mid mid) xs ≡ none
    → contains mid (ids xs) ≡ false
position-none mid [] q h = refl
position-none mid (x ∷ xs) (qx, q) h = elim (Bool-cases (has_mid mid x)) [
  | inl here ↦ absurd (ground arith)
  | inr other ↦ later (position-none mid xs q) (position (has_mid mid) xs) refl other
]
  where
    later :
        (position (has_mid mid) xs ≡ none → contains mid (ids xs) ≡ false)
        → (p : Option ℕ) → position (has_mid mid) xs ≡ p
        → has_mid mid x ≡ false
        → contains mid (ids (x ∷ xs)) ≡ false
    later rest (some j) e other = let h' = rw (other, e) at h in cc
    later rest none e other = ground (arith, has_mid_other mid x qx other, rest e)

pub ids-set_elem :
    (i : ℕ) (x y : MqttMessage) (xs : List MqttMessage)
    → get_elem? xs i ≡ some x
    → mid_of y ≡ mid_of x
    → ids (set_elem i y xs) ≡ ids xs
ids-set_elem i x y [] g e = refl
ids-set_elem zero x y (z ∷ xs) g e = let s : z ≡ x = cc in rw (s, e)
ids-set_elem (suc i) x y (z ∷ xs) g e = ap (λ ns. mid_of z ∷ ns) (ids-set_elem i x y xs g e)

pub AllQueued-set_elem :
    (i : ℕ) (y : MqttMessage) (xs : List MqttMessage)
    → is_queued y ≡ true
    → AllQueued xs
    → AllQueued (set_elem i y xs)
AllQueued-set_elem i y [] h q = q
AllQueued-set_elem zero y (x ∷ xs) h (_, q) = (h, q)
AllQueued-set_elem (suc i) y (x ∷ xs) h (qx, q) = (qx, AllQueued-set_elem i y xs h q)

pub AllQueued-remove_elem :
    (i : ℕ) (xs : List MqttMessage) → AllQueued xs → AllQueued (remove_elem i xs)
AllQueued-remove_elem i [] q = q
AllQueued-remove_elem zero (x ∷ xs) (_, q) = q
AllQueued-remove_elem (suc i) (x ∷ xs) (qx, q) = (qx, AllQueued-remove_elem i xs q)

pub contains-get_elem? :
    (xs : List MqttMessage) (i : ℕ) (x : MqttMessage)
    → get_elem? xs i ≡ some x
    → contains (mid_of x) (ids xs) ≡ true
contains-get_elem? [] i x h = cc
contains-get_elem? (y ∷ ys) zero x h = let e : y ≡ x = cc in rw e (ground arith)
contains-get_elem? (y ∷ ys) (suc i) x h = ground (arith, contains-get_elem? ys i x h)

-- Distinct identifiers stand at one position only.
pub one_position :
    (xs : List MqttMessage) (i j : ℕ) (x y : MqttMessage)
    → Distinct (ids xs)
    → get_elem? xs i ≡ some x
    → get_elem? xs j ≡ some y
    → mid_of x ≡ mid_of y
    → i ≡ j
one_position [] i j x y d hi hj e = cc
one_position (z ∷ zs) zero zero x y d hi hj e = refl
one_position (z ∷ zs) zero (suc j) x y (fresh, d) hi hj e =
    let h : z ≡ x = cc in
    let c : contains (mid_of y) (ids zs) ≡ true = contains-get_elem? zs j y hj in
    let same : mid_of z ≡ mid_of y = ap mid_of h ∙ e in let fresh' = rw same at fresh in cc
one_position (z ∷ zs) (suc i) zero x y (fresh, d) hi hj e =
    let h : z ≡ y = cc in
    let c : contains (mid_of x) (ids zs) ≡ true = contains-get_elem? zs i x hi in
    let same : mid_of z ≡ mid_of x = ap mid_of h ∙ sym e in let fresh' = rw same at fresh in cc
one_position (z ∷ zs) (suc i) (suc j) x y (fresh, d) hi hj e =
    ap suc (one_position zs i j x y d hi hj e)

pub drop-set_elem :
    (i : ℕ) (y : MqttMessage) (xs : List MqttMessage)
    → drop (suc i) (set_elem i y xs) ≡ drop (suc i) xs
drop-set_elem i y [] = refl
drop-set_elem zero y (x ∷ xs) = refl
drop-set_elem (suc i) y (x ∷ xs) = drop-set_elem i y xs

pub drop-get_elem? :
    (i : ℕ) (xs : List MqttMessage) (x : MqttMessage)
    → get_elem? xs i ≡ some x
    → drop i xs ≡ x ∷ drop (suc i) xs
drop-get_elem? i [] x h = cc
drop-get_elem? zero (y ∷ ys) x h = let e : y ≡ x = cc in rw e
drop-get_elem? (suc i) (y ∷ ys) x h = drop-get_elem? i ys x h

pub drop-all : (i : ℕ) (xs : List MqttMessage) → i ≡ length xs → drop i xs ≡ []
drop-all zero [] h = refl
drop-all zero (x ∷ xs) h = absurd (omega arith)
drop-all (suc i) [] h = refl
drop-all (suc i) (x ∷ xs) h = drop-all i xs (omega arith)
