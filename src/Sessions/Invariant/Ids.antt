-- ===== src/Sessions/Invariant/Ids.antt =====
-- The identifiers of the queue under the vector operations of the code.
use squillion_mqtt.Prelude.{
  ℕ, zero, suc, true, false, ◌||◌, List, [], ◌∷◌, ◌++◌, ◌≡◌, ◌==◌, refl, ap, ◌∙◌, arith, Bool-cases,
  inl, inr,
}
use squillion_mqtt.Messages.Codec.{MqttMessage}
use squillion_mqtt.Sessions.State.{contains, insert, remove}
use squillion_mqtt.Sessions.Invariant.{mid_of, ids, Distinct}

abbrev remove_at : ℕ → List ℕ → List ℕ
remove_at i [] = []
remove_at zero (n ∷ ns) = ns
remove_at (suc i) (n ∷ ns) = n ∷ remove_at i ns

pub contains-append :
    (n : ℕ) (ns : List ℕ) (k : ℕ) → contains n (ns ++ (k ∷ [])) ≡ (contains n ns || n == k)
contains-append n [] k = ground arith
contains-append n (x ∷ ns) k = rw (contains-append n ns k) (ground arith)

pub contains-insert : (n k : ℕ) (ns : List ℕ) → contains n (insert k ns) ≡ (contains n ns || n == k)
contains-insert n k ns = elim (Bool-cases (contains k ns)) [
  | inr fresh ↦ rw fresh (contains-append n ns k)
  | inl held ↦ elim (Bool-cases (n == k)) [
    | inl same ↦ let e : n ≡ k = ground arith in rw (held, same, e, held)
    | inr other ↦ rw (held, other) (ground arith)
  ]
]

pub contains-remove :
    (n k : ℕ) (ns : List ℕ) → n == k ≡ false → contains n (remove k ns) ≡ contains n ns
contains-remove n k [] h = refl
contains-remove n k (x ∷ ns) h = ground (arith, contains-remove n k ns h)

pub contains-remove_same : (k : ℕ) (ns : List ℕ) → contains k (remove k ns) ≡ false
contains-remove_same k [] = refl
contains-remove_same k (x ∷ ns) = ground (arith, contains-remove_same k ns)

pub contains_kept : (n k : ℕ) (ns : List ℕ) → contains n (remove k ns) ≡ true → contains n ns ≡ true
contains_kept n k [] h = h
contains_kept n k (x ∷ ns) h = ground (arith, contains_kept n k ns)

pub Distinct-append :
    (ns : List ℕ) (k : ℕ) → Distinct ns → contains k ns ≡ false → Distinct (ns ++ (k ∷ []))
Distinct-append [] k d h = (refl, tt)
Distinct-append (n ∷ ns) k (fresh, d) h =
    (contains-append n ns k ∙ ground arith, Distinct-append ns k d (ground arith))

pub Distinct-remove : (ns : List ℕ) (k : ℕ) → Distinct ns → Distinct (remove k ns)
Distinct-remove [] k d = tt
Distinct-remove (n ∷ ns) k (fresh, d) = elim (Bool-cases (k == n)) [
  | inl same ↦ rw same (Distinct-remove ns k d)
  | inr other ↦ rw other (contains-remove n k ns (ground arith) ∙ fresh, Distinct-remove ns k d)
]

pub remove_absent : (k : ℕ) (ns : List ℕ) → contains k ns ≡ false → remove k ns ≡ ns
remove_absent k [] h = refl
remove_absent k (n ∷ ns) h = ground (arith, remove_absent k ns)

pub ids-append : (xs ys : List MqttMessage) → ids (xs ++ ys) ≡ ids xs ++ ids ys
ids-append [] ys = refl
ids-append (x ∷ xs) ys = ap (λ ns. mid_of x ∷ ns) (ids-append xs ys)
