-- ===== src/Broker/Subscriptions/Writes.antt =====
-- broker/topics.rs: what a write through a reference to a node changes, and what `insert_topic` changes.
use squillion_mqtt.Prelude.{
  ℕ, none, some, List, [], ◌∷◌, ◌≡◌, refl, ◌∙◌, inl, inr, if◌then◌else◌, Option-cases,
}
use squillion_mqtt.Broker.Topics.{Topic, no_child, topics, find}
use squillion_mqtt.Broker.Topics.Filters.{node_at, step_to}
use squillion_mqtt.Broker.Subscriptions.Node.{new, write, take_over, place}
use squillion_mqtt.Broker.Subscriptions.Views.{payload, payload_at, path_eq}
use squillion_mqtt.Broker.Subscriptions.Loops.{updated, missing}

module _ (f : Topic → Topic) (keeps : (t : Topic) → topics (f t) ≡ topics t) where
  -- A write that leaves the topics below a node alone changes that node only.
  pub write-view :
      (p : List (List ℕ)) (t n : Topic)
      → node_at p t ≡ some n
      → (q : List (List ℕ))
      → payload_at q (write p f t) ≡ (if path_eq q p then payload (some (f n)) else payload_at q t)
  unfolding node_at step_to write path_eq
  write-view [] t n e [] = let same : t ≡ n = cc in rw same
  write-view [] t n e (k ∷ ks) = rw (keeps t)
  write-view (l ∷ ls) t n e q = elim (Option-cases (find l (topics t))) [
    | inl gone ↦ absurd (let h : none ≡ some n = rw gone at e in (cc))
    | inr (u, found) ↦
        rw (found, write)
          (updated l ls _ (write ls f u) t t (λ _. refl)
            (λ ks. write-view ls u n (rw found at e) ks ∙ rw found) q)
  ]

leaf_vacant :
    (item : Topic) (l : List ℕ) (t : Topic)
    → topics item ≡ no_child
    → find l (topics t) ≡ none
    → (ks : List (List ℕ))
    → payload_at ks item ≡ (if path_eq ks [] then payload (some item) else payload_at (l ∷ ks) t)
unfolding node_at step_to path_eq find
leaf_vacant item l t fresh e [] = refl
leaf_vacant item l t fresh e (k ∷ ks) = rw (fresh, e)

leaf_occupied :
    (item : Topic) (l : List ℕ) (t u : Topic)
    → find l (topics t) ≡ some u
    → (ks : List (List ℕ))
    → payload_at ks (take_over item u)
      ≡ (if path_eq ks [] then payload (some item) else payload_at (l ∷ ks) t)
unfolding node_at step_to path_eq
leaf_occupied item l t u e [] = refl
leaf_occupied item l t u e (k ∷ ks) = rw e

-- The stored node of a topic takes the place of what was there, and the topics below it stay.
pub place-view :
    (item : Topic) (fresh : topics item ≡ no_child) (l : List ℕ) (ls : List (List ℕ)) (t : Topic)
    (q : List (List ℕ))
    → payload_at q (place item (l ∷ ls) t)
      ≡ (if path_eq q (l ∷ ls) then payload (some item) else payload_at q t)
unfolding node_at step_to place path_eq find
place-view item fresh l [] t q = elim (Option-cases (find l (topics t))) [
  | inl e ↦ rw (e, place) (updated l [] _ item t t (λ _. refl) (leaf_vacant item l t fresh e) q)
  | inr (u, e) ↦
      rw (e, place)
        (updated l [] _ (take_over item u) t t (λ _. refl) (leaf_occupied item l t u e) q)
]
place-view item fresh l (l' ∷ ls) t q = elim (Option-cases (find l (topics t))) [
  | inl e ↦
      rw (e, place)
        (updated l (l' ∷ ls) _ (place item (l' ∷ ls) (new none)) t t (λ _. refl)
          (λ ks. place-view item fresh l' ls (new none) ks ∙ rw (e, missing ks)) q)
  | inr (u, e) ↦
      rw (e, place)
        (updated l (l' ∷ ls) _ (place item (l' ∷ ls) u) t t (λ _. refl)
          (λ ks. place-view item fresh l' ls u ks ∙ rw e) q)
]
