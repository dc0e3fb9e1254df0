-- ===== src/Broker/Subscriptions/Loops.antt =====
-- broker/topics.rs: what the loops of `get_topic` and `insert_topic`, and the writes through their
-- references, change of the tree.
use squillion_mqtt.Prelude.{
  ℕ, Bool, true, none, some, List, [], ◌∷◌, ◌≡◌, refl, ◌∙◌, inl, inr, if◌then◌else◌, bytes_eq_refl,
  Bool-cases, Option-cases, is_empty,
}
use squillion_mqtt.Broker.Topics.{Topic, topic, topics, get_internal_id, find}
use squillion_mqtt.Broker.Topics.Filters.{node_at, step_to}
use squillion_mqtt.Broker.Subscriptions.Node.{
  is_none, new, put_below, reserve, is_new, entered, complete, last_node,
}
use squillion_mqtt.Broker.Subscriptions.Views.{
  Payload, payload, payload_at, fill, path_eq, find-put_below, payload-put_below,
}

-- The payloads where a child is put in place of one that is missing, or of another.
module _ (l : List ℕ) (u t : Topic) where
  pub vacant :
      find l (topics t) ≡ none
      → ((ks : List (List ℕ)) → payload_at ks u ≡ payload none)
      → (q : List (List ℕ)) → payload_at q (put_below l u t) ≡ payload_at q t
  unfolding node_at step_to
  vacant e h =
      payload-put_below (λ q v. v ≡ payload_at q t) l u t refl (λ ks. h ks ∙ rw e) (λ k ks n. refl)

  pub occupied :
      {v : Topic}
      → find l (topics t) ≡ some v
      → ((ks : List (List ℕ)) → payload_at ks u ≡ payload_at ks v)
      → (q : List (List ℕ)) → payload_at q (put_below l u t) ≡ payload_at q t
  unfolding node_at step_to
  occupied e h =
      payload-put_below (λ q v. v ≡ payload_at q t) l u t refl (λ ks. h ks ∙ rw e) (λ k ks n. refl)

pub missing : (q : List (List ℕ)) → payload_at q (new none) ≡ payload none
unfolding node_at step_to find
missing [] = refl
missing (k ∷ ks) = refl

-- The nodes above a topic that are made hold nothing.
pub reserve-view :
    (p : List (List ℕ)) (t : Topic) (q : List (List ℕ))
    → payload_at q (reserve p t) ≡ payload_at q t
unfolding reserve
reserve-view [] t q = refl
reserve-view (l ∷ ls) t q = elim (Option-cases (find l (topics t))) [
  | inl e ↦
      rw (e, reserve)
        (elim (Bool-cases (is_empty ls)) [
          | inl last ↦ rw last
          | inr more ↦ rw more (
              vacant l (reserve ls (new none)) t e
                (λ ks. reserve-view ls (new none) ks ∙ missing ks) q)
        ])
  | inr (u, e) ↦ rw (e, reserve) (occupied l (reserve ls u) t e (reserve-view ls u) q)
]

pub node_at-complete :
    (b : Bool) (i : ℕ) (p : List (List ℕ)) (t : Topic)
    → node_at p (complete b i p t) ≡ some (last_node b i p t)
unfolding complete last_node node_at step_to
node_at-complete b i [] t = refl
node_at-complete b i (l ∷ ls) t = elim (Option-cases (find l (topics t))) [
  | inl e ↦ rw (e, complete, last_node) (rw (find-put_below l) (node_at-complete b i ls _))
  | inr (u, e) ↦ rw (e, complete, last_node) (rw (find-put_below l) (node_at-complete b i ls _))
]

-- The payloads where a child is put, next to those of another tree that they came from.
pub updated :
    (l : List ℕ) (ls : List (List ℕ)) (v : Payload) (u t t0 : Topic)
    → ((q : List (List ℕ)) → payload_at q t ≡ payload_at q t0)
    → ((ks : List (List ℕ))
        → payload_at ks u ≡ (if path_eq ks ls then v else payload_at (l ∷ ks) t0))
    → (q : List (List ℕ))
    → payload_at q (put_below l u t) ≡ (if path_eq q (l ∷ ls) then v else payload_at q t0)
unfolding path_eq
updated l ls v u t t0 same below =
    payload-put_below (λ q w. w ≡ (if path_eq q (l ∷ ls) then v else payload_at q t0)) l u t
      (same []) (λ ks. below ks ∙ rw (bytes_eq_refl l)) (λ k ks n. rw n (same (k ∷ ks)))

-- The second loop ends where the first one left a child.
entered_below :
    (l : List ℕ) (ls : List (List ℕ)) (b : Bool) (i : ℕ) (w t : Topic)
    → complete b i (l ∷ ls) (put_below l w t)
      ≡ put_below l (complete b i ls (entered (is_empty ls) b i w)) (put_below l w t)
unfolding complete
entered_below l ls b i w t = rw (find-put_below l w t, complete)

reserved_below :
    (l : List ℕ) (ls : List (List ℕ)) (w t : Topic)
    → reserve (l ∷ ls) t ≡ put_below l w t
    → (q : List (List ℕ)) → payload_at q (put_below l w t) ≡ payload_at q t
reserved_below l ls w t e q = rw (← e) (reserve-view (l ∷ ls) t q)

module _ (i : ℕ) where
  abbrev opened : List (List ℕ) → Topic → Topic
  opened p t = complete (is_new p t) i p (reserve p t)

  entered-view :
      (t u : Topic) (l : List ℕ) (e : find l (topics t) ≡ some u) (ks : List (List ℕ))
      → payload_at ks (entered true (is_none (get_internal_id u)) i u)
        ≡ (if path_eq ks [] then fill i (payload_at (l ∷ []) t) else payload_at (l ∷ ks) t)
  unfolding path_eq node_at step_to
  entered-view t (topic ts none cs m) l e [] = rw e
  entered-view t (topic ts (some j) cs m) l e [] = rw e
  entered-view t (topic ts none cs m) l e (k ∷ ks) = rw e
  entered-view t (topic ts (some j) cs m) l e (k ∷ ks) = rw e

  leaf_vacant :
      (l : List ℕ) (t : Topic)
      → find l (topics t) ≡ none
      → opened (l ∷ []) t ≡ put_below l (new (some i)) t
  unfolding reserve is_new complete
  leaf_vacant l t e = rw (e, reserve) (rw (e, complete))

  leaf_occupied :
      (l : List ℕ) (t u : Topic)
      → find l (topics t) ≡ some u
      → opened (l ∷ []) t
        ≡ put_below l (entered true (is_none (get_internal_id u)) i u) (put_below l u t)
  unfolding reserve is_new complete
  leaf_occupied l t u e = rw (e, reserve) (entered_below l [] _ i u t ∙ rw (e, is_new))

  step_vacant :
      (l l' : List ℕ) (ls : List (List ℕ)) (t : Topic)
      → find l (topics t) ≡ none
      → opened (l ∷ l' ∷ ls) t
        ≡ put_below l (opened (l' ∷ ls) (new none)) (put_below l (reserve (l' ∷ ls) (new none)) t)
  unfolding reserve is_new complete
  step_vacant l l' ls t e =
      rw (e, reserve)
        (entered_below l (l' ∷ ls) _ i (reserve (l' ∷ ls) (new none)) t ∙ rw (e, is_new))

  step_occupied :
      (l l' : List ℕ) (ls : List (List ℕ)) (t u : Topic)
      → find l (topics t) ≡ some u
      → opened (l ∷ l' ∷ ls) t
        ≡ put_below l (opened (l' ∷ ls) u) (put_below l (reserve (l' ∷ ls) u) t)
  unfolding reserve is_new complete
  step_occupied l l' ls t u e =
      rw (e, reserve) (entered_below l (l' ∷ ls) _ i (reserve (l' ∷ ls) u) t ∙ rw (e, is_new))

  -- `get_topic` gives the topic an identifier if it has none, and changes nothing else.
  pub opened-view :
      (l : List ℕ) (ls : List (List ℕ)) (t : Topic) (q : List (List ℕ))
      → payload_at q (opened (l ∷ ls) t)
        ≡ (if path_eq q (l ∷ ls) then fill i (payload_at (l ∷ ls) t) else payload_at q t)
  unfolding node_at step_to path_eq find
  opened-view l [] t q = elim (Option-cases (find l (topics t))) [
    | inl e ↦ rw (leaf_vacant l t e) (updated l [] _ (new (some i)) t t (λ _. refl) (leaf e) q)
    | inr (u, e) ↦ rw (leaf_occupied l t u e) (
        updated l [] _ _ (put_below l u t) t (occupied l u t e (λ ks. refl)) (entered-view t u l e)
          q)
  ]
    where
      leaf :
          find l (topics t) ≡ none
          → (ks : List (List ℕ))
          → payload_at ks (new (some i))
            ≡ (if path_eq ks [] then fill i (payload_at (l ∷ []) t) else payload_at (l ∷ ks) t)
      leaf e [] = rw e
      leaf e (k ∷ ks) = rw e
  opened-view l (l' ∷ ls) t q = elim (Option-cases (find l (topics t))) [
    | inl e ↦ rw (step_vacant l l' ls t e) (
        updated l (l' ∷ ls) _ _ _ t
          (vacant l (reserve (l' ∷ ls) (new none)) t e
            (λ ks. reserve-view (l' ∷ ls) (new none) ks ∙ missing ks))
          (λ ks. opened-view l' ls (new none) ks ∙ rw (e, missing ks)) q)
    | inr (u, e) ↦ rw (step_occupied l l' ls t u e) (
        updated l (l' ∷ ls) _ _ _ t
          (occupied l (reserve (l' ∷ ls) u) t e (reserve-view (l' ∷ ls) u))
          (λ ks. opened-view l' ls u ks ∙ rw e) q)
  ]
