-- ===== src/Broker/Subscriptions/Views.antt =====
-- broker/topics.rs: the tree as a function from paths to what their nodes hold, and the loops over the
-- tree as changes of that function.
use squillion_mqtt.Prelude.{
  ℕ, Bool, true, false, ◌&&◌, Option, none, some, List, [], ◌∷◌, ◌≡◌, refl, arith, inl, inr,
  if◌then◌else◌, bytes_eq, bytes_eq→eq, bytes_eq_refl, bytes_eq_iff, Bool-cases, Option-cases,
}
use squillion_mqtt.Messages.Publish.{MqttMessagePublish}
use squillion_mqtt.Broker.Topics.{
  TopicEntry, Topic, Children, no_child, child, topics, clients, get_internal_id, message, find,
}
use squillion_mqtt.Broker.Topics.Filters.{node_at, step_to}
use squillion_mqtt.Broker.Subscriptions.Node.{set_child, put_below, follow}

-- What a node holds, apart from the topics below it.
pub record Payload : Type 0 where
  pub internal_id : Option ℕ
  pub clients : List (List ℕ × TopicEntry)
  pub message : Option MqttMessagePublish

-- A node that is missing holds what a new node holds.
abbrev pub payload : Option Topic → Payload
payload none = record { internal_id = none; clients = []; message = none }
payload (some t) = record {
  internal_id = get_internal_id t;
  clients = clients t;
  message = message t;
}

abbrev pub payload_at : List (List ℕ) → Topic → Payload
payload_at q t = payload (node_at q t)

-- The payload of a topic that is stored: an identifier that it has is kept.
abbrev pub filled : ℕ → Option ℕ → Option ℕ
filled i none = some i
filled i (some j) = some j

abbrev pub fill : ℕ → Payload → Payload
fill i p = record p { internal_id = filled i p.internal_id }

unfoldable pub path_eq : List (List ℕ) → List (List ℕ) → Bool
path_eq [] [] = true
path_eq [] (l ∷ ls) = false
path_eq (k ∷ ks) [] = false
path_eq (k ∷ ks) (l ∷ ls) = bytes_eq k l && path_eq ks ls

pub path_eq→eq : (q p : List (List ℕ)) → path_eq q p ≡ true → q ≡ p
unfolding path_eq
path_eq→eq [] [] h = refl
path_eq→eq [] (l ∷ ls) h = cc
path_eq→eq (k ∷ ks) [] h = cc
path_eq→eq (k ∷ ks) (l ∷ ls) h = ground (arith, path_eq→eq ks ls, bytes_eq→eq k l)

pub path_eq_refl : (q : List (List ℕ)) → path_eq q q ≡ true
unfolding path_eq
path_eq_refl [] = refl
path_eq_refl (k ∷ ks) = ground (arith, path_eq_refl ks, bytes_eq_refl k)

pub find-set_child :
    (k l : List ℕ) (u : Topic) (cs : Children)
    → find k (set_child l u cs) ≡ (if bytes_eq k l then some u else find k cs)
unfolding find set_child
find-set_child k l u no_child = ground arith
find-set_child k l u (child name t others) =
    ground (
      arith,
      find-set_child k l u others,
      bytes_eq_iff k l,
      bytes_eq_iff k name,
      bytes_eq_iff l name,
    )

pub node_at-put_below :
    (k l : List ℕ) (ks : List (List ℕ)) (u t : Topic)
    → node_at (k ∷ ks) (put_below l u t)
      ≡ (if bytes_eq k l then node_at ks u else node_at (k ∷ ks) t)
unfolding node_at step_to
node_at-put_below k l ks u t =
    rw (find-set_child k l u (topics t)) (ground (arith, Bool-cases (bytes_eq k l)))

pub find-put_below : (l : List ℕ) (u t : Topic) → find l (topics (put_below l u t)) ≡ some u
find-put_below l u t = rw (find-set_child l l u (topics t), bytes_eq_refl l)

pub follow_node : (ls : List (List ℕ)) (t : Topic) → follow ls (some t) ≡ node_at ls t
unfolding follow node_at step_to
follow_node [] t = refl
follow_node (l ∷ ls) t = elim (Option-cases (find l (topics t))) [
  | inl e ↦ rw e (gone ls)
  | inr (u, e) ↦ rw e (follow_node ls u)
]
  where
    gone : (ls : List (List ℕ)) → follow ls none ≡ none
    gone [] = refl
    gone (l ∷ ls) = gone ls

-- The payloads of a tree under a changed child.
pub payload-put_below :
    (P : List (List ℕ) → Payload → Type 0) (l : List ℕ) (u t : Topic)
    → P [] (payload_at [] t)
    → ((ks : List (List ℕ)) → P (l ∷ ks) (payload_at ks u))
    → ((k : List ℕ) (ks : List (List ℕ))
        → bytes_eq k l ≡ false
        → P (k ∷ ks) (payload_at (k ∷ ks) t))
    → (q : List (List ℕ)) → P q (payload_at q (put_below l u t))
unfolding node_at
payload-put_below P l u t root below aside [] = root
payload-put_below P l u t root below aside (k ∷ ks) = elim (Bool-cases (bytes_eq k l)) [
  | inl same ↦
      let e : k ≡ l = bytes_eq→eq k l same in
      rw (node_at-put_below k l ks u t, same) (rw e (below ks))
  | inr other ↦ rw (node_at-put_below k l ks u t, other) (aside k ks other)
]
