-- ===== src/Broker/Topics/Filters.antt =====
-- src/broker/topics.rs: the filters that `get_subscribed` finds for a topic.
use squillion_mqtt.Prelude.{
  ℕ, Bool, true, false, ◌||◌, Option, none, some, List, [], ◌∷◌, ◌≡◌, refl, arith, inl, inr, ◌⊎◌,
}
use squillion_mqtt.Prelude.Split.{split}
use squillion_mqtt.Sessions.State.{SessionId}
use squillion_mqtt.Broker.Topics.{Topic, topics, clients, find, match_levels, get_subscribed}
use squillion_mqtt.Broker.Topics.Matching.{held, holds, any, on_found, reaches, held-match_levels}

-- The rule of the code for a filter and a topic, by levels: `#` stands for one level or more at the end,
-- `+` for one level, and any other level for itself.
pub data Matches : List (List ℕ) → List (List ℕ) → Type 0 where
  ended : Matches [] []
  hash : {l : List ℕ} {ls : List (List ℕ)} → Matches ((b'#' ∷ []) ∷ []) (l ∷ ls)
  plus :
      {fs : List (List ℕ)} {l : List ℕ} {ls : List (List ℕ)}
      → Matches fs ls
      → Matches ((b'+' ∷ []) ∷ fs) (l ∷ ls)
  level :
      {fs : List (List ℕ)} {l : List ℕ} {ls : List (List ℕ)}
      → Matches fs ls
      → Matches (l ∷ fs) (l ∷ ls)

-- The node of a filter, below a node.
unfoldable pub step_to : (Topic → Option Topic) → Option Topic → Option Topic
step_to f none = none
step_to f (some t) = f t

unfoldable pub node_at : List (List ℕ) → Topic → Option Topic
unfolding step_to
node_at [] t = some t
node_at (f ∷ fs) t = step_to (node_at fs) (find f (topics t))

-- The session has a subscription in the tree whose filter matches the levels.
pub record IsSubscribed (k : SessionId) (root : Topic) (levels : List (List ℕ)) : Type 0 where
  pub filter : List (List ℕ)
  pub node : Topic
  pub matching : Matches filter levels
  pub there : node_at filter root ≡ some node
  pub subscribed : holds k (clients node) ≡ true

descended :
    (k : SessionId) (f : List ℕ) (l : List ℕ) (ls : List (List ℕ)) (t : Topic)
    → ((fs : List (List ℕ)) → Matches fs ls → Matches (f ∷ fs) (l ∷ ls))
    → ((u : Topic) → reaches k ls u ≡ true → IsSubscribed k u ls)
    → (o : Option Topic) → find f (topics t) ≡ o
    → on_found (reaches k ls) o ≡ true
    → IsSubscribed k t (l ∷ ls)
unfolding on_found node_at step_to
descended k f l ls t m rest none e h = cc
descended k f l ls t m rest (some u) e h =
    let r : IsSubscribed k u ls = rest u h in
    record {
      filter = f ∷ r.filter;
      node = r.node;
      matching = m r.filter r.matching;
      there = rw e r.there;
      subscribed = r.subscribed;
    }

hashed :
    (k : SessionId) (l : List ℕ) (ls : List (List ℕ)) (t : Topic) (o : Option Topic)
    → find (b'#' ∷ []) (topics t) ≡ o
    → on_found (λ u. holds k (clients u)) o ≡ true
    → IsSubscribed k t (l ∷ ls)
unfolding on_found node_at step_to
hashed k l ls t none e h = cc
hashed k l ls t (some u) e h = record {
  filter = (b'#' ∷ []) ∷ [];
  node = u;
  matching = Matches.hash;
  there = rw e;
  subscribed = h;
}

or_cases : (a b c : Bool) → (a || (b || c)) ≡ true → (a ≡ true) ⊎ ((b ≡ true) ⊎ (c ≡ true))
or_cases true b c h = inl refl
or_cases false true c h = inr (inl refl)
or_cases false false c h = inr (inr h)

reached :
    (k : SessionId) (ls : List (List ℕ)) (t : Topic) → reaches k ls t ≡ true → IsSubscribed k t ls
unfolding reaches node_at
reached k [] t h = record {
  filter = [];
  node = t;
  matching = Matches.ended;
  there = refl;
  subscribed = h;
}
reached k (l ∷ ls) t h = elim (or_cases _ _ _ h) [
  | inl by_hash ↦ hashed k l ls t (find (b'#' ∷ []) (topics t)) refl by_hash
  | inr (inl by_plus) ↦
      descended k (b'+' ∷ []) l ls t (λ fs m. Matches.plus m) (reached k ls)
        (find (b'+' ∷ []) (topics t)) refl by_plus
  | inr (inr by_level) ↦
      descended k l l ls t (λ fs m. Matches.level m) (reached k ls) (find l (topics t)) refl
        by_level
]

found_below :
    (k : SessionId) (ls : List (List ℕ)) (fs : List (List ℕ)) (n : Topic) (o : Option Topic)
    → step_to (node_at fs) o ≡ some n
    → ((u : Topic) → node_at fs u ≡ some n → reaches k ls u ≡ true)
    → on_found (reaches k ls) o ≡ true
unfolding on_found step_to
found_below k ls fs n none e h = cc
found_below k ls fs n (some u) e h = h u e

found_hash :
    (k : SessionId) (n : Topic) (o : Option Topic)
    → step_to (node_at []) o ≡ some n
    → holds k (clients n) ≡ true
    → on_found (λ u. holds k (clients u)) o ≡ true
unfolding on_found step_to node_at
found_hash k n none e h = cc
found_hash k n (some u) e h = let same : u ≡ n = cc in rw same h

matched :
    (k : SessionId) (fs ls : List (List ℕ)) (t n : Topic)
    → Matches fs ls
    → node_at fs t ≡ some n
    → holds k (clients n) ≡ true
    → reaches k ls t ≡ true
unfolding reaches node_at
matched k _ _ t n Matches.ended e h = let same : t ≡ n = cc in rw same h
matched k _ _ t n (Matches.hash {l} {ls}) e h =
    let found = found_hash k n (find (b'#' ∷ []) (topics t)) e h in ground arith
matched k _ _ t n (Matches.plus {fs} {l} {ls} m) e h =
    let found =
      found_below k ls fs n (find (b'+' ∷ []) (topics t)) e (λ u e'. matched k fs ls u n m e' h) in
    ground arith
matched k _ _ t n (Matches.level {fs} {l} {ls} m) e h =
    let found = found_below k ls fs n (find l (topics t)) e (λ u e'. matched k fs ls u n m e' h) in
    ground arith

-- The sessions that `get_subscribed` returns for a topic are exactly those with a subscription in the
-- tree whose filter matches the topic, where `#` stands for at least one level.
pub get_subscribed-IsSubscribed :
    (k : SessionId) (root : Topic) (name : List ℕ)
    → (held k (get_subscribed root name) ≡ true → IsSubscribed k root (split b'/' name))
      × (IsSubscribed k root (split b'/' name) → held k (get_subscribed root name) ≡ true)
unfolding get_subscribed held any
get_subscribed-IsSubscribed k root name =
    let walk : held k (match_levels (split b'/' name) (root ∷ []) [])
        ≡ (false || (reaches k (split b'/' name) root || false)) =
      held-match_levels k (split b'/' name) (root ∷ []) [] in
    (
      (λ h.
          reached k (split b'/' name) root
            (let r : reaches k (split b'/' name) root ≡ true = ground arith in r)),
      (λ s.
          let r : reaches k (split b'/' name) root ≡ true =
            matched k s.filter _ root s.node s.matching s.there s.subscribed in
          ground arith),
    )
