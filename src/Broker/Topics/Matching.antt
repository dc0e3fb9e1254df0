-- ===== src/Broker/Topics/Matching.antt =====
-- src/broker/topics.rs: the walk of `get_subscribed`, next to the filters that match a topic.
use squillion_mqtt.Prelude.{
  ℕ, Bool, true, false, ◌||◌, Option, none, some, List, [], ◌∷◌, ◌++◌, ◌≡◌, refl, ◌∙◌, bytes_eq→eq,
  is_empty, arith, Bool-cases, inl, inr,
}
use squillion_mqtt.Sessions.State.{SessionId}
use squillion_mqtt.Broker.Topics.{
  TopicEntry, Topic, topics, clients, find, same_session, insert_client, add_clients, add_found,
  push, next_topics, add_hash, add_last, match_levels,
}

-- Membership of a session.
unfoldable pub held : SessionId → List (SessionId × ℕ) → Bool
held k [] = false
held k ((s, qos) ∷ found) = same_session k s || held k found

unfoldable pub holds : SessionId → List (List ℕ × TopicEntry) → Bool
holds k [] = false
holds k ((name, e) ∷ es) = same_session k e.session || holds k es

unfoldable pub any : {A : Type 0} → (A → Bool) → List A → Bool
any p [] = false
any p (x ∷ xs) = p x || any p xs

unfoldable pub on_found : (Topic → Bool) → Option Topic → Bool
on_found p none = false
on_found p (some t) = p t

-- Whether a topic of these levels reaches the session from a node.
unfoldable pub reaches : SessionId → List (List ℕ) → Topic → Bool
unfolding on_found holds
reaches k [] t = holds k (clients t)
reaches k (l ∷ ls) t =
    on_found (λ u. holds k (clients u)) (find (b'#' ∷ []) (topics t))
    || (on_found (reaches k ls) (find (b'+' ∷ []) (topics t))
        || on_found (reaches k ls) (find l (topics t)))

pub same_session→eq : (a b : SessionId) → same_session a b ≡ true → a ≡ b
unfolding same_session
same_session→eq a b h =
    let s : a.session ≡ b.session = bytes_eq→eq a.session b.session (ground arith) in
    let i : a.internal_id ≡ b.internal_id = ground arith in
    let g : a.session_generation ≡ b.session_generation = ground arith in rw (s, i, g)

held-insert_client :
    (k s : SessionId) (qos : ℕ) (found : List (SessionId × ℕ))
    → held k (insert_client s qos found) ≡ (held k found || same_session k s)
unfolding held insert_client
held-insert_client k s qos [] = ground arith
held-insert_client k s qos ((s', qos') ∷ found) = elim (Bool-cases (same_session s s')) [
  | inl same ↦ let e : s ≡ s' = same_session→eq s s' same in rw (same, e) (ground arith)
  | inr other ↦ rw other (ground (arith, held-insert_client k s qos found))
]

held-add_clients :
    (k : SessionId) (es : List (List ℕ × TopicEntry)) (found : List (SessionId × ℕ))
    → held k (add_clients es found) ≡ (held k found || holds k es)
unfolding add_clients holds
held-add_clients k [] found = ground arith
held-add_clients k ((name, e) ∷ es) found =
    held-add_clients k es (insert_client e.session e.qos found)
    ∙ rw (held-insert_client k e.session e.qos found) (ground arith)

held-add_found :
    (k : SessionId) (t : Option Topic) (found : List (SessionId × ℕ))
    → held k (add_found t found) ≡ (held k found || on_found (λ u. holds k (clients u)) t)
unfolding add_found on_found
held-add_found k none found = ground arith
held-add_found k (some t) found = held-add_clients k (clients t) found

held-add_last :
    (k : SessionId) (ts : List Topic) (found : List (SessionId × ℕ))
    → held k (add_last ts found) ≡ (held k found || any (λ t. holds k (clients t)) ts)
unfolding add_last any
held-add_last k [] found = ground arith
held-add_last k (t ∷ ts) found =
    held-add_last k ts (add_clients (clients t) found)
    ∙ rw (held-add_clients k (clients t) found) (ground arith)

held-add_hash :
    (k : SessionId) (ts : List Topic) (found : List (SessionId × ℕ))
    → held k (add_hash ts found) ≡ (
        held k found
        || any (λ t. on_found (λ u. holds k (clients u)) (find (b'#' ∷ []) (topics t))) ts)
unfolding add_hash any
held-add_hash k [] found = ground arith
held-add_hash k (t ∷ ts) found =
    held-add_hash k ts (add_found (find (b'#' ∷ []) (topics t)) found)
    ∙ rw (held-add_found k (find (b'#' ∷ []) (topics t)) found) (ground arith)

any-append : (p : Topic → Bool) (xs ys : List Topic) → any p (xs ++ ys) ≡ (any p xs || any p ys)
unfolding any
any-append p [] ys = refl
any-append p (x ∷ xs) ys = rw (any-append p xs ys) (ground arith)

any-push :
    (p : Topic → Bool) (t : Option Topic) (next : List Topic)
    → any p (push t next) ≡ (any p next || on_found p t)
unfolding push on_found any
any-push p none next = ground arith
any-push p (some t) next = any-append p next (t ∷ []) ∙ ground arith

any-next_topics :
    (p : Topic → Bool) (l : List ℕ) (ts next : List Topic)
    → any p (next_topics l ts next) ≡ (
        any p next
        || any (λ t. on_found p (find (b'+' ∷ []) (topics t)) || on_found p (find l (topics t))) ts)
unfolding next_topics any
any-next_topics p l [] next = ground arith
any-next_topics p l (t ∷ ts) next =
    let plus : Option Topic = find (b'+' ∷ []) (topics t) in
    any-next_topics p l ts (push (find l (topics t)) (push plus next))
    ∙ rw (any-push p (find l (topics t)) (push plus next), any-push p plus next) (ground arith)

any-or : (p q : Topic → Bool) (ts : List Topic) → any (λ t. p t || q t) ts ≡ (any p ts || any q ts)
unfolding any
any-or p q [] = refl
any-or p q (t ∷ ts) = rw (any-or p q ts) (ground arith)

empty_any : (p : Topic → Bool) (ts : List Topic) → is_empty ts ≡ true → any p ts ≡ false
unfolding any
empty_any p [] h = refl
empty_any p (t ∷ ts) h = absurd (ground arith)

pub held-match_levels :
    (k : SessionId) (ls : List (List ℕ)) (ts : List Topic) (found : List (SessionId × ℕ))
    → held k (match_levels ls ts found) ≡ (held k found || any (reaches k ls) ts)
unfolding match_levels reaches any
held-match_levels k [] ts found = held-add_last k ts found
held-match_levels k (l ∷ ls) ts found =
    let next : List Topic = next_topics l ts [] in
    let below = any-next_topics (reaches k ls) l ts [] in
    let hash = held-add_hash k ts found in
    let split_or =
      any-or (λ t. on_found (λ u. holds k (clients u)) (find (b'#' ∷ []) (topics t)))
        (λ t.
          on_found (reaches k ls) (find (b'+' ∷ []) (topics t))
          || on_found (reaches k ls) (find l (topics t)))
        ts in
    elim (Bool-cases (is_empty next)) [
      | inl gone ↦ rw gone (
          held-add_last k next (add_hash ts found)
          ∙ rw (hash, split_or, empty_any (λ t. holds k (clients t)) next gone)
              (ground (arith, below, empty_any (reaches k ls) next gone)))
      | inr left ↦ rw left (
          held-match_levels k ls next (add_hash ts found)
          ∙ rw (hash, split_or, below) (ground arith))
    ]
