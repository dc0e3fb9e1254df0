-- ===== src/Broker/Topics.antt =====
-- broker/topics.rs: the tree of topics, and the sessions that a topic reaches.
-- A `HashMap` is an association list; the order of the list stands for the order of the table.
pub mod Matching
pub mod Filters
use squillion_mqtt.Prelude.{
  ℕ, Bool, true, false, ◌&&◌, ◌||◌, Option, none, some, List, [], ◌∷◌, ◌++◌, ◌==◌, if◌then◌else◌,
  bytes_eq, is_empty,
}
use squillion_mqtt.Prelude.Split.{split}
use squillion_mqtt.Messages.Publish.{MqttMessagePublish}
use squillion_mqtt.Sessions.State.{SessionId}

pub record TopicEntry : Type 0 where
  pub session : SessionId
  pub qos : ℕ

mutual
  pub data Topic : Type 0 where
    topic :
        (below : Children) (internal_id : Option ℕ) (subscribers : List (List ℕ × TopicEntry))
        (message : Option MqttMessagePublish)
        → Topic

  pub data Children : Type 0 where
    no_child : Children
    child : (level : List ℕ) (node : Topic) (others : Children) → Children

abbrev pub topics : Topic → Children
topics (topic ts id cs m) = ts

abbrev pub clients : Topic → List (List ℕ × TopicEntry)
clients (topic ts id cs m) = cs

abbrev pub get_internal_id : Topic → Option ℕ
get_internal_id (topic ts id cs m) = id

abbrev pub message : Topic → Option MqttMessagePublish
message (topic ts id cs m) = m

-- `topics.get(level)`
unfoldable pub find : List ℕ → Children → Option Topic
find level no_child = none
find level (child name t others) =
    let later = find level others in if bytes_eq level name then some t else later

-- The derived equality of `SessionId`.
unfoldable pub same_session : SessionId → SessionId → Bool
same_session a b =
    bytes_eq a.session b.session
    && (a.internal_id == b.internal_id && a.session_generation == b.session_generation)

-- `insert` of `HashMap<SessionId, u8>`
pub insert_client : SessionId → ℕ → List (SessionId × ℕ) → List (SessionId × ℕ)
unfolding same_session
insert_client s qos [] = (s, qos) ∷ []
insert_client s qos ((s', qos') ∷ held) =
    let later = insert_client s qos held in
    if same_session s s' then (s', qos) ∷ held else (s', qos') ∷ later

-- The loop over the clients of a node.
pub add_clients : List (List ℕ × TopicEntry) → List (SessionId × ℕ) → List (SessionId × ℕ)
unfolding insert_client
add_clients [] found = found
add_clients ((name, e) ∷ es) found = add_clients es (insert_client e.session e.qos found)

pub add_found : Option Topic → List (SessionId × ℕ) → List (SessionId × ℕ)
unfolding add_clients
add_found none found = found
add_found (some t) found = add_clients (clients t) found

pub push : Option Topic → List Topic → List Topic
push none next = next
push (some t) next = next ++ (t ∷ [])

-- The nodes of the next level.
pub next_topics : List ℕ → List Topic → List Topic → List Topic
unfolding push find
next_topics level [] next = next
next_topics level (t ∷ ts) next =
    next_topics level ts (push (find level (topics t)) (push (find (b'+' ∷ []) (topics t)) next))

-- The clients of the nodes `#` below the nodes of a level.
pub add_hash : List Topic → List (SessionId × ℕ) → List (SessionId × ℕ)
unfolding add_found find
add_hash [] found = found
add_hash (t ∷ ts) found = add_hash ts (add_found (find (b'#' ∷ []) (topics t)) found)

pub add_last : List Topic → List (SessionId × ℕ) → List (SessionId × ℕ)
unfolding add_clients
add_last [] found = found
add_last (t ∷ ts) found = add_last ts (add_clients (clients t) found)

-- The loop over the levels; it breaks when no node is left, and then the last loop adds nothing.
pub match_levels : List (List ℕ) → List Topic → List (SessionId × ℕ) → List (SessionId × ℕ)
unfolding next_topics add_hash add_last
match_levels [] ts found = add_last ts found
match_levels (level ∷ levels) ts found =
    let next = next_topics level ts [] in
    let found' = add_hash ts found in
    let rest = match_levels levels next found' in
    if is_empty next then add_last next found' else rest

unfoldable pub get_subscribed : Topic → List ℕ → List (SessionId × ℕ)
unfolding match_levels
get_subscribed root name = match_levels (split b'/' name) (root ∷ []) []
