-- ===== src/Broker/Subscriptions/Node.antt =====
-- broker/topics.rs: a node of the tree, its clients and its path.
use squillion_mqtt.Prelude.{
  ℕ, Bool, true, false, Option, none, some, List, [], ◌∷◌, if◌then◌else◌, bytes_eq, is_empty,
  length,
}
use squillion_mqtt.Messages.Publish.{MqttMessagePublish}
use squillion_mqtt.Sessions.State.{SessionId}
use squillion_mqtt.Broker.Topics.{
  TopicEntry, Topic, topic, Children, no_child, child, topics, clients, get_internal_id, message,
  find,
}

abbrev pub is_none : {A : Type 0} → Option A → Bool
is_none none = true
is_none (some a) = false

-- `Topic::new`
abbrev pub new : Option ℕ → Topic
new internal_id = topic no_child internal_id [] none

abbrev pub set_internal_id : Option ℕ → Topic → Topic
set_internal_id id t = topic (topics t) id (clients t) (message t)

abbrev pub set_message : Option MqttMessagePublish → Topic → Topic
set_message m t = topic (topics t) (get_internal_id t) (clients t) m

abbrev pub set_clients : List (List ℕ × TopicEntry) → Topic → Topic
set_clients cs t = topic (topics t) (get_internal_id t) cs (message t)

abbrev pub get_num_subscribed : Topic → ℕ
get_num_subscribed t = length (clients t)

-- `get`, `insert` and `remove` of `HashMap<String, TopicEntry>`
unfoldable pub get_client : List ℕ → List (List ℕ × TopicEntry) → Option TopicEntry
get_client k [] = none
get_client k ((name, e) ∷ cs) = if bytes_eq k name then some e else get_client k cs

unfoldable pub insert_entry :
    List ℕ → TopicEntry → List (List ℕ × TopicEntry) → List (List ℕ × TopicEntry)
insert_entry k e [] = (k, e) ∷ []
insert_entry k e ((name, old) ∷ cs) =
    let later = insert_entry k e cs in
    if bytes_eq k name then (name, e) ∷ cs else (name, old) ∷ later

unfoldable pub remove_entry : List ℕ → List (List ℕ × TopicEntry) → List (List ℕ × TopicEntry)
remove_entry k [] = []
remove_entry k ((name, e) ∷ cs) =
    let later = remove_entry k cs in if bytes_eq k name then later else (name, e) ∷ later

-- The new node, and whether the entry is new.
abbrev pub set_subscribed : SessionId → ℕ → Topic → Topic × Bool
set_subscribed session qos t = (
  set_clients (insert_entry session.session (record { session = session; qos = qos }) (clients t))
      t,
  is_none (get_client session.session (clients t)),
)

-- The new node, and whether there was an entry.
abbrev pub set_unsubscribed : List ℕ → Topic → Topic × Bool
set_unsubscribed client t = (
  set_clients (remove_entry client (clients t)) t,
  if is_none (get_client client (clients t)) then false else true,
)

abbrev pub entry_qos : Option TopicEntry → Option ℕ
entry_qos none = none
entry_qos (some e) = some e.qos

-- `Topic::get_subscribed`
abbrev pub get_subscribed : Topic → SessionId → Option ℕ
get_subscribed t session = entry_qos (get_client session.session (clients t))

-- A write through the reference to a child.
unfoldable pub set_child : List ℕ → Topic → Children → Children
set_child l u no_child = child l u no_child
set_child l u (child name t others) =
    let later = set_child l u others in
    if bytes_eq l name then child name u others else child name t later

abbrev pub put_below : List ℕ → Topic → Topic → Topic
put_below l u t = topic (set_child l u (topics t)) (get_internal_id t) (clients t) (message t)

-- One step of the loop `tm = match tm { Some(entry) => entry.topics.get_mut(level), None => None }`.
abbrev pub descend : List ℕ → Option Topic → Option Topic
descend l none = none
descend l (some entry) = find l (topics entry)

unfoldable pub follow : List (List ℕ) → Option Topic → Option Topic
follow [] tm = tm
follow (l ∷ ls) tm = follow ls (descend l tm)

-- A write through the reference to the node of a path.
unfoldable pub write : List (List ℕ) → (Topic → Topic) → Topic → Topic
write [] f t = f t
write (l ∷ ls) f t = elim (find l (topics t)) [ none ↦ t | some e ↦ put_below l (write ls f e) t ]

-- The first loop of `get_topic`: the nodes above the last one are made.
unfoldable pub reserve : List (List ℕ) → Topic → Topic
reserve [] t = t
reserve (l ∷ ls) t = elim (find l (topics t)) [
  | none ↦ if is_empty ls then t else put_below l (reserve ls (new none)) t
  | some e ↦ put_below l (reserve ls e) t
]

-- `new_topic` after the first loop of `get_topic`.
unfoldable pub is_new : List (List ℕ) → Topic → Bool
is_new [] t = false
is_new (l ∷ ls) t = elim (find l (topics t)) [
  | none ↦ if is_empty ls then true else is_new ls (new none)
  | some e ↦ if is_empty ls then is_none (get_internal_id e) else is_new ls e
]

-- The node that the second loop of `get_topic` enters at an existing name.
abbrev pub entered : Bool → Bool → ℕ → Topic → Topic
entered is_last new_topic internal_id e =
    if is_last then (if new_topic then set_internal_id (some internal_id) e else e) else e

-- The second loop of `get_topic`: the tree, and the node that it ends at.
unfoldable pub complete : Bool → ℕ → List (List ℕ) → Topic → Topic
complete new_topic internal_id [] t = t
complete new_topic internal_id (l ∷ ls) t = elim (find l (topics t)) [
  | none ↦ put_below l (complete new_topic internal_id ls (new (some internal_id))) t
  | some e ↦
      put_below l
        (complete new_topic internal_id ls (entered (is_empty ls) new_topic internal_id e)) t
]

unfoldable pub last_node : Bool → ℕ → List (List ℕ) → Topic → Topic
last_node new_topic internal_id [] t = t
last_node new_topic internal_id (l ∷ ls) t = elim (find l (topics t)) [
  | none ↦ last_node new_topic internal_id ls (new (some internal_id))
  | some e ↦ last_node new_topic internal_id ls (entered (is_empty ls) new_topic internal_id e)
]

-- An existing node keeps the topics below it.
abbrev pub take_over : Topic → Topic → Topic
take_over item e = topic (topics e) (get_internal_id item) (clients item) (message item)

-- The loop of `insert_topic`.
unfoldable pub place : Topic → List (List ℕ) → Topic → Topic
place item [] t = t
place item (l ∷ ls) t = elim (find l (topics t)) [
  | none ↦ if is_empty ls then put_below l item t else put_below l (place item ls (new none)) t
  | some e ↦ put_below l (if is_empty ls then take_over item e else place item ls e) t
]
