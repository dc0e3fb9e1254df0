-- ===== src/Tests/Broker.antt =====
-- Runs of broker/topics.rs, broker/router.rs and sessions/mod.rs on a small broker, over the provider of
-- the tests.
use squillion_mqtt.Prelude.{ℕ, ◌+◌, true, false, none, some, List, [], ◌∷◌, ◌≡◌, ◌≢◌, refl}
use squillion_mqtt.Prelude.Tests.{bytes_eq}
use squillion_mqtt.Prelude.Split.{split}
use squillion_mqtt.Action.{Ensures_ok}
use squillion_mqtt.Result.{ok}
use squillion_mqtt.Messages.Publish.{MqttMessagePublish}
use squillion_mqtt.Sessions.State.{SessionId}
use squillion_mqtt.Sessions.Table
use squillion_mqtt.Sessions.Table.{Sessions, get_session, get_session_tx}
use squillion_mqtt.Sessions.Table.Channels.{IsServed, get_session-IsServed, TableEvent, run_table}
use squillion_mqtt.Sessions.Table.Workers.{workers_of, one_if, ends_of, run_table-workers}
use squillion_mqtt.Broker.Topics.{get_subscribed, find, same_session}
use squillion_mqtt.Broker.Topics.Matching.{held}
use squillion_mqtt.Broker.Topics.Filters.{Matches}
use squillion_mqtt.Broker.Store.{PersistProvider, Store, persist_topic_test}
use squillion_mqtt.Broker.Subscriptions.{
  levels, get_topic, subscribe, subscribe_at, new_subscription, unsubscribe, unsubscribe_at, forget,
  delete_topic, retain, retain_at, keep_message, get_retained_messages,
}
use squillion_mqtt.Broker.Subscriptions.Node
use squillion_mqtt.Broker.Subscriptions.Node.{
  get_client, insert_entry, remove_entry, set_child, follow, write, reserve, is_new, complete,
  last_node,
}
use squillion_mqtt.Broker.Subscriptions.Views.{payload_at, path_eq}
use squillion_mqtt.Broker.Subscriptions.Changes.{IsSound}
use squillion_mqtt.Broker.Subscriptions.Sound.{new-IsSound, subscribe-Sound}
use squillion_mqtt.Broker.Subscriptions.Granted.{
  subscription, retained, subscribe_grants, unsubscribe_removes, retain_keeps,
}
use squillion_mqtt.Broker.Subscriptions.Reaching.{subscribe_reaches, unsubscribe_silences}

abbrev reader : SessionId
reader = record { session = b'r' ∷ []; internal_id = 1; session_generation = 1 }

abbrev database : PersistProvider (Unit {0})
database = persist_topic_test

abbrev empty : Store (Unit {0})
empty = record { topics = Node.new none; world = tt }

-- The topic a/b, and the filter a/+.
abbrev name : List ℕ
name = b'a' ∷ b'/' ∷ b'b' ∷ []

abbrev wild : List ℕ
wild = b'a' ∷ b'/' ∷ b'+' ∷ []

abbrev subscribed : Store (Unit {0})
subscribed = (subscribe database reader wild 1 empty).1

granted : subscribe database reader wild 1 empty ≡ (ok 1, subscribed)
unfolding subscribe subscribe_at new_subscription get_topic split find get_client insert_entry
    set_child write reserve is_new complete last_node bytes_eq
granted = refl

subscribe_grants_example :
    (subscription (b'r' ∷ []) (levels wild) subscribed.topics ≡ some 1)
    × ((k : List ℕ)
        → bytes_eq k (b'r' ∷ []) ≡ false
        → subscription k (levels wild) subscribed.topics
          ≡ subscription k (levels wild) empty.topics)
    × (retained (levels wild) subscribed.topics ≡ retained (levels wild) empty.topics)
    × ((p : List (List ℕ))
        → path_eq p (levels wild) ≡ false
        → payload_at p subscribed.topics ≡ payload_at p empty.topics)
subscribe_grants_example = subscribe_grants database reader wild 1 empty subscribed 1 granted

subscribed-IsSound : IsSound subscribed.topics
subscribed-IsSound =
    Ensures_ok (subscribe-Sound database reader wild 1 empty new-IsSound) 1 subscribed granted

subscribe_reaches_example :
    (k : SessionId) × (k.session ≡ b'r' ∷ [])
    × (held k (get_subscribed subscribed.topics name) ≡ true)
unfolding split
subscribe_reaches_example =
    subscribe_reaches database reader wild 1 empty subscribed 1 name new-IsSound granted
      (Matches.level (Matches.plus Matches.ended))

abbrev left : Store (Unit {0})
left = (unsubscribe database reader wild subscribed).1

removed : unsubscribe database reader wild subscribed ≡ (ok tt, left)
unfolding unsubscribe unsubscribe_at forget delete_topic follow remove_entry subscribe subscribe_at
    new_subscription get_topic split find get_client insert_entry set_child write reserve is_new
    complete last_node bytes_eq
removed = refl

unsubscribe_removes_example :
    (subscription (b'r' ∷ []) (levels wild) left.topics ≡ none)
    × ((k : List ℕ) (p : List (List ℕ))
        → bytes_eq k (b'r' ∷ []) ≡ false
        → subscription k p left.topics ≡ subscription k p subscribed.topics)
    × ((k : List ℕ) (p : List (List ℕ))
        → path_eq p (levels wild) ≡ false
        → subscription k p left.topics ≡ subscription k p subscribed.topics)
    × ((p : List (List ℕ)) → retained p left.topics ≡ retained p subscribed.topics)
unsubscribe_removes_example =
    unsubscribe_removes database reader wild subscribed left subscribed-IsSound removed

-- Two filters, of which one is given up.
abbrev twice : Store (Unit {0})
twice = (subscribe database reader name 2 subscribed).1

granted_twice : subscribe database reader name 2 subscribed ≡ (ok 2, twice)
unfolding subscribe subscribe_at new_subscription get_topic split find get_client insert_entry
    set_child write reserve is_new complete last_node bytes_eq
granted_twice = refl

abbrev once : Store (Unit {0})
once = (unsubscribe database reader name twice).1

removed_once : unsubscribe database reader name twice ≡ (ok tt, once)
unfolding unsubscribe unsubscribe_at forget delete_topic follow remove_entry subscribe subscribe_at
    new_subscription get_topic split find get_client insert_entry set_child write reserve is_new
    complete last_node bytes_eq
removed_once = refl

still_found : held reader (get_subscribed once.topics name) ≡ true
unfolding unsubscribe unsubscribe_at forget delete_topic follow remove_entry subscribe subscribe_at
    new_subscription get_topic split find get_client insert_entry set_child write reserve is_new
    complete last_node bytes_eq held get_subscribed same_session
still_found = refl

unsubscribe_silences_example :
    (p : List (List ℕ)) × Matches p (levels name)
    × (path_eq p (levels name) ≡ false)
    × (subscription (b'r' ∷ []) p once.topics ≢ none)
unsubscribe_silences_example =
    unsubscribe_silences database reader name twice once reader name
      (Ensures_ok (subscribe-Sound database reader name 2 subscribed subscribed-IsSound) 2 twice
        granted_twice)
      removed_once refl still_found

abbrev msg : MqttMessagePublish
msg = record {
  identifier = 0;
  topic = name;
  message = b'x' ∷ [];
  retain = true;
  dup = false;
  qos = 1;
}

abbrev kept : Store (Unit {0})
kept = (retain database msg subscribed).1

retains : retain database msg subscribed ≡ (ok tt, kept)
unfolding retain retain_at keep_message delete_topic subscribe subscribe_at new_subscription
    get_topic split find get_client insert_entry set_child write reserve is_new complete last_node
    bytes_eq
retains = refl

retain_keeps_example :
    (get_retained_messages kept.topics name ≡ msg ∷ [])
    × ((topic : List ℕ)
        → path_eq (levels topic) (levels name) ≡ false
        → get_retained_messages kept.topics topic ≡ get_retained_messages subscribed.topics topic)
    × ((k : List ℕ) (p : List (List ℕ))
        → subscription k p kept.topics ≡ subscription k p subscribed.topics)
retain_keeps_example = retain_keeps database msg subscribed kept retains

-- A session that is asked for, ends, and is asked for again.
get_session-IsServed_example :
    (tx : ℕ) × (t' : Sessions) × (get_session
        (b'r' ∷ [])
        (run_table (TableEvent.asked (b'r' ∷ []) ∷ []) Table.new)
      ≡ (ok tx, t'))
    × IsServed (b'r' ∷ []) tx (run_table (TableEvent.asked (b'r' ∷ []) ∷ []) Table.new) t'
get_session-IsServed_example =
    get_session-IsServed (b'r' ∷ []) (run_table (TableEvent.asked (b'r' ∷ []) ∷ []) Table.new)

-- One worker has ended, and the session runs.
abbrev table_events : List TableEvent
table_events =
    TableEvent.asked (b'r' ∷ []) ∷ TableEvent.ended (b'r' ∷ []) ∷ TableEvent.asked (b'r' ∷ []) ∷ []

run_table-workers_example :
    workers_of (b'r' ∷ []) (run_table table_events Table.new).workers
    ≡ ends_of (b'r' ∷ []) table_events Table.new
      + one_if (get_session_tx (b'r' ∷ []) (run_table table_events Table.new))
run_table-workers_example = run_table-workers table_events (b'r' ∷ [])
