-- ===== src/Tests/Sql.antt =====
-- Runs of broker/persistsql.rs, a retained message whose delete fails behind the update of its topic, and of
-- sessions/persistsql.rs, a queue of two messages.
use squillion_mqtt.Prelude.{ℕ, true, false, none, some, List, [], ◌∷◌, ◌≡◌, refl, subst, sym, ap}
use squillion_mqtt.Result.{ok, err}
use squillion_mqtt.Broker.Sql.{Sqlite, persist_delete_retain}
use squillion_mqtt.Broker.Sql.Atomic.{IsAtomic, persist_delete_retain_fails}
use squillion_mqtt.Messages.Types.{try_from}
use squillion_mqtt.Sessions.Invariant.{Distinct, IsTracked}
use squillion_mqtt.Sessions.Machine.{Outside, Machine}
use squillion_mqtt.Sessions.State
use squillion_mqtt.Sessions.Loading.{
  init_persist_session, keep_session, load_state, keep_subscriptions, keep_incoming, keep_queue,
  track_messages,
}
use squillion_mqtt.Messages.Publish
use squillion_mqtt.Messages.Codec.{MqttMessage}
use squillion_mqtt.Sessions.Machine.{PersistCall}
use squillion_mqtt.Sessions.Sql.Atomic
use squillion_mqtt.Sessions.Sql.Atomic.{queue_write_fails}
use squillion_mqtt.Sessions.Sql.{
  SessionSqlite, QosoutRow, sql_outside, persist, persist_qos_outgoing_store,
}
use squillion_mqtt.Sessions.Sql.Loaded.{row_mids, sql_outside-IsTracked}

-- The topics with a retained message, now and at the start of the transaction.
record Database : Type 0 where
  now : List ℕ
  before : List ℕ

abbrev sqlite : Sqlite Database
sqlite = record {
  pool_get = λ w. (true, w);
  interact = λ w. (true, w);
  create_tables = λ w. (ok tt, w);
  select_version = λ w. (some 1, w);
  prepare_topics = λ w. (ok tt, w);
  select_topics = λ w. (some [], w);
  select_message = λ _ w. (none, w);
  prepare_subscriptions = λ w. (ok tt, w);
  select_subscriptions = λ _ w. (some [], w);
  insert_topic = λ _ w. (ok 0, w);
  delete_topic = λ _ w. (true, w);
  insert_subscription = λ _ _ _ w. (true, w);
  update_subscription = λ _ _ _ w. (true, w);
  delete_subscription = λ _ _ w. (true, w);
  insert_message = λ _ w. (some 1, w);
  set_retained = λ _ _ w. (true, record w { now = [] });
  select_retained = λ _ w. (some (some 9), w);
  delete_message = λ _ w. (false, w);
  begin = λ w. (true, record w { before = w.now });
  commit = λ w. (true, w);
  rollback = λ w. record w { now = w.before };
}

sqlite-IsAtomic : IsAtomic sqlite (λ w. w.now) (λ w. w.before)
sqlite-IsAtomic = record {
  pool = λ w. refl;
  thread = λ w. refl;
  no_begin = λ w w' f. absurd (cc);
  begins = λ w w' f. sym (ap (λ x. x.1.before) f);
  reads = λ id w. refl;
  sets = λ id m w. refl;
  deletes = λ id w. refl;
  no_commit = λ w w' f. absurd (cc);
  rolls_back = λ w. refl;
}

abbrev database : Database
database = record { now = 4 ∷ []; before = [] }

-- The tables after the rollback.
abbrev restored : Database
restored = record { now = 4 ∷ []; before = 4 ∷ [] }

deletion_fails :
    persist_delete_retain sqlite 4 database ≡ (err "Delete retained message failed", restored)
unfolding persist_delete_retain
deletion_fails = refl

persist_delete_retain_fails_example : restored.now ≡ database.now
persist_delete_retain_fails_example =
    persist_delete_retain_fails sqlite (λ w. w.now) (λ w. w.before) sqlite-IsAtomic 4 database
      restored "Delete retained message failed" deletion_fails

abbrev queue_rows : List QosoutRow
queue_rows =
    (record { message_id = some 8; message_type = 3; mid = 70000; dup = true })
    ∷ (record { message_id = none; message_type = 5; mid = 6; dup = false })
    ∷ []

abbrev session_sqlite : SessionSqlite (Unit {0})
session_sqlite = record {
  pool_get = λ w. (ok tt, w);
  interact = λ w. (ok tt, w);
  select_session = λ _ w. (ok (some (1, 0, 5)), w);
  insert_session = λ _ _ w. (ok 1, w);
  select_subscribed = λ _ w. (ok [], w);
  update_generation = λ _ _ w. (ok 1, w);
  update_mid = λ _ _ w. (ok 1, w);
  insert_qosin = λ _ _ w. (ok 1, w);
  delete_qosin = λ _ _ w. (ok tt, w);
  clear_qosin = λ _ w. (ok tt, w);
  select_qosin = λ _ w. (ok [], w);
  insert_qosout = λ _ _ _ _ w. (ok 1, w);
  select_message_id = λ _ _ w. (ok none, w);
  select_message_ids = λ _ w. (ok [], w);
  delete_qosout = λ _ _ w. (ok tt, w);
  clear_qosout = λ _ w. (ok tt, w);
  update_dup = λ _ _ _ w. (ok 1, w);
  select_qosout = λ _ w. (ok queue_rows, w);
  insert_message = λ _ w. (ok 1, w);
  select_message = λ _ w. (ok (record { qos = 1; topic = b'a' ∷ []; payload = b'x' ∷ [] }), w);
  delete_message = λ _ w. (ok tt, w);
  begin = λ w. (ok tt, w);
  commit = λ w. (ok tt, w);
  rollback = λ w. w;
}

queue_rows_apart :
    (session_id : ℕ) (w : Unit {0}) (rows : List QosoutRow)
    → (session_sqlite.select_qosout session_id w).0 ≡ ok rows
    → Distinct (row_mids rows)
queue_rows_apart session_id w rows e =
    subst (λ r. Distinct (row_mids r)) (let p : queue_rows ≡ rows = cc in p) (refl, (refl, tt))

abbrev channels : Outside (Unit {0})
channels = record {
  persist = λ c w. (ok tt, w);
  create_persistent_connection = λ w. (ok tt, w);
  persist_session = λ id w. (ok (0, 0, true, 1), w);
  load_persistent_subscriptions = λ id w. (ok [], w);
  persist_qos_incoming_load = λ id w. (ok [], w);
  persistent_qosout_load = λ id w. (ok [], w);
  send_client = λ c m w. (true, w);
  send_router = λ m w. (true, w);
  subscribe_response = λ w. (none, w);
}

abbrev begun : Machine (Unit {0})
begun = record { session = State.new (b'c' ∷ []); world = tt; sent = [] }

begun-IsTracked : IsTracked begun.session
unfolding State.new
begun-IsTracked = record { kinds = tt; distinct = tt; listed = λ n e. cc }

abbrev loaded : Machine (Unit {0})
loaded = (init_persist_session (sql_outside session_sqlite channels) begun).1

loaded_done : init_persist_session (sql_outside session_sqlite channels) begun ≡ (ok tt, loaded)
unfolding init_persist_session keep_session load_state keep_subscriptions keep_incoming keep_queue
    track_messages State.new sql_outside try_from
loaded_done = refl

sql_outside-IsTracked_example : IsTracked loaded.session
sql_outside-IsTracked_example =
    sql_outside-IsTracked session_sqlite channels queue_rows_apart begun loaded begun-IsTracked
      loaded_done

-- A store whose messages are written and whose entries of the queue are not.
abbrev queue_sqlite : SessionSqlite Database
queue_sqlite = record {
  pool_get = λ w. (ok tt, w);
  interact = λ w. (ok tt, w);
  select_session = λ _ w. (ok none, w);
  insert_session = λ _ _ w. (ok 1, w);
  select_subscribed = λ _ w. (ok [], w);
  update_generation = λ _ _ w. (ok 1, w);
  update_mid = λ _ _ w. (ok 1, w);
  insert_qosin = λ _ _ w. (ok 1, w);
  delete_qosin = λ _ _ w. (ok tt, w);
  clear_qosin = λ _ w. (ok tt, w);
  select_qosin = λ _ w. (ok [], w);
  insert_qosout = λ _ _ _ _ w. (err "disk full", w);
  select_message_id = λ _ _ w. (ok none, w);
  select_message_ids = λ _ w. (ok [], w);
  delete_qosout = λ _ _ w. (ok tt, w);
  clear_qosout = λ _ w. (ok tt, w);
  update_dup = λ _ _ _ w. (ok 1, w);
  select_qosout = λ _ w. (ok [], w);
  insert_message = λ _ w. (ok 7, record w { now = 7 ∷ w.now });
  select_message = λ _ w. (err "no message", w);
  delete_message = λ _ w. (ok tt, w);
  begin = λ w. (ok tt, record w { before = w.now });
  commit = λ w. (ok tt, w);
  rollback = λ w. record w { now = w.before };
}

queue_sqlite-IsAtomic : Atomic.IsAtomic queue_sqlite (λ w. w.now) (λ w. w.before)
queue_sqlite-IsAtomic = record {
  pool = λ w. refl;
  thread = λ w. refl;
  no_begin = λ w w' e f. absurd (cc);
  begins = λ w w' f. sym (ap (λ x. x.1.before) f);
  inserts_message = λ m w. refl;
  inserts = λ s t n m w. refl;
  reads = λ s n w. refl;
  reads_all = λ s w. refl;
  deletes = λ s n w. refl;
  clears = λ s w. refl;
  deletes_message = λ id w. refl;
  no_commit = λ w w' e f. absurd (cc);
  rolls_back = λ w. refl;
}

abbrev storing : PersistCall
storing = PersistCall.qos_outgoing_store 1 5 (MqttMessage.publish Publish.new)

store_fails : persist queue_sqlite storing database ≡ (err "disk full", restored)
unfolding persist persist_qos_outgoing_store
store_fails = refl

queue_write_fails_example : restored.now ≡ database.now
queue_write_fails_example =
    queue_write_fails queue_sqlite (λ w. w.now) (λ w. w.before) queue_sqlite-IsAtomic storing
      database restored "disk full" refl store_fails
