-- ===== src/Sessions/Sql/Loaded.antt =====
-- sessions/persistsql.rs: what is loaded.
use squillion_mqtt.Prelude.{
  ℕ, ◌%◌, ◌^◌, true, Option, none, some, List, [], ◌∷◌, String, ◌≡◌, refl, ap, ◌∙◌,
}
use squillion_mqtt.Result.{Result, ok, err}
use squillion_mqtt.Messages.Types.{MqttMessageType, try_from}
use squillion_mqtt.Messages.Codec.{MqttMessage}
use squillion_mqtt.Broker.Sql.{Query, tried}
use squillion_mqtt.Sessions.Invariant.{is_queued, mid_of, ids, AllQueued}
use squillion_mqtt.Sessions.Invariant.{Distinct, IsTracked}
use squillion_mqtt.Sessions.Machine.{Outside, Machine}
use squillion_mqtt.Sessions.Loading.{init_persist_session}
use squillion_mqtt.Sessions.Loading.Restored.{KeepsQueue, init_persist_session-IsTracked}
use squillion_mqtt.Sessions.Sql.{
  sql_outside, QosoutRow, SessionSqlite, with_client, client_load_persistent_message, load_publish,
  load_typed, load_rows, persistent_qosout_load,
}

-- The first step of a chain that returns a result.
tried_ok :
    {W A B : Type 0} (x : Result String B × W) (f : B → Query W A) (a : A) (w' : W)
    → tried x f ≡ (ok a, w')
    → (b : B) × (w1 : W) × (x ≡ (ok b, w1)) × (f b w1 ≡ (ok a, w'))
tried_ok (ok b, w1) f a w' e = (b, w1, refl, e)
tried_ok (err m, w1) f a w' e = absurd (cc)

-- What the rows of the queue say.
abbrev pub row_mids : List QosoutRow → List ℕ
row_mids [] = []
row_mids (r ∷ rs) = r.mid % 2 ^ 16 ∷ row_mids rs

module _ {W : Type 0} (o : SessionSqlite W) where
  load_typed_lem :
      (row : QosoutRow) (t : Option MqttMessageType) (w w' : W) (m : MqttMessage)
      → load_typed o row t w ≡ (ok m, w')
      → (is_queued m ≡ true) × (mid_of m ≡ row.mid % 2 ^ 16)
  unfolding load_typed load_publish
  load_typed_lem row (some MqttMessageType.pub_rec) w w' m e =
      let f : MqttMessage.pub_rec (record { identifier = row.mid % 2 ^ 16 }) ≡ m = cc in
      rw (← f) (refl, refl)
  load_typed_lem row (some MqttMessageType.publish) w w' m e = at row.message_id e
    where
      at :
          (id : Option ℕ)
          → load_publish o row id w ≡ (ok m, w')
          → (is_queued m ≡ true) × (mid_of m ≡ row.mid % 2 ^ 16)
      at none f = absurd (cc)
      at (some id) f =
          let (p, w1, _, g) = tried_ok (client_load_persistent_message o id w) _ m w' f in
          let h : MqttMessage.publish (record p { identifier = row.mid % 2 ^ 16; dup = row.dup })
              ≡ m =
            cc in
          rw (← h) (refl, refl)
  load_typed_lem row _ w w' m e = absurd (cc)

  load_rows_lem :
      (rows : List QosoutRow) (w w' : W) (ms : List MqttMessage)
      → load_rows o rows w ≡ (ok ms, w')
      → AllQueued ms × (ids ms ≡ row_mids rows)
  unfolding load_rows
  load_rows_lem [] w w' ms e = let f : [] ≡ ms = cc in rw (← f) (tt, refl)
  load_rows_lem (row ∷ rows) w w' ms e =
      let (m, w1, f, g) = tried_ok (load_typed o row (try_from row.message_type) w) _ ms w' e in
      let (rest, w2, h, k) = tried_ok (load_rows o rows w1) _ ms w' g in
      let (q, i) = load_typed_lem row (try_from row.message_type) w w1 m f in
      let (qs, is) = load_rows_lem rows w1 w2 rest h in
      let l : m ∷ rest ≡ ms = cc in
      rw (← l) ((q, qs), ap (λ x. x ∷ ids rest) i ∙ ap (λ xs. row.mid % 2 ^ 16 ∷ xs) is)

  -- A queue that is loaded without an error consists of PUBLISH and PUBREC only, one for each row that
  -- SQLite returned, in their order, with the identifiers of the rows as 16-bit numbers.
  pub persistent_qosout_load-AllQueued :
      (session_id : ℕ) (w w' : W) (ms : List MqttMessage)
      → persistent_qosout_load o session_id w ≡ (ok ms, w')
      → (rows : List QosoutRow) × (w1 : W) × (w2 : W) × (o.select_qosout session_id w1
          ≡ (ok rows, w2))
        × AllQueued ms
        × (ids ms ≡ row_mids rows)
  unfolding persistent_qosout_load with_client
  persistent_qosout_load-AllQueued session_id w w' ms e =
      let (_, w0, _, f) = tried_ok (o.pool_get w) _ ms w' e in
      let (_, w1, _, g) = tried_ok (o.interact w0) _ ms w' f in
      let (rows, w2, h, k) = tried_ok (o.select_qosout session_id w1) (load_rows o) ms w' g in
      let (q, i) = load_rows_lem rows w2 w' ms k in (rows, w1, w2, h, q, i)

  module _ (channels : Outside W)
      (apart : (session_id : ℕ) (w : W) (rows : List QosoutRow)
        → (o.select_qosout session_id w).0 ≡ ok rows
        → Distinct (row_mids rows)) where
    sql_outside-KeepsQueue : KeepsQueue (sql_outside o channels)
    unfolding sql_outside
    sql_outside-KeepsQueue = record {
      distinct = λ id w ms e.
          let (rows, w1, w2, h, q, i) =
            persistent_qosout_load-AllQueued id w (persistent_qosout_load o id w).1 ms (
              ap (λ (r : Result String (List MqttMessage)). (r, (persistent_qosout_load o id w).1))
                e) in
          rw i (apart id w1 rows (ap (λ x. x.0) h));
    }

    -- Where no two rows of a queue have the same identifier as 16-bit numbers, a session with a tracked queue
    -- that loads its state from SQLite without an error has a tracked queue: PUBLISH and PUBREC only, whatever
    -- types the rows have, with identifiers of their own, all of which it holds.
    pub sql_outside-IsTracked :
        (m m' : Machine W)
        → IsTracked m.session
        → init_persist_session (sql_outside o channels) m ≡ (ok tt, m')
        → IsTracked m'.session
    sql_outside-IsTracked m m' t e =
        init_persist_session-IsTracked (sql_outside o channels) m m' sql_outside-KeepsQueue t e
