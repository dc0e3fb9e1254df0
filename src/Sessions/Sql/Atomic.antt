-- ===== src/Sessions/Sql/Atomic.antt =====
-- sessions/persistsql.rs: what a transaction that fails leaves behind.
use squillion_mqtt.Prelude.{
  ℕ, Bool, true, false, Option, none, some, List, [], ◌∷◌, String, ◌≡◌, refl, subst, ◌∙◌,
}
use squillion_mqtt.Result.{Result, ok, err}
use squillion_mqtt.Messages.Codec.{MqttMessage}
use squillion_mqtt.Broker.Sql.{MessageRow, Query, tried, done}
use squillion_mqtt.Sessions.Machine.{PersistCall}
use squillion_mqtt.Sessions.Sql.{
  SessionSqlite, publish_type, pub_rec_type, the_ids, with_client, committed, settled,
  in_transaction, insert_queued, store_message, persist_qos_outgoing_store, delete_messages,
  delete_queued, persist_qos_outgoing_delete, clear_queued, persist_qos_outgoing_clear, persist,
}

-- What SQLite documents of transactions, for the contents `tables` of the database and those that are
-- `saved` by the start of a transaction: to get a connection changes nothing, nor does a start that fails; a
-- start saves the tables; in a transaction every statement, and a commit that fails, leaves what was saved;
-- a rollback goes back to it.
pub record IsAtomic {W T : Type 0} (o : SessionSqlite W) (tables saved : W → T) : Type 0 where
  pub pool : (w : W) → tables (o.pool_get w).1 ≡ tables w
  pub thread : (w : W) → tables (o.interact w).1 ≡ tables w
  pub no_begin : (w w' : W) (e : String) → o.begin w ≡ (err e, w') → tables w' ≡ tables w
  pub begins : (w w' : W) → o.begin w ≡ (ok tt, w') → saved w' ≡ tables w
  pub inserts_message : (m : MessageRow) (w : W) → saved (o.insert_message m w).1 ≡ saved w
  pub inserts : (s t n : ℕ) (m : Option ℕ) (w : W) → saved (o.insert_qosout s t n m w).1 ≡ saved w
  pub reads : (s n : ℕ) (w : W) → saved (o.select_message_id s n w).1 ≡ saved w
  pub reads_all : (s : ℕ) (w : W) → saved (o.select_message_ids s w).1 ≡ saved w
  pub deletes : (s n : ℕ) (w : W) → saved (o.delete_qosout s n w).1 ≡ saved w
  pub clears : (s : ℕ) (w : W) → saved (o.clear_qosout s w).1 ≡ saved w
  pub deletes_message : (id : ℕ) (w : W) → saved (o.delete_message id w).1 ≡ saved w
  pub no_commit : (w w' : W) (e : String) → o.commit w ≡ (err e, w') → saved w' ≡ saved w
  pub rolls_back : (w : W) → tables (o.rollback w) ≡ saved w

-- The writes of several statements: a message of the queue is stored or deleted, or the queue cleared.
abbrev pub is_queue_write : PersistCall → Bool
is_queue_write (PersistCall.qos_outgoing_store session_id mid msg) = true
is_queue_write (PersistCall.qos_outgoing_delete session_id mid) = true
is_queue_write (PersistCall.qos_outgoing_clear session_id) = true
is_queue_write _ = false

-- The contents after an error.
abbrev Unchanged : {W T A : Type 0} → (W → T) → T → Result String A × W → Type 0
Unchanged tables before (ok _, w) = Unit {0}
Unchanged tables before (err _, w) = tables w ≡ before

module _ {W T : Type 0} (o : SessionSqlite W) (tables saved : W → T)
    (a : IsAtomic o tables saved) where
  -- A chain whose steps leave what was saved.
  tried-saved :
      {A B : Type 0} (x : Result String B × W) (f : B → Query W A) (before : T)
      → saved x.1 ≡ before
      → ((b : B) (w : W) → saved w ≡ before → saved (f b w).1 ≡ before)
      → saved (tried x f).1 ≡ before
  tried-saved (ok b, w) f before e k = k b w e
  tried-saved (err m, w) f before e k = e

  insert_queued-saved :
      (s t n : ℕ) (m : Option ℕ) (w : W) (before : T)
      → saved w ≡ before
      → saved (insert_queued o s t n m w).1 ≡ before
  unfolding insert_queued
  insert_queued-saved s t n m w before e =
      tried-saved (o.insert_qosout s t n m w) (λ _. done tt) before (a.inserts s t n m w ∙ e)
        (λ _ w1 e1. e1)

  store_message-saved :
      (s n : ℕ) (m : MqttMessage) (w : W) (before : T)
      → saved w ≡ before
      → saved (store_message o s n m w).1 ≡ before
  unfolding store_message
  store_message-saved s n (MqttMessage.publish m) w before e =
      tried-saved
        (o.insert_message (record { qos = m.qos; topic = m.topic; payload = m.message }) w)
        (λ id. insert_queued o s publish_type n (some id)) before (a.inserts_message _ w ∙ e)
        (λ id w1. insert_queued-saved s publish_type n (some id) w1 before)
  store_message-saved s n (MqttMessage.pub_rec m) w before e =
      insert_queued-saved s pub_rec_type n none w before e
  store_message-saved s n _ w before e = e

  delete_messages-saved :
      (ids : List ℕ) (w : W) (before : T)
      → saved w ≡ before
      → saved (delete_messages o ids w).1 ≡ before
  unfolding delete_messages
  delete_messages-saved [] w before e = e
  delete_messages-saved (id ∷ ids) w before e =
      tried-saved (o.delete_message id w) (λ _. delete_messages o ids) before
        (a.deletes_message id w ∙ e) (λ _ w1. delete_messages-saved ids w1 before)

  delete_queued-saved :
      (s n : ℕ) (w : W) (before : T) → saved w ≡ before → saved (delete_queued o s n w).1 ≡ before
  unfolding delete_queued
  delete_queued-saved s n w before e =
      tried-saved (o.select_message_id s n w) _ before (a.reads s n w ∙ e) (λ id w1 e1.
        tried-saved (o.delete_qosout s n w1) _ before (a.deletes s n w1 ∙ e1)
          (λ _ w2. delete_messages-saved (the_ids (id ∷ [])) w2 before))

  clear_queued-saved :
      (s : ℕ) (w : W) (before : T) → saved w ≡ before → saved (clear_queued o s w).1 ≡ before
  unfolding clear_queued
  clear_queued-saved s w before e =
      tried-saved (o.select_message_ids s w) _ before (a.reads_all s w ∙ e) (λ ids w1 e1.
        tried-saved (o.clear_qosout s w1) _ before (a.clears s w1 ∙ e1)
          (λ _ w2. delete_messages-saved (the_ids ids) w2 before))

  Unchanged-settled :
      {A : Type 0} (text : String) (x : Result String A × W) (before : T)
      → saved x.1 ≡ before
      → Unchanged tables before (settled o text x)
  unfolding settled committed
  Unchanged-settled text (err e, w) before k = a.rolls_back w ∙ k
  Unchanged-settled text (ok v, w) before k = at (o.commit w) refl
    where
      at :
          (y : Result String (Unit {0}) × W)
          → o.commit w ≡ y
          → Unchanged tables before (committed o text v y)
      at (ok _, w') f = tt
      at (err e, w') f = a.rolls_back w' ∙ a.no_commit w w' e f ∙ k

  Unchanged-in_transaction :
      {A : Type 0} (text : String) (body : Query W A) (w : W) (before : T)
      → ((w1 : W) → saved w1 ≡ before → saved (body w1).1 ≡ before)
      → tables w ≡ before
      → Unchanged tables before (in_transaction o text body w)
  unfolding in_transaction
  Unchanged-in_transaction {A} text body w before k e = at (o.begin w) refl
    where
      at :
          (x : Result String (Unit {0}) × W)
          → o.begin w ≡ x
          → Unchanged tables before (tried {A = A} x (λ _ w1. settled o text (body w1)))
      at (ok tt, w1) f = Unchanged-settled text (body w1) before (k w1 (a.begins w w1 f ∙ e))
      at (err m, w1) f = a.no_begin w w1 m f ∙ e

  Unchanged-tried :
      {A B : Type 0} (x : Result String B × W) (f : B → Query W A) (before : T)
      → tables x.1 ≡ before
      → ((b : B) (w : W) → tables w ≡ before → Unchanged tables before (f b w))
      → Unchanged tables before (tried x f)
  Unchanged-tried (ok b, w) f before e k = k b w e
  Unchanged-tried (err m, w) f before e k = e

  Unchanged-with_client :
      {A : Type 0} (text : String) (body : Query W A) (w : W)
      → ((w1 : W) → saved w1 ≡ tables w → saved (body w1).1 ≡ tables w)
      → Unchanged tables (tables w) (with_client o (in_transaction o text body) w)
  unfolding with_client
  Unchanged-with_client text body w k =
      Unchanged-tried (o.pool_get w) _ (tables w) (a.pool w) (λ _ w1 e1.
        Unchanged-tried (o.interact w1) _ (tables w) (a.thread w1 ∙ e1)
          (λ _ w2. Unchanged-in_transaction text body w2 (tables w) k))

  Unchanged-persist :
      (c : PersistCall) (w : W)
      → is_queue_write c ≡ true
      → Unchanged tables (tables w) (persist o c w)
  unfolding persist persist_qos_outgoing_store persist_qos_outgoing_delete
      persist_qos_outgoing_clear
  Unchanged-persist (PersistCall.qos_outgoing_store s n m) w q =
      Unchanged-with_client _ _ w (λ w1. store_message-saved s n m w1 (tables w))
  Unchanged-persist (PersistCall.qos_outgoing_delete s n) w q =
      Unchanged-with_client _ _ w (λ w1. delete_queued-saved s n w1 (tables w))
  Unchanged-persist (PersistCall.qos_outgoing_clear s) w q =
      Unchanged-with_client _ _ w (λ w1. clear_queued-saved s w1 (tables w))
  Unchanged-persist _ w q = absurd (cc)

  -- Where transactions of SQLite keep what it documents, a message of the queue that is stored or deleted,
  -- or a queue that is cleared, with an error, whichever of its statements failed, leaves the tables as they
  -- were.
  pub queue_write_fails :
      (c : PersistCall) (w w' : W) (e : String)
      → is_queue_write c ≡ true
      → persist o c w ≡ (err e, w')
      → tables w' ≡ tables w
  queue_write_fails c w w' e q f = subst (Unchanged tables (tables w)) f (Unchanged-persist c w q)
