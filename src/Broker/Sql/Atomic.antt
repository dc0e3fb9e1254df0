-- ===== src/Broker/Sql/Atomic.antt =====
-- broker/persistsql.rs: what a transaction that fails leaves behind.
use squillion_mqtt.Prelude.{ℕ, Bool, true, false, Option, none, some, String, ◌≡◌, refl, ◌∙◌, subst}
use squillion_mqtt.Result.{Result, ok, err}
use squillion_mqtt.Broker.Sql.{
  Sqlite, Query, checked, valued, failed, done, dropped, with_client, delete_retained_message,
  delete_retained, persist_delete_retain,
}

-- What SQLite documents of transactions, for the contents `tables` of the database and those that are
-- `saved` by the start of a transaction: to get a connection changes nothing, nor does a start that fails; a
-- start saves the tables; in a transaction every statement, and a commit that fails, leaves what was saved;
-- a rollback goes back to it.
pub record IsAtomic {W T : Type 0} (o : Sqlite W) (tables saved : W → T) : Type 0 where
  pub pool : (w : W) → tables (o.pool_get w).1 ≡ tables w
  pub thread : (w : W) → tables (o.interact w).1 ≡ tables w
  pub no_begin : (w w' : W) → o.begin w ≡ (false, w') → tables w' ≡ tables w
  pub begins : (w w' : W) → o.begin w ≡ (true, w') → saved w' ≡ tables w
  pub reads : (id : ℕ) (w : W) → saved (o.select_retained id w).1 ≡ saved w
  pub sets : (id : ℕ) (m : Option ℕ) (w : W) → saved (o.set_retained id m w).1 ≡ saved w
  pub deletes : (id : ℕ) (w : W) → saved (o.delete_message id w).1 ≡ saved w
  pub no_commit : (w w' : W) → o.commit w ≡ (false, w') → saved w' ≡ saved w
  pub rolls_back : (w : W) → tables (o.rollback w) ≡ saved w

-- The contents after an error.
abbrev Unchanged : {W T A : Type 0} → (W → T) → T → Result String A × W → Type 0
Unchanged tables before (ok _, w) = Unit {0}
Unchanged tables before (err _, w) = tables w ≡ before

module _ {W T : Type 0} (o : Sqlite W) (tables saved : W → T) (a : IsAtomic o tables saved) where
  Unchanged-with_client :
      {A : Type 0} (text : String) (closure : Query W A) (w : W)
      → ((w' : W) → tables w' ≡ tables w → Unchanged tables (tables w) (closure w'))
      → Unchanged tables (tables w) (with_client o text closure w)
  unfolding with_client
  Unchanged-with_client {A} text closure w k = at (o.pool_get w) (a.pool w)
    where
      threaded :
          (x : Bool × W)
          → tables x.1 ≡ tables w
          → Unchanged tables (tables w) (checked x closure (failed "Failed to get sqlite client"))
      threaded (true, w2) e = k w2 e
      threaded (false, w2) e = e

      at :
          (x : Bool × W)
          → tables x.1 ≡ tables w
          → Unchanged tables (tables w) (
              checked {A = A} x
                (λ w1. checked (o.interact w1) closure (failed "Failed to get sqlite client"))
                (failed text))
      at (true, w1) e = threaded (o.interact w1) (a.thread w1 ∙ e)
      at (false, w1) e = e

  Unchanged-commit :
      (before : T) (w : W)
      → saved w ≡ before
      → Unchanged tables before
          (checked (o.commit w) (done tt) (dropped o "Delete retained message commit failed"))
  Unchanged-commit before w e = at (o.commit w) refl
    where
      at :
          (x : Bool × W)
          → o.commit w ≡ x
          → Unchanged tables before
              (checked x (done tt) (dropped o "Delete retained message commit failed"))
      at (true, w') f = tt
      at (false, w') f = a.rolls_back w' ∙ a.no_commit w w' f ∙ e

  Unchanged-delete :
      (before : T) (m : Option ℕ) (w : W)
      → saved w ≡ before
      → Unchanged tables before (delete_retained_message o m w)
  unfolding delete_retained_message
  Unchanged-delete before none w e = Unchanged-commit before w e
  Unchanged-delete before (some mid) w e = at (o.delete_message mid w) (a.deletes mid w ∙ e)
    where
      at :
          (x : Bool × W)
          → saved x.1 ≡ before
          → Unchanged tables before (
              checked x
                (λ w1.
                  checked
                    (o.commit w1)
                    (done tt)
                    (dropped o "Delete retained message commit failed"))
                (dropped o "Delete retained message failed"))
      at (true, w') f = Unchanged-commit before w' f
      at (false, w') f = a.rolls_back w' ∙ f

  Unchanged-set :
      (before : T) (id : ℕ) (x : Option (Option ℕ) × W)
      → saved x.1 ≡ before
      → Unchanged tables before (
          valued x
            (λ message_id w2.
              checked
                (o.set_retained id none w2)
                (delete_retained_message o message_id)
                (dropped o "Delete retained message from topic failed"))
            (dropped o "Delete retained message getting message id failed"))
  Unchanged-set before id (none, w) e = a.rolls_back w ∙ e
  Unchanged-set before id (some m, w) e = at (o.set_retained id none w) (a.sets id none w ∙ e)
    where
      at :
          (x : Bool × W)
          → saved x.1 ≡ before
          → Unchanged tables before (
              checked x
                (delete_retained_message o m)
                (dropped o "Delete retained message from topic failed"))
      at (true, w') f = Unchanged-delete before m w' f
      at (false, w') f = a.rolls_back w' ∙ f

  Unchanged-delete_retained :
      (id : ℕ) (w w1 : W)
      → tables w1 ≡ tables w
      → Unchanged tables (tables w) (delete_retained o id w1)
  unfolding delete_retained
  Unchanged-delete_retained id w w1 e = at (o.begin w1) refl
    where
      at :
          (x : Bool × W)
          → o.begin w1 ≡ x
          → Unchanged tables (tables w) (
              checked x
                (λ w2.
                  valued
                    (o.select_retained id w2)
                    (λ message_id w3.
                      checked
                        (o.set_retained id none w3)
                        (delete_retained_message o message_id)
                        (dropped o "Delete retained message from topic failed"))
                    (dropped o "Delete retained message getting message id failed"))
                (failed "Delete retained message unable to start transaction"))
      at (true, w2) f =
          Unchanged-set (tables w) id (o.select_retained id w2)
            (a.reads id w2 ∙ a.begins w1 w2 f ∙ e)
      at (false, w2) f = a.no_begin w1 w2 f ∙ e

  -- Where transactions of SQLite keep what it documents, a delete of a retained message that returns an
  -- error, whichever of its steps failed, leaves the tables as they were, the update of the topic that it may
  -- have made included.
  pub persist_delete_retain_fails :
      (id : ℕ) (w w' : W) (e : String)
      → persist_delete_retain o id w ≡ (err e, w')
      → tables w' ≡ tables w
  unfolding persist_delete_retain
  persist_delete_retain_fails id w w' e f = subst (Unchanged tables (tables w)) f (
      Unchanged-with_client "Failed to get db client" _ w
        (λ w1 k. Unchanged-delete_retained id w w1 k))
