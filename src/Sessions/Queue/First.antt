-- ===== src/Sessions/Queue/First.antt =====
-- What `qos_incoming_store` leaves when it succeeds.
use squillion_mqtt.Prelude.{ℕ, String, ◌≡◌, ◌∙◌, arith}
use squillion_mqtt.Result.{Result, ok, err}
use squillion_mqtt.Sessions.State.{insert}
use squillion_mqtt.Sessions.Machine.{
  PersistCall, Outside, Machine, Step, pure, modify, ◌>>◌, outside, persist,
}
use squillion_mqtt.Sessions.Invariant.Ids.{contains-insert}
use squillion_mqtt.Sessions.Once.{routed, Remembered}
use squillion_mqtt.Sessions.Queue.{qos_incoming_store}

module _ {W : Type 0} (o : Outside W) where
  pub incoming_stored :
      (mid n : ℕ) (m : Machine W) (k : ℕ)
      → routed mid m.sent ≡ n
      → (qos_incoming_store o mid m).0 ≡ ok k
      → Remembered mid n ((qos_incoming_store o mid m).1)
  unfolding qos_incoming_store persist
  incoming_stored mid n m k count e =
      go (o.persist (PersistCall.qos_incoming_store m.session.internal_id mid) m.world) e
    where
      rest : Step W ℕ
      rest = modify (λ s. record s { qos_incoming = insert mid s.qos_incoming }) >> pure mid

      go :
          (x : Result String (Unit {0}) × W)
          → ((outside {W = W} (λ _. x) >> rest) m).0 ≡ ok k
          → Remembered mid n (((outside {W = W} (λ _. x) >> rest) m).1)
      go (ok u, w) e = record {
        incoming = contains-insert mid mid m.session.qos_incoming ∙ ground arith;
        count = count;
      }
      go (err x, w) e = cc
