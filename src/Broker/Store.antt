-- ===== src/Broker/Store.antt =====
-- broker/persist.rs and broker/persisttest.rs: the database of the topic tree, as the provider that the
-- tree calls, and the provider of the tests.
use squillion_mqtt.Prelude.{ℕ, Bool, true, Option, List, [], String}
use squillion_mqtt.Result.{Result, ok, err}
use squillion_mqtt.Action.{Action, ◌>>=◌, attempt, Ensures}
use squillion_mqtt.Messages.Publish.{MqttMessagePublish}
use squillion_mqtt.Sessions.State.{SessionId}
use squillion_mqtt.Broker.Topics.{Topic}

-- `unwrap_panic` is not a value of the code: it is the panic of `unwrap` on `None`.
pub data BrokerError : Type 0 where
  persist_error : String → BrokerError
  unwrap_panic : BrokerError

pub record PersistedTopic : Type 0 where
  pub topic_id : ℕ
  pub topic_name : List ℕ
  pub retained_message_id : Option ℕ

-- The provider over a state `W` of its own; its errors are the texts of `BrokerError::PersistError`.
-- An `i32` is an identifier of the database, kept as a number.
pub record PersistProvider (W : Type 0) : Type 0 where
  pub create_persistent_connection : W → Result String ℕ × W
  pub init_persistent_store : W → Result String ℕ × W
  pub load_persistent_topics : W → Result String (List PersistedTopic) × W
  pub load_persistent_message : ℕ → W → Result String MqttMessagePublish × W
  pub load_persistent_subscriptions : ℕ → W → Result String (List (SessionId × ℕ)) × W
  pub persist_topic : List ℕ → W → Result String ℕ × W
  pub persist_delete_topic : ℕ → W → Result String ℕ × W
  pub persist_subscribe : (session_id topic_id qos : ℕ) → W → Result String Bool × W
  pub persist_update_subscribe : (session_id topic_id qos : ℕ) → W → Result String Bool × W
  pub persist_retain : ℕ → MqttMessagePublish → W → Result String ℕ × W
  pub persist_delete_retain : ℕ → W → Result String (Unit {0}) × W
  pub persist_unsubscribe : (session_id topic_id : ℕ) → W → Result String Bool × W

-- `PersistTopicTest`
abbrev pub persist_topic_test : {W : Type 0} → PersistProvider W
persist_topic_test = record {
  create_persistent_connection = λ w. (ok 0, w);
  init_persistent_store = λ w. (ok 0, w);
  load_persistent_topics = λ w. (ok [], w);
  load_persistent_message = λ _ w. (err "Persist test error", w);
  load_persistent_subscriptions = λ _ w. (ok [], w);
  persist_topic = λ _ w. (ok 0, w);
  persist_delete_topic = λ topic_id w. (ok topic_id, w);
  persist_subscribe = λ _ _ _ w. (ok true, w);
  persist_update_subscribe = λ _ _ _ w. (ok true, w);
  persist_retain = λ _ _ w. (ok 0, w);
  persist_delete_retain = λ _ w. (ok tt, w);
  persist_unsubscribe = λ _ _ w. (ok true, w);
}

-- The tree of `Subscriptions`, and what is behind its provider. The logger and the gauges are left out.
pub record Store (W : Type 0) : Type 0 where
  pub topics : Topic
  pub world : W

abbrev pub answered :
    {W A : Type 0} → Store W → Result String A × W → Result BrokerError A × Store W
answered s (ok a, w) = (ok a, record s { world = w })
answered s (err e, w) = (err (BrokerError.persist_error e), record s { world = w })

-- A call of the provider, with `?` on its result.
abbrev pub call : {W A : Type 0} → (W → Result String A × W) → Action (Store W) BrokerError A
call f s = answered s (f s.world)

module _ {W A : Type 0} {P : A → Store W → Type 0} {Q : BrokerError → Store W → Type 0}
    (s : Store W) (good : (a : A) (w : W) → P a (record s { world = w }))
    (bad : (e : String) (w : W) → Q (BrokerError.persist_error e) (record s { world = w })) where
  Ensures-answered : (r : Result String A × W) → Ensures P Q (answered s r)
  Ensures-answered (ok a, w) = Ensures.returned (good a w)
  Ensures-answered (err e, w) = Ensures.failed (bad e w)

  pub Ensures-call : (f : W → Result String A × W) → Ensures P Q (call f s)
  Ensures-call f = Ensures-answered (f s.world)

-- A call whose error the code inspects.
module _ {W A B : Type 0} {P : B → Store W → Type 0} {Q : BrokerError → Store W → Type 0}
    (s : Store W) (k : Result BrokerError A → Action (Store W) BrokerError B)
    (good : (a : A) (w : W) → Ensures P Q (k (ok a) (record s { world = w })))
    (bad : (e : String) (w : W)
      → Ensures P Q (k (err (BrokerError.persist_error e)) (record s { world = w }))) where
  tried : (r : Result String A × W) → Ensures P Q (let (a, s') = answered s r in k a s')
  tried (ok a, w) = good a w
  tried (err e, w) = bad e w

  pub Ensures-attempt : (f : W → Result String A × W) → Ensures P Q ((attempt (call f) >>= k) s)
  Ensures-attempt f = tried (f s.world)
