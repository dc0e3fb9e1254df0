-- ===== src/Sessions/Subscribing/Once.antt =====
-- src/sessions/sessionworker.rs: SUBSCRIBE and UNSUBSCRIBE next to the incoming identifiers.
use squillion_mqtt.Prelude.{ℕ, true, false, List, [], ◌∷◌, Option, none, some, refl}
use squillion_mqtt.Result.{Result, ok, err}
use squillion_mqtt.Messages.Publish.{MqttMessagePublish}
use squillion_mqtt.Messages.Subscribe.{MqttMessageSubscribe, MqttMessageUnsubscribe}
use squillion_mqtt.Messages.Codec.{MqttMessage}
use squillion_mqtt.Sessions.State.{SessionError, RouterMessage, RouterPublishSubscribeResponse}
use squillion_mqtt.Sessions.Machine.{Outside, Machine, is_ok, session_id}
use squillion_mqtt.Sessions.Once.{
  Remembered, Remembers, Remembers-pure, Remembers-bind, Remembers-then, Remembers-get,
  Remembers-modify, Remembers-attempt, Remembers-if, Remembers-send_client_message,
  Remembers-send_message_router, once_rules,
}
use squillion_mqtt.Sessions.Lifecycle.Once.{Remembers-unsubscribe}
use squillion_mqtt.Sessions.Subscribing.{
  Answers, await_response, subscribe, answer, subscribe_topics, send_retained, subscribe_message,
  unsubscribe_message,
}

module _ {W : Type 0} (o : Outside W) {mid : ℕ} where
  Remembers-await_response : Remembers mid (await_response o)
  unfolding await_response
  Remembers-await_response = record { at = λ n m r. go (o.subscribe_response m.world) n m r }
    where
      go :
          (x : Option RouterPublishSubscribeResponse × W) (n : ℕ) (m : Machine W)
          → Remembered mid n m
          → Remembered mid n (
              (elim x.0 as (λ _. Result SessionError RouterPublishSubscribeResponse × Machine W) [
                | some r ↦ (ok r, record m { world = x.1 })
                | none ↦ (err SessionError.router, record m { world = x.1 })
              ]).1)
      go (some r, w) n m h = record { incoming = h.incoming; count = h.count }
      go (none, w) n m h = record { incoming = h.incoming; count = h.count }

  Remembers-subscribe : (topic : List ℕ) (qos : ℕ) → Remembers mid (subscribe o topic qos)
  unfolding subscribe
  Remembers-subscribe topic qos = Remembers-then _ _ (Remembers-modify _ (λ s h. h)) (
      Remembers-bind _ _ Remembers-get (λ self.
        Remembers-then _ _
          (Remembers-send_message_router o (RouterMessage.subscribe (session_id self) topic qos)
            refl)
          Remembers-await_response))

  Remembers-subscribe_topics :
      (topics : List (List ℕ × ℕ)) (a : Answers) → Remembers mid (subscribe_topics o topics a)
  unfolding subscribe_topics
  Remembers-subscribe_topics [] a = Remembers-pure a
  Remembers-subscribe_topics ((topic, qos) ∷ topics) a =
      Remembers-bind _ _ (Remembers-attempt _ (Remembers-subscribe topic qos))
        (λ response. Remembers-subscribe_topics topics (answer qos response a))

  Remembers-send_retained : (ms : List MqttMessagePublish) → Remembers mid (send_retained o ms)
  unfolding send_retained
  Remembers-send_retained [] = Remembers-pure false
  Remembers-send_retained (x ∷ xs) =
      Remembers-bind _ _
        (Remembers-attempt _ (Remembers-send_client_message o (MqttMessage.publish x)))
        (λ sent. Remembers-if (is_ok sent) _ _ (Remembers-send_retained xs) (Remembers-pure true))

  pub Remembers-subscribe_message :
      (m : MqttMessageSubscribe) → Remembers mid (subscribe_message o m)
  unfolding subscribe_message
  Remembers-subscribe_message m =
      search (once_rules, Remembers-subscribe_topics, Remembers-send_retained) depth 30

  pub Remembers-unsubscribe_message :
      (m : MqttMessageUnsubscribe) → Remembers mid (unsubscribe_message o m)
  unfolding unsubscribe_message
  Remembers-unsubscribe_message m =
      Remembers-then _ _ (Remembers-unsubscribe o m.topics) (Remembers-send_client_message o _)
