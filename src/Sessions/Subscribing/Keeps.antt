-- ===== src/Sessions/Subscribing/Keeps.antt =====
-- src/sessions/sessionworker.rs: the invariant of the queue under SUBSCRIBE and UNSUBSCRIBE.
use squillion_mqtt.Prelude.{ℕ, true, false, refl, List, [], ◌∷◌, Option, none, some}
use squillion_mqtt.Result.{Result, ok, err}
use squillion_mqtt.Messages.Publish.{MqttMessagePublish}
use squillion_mqtt.Messages.Subscribe.{MqttMessageSubscribe, MqttMessageUnsubscribe}
use squillion_mqtt.Messages.Codec.{MqttMessage}
use squillion_mqtt.Sessions.State.{MqttSession, SessionError, RouterPublishSubscribeResponse}
use squillion_mqtt.Sessions.Machine.{Outside, Machine, Sent, pure, is_ok, send_client_message}
use squillion_mqtt.Sessions.Invariant.{
  IsTracked, NoPanic, From, From-pure, From-fail, From-if, Good, Good-pure, Good-bind,
  From-send_client_message, From-send_message_router, machine,
}
use squillion_mqtt.Sessions.Queue.Keeps.{kept}
use squillion_mqtt.Sessions.Lifecycle.Keeps.{From-unsubscribe}
use squillion_mqtt.Sessions.Subscribing.{
  Answers, await_response, subscribe, answer, subscribe_topics, send_retained, subscribe_message,
  unsubscribe_message,
}

module _ {W : Type 0} (o : Outside W) where
  From-await_response : (s : MqttSession) → IsTracked s → From s (await_response o)
  unfolding await_response
  From-await_response s t = record { at = λ w l. go (o.subscribe_response w) l }
    where
      go :
          (x : Option RouterPublishSubscribeResponse × W) (l : List Sent)
          → Good
              (elim x.0 as (λ _. Result SessionError RouterPublishSubscribeResponse × Machine W) [
                | some r ↦ (ok r, machine s x.1 l)
                | none ↦ (err SessionError.router, machine s x.1 l)
              ])
      go (some r, w) l = Good-pure r t
      go (none, w) l = record { tracked = t; calm = NoPanic.no_router }

  From-subscribe :
      (s : MqttSession) (topic : List ℕ) (qos : ℕ) → IsTracked s → From s (subscribe o topic qos)
  unfolding subscribe
  From-subscribe s topic qos t = record {
    at = λ w l.
        Good-bind _ _ ((From-send_message_router o _ (kept s _ t refl refl)).at w l)
          (λ u m t'. (From-await_response m.session t').at m.world m.sent);
  }

  Good-subscribe_topics :
      (topics : List (List ℕ × ℕ)) (m : Machine W) (a : Answers)
      → IsTracked m.session
      → Good (subscribe_topics o topics a m)
  unfolding subscribe_topics
  Good-subscribe_topics [] m a t = Good-pure a t
  Good-subscribe_topics ((topic, qos) ∷ topics) m a t =
      let r : Result SessionError RouterPublishSubscribeResponse × Machine W =
        subscribe o topic qos m in
      let g : Good r = (From-subscribe m.session topic qos t).at m.world m.sent in
      Good-subscribe_topics topics r.1 (answer qos r.0 a) g.tracked

  Good-send_retained :
      (ms : List MqttMessagePublish) (m : Machine W)
      → IsTracked m.session
      → Good (send_retained o ms m)
  unfolding send_retained
  Good-send_retained [] m t = Good-pure false t
  Good-send_retained (x ∷ xs) m t =
      let r : Result SessionError (Unit {0}) × Machine W =
        send_client_message o (MqttMessage.publish x) m in
      let g : Good r = (From-send_client_message o (MqttMessage.publish x) t).at m.world m.sent in
      (From-if (is_ok r.0) (send_retained o xs) (pure true)
          (record { at = λ w l. Good-send_retained xs (machine r.1.session w l) g.tracked })
          (From-pure true g.tracked)).at
        r.1.world r.1.sent

  pub From-subscribe_message :
      (s : MqttSession) (m : MqttMessageSubscribe) → IsTracked s → From s (subscribe_message o m)
  unfolding subscribe_message
  From-subscribe_message s m t = record {
    at = λ w l. Good-bind _ _ (Good-subscribe_topics m.topics (machine s w l) _ t) (λ a m' t'.
        let sub : MqttMessage =
          MqttMessage.sub_ack (record { identifier = m.identifier; response = a.responses }) in
        let r : Result SessionError (Unit {0}) × Machine W = send_client_message o sub m' in
        let g : Good r = (From-send_client_message o sub t').at m'.world m'.sent in
        Good-bind _ _
          ((From-if (is_ok r.0) (send_retained o a.retained_messages) (pure false)
              (record {
                at = λ w' l'.
                    Good-send_retained a.retained_messages (machine r.1.session w' l') g.tracked;
              })
              (From-pure false g.tracked)).at
            r.1.world r.1.sent)
          (λ client_error m'' t''.
            (From-if a.router_error _ _ (From-fail _ NoPanic.no_router t'') (
                From-if client_error _ _ (From-fail _ NoPanic.no_client t'') (From-pure tt t''))).at
              m''.world m''.sent));
  }

  pub From-unsubscribe_message :
      (s : MqttSession) (m : MqttMessageUnsubscribe)
      → IsTracked s
      → From s (unsubscribe_message o m)
  unfolding unsubscribe_message
  From-unsubscribe_message s m t = record {
    at = λ w l.
        Good-bind _ _ ((From-unsubscribe o s m.topics t).at w l)
          (λ u m' t'. (From-send_client_message o _ t').at m'.world m'.sent);
  }
