-- ===== src/Sessions/Lifecycle/Keeps.antt =====
-- src/sessions/sessionworker.rs: the invariant of the queue under `new_client_connected` and `clean_session`.
use squillion_mqtt.Prelude.{ℕ, List, [], refl}
use squillion_mqtt.Result.{Result}
use squillion_mqtt.Messages.Codec.{MqttMessage}
use squillion_mqtt.Sessions.State.{MqttSession, SessionError, NewClient}
use squillion_mqtt.Sessions.Machine.{Outside, Machine, ◌>>=◌, is_ok, is_some, when, attempt}
use squillion_mqtt.Sessions.Invariant.{
  IsTracked, NoPanic, From, From-pure, From-if, From-give, Good, Good-pure, Good-bind, Good-persist,
  From-persist, From-send_client_message, From-send_message_router, machine,
}
use squillion_mqtt.Sessions.Queue.Keeps.{kept}
use squillion_mqtt.Sessions.Queue.Sending.{From-send_queued_messages}
use squillion_mqtt.Sessions.Lifecycle.{
  unsubscribe, unsubscribe_all, clean_session, drop_client, greet, new_client_connected,
}

emptied : (s : MqttSession) → IsTracked (record s { qos_outgoing = []; qos_outgoing_messages = [] })
emptied s = record { kinds = tt; distinct = tt; listed = λ n h. cc }

module _ {W : Type 0} (o : Outside W) where
  pub From-unsubscribe :
      (s : MqttSession) (topics : List (List ℕ)) → IsTracked s → From s (unsubscribe o topics)
  unfolding unsubscribe
  From-unsubscribe s topics t = record {
    at = λ w l. (From-send_message_router o _ (kept s _ t refl refl)).at w l;
  }

  From-unsubscribe_all : (s : MqttSession) → IsTracked s → From s (unsubscribe_all o)
  unfolding unsubscribe_all
  From-unsubscribe_all s t = record {
    at = λ w l.
        Good-bind _ _ ((From-unsubscribe s s.subscriptions t).at w l)
          (λ u m t'. Good-pure tt (kept m.session _ t' refl refl));
  }

  pub From-clean_session : (s : MqttSession) → IsTracked s → From s (clean_session o)
  unfolding clean_session
  From-clean_session s t = record {
    at = λ w l. Good-persist o _ _ _ _ _ t (λ w'.
        Good-persist o _ _ _ _ _ (kept s _ t refl refl) (λ w''.
          Good-bind _ _
            ((From-unsubscribe_all _ (emptied (record s { qos_incoming = [] }))).at w'' l)
            (λ u m t'. (From-persist o _ (kept m.session _ t' refl refl)).at m.world m.sent)));
  }

  From-drop_client : (s : MqttSession) → IsTracked s → From s (drop_client o)
  unfolding drop_client
  From-drop_client s t = record {
    at = λ w l.
        let g =
          (From-if (is_some s.client) _ _ (From-send_client_message o MqttMessage.disconnect t)
              (From-pure tt t)).at
            w l in
        Good-pure tt (kept _ _ (g.tracked) refl refl);
  }

  From-greeted :
      (s : MqttSession) (n : NewClient) (r : Result SessionError (Unit {0}))
      → NoPanic r
      → IsTracked s
      → From s (greet o n r)
  unfolding greet
  From-greeted s n r c t = record {
    at = λ w l.
        let g = (From-send_client_message o _ (kept s _ t refl refl)).at w l in
        Good-bind _ _ ((From-send_queued_messages o _ g.tracked).at _ _) (λ u m t'.
          (From-if (is_ok r) _ _ (From-give _ g.calm t') (From-give r c t')).at m.world m.sent);
  }

  pub From-new_client_connected :
      (s : MqttSession) (n : NewClient) → IsTracked s → From s (new_client_connected o n)
  unfolding new_client_connected
  From-new_client_connected s n t = record {
    at = λ w l.
        Good-bind (drop_client o (machine s w l))
          (λ _. attempt (when n.msg.clean_session (clean_session o)) >>= greet o n)
          ((From-drop_client s t).at w l)
          (λ u m t'.
            let r : Result SessionError (Unit {0}) × Machine W =
              when n.msg.clean_session (clean_session o) m in
            let g : Good r =
              (From-if n.msg.clean_session _ _ (From-clean_session m.session t')
                  (From-pure tt t')).at
                m.world m.sent in
            (From-greeted r.1.session n r.0 g.calm g.tracked).at r.1.world r.1.sent);
  }
