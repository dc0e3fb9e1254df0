-- ===== src/Sessions/Publishing/Keeps.antt =====
-- src/sessions/sessionworker.rs: the invariant of the queue under the handlers of messages and
-- acknowledgements.
use squillion_mqtt.Prelude.{ℕ, Bool, false, ◌&&◌, ◌||◌, ◌==◌}
use squillion_mqtt.Messages.Publish.{MqttMessagePublish}
use squillion_mqtt.Messages.Ack.{
  MqttMessagePuback, MqttMessagePubrec, MqttMessagePubrel, MqttMessagePubcomp,
}
use squillion_mqtt.Messages.Codec.{MqttMessage}
use squillion_mqtt.Sessions.State.{MqttSession}
use squillion_mqtt.Sessions.Machine.{Outside, is_some}
use squillion_mqtt.Sessions.Invariant.{
  IsTracked, From, From-pure, From-if, Good-pure, Good-bind, From-send_client_message,
  From-send_message_router,
}
use squillion_mqtt.Sessions.Queue.{qos_incoming_received}
use squillion_mqtt.Sessions.Queue.Keeps.{
  From-qos_outgoing_set_dup, From-qos_outgoing_insert, From-qos_outgoing_remove,
  From-qos_incoming_store, From-qos_incoming_remove,
}
use squillion_mqtt.Sessions.Publishing.{
  send_then_flag, internal_publish_message, puback_message, pubrel_message, pubrec_message,
  pubcomp_message, acknowledge, forward, publish_message,
}

module _ {W : Type 0} (o : Outside W) where
  pub From-puback_message :
      (s : MqttSession) (m : MqttMessagePuback) → IsTracked s → From s (puback_message o m)
  unfolding puback_message
  From-puback_message s m t = record {
    at = λ w l.
        Good-bind _ _ ((From-qos_outgoing_remove o s m.identifier t).at w l)
          (λ mid m' t'. Good-pure tt t');
  }

  pub From-pubcomp_message :
      (s : MqttSession) (m : MqttMessagePubcomp) → IsTracked s → From s (pubcomp_message o m)
  unfolding pubcomp_message
  From-pubcomp_message s m t = record {
    at = λ w l.
        Good-bind _ _ ((From-qos_outgoing_remove o s m.identifier t).at w l)
          (λ mid m' t'. Good-pure tt t');
  }

  pub From-pubrel_message :
      (s : MqttSession) (m : MqttMessagePubrel) → IsTracked s → From s (pubrel_message o m)
  unfolding pubrel_message
  From-pubrel_message s m t = record {
    at = λ w l.
        Good-bind _ _ ((From-qos_incoming_remove o s m.identifier t).at w l)
          (λ mid m' t'. (From-send_client_message o _ t').at m'.world m'.sent);
  }

  pub From-pubrec_message :
      (s : MqttSession) (m : MqttMessagePubrec) → IsTracked s → From s (pubrec_message o m)
  unfolding pubrec_message
  From-pubrec_message s m t = record {
    at = λ w l.
        Good-bind _ _ ((From-qos_outgoing_insert o s (MqttMessage.pub_rec m) t).at w l)
          (λ mid m' t'. (From-send_client_message o _ t').at m'.world m'.sent);
  }

  From-sending :
      (s : MqttSession) (x : MqttMessage) (queued : Bool) (mid : ℕ)
      → IsTracked s
      → From s (send_then_flag o x queued mid)
  unfolding send_then_flag
  From-sending s x queued mid t = record {
    at = λ w l. Good-bind _ _ ((From-send_client_message o x t).at w l) (λ u m t'.
        (From-if queued _ _
            (record {
              at = λ w' l'.
                  Good-bind _ _ ((From-qos_outgoing_set_dup o m.session mid t').at w' l')
                    (λ a m' t''. Good-pure tt t'');
            })
            (From-pure tt t')).at
          m.world m.sent);
  }

  pub From-internal_publish_message :
      (s : MqttSession) (m : MqttMessagePublish)
      → IsTracked s
      → From s (internal_publish_message o m)
  unfolding internal_publish_message
  From-internal_publish_message s m t = record {
    at = λ w l.
        Good-bind _ _
          ((From-if (m.qos == 1 || m.qos == 2) _ _
              (From-qos_outgoing_insert o s (MqttMessage.publish (record m { dup = false })) t)
              (From-pure m.identifier t)).at
            w l)
          (λ mid m' t'.
            (From-if (is_some m'.session.client) _ _
                (From-sending m'.session _ (m.qos == 1 || m.qos == 2) mid t') (From-pure tt t')).at
              m'.world m'.sent);
  }

  From-acknowledge : (s : MqttSession) (qos mid : ℕ) → IsTracked s → From s (acknowledge o qos mid)
  unfolding acknowledge
  From-acknowledge s qos mid t =
      From-if (qos == 1) _ _
        (record {
          at = λ w l.
              Good-pure tt
                ((From-send_client_message o (MqttMessage.pub_ack (record { identifier = mid }))
                    t).at
                  w l).tracked;
        })
        (From-if (qos == 2) _ _
          (record {
            at = λ w l. Good-bind _ _ ((From-qos_incoming_store o s mid t).at w l) (λ a m t'.
                Good-pure tt
                  ((From-send_client_message o (MqttMessage.pub_rec (record { identifier = mid }))
                      t').at
                    m.world m.sent).tracked);
          })
          (From-pure tt t))

  pub From-publish_message :
      (s : MqttSession) (m : MqttMessagePublish) → IsTracked s → From s (publish_message o m)
  unfolding publish_message forward
  From-publish_message s m t = record {
    at = λ w l.
        (From-if (m.qos == 2 && qos_incoming_received s m.identifier) _ _
            (From-send_client_message o (MqttMessage.pub_rec (record { identifier = m.identifier }))
              t)
            (record {
              at = λ w' l'. Good-bind _ _ ((From-send_message_router o _ t).at w' l') (λ u m' t'.
                  (From-acknowledge m'.session m.qos m.identifier t').at m'.world m'.sent);
            })).at
          w l;
  }
