-- ===== src/Sessions/Publishing/Once.antt =====
-- What the handlers do with a PUBLISH of QoS 2 whose identifier is remembered, and with any other.
use squillion_mqtt.Prelude.{ℕ, Bool, true, false, ◌&&◌, ◌≡◌, ◌==◌, arith, Bool-cases, inl, inr}
use squillion_mqtt.Messages.Publish.{MqttMessagePublish}
use squillion_mqtt.Messages.Ack.{
  MqttMessagePuback, MqttMessagePubrec, MqttMessagePubrel, MqttMessagePubcomp,
}
use squillion_mqtt.Messages.Codec.{MqttMessage}
use squillion_mqtt.Sessions.State.{contains, MqttSession, RouterMessage}
use squillion_mqtt.Sessions.Machine.{Outside, session_id}
use squillion_mqtt.Sessions.Once.{
  is_second, Remembers, Remembers-then, Remembers-send_message_router,
  Remembers-send_client_message, once_rules,
}
use squillion_mqtt.Sessions.Queue.{qos_incoming_received}
use squillion_mqtt.Sessions.Queue.Once.{
  Remembers-qos_outgoing_set_dup, Remembers-qos_outgoing_insert, Remembers-qos_outgoing_remove,
  Remembers-qos_incoming_store, Remembers-qos_incoming_remove,
}
use squillion_mqtt.Sessions.Publishing.{
  send_then_flag, internal_publish_message, puback_message, pubrel_message, pubrec_message,
  pubcomp_message, acknowledge, forward, publish_message,
}

module _ {W : Type 0} (o : Outside W) {mid : ℕ} where
  pub Remembers-puback_message : (m : MqttMessagePuback) → Remembers mid (puback_message o m)
  unfolding puback_message
  Remembers-puback_message m = search (once_rules, Remembers-qos_outgoing_remove)

  pub Remembers-pubcomp_message : (m : MqttMessagePubcomp) → Remembers mid (pubcomp_message o m)
  unfolding pubcomp_message
  Remembers-pubcomp_message m = search (once_rules, Remembers-qos_outgoing_remove)

  pub Remembers-pubrec_message : (m : MqttMessagePubrec) → Remembers mid (pubrec_message o m)
  unfolding pubrec_message
  Remembers-pubrec_message m = search (once_rules, Remembers-qos_outgoing_insert)

  pub Remembers-pubrel_message :
      (m : MqttMessagePubrel) → mid == m.identifier ≡ false → Remembers mid (pubrel_message o m)
  unfolding pubrel_message
  Remembers-pubrel_message m other =
      let removed = Remembers-qos_incoming_remove o m.identifier other in
      search (once_rules, removed)

  Remembers-send_then_flag :
      (x : MqttMessage) (queued : Bool) (k : ℕ) → Remembers mid (send_then_flag o x queued k)
  unfolding send_then_flag
  Remembers-send_then_flag x queued k = search (once_rules, Remembers-qos_outgoing_set_dup) depth 20

  pub Remembers-internal_publish_message :
      (m : MqttMessagePublish) → Remembers mid (internal_publish_message o m)
  unfolding internal_publish_message
  Remembers-internal_publish_message m =
      search (once_rules, Remembers-qos_outgoing_insert, Remembers-send_then_flag) depth 20

  Remembers-acknowledge : (qos k : ℕ) → Remembers mid (acknowledge o qos k)
  unfolding acknowledge
  Remembers-acknowledge qos k = search (once_rules, Remembers-qos_incoming_store) depth 20

  Remembers-forward :
      (m : MqttMessagePublish) (s : MqttSession)
      → is_second mid m ≡ false
      → Remembers mid (forward o m s)
  unfolding forward
  Remembers-forward m s h =
      Remembers-then _ _
        (Remembers-send_message_router o
          (RouterMessage.publish (session_id s) (record m { dup = false })) (rw h))
        (Remembers-acknowledge m.qos m.identifier)

  -- A message of QoS 2 with a remembered identifier is not routed again.
  pub Remembers-publish_message : (m : MqttMessagePublish) → Remembers mid (publish_message o m)
  unfolding publish_message qos_incoming_received
  Remembers-publish_message m = record {
    at = λ n s r. elim (Bool-cases (is_second mid m)) [
      | inl second ↦
          let same : m.identifier ≡ mid = ground arith in
          let again : (m.qos == 2 && contains m.identifier s.session.qos_incoming) ≡ true =
            rw same (ground (arith, r.incoming)) in
          rw again ((Remembers-send_client_message o _).at n s r)
      | inr other ↦ elim (Bool-cases (m.qos == 2 && contains m.identifier s.session.qos_incoming)) [
        | inl again ↦ rw again ((Remembers-send_client_message o _).at n s r)
        | inr fresh ↦ rw fresh ((Remembers-forward m s.session other).at n s r)
      ]
    ];
  }
