-- ===== src/Sessions/Queue/Once.antt =====
-- src/sessions/sessionworker.rs: the operations of the queue, and the incoming identifiers.
use squillion_mqtt.Prelude.{ℕ, zero, suc, false, not, Option, none, some, ◌≡◌, ◌==◌, ◌∙◌, arith}
use squillion_mqtt.Messages.Publish.{MqttMessagePublish}
use squillion_mqtt.Messages.Ack.{MqttMessagePubrec}
use squillion_mqtt.Messages.Codec.{MqttMessage}
use squillion_mqtt.Sessions.Machine.{Outside}
use squillion_mqtt.Sessions.Invariant.Ids.{contains-insert, contains-remove}
use squillion_mqtt.Sessions.Once.{
  Remembers, Remembers-pure, Remembers-fail, Remembers-bind, Remembers-then, Remembers-get,
  Remembers-modify, Remembers-if, Remembers-persist, Remembers-send_client_message, once_rules,
}
use squillion_mqtt.Sessions.Queue.{
  set_dup_at, set_dup_found, qos_outgoing_set_dup, qos_outgoing_next_mid, insert_at, insert_publish,
  replace_publish, insert_pubrec, qos_outgoing_insert, remove_found, qos_outgoing_remove,
  qos_incoming_store, qos_incoming_remove, send_queued, send_from, send_queued_messages,
}

module _ {W : Type 0} (o : Outside W) {mid : ℕ} where
  Remembers-set_dup_at : (i : ℕ) (x : Option MqttMessage) → Remembers mid (set_dup_at o i x)
  unfolding set_dup_at
  Remembers-set_dup_at i none = Remembers-pure tt
  Remembers-set_dup_at i (some (MqttMessage.publish m)) =
      Remembers-if (not m.dup) _ _
        (Remembers-bind _ _ Remembers-get
          (λ self. Remembers-then _ _ (Remembers-persist o _) (Remembers-modify _ (λ s h. h))))
        (Remembers-pure tt)
  Remembers-set_dup_at i (some _) = Remembers-fail _

  Remembers-set_dup_found : (m : ℕ) (p : Option ℕ) → Remembers mid (set_dup_found o m p)
  unfolding set_dup_found
  Remembers-set_dup_found m none = Remembers-fail _
  Remembers-set_dup_found m (some i) =
      Remembers-bind _ _ Remembers-get
        (λ self. Remembers-then _ _ (Remembers-set_dup_at i _) (Remembers-pure m))

  pub Remembers-qos_outgoing_set_dup : (m : ℕ) → Remembers mid (qos_outgoing_set_dup o m)
  unfolding qos_outgoing_set_dup
  Remembers-qos_outgoing_set_dup m = search (once_rules, Remembers-set_dup_found)

  Remembers-next_mid : Remembers mid (qos_outgoing_next_mid o)
  unfolding qos_outgoing_next_mid
  Remembers-next_mid = search (once_rules, Remembers-modify) depth 20

  Remembers-insert_at : (m : MqttMessagePublish) (k : ℕ) → Remembers mid (insert_at o m k)
  unfolding insert_at
  Remembers-insert_at m k = search (once_rules, Remembers-modify) depth 20

  Remembers-replace_publish :
      (m : MqttMessagePubrec) (i : ℕ) (x : Option MqttMessage)
      → Remembers mid (replace_publish o m i x)
  unfolding replace_publish
  Remembers-replace_publish m i none = Remembers-fail _
  Remembers-replace_publish m i (some (MqttMessage.publish p)) =
      search (once_rules, Remembers-modify) depth 20
  Remembers-replace_publish m i (some (MqttMessage.pub_rec p)) = Remembers-pure tt
  Remembers-replace_publish m i (some _) = Remembers-fail _

  Remembers-insert_pubrec :
      (m : MqttMessagePubrec) (p : Option ℕ) → Remembers mid (insert_pubrec o m p)
  unfolding insert_pubrec
  Remembers-insert_pubrec m none = search (once_rules, Remembers-modify) depth 20
  Remembers-insert_pubrec m (some i) = search (once_rules, Remembers-replace_publish) depth 20

  pub Remembers-qos_outgoing_insert : (x : MqttMessage) → Remembers mid (qos_outgoing_insert o x)
  unfolding qos_outgoing_insert insert_publish
  Remembers-qos_outgoing_insert (MqttMessage.publish m) =
      search (once_rules, Remembers-next_mid, Remembers-insert_at) depth 20
  Remembers-qos_outgoing_insert (MqttMessage.pub_rec m) =
      search (once_rules, Remembers-insert_pubrec) depth 20
  Remembers-qos_outgoing_insert _ = Remembers-fail _

  Remembers-remove_found : (m : ℕ) (p : Option ℕ) → Remembers mid (remove_found o m p)
  unfolding remove_found
  Remembers-remove_found m none = Remembers-pure tt
  Remembers-remove_found m (some i) = search (once_rules, Remembers-modify) depth 20

  pub Remembers-qos_outgoing_remove : (m : ℕ) → Remembers mid (qos_outgoing_remove o m)
  unfolding qos_outgoing_remove
  Remembers-qos_outgoing_remove m = search (once_rules, Remembers-remove_found) depth 20

  pub Remembers-qos_incoming_store : (m : ℕ) → Remembers mid (qos_incoming_store o m)
  unfolding qos_incoming_store
  Remembers-qos_incoming_store m = Remembers-bind _ _ Remembers-get (λ self.
      Remembers-then _ _ (Remembers-persist o _) (
        Remembers-then _ _
          (Remembers-modify _ (λ s h. contains-insert mid m s.qos_incoming ∙ ground arith))
          (Remembers-pure m)))

  -- Another identifier is removed.
  pub Remembers-qos_incoming_remove :
      (m : ℕ) → mid == m ≡ false → Remembers mid (qos_incoming_remove o m)
  unfolding qos_incoming_remove
  Remembers-qos_incoming_remove m other = Remembers-bind _ _ Remembers-get (λ self.
      Remembers-then _ _ (Remembers-persist o _) (
        Remembers-then _ _
          (Remembers-modify _ (λ s h. contains-remove mid m s.qos_incoming other ∙ h))
          (Remembers-pure m)))

  Remembers-send_queued : (x : Option MqttMessage) → Remembers mid (send_queued o x)
  unfolding send_queued
  Remembers-send_queued none = Remembers-fail _
  Remembers-send_queued (some (MqttMessage.publish m)) =
      search (once_rules, Remembers-qos_outgoing_set_dup) depth 20
  Remembers-send_queued (some (MqttMessage.pub_rec m)) = Remembers-send_client_message o _
  Remembers-send_queued (some _) = Remembers-fail _

  Remembers-send_from : (n pos : ℕ) → Remembers mid (send_from o pos n)
  unfolding send_from
  Remembers-send_from zero pos = Remembers-pure tt
  Remembers-send_from (suc n) pos =
      Remembers-bind _ _ Remembers-get
        (λ self. Remembers-then _ _ (Remembers-send_queued _) (Remembers-send_from n (suc pos)))

  pub Remembers-send_queued_messages : Remembers mid (send_queued_messages o)
  unfolding send_queued_messages
  Remembers-send_queued_messages = search (once_rules, Remembers-send_from)
