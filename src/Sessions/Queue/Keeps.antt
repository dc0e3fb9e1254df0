-- ===== src/Sessions/Queue/Keeps.antt =====
-- src/sessions/sessionworker.rs: the invariant of the queue under its operations.
use squillion_mqtt.Prelude.{
  ℕ, true, false, not, [], ◌∷◌, ◌++◌, Option, none, some, ◌≡◌, refl, arith, Bool-cases, inl, inr,
}
use squillion_mqtt.Messages.Publish.{MqttMessagePublish}
use squillion_mqtt.Messages.Ack.{MqttMessagePubrec}
use squillion_mqtt.Messages.Codec.{MqttMessage}
use squillion_mqtt.Sessions.State.{contains, insert, MqttSession}
use squillion_mqtt.Sessions.Machine.{Outside, Machine}
use squillion_mqtt.Sessions.Invariant.{
  is_queued, IsTracked, NoPanic, From, From-pure, From-fail, Good, Good-pure, Good-bind,
  Good-persist, From-if,
}
use squillion_mqtt.Sessions.Queue.{
  get_elem?, qos_outgoing_message_position, set_dup_at, set_dup_found, qos_outgoing_set_dup,
  qos_outgoing_next_mid, insert_publish, insert_at, replace_publish, insert_pubrec,
  qos_outgoing_insert, remove_found, qos_outgoing_remove, qos_incoming_store, qos_incoming_remove,
}
use squillion_mqtt.Sessions.Queue.Positions.{Found}
use squillion_mqtt.Sessions.Queue.Tracked.{
  searched, missed, pushed, dropped, removed, flagged, answered,
}

-- What is not the queue may change freely.
pub kept :
    (s s' : MqttSession)
    → IsTracked s
    → s'.qos_outgoing_messages ≡ s.qos_outgoing_messages
    → s'.qos_outgoing ≡ s.qos_outgoing
    → IsTracked s'
kept s s' t e e' = record {
  kinds = rw e t.kinds;
  distinct = rw e t.distinct;
  listed = λ n h. rw e' (t.listed n (rw e at h));
}

module _ {W : Type 0} (o : Outside W) where
  From-set_dup_at :
      (s : MqttSession) (i : ℕ) (x : MqttMessage)
      → IsTracked s
      → get_elem? s.qos_outgoing_messages i ≡ some x
      → From s (set_dup_at o i (some x))
  unfolding set_dup_at
  From-set_dup_at s i (MqttMessage.publish m) t g =
      From-if (not m.dup) _ _
        (record {
          at = λ w l. Good-persist o _ _ _ _ _ t (λ w'. Good-pure tt (
              flagged s i (MqttMessage.publish m) (MqttMessage.publish (record m { dup = true })) t
                g refl refl));
        })
        (From-pure tt t)
  From-set_dup_at s i _ t g = From-fail _ NoPanic.not_stored t

  pub From-qos_outgoing_set_dup :
      (s : MqttSession) (mid : ℕ) → IsTracked s → From s (qos_outgoing_set_dup o mid)
  unfolding qos_outgoing_set_dup set_dup_found
  From-qos_outgoing_set_dup s mid t = record {
    at = λ w l. (go (qos_outgoing_message_position s mid) refl).at w l;
  }
    where
      go : (p : Option ℕ) → qos_outgoing_message_position s mid ≡ p → From s (set_dup_found o mid p)
      go none e = From-fail _ NoPanic.not_stored t
      go (some i) e =
          let f : Found mid s.qos_outgoing_messages i = searched s mid i t e in
          record {
            at = λ w l. rw (f.there) (
                Good-bind _ _ ((From-set_dup_at s i f.elem t f.there).at w l)
                  (λ u m t'. Good-pure mid t'));
          }

  insert_fresh :
      (s : MqttSession) (m : MqttMessagePublish) (mid : ℕ)
      → IsTracked s
      → contains mid s.qos_outgoing ≡ false
      → IsTracked (record s {
        qos_outgoing = insert mid s.qos_outgoing;
        qos_outgoing_messages =
            s.qos_outgoing_messages ++ (MqttMessage.publish (record m { identifier = mid }) ∷ []);
      })
  insert_fresh s m mid t h =
      pushed s (MqttMessage.publish (record m { identifier = mid })) t refl
        (ground (arith, t.listed mid))

  From-insert_publish :
      (s : MqttSession) (m : MqttMessagePublish) → IsTracked s → From s (insert_publish o m)
  unfolding insert_publish insert_at qos_outgoing_next_mid
  From-insert_publish s m t = record {
    at = λ w l. Good-bind _ _ (From-next_mid.at w l) (λ mid m' t'. rest m' mid t');
  }
    where
      From-next_mid : From s (qos_outgoing_next_mid o)
      From-next_mid = record {
        at = λ w l.
            Good-persist o _ _ _ _ _ (kept s _ t refl refl)
              (λ w'. Good-pure _ (kept s _ t refl refl));
      }

      rest : (m' : Machine W) (mid : ℕ) → IsTracked m'.session → Good (insert_at o m mid m')
      rest m' mid t' = elim (Bool-cases (contains mid m'.session.qos_outgoing)) [
        | inl held ↦ rw held (record { tracked = t'; calm = NoPanic.not_stored })
        | inr fresh ↦ rw fresh (
            Good-persist o _ _ _ _ _ t'
              (λ w'. Good-pure mid (insert_fresh m'.session m mid t' fresh)))
      ]

  From-replace_publish :
      (s : MqttSession) (m : MqttMessagePubrec) (i : ℕ) (x : MqttMessage)
      → IsTracked s
      → Found m.identifier s.qos_outgoing_messages i
      → is_queued x ≡ true
      → From s (replace_publish o m i (some x))
  unfolding replace_publish
  From-replace_publish s m i (MqttMessage.publish p) t f q =
      let t' = dropped s m.identifier i t f in
      record {
        at = λ w l.
            Good-persist o _ _ _ _ _ t
              (λ w'. Good-persist o _ _ _ _ _ t' (λ w''. Good-pure tt (answered s m i t f)));
      }
  From-replace_publish s m i (MqttMessage.pub_rec p) t f q = From-pure tt t
  From-replace_publish s m i _ t f q = From-fail _ NoPanic.not_stored t

  From-insert_pubrec :
      (s : MqttSession) (m : MqttMessagePubrec) (p : Option ℕ)
      → IsTracked s
      → qos_outgoing_message_position s m.identifier ≡ p
      → From s (insert_pubrec o m p)
  unfolding insert_pubrec
  From-insert_pubrec s m none t e = record {
    at = λ w l. Good-persist o _ _ _ _ _ t (λ w'.
        Good-pure m.identifier
          (pushed s (MqttMessage.pub_rec m) t refl (missed s m.identifier t e)));
  }
  From-insert_pubrec s m (some i) t e =
      let f : Found m.identifier s.qos_outgoing_messages i = searched s m.identifier i t e in
      record {
        at = λ w l. rw (f.there) (
            Good-bind _ _ ((From-replace_publish s m i f.elem t f f.queued).at w l)
              (λ u m' t'. Good-pure m.identifier t'));
      }

  pub From-qos_outgoing_insert :
      (s : MqttSession) (x : MqttMessage) → IsTracked s → From s (qos_outgoing_insert o x)
  unfolding qos_outgoing_insert
  From-qos_outgoing_insert s (MqttMessage.publish m) t = From-insert_publish s m t
  From-qos_outgoing_insert s (MqttMessage.pub_rec m) t = record {
    at = λ w l.
        (From-insert_pubrec s m (qos_outgoing_message_position s m.identifier) t refl).at w l;
  }
  From-qos_outgoing_insert s _ t = From-fail _ NoPanic.not_stored t

  From-remove_found :
      (s : MqttSession) (mid : ℕ) (p : Option ℕ)
      → IsTracked s
      → qos_outgoing_message_position s mid ≡ p
      → From s (remove_found o mid p)
  unfolding remove_found
  From-remove_found s mid none t e = From-pure tt t
  From-remove_found s mid (some i) t e = record {
    at = λ w l.
        Good-persist o _ _ _ _ _ t (λ w'. Good-pure tt (removed s mid i t (searched s mid i t e)));
  }

  pub From-qos_outgoing_remove :
      (s : MqttSession) (mid : ℕ) → IsTracked s → From s (qos_outgoing_remove o mid)
  unfolding qos_outgoing_remove
  From-qos_outgoing_remove s mid t = record {
    at = λ w l.
        Good-bind _ _
          ((From-remove_found s mid (qos_outgoing_message_position s mid) t refl).at w l)
          (λ u m t'. Good-pure mid t');
  }

  pub From-qos_incoming_store :
      (s : MqttSession) (mid : ℕ) → IsTracked s → From s (qos_incoming_store o mid)
  unfolding qos_incoming_store
  From-qos_incoming_store s mid t = record {
    at = λ w l. Good-persist o _ _ _ _ _ t (λ w'. Good-pure mid (kept s _ t refl refl));
  }

  pub From-qos_incoming_remove :
      (s : MqttSession) (mid : ℕ) → IsTracked s → From s (qos_incoming_remove o mid)
  unfolding qos_incoming_remove
  From-qos_incoming_remove s mid t = record {
    at = λ w l. Good-persist o _ _ _ _ _ t (λ w'. Good-pure mid (kept s _ t refl refl));
  }
