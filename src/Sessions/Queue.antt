-- ===== src/Sessions/Queue.antt =====
-- sessions/sessionworker.rs: the messages that await an acknowledgement, in `qos_outgoing_*` and
-- `qos_incoming_*`.
pub mod Positions
pub mod Tracked
pub mod Keeps
pub mod Once
pub mod First
pub mod Sending
pub mod Aside
pub mod Delivery
use squillion_mqtt.Prelude.{
  ℕ, zero, suc, ◌+◌, ◌%◌, ◌^◌, Bool, true, false, not, ◌&&◌, ◌||◌, Option, none, some, List, [],
  ◌∷◌, ◌++◌, length, ◌==◌, if◌then◌else◌,
}
use squillion_mqtt.Result.{Result, ok, err}
use squillion_mqtt.Messages.Publish.{MqttMessagePublish}
use squillion_mqtt.Messages.Ack.{MqttMessagePubrec, MqttMessagePubrel}
use squillion_mqtt.Messages.Codec.{MqttMessage}
use squillion_mqtt.Sessions.State.{contains, insert, remove, MqttSession, SessionError}
use squillion_mqtt.Sessions.Machine.{
  PersistCall, Outside, Machine, Step, pure, fail, ◌>>=◌, ◌>>◌, get, modify, when, persist,
  send_client_message,
}

-- The closure that finds a message by its identifier.
abbrev pub has_mid : ℕ → MqttMessage → Bool
has_mid mid (MqttMessage.publish m) = m.identifier == mid
has_mid mid (MqttMessage.pub_rec m) = m.identifier == mid
has_mid mid message = false

-- `iter().position(..)`, `[i]`, `[i] = x` and `remove(i)` of a vector.
abbrev pub position : (MqttMessage → Bool) → List MqttMessage → Option ℕ
position p [] = none
position p (x ∷ xs) =
    let later = elim (position p xs) as (λ _. Option ℕ) [ none ↦ none | some i ↦ some (suc i) ] in
    if p x then some 0 else later

abbrev pub get_elem? : List MqttMessage → ℕ → Option MqttMessage
get_elem? [] i = none
get_elem? (x ∷ xs) zero = some x
get_elem? (x ∷ xs) (suc i) = get_elem? xs i

abbrev pub set_elem : ℕ → MqttMessage → List MqttMessage → List MqttMessage
set_elem i y [] = []
set_elem zero y (x ∷ xs) = y ∷ xs
set_elem (suc i) y (x ∷ xs) = x ∷ set_elem i y xs

abbrev pub remove_elem : ℕ → List MqttMessage → List MqttMessage
remove_elem i [] = []
remove_elem zero (x ∷ xs) = xs
remove_elem (suc i) (x ∷ xs) = x ∷ remove_elem i xs

unfoldable pub qos_outgoing_message_position : MqttSession → ℕ → Option ℕ
qos_outgoing_message_position self mid =
    if contains mid self.qos_outgoing
    then position (has_mid mid) self.qos_outgoing_messages
    else none

module _ {W : Type 0} (o : Outside W) where
  -- The match on the element at the position, in `qos_outgoing_set_dup`. The position was found in the same
  -- vector, so it is in bounds, where `set_elem` is the assignment to the index.
  unfoldable pub set_dup_at : ℕ → Option MqttMessage → Step W (Unit {0})
  set_dup_at pos (some (MqttMessage.publish m)) = when (not m.dup) do
    self ← get
    persist o (PersistCall.qos_outgoing_update_dup self.internal_id m.identifier true)
    modify (λ s. record s {
      qos_outgoing_messages =
          set_elem pos (MqttMessage.publish (record m { dup = true })) s.qos_outgoing_messages;
    })
  set_dup_at pos (some message) = fail (SessionError.persist "QoS message not found to set dup")
  set_dup_at pos none = pure tt

  unfoldable pub set_dup_found : ℕ → Option ℕ → Step W ℕ
  unfolding set_dup_at
  set_dup_found mid (some pos) = do
    self ← get
    set_dup_at pos (get_elem? self.qos_outgoing_messages pos)
    pure mid
  set_dup_found mid none = fail (SessionError.persist "QoS message not stored to set dup")

  unfoldable pub qos_outgoing_set_dup : ℕ → Step W ℕ
  unfolding set_dup_found qos_outgoing_message_position
  qos_outgoing_set_dup mid = do
    self ← get
    set_dup_found mid (qos_outgoing_message_position self mid)

  -- `next_message_id += 1` on a `u16`, with the wrap-around of a release build.
  unfoldable pub qos_outgoing_next_mid : Step W ℕ
  qos_outgoing_next_mid = do
    self ← get
    let mid = self.next_message_id
    modify (λ s. record s { next_message_id = (s.next_message_id + 1) % 2 ^ 16 })
    after ← get
    persist o (PersistCall.update_session_mid after.internal_id after.next_message_id)
    pure mid

  -- The arm of a PUBLISH once its identifier is known.
  insert_at : MqttMessagePublish → ℕ → Step W ℕ
  insert_at m mid = do
    self ← get
    let pubmessage = MqttMessage.publish (record m { identifier = mid })
    let fresh = do
      persist o (PersistCall.qos_outgoing_store self.internal_id mid pubmessage)
      modify (λ s. record s {
        qos_outgoing = insert mid s.qos_outgoing;
        qos_outgoing_messages = s.qos_outgoing_messages ++ (pubmessage ∷ []);
      })
      pure mid
    if contains mid self.qos_outgoing
        then fail (SessionError.persist "QoS outgoing mid duplicate found")
        else fresh

  insert_publish : MqttMessagePublish → Step W ℕ
  unfolding qos_outgoing_next_mid insert_at
  insert_publish m = do mid ← qos_outgoing_next_mid; insert_at m mid

  -- The match on the message that a PUBREC answers.
  replace_publish : MqttMessagePubrec → ℕ → Option MqttMessage → Step W (Unit {0})
  replace_publish m pos (some (MqttMessage.publish _)) = do
    self ← get
    persist o (PersistCall.qos_outgoing_delete self.internal_id m.identifier)
    modify (λ s. record s { qos_outgoing_messages = remove_elem pos s.qos_outgoing_messages })
    persist o (PersistCall.qos_outgoing_store self.internal_id m.identifier (MqttMessage.pub_rec m))
    modify (λ s. record s {
      qos_outgoing_messages = s.qos_outgoing_messages ++ (MqttMessage.pub_rec m ∷ []);
    })
  replace_publish m pos (some (MqttMessage.pub_rec _)) = pure tt
  replace_publish m pos (some message) =
      fail (SessionError.persist "Uknown qos outgoing message in queue")
  replace_publish m pos none = fail SessionError.index_panic

  insert_pubrec : MqttMessagePubrec → Option ℕ → Step W ℕ
  unfolding replace_publish
  insert_pubrec m (some pos) = do
    self ← get
    replace_publish m pos (get_elem? self.qos_outgoing_messages pos)
    pure m.identifier
  insert_pubrec m none = do
    self ← get
    persist o (PersistCall.qos_outgoing_store self.internal_id m.identifier (MqttMessage.pub_rec m))
    modify (λ s. record s {
      qos_outgoing = insert m.identifier s.qos_outgoing;
      qos_outgoing_messages = s.qos_outgoing_messages ++ (MqttMessage.pub_rec m ∷ []);
    })
    pure m.identifier

  pub qos_outgoing_insert : MqttMessage → Step W ℕ
  unfolding insert_publish insert_pubrec qos_outgoing_message_position
  qos_outgoing_insert (MqttMessage.publish m) = insert_publish m
  qos_outgoing_insert (MqttMessage.pub_rec m) = do
    self ← get
    insert_pubrec m (qos_outgoing_message_position self m.identifier)
  qos_outgoing_insert message = fail (SessionError.persist "Uknown qos outgoing message")

  -- The position was found in the same vector, so it is in bounds, where `remove_elem` is `Vec::remove`.
  remove_found : ℕ → Option ℕ → Step W (Unit {0})
  remove_found mid (some pos) = do
    self ← get
    persist o (PersistCall.qos_outgoing_delete self.internal_id mid)
    modify (λ s. record s {
      qos_outgoing_messages = remove_elem pos s.qos_outgoing_messages;
      qos_outgoing = remove mid s.qos_outgoing;
    })
  remove_found mid none = pure tt

  pub qos_outgoing_remove : ℕ → Step W ℕ
  unfolding remove_found qos_outgoing_message_position
  qos_outgoing_remove mid = do
    self ← get
    remove_found mid (qos_outgoing_message_position self mid)
    pure mid

  unfoldable pub qos_incoming_store : ℕ → Step W ℕ
  qos_incoming_store mid = do
    self ← get
    persist o (PersistCall.qos_incoming_store self.internal_id mid)
    modify (λ s. record s { qos_incoming = insert mid s.qos_incoming })
    pure mid

  pub qos_incoming_remove : ℕ → Step W ℕ
  qos_incoming_remove mid = do
    self ← get
    persist o (PersistCall.qos_incoming_delete self.internal_id mid)
    modify (λ s. record s { qos_incoming = remove mid s.qos_incoming })
    pure mid

  -- One round of `send_queued_messages`.
  unfoldable pub send_queued : Option MqttMessage → Step W (Unit {0})
  unfolding qos_outgoing_set_dup
  send_queued (some (MqttMessage.publish m)) = do
    send_client_message o (MqttMessage.publish m)
    when ((m.qos == 1 || m.qos == 2) && not m.dup)
        do mid ← qos_outgoing_set_dup m.identifier; pure tt
  send_queued (some (MqttMessage.pub_rec m)) =
      send_client_message o (MqttMessage.pub_rel (record { identifier = m.identifier }))
  send_queued (some message) = fail (SessionError.persist "Unkown queued message")
  send_queued none = fail SessionError.index_panic

  -- `for pos in 0..len`: `n` rounds from `pos` on.
  unfoldable pub send_from : ℕ → ℕ → Step W (Unit {0})
  unfolding send_queued
  send_from pos zero = pure tt
  send_from pos (suc n) = do
    self ← get
    send_queued (get_elem? self.qos_outgoing_messages pos)
    send_from (suc pos) n

  unfoldable pub send_queued_messages : Step W (Unit {0})
  unfolding send_from
  send_queued_messages = do self ← get; send_from 0 (length self.qos_outgoing_messages)

unfoldable pub qos_incoming_received : MqttSession → ℕ → Bool
qos_incoming_received self mid = contains mid self.qos_incoming
