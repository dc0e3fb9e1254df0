-- ===== src/Sessions/Queue/Aside.antt =====
-- src/sessions/sessionworker.rs: what `qos_outgoing_set_dup` changes besides the message.
use squillion_mqtt.Prelude.{
  ℕ, suc, true, Option, none, some, String, ◌≡◌, refl, ap, ◌∙◌, sym, Bool-cases, inl, inr, drop,
}
use mathlib.Core.Path.{subst}
use squillion_mqtt.Result.{Result, ok, err}
use squillion_mqtt.Messages.Codec.{MqttMessage}
use squillion_mqtt.Sessions.State.{SessionError}
use squillion_mqtt.Sessions.Machine.{
  PersistCall, Outside, Machine, Step, pure, continue_with, ◌>>◌, modify, outside, persist,
}
use squillion_mqtt.Sessions.Invariant.{mid_of, IsTracked}
use squillion_mqtt.Sessions.Queue.{
  get_elem?, set_elem, qos_outgoing_message_position, set_dup_at, set_dup_found,
  qos_outgoing_set_dup,
}
use squillion_mqtt.Sessions.Queue.Positions.{Found, one_position, drop-set_elem}
use squillion_mqtt.Sessions.Queue.Tracked.{searched}

-- The channels got nothing, and the messages behind the position are as they were.
pub record Aside {W : Type 0} (pos : ℕ) (m m' : Machine W) : Type 0 where
  pub sent : m'.sent ≡ m.sent
  pub client : m'.session.client ≡ m.session.client
  pub later :
      drop (suc pos) m'.session.qos_outgoing_messages
      ≡ drop (suc pos) m.session.qos_outgoing_messages

module _ {W : Type 0} (o : Outside W) where
  Aside-at_position :
      (pos : ℕ) (x : MqttMessage) (m m' : Machine W)
      → set_dup_at o pos (some x) m ≡ (ok tt, m')
      → Aside pos m m'
  unfolding set_dup_at persist
  Aside-at_position pos (MqttMessage.publish p) m m' h = elim (Bool-cases p.dup) [
    | inl flagged ↦
        let e : m ≡ m' = ap (λ r. r.1) (rw flagged at h) in
        rw (sym e) (record { sent = refl; client = refl; later = refl })
    | inr fresh ↦
        called
          (o.persist (PersistCall.qos_outgoing_update_dup m.session.internal_id p.identifier true)
            m.world)
          (rw fresh at h)
  ]
    where
      mark : Step W (Unit {0})
      mark = modify (λ s. record s {
        qos_outgoing_messages =
            set_elem pos (MqttMessage.publish (record p { dup = true })) s.qos_outgoing_messages;
      })

      called :
          (x : Result String (Unit {0}) × W)
          → (outside {W = W} (λ _. x) >> mark) m ≡ (ok tt, m')
          → Aside pos m m'
      called (ok u, w) h =
          let e = ap (λ r. r.1) h in
          subst (Aside pos m) e (record {
            sent = refl;
            client = refl;
            later =
                drop-set_elem pos (MqttMessage.publish (record p { dup = true }))
                  m.session.qos_outgoing_messages;
          })
      called (err e, w) h = cc
  Aside-at_position pos _ m m' h = cc

  pub aside :
      (pos mid k : ℕ) (x : MqttMessage) (m m' : Machine W)
      → IsTracked m.session
      → get_elem? m.session.qos_outgoing_messages pos ≡ some x
      → mid_of x ≡ mid
      → qos_outgoing_set_dup o mid m ≡ (ok k, m')
      → Aside pos m m'
  unfolding qos_outgoing_set_dup set_dup_found
  aside pos mid k x m m' t got same h = go (qos_outgoing_message_position m.session mid) refl h
    where
      finish :
          (i : ℕ) (r : Result SessionError (Unit {0}) × Machine W)
          → ((m1 : Machine W) → r ≡ (ok tt, m1) → Aside i m m1)
          → continue_with {B = ℕ} r (λ _. pure mid) ≡ (ok k, m')
          → Aside i m m'
      finish i (ok tt, m1) f h = let e : m1 ≡ m' = ap (λ q. q.1) h in f m' (rw e)
      finish i (err e, m1) f h = cc

      go :
          (p : Option ℕ)
          → qos_outgoing_message_position m.session mid ≡ p
          → set_dup_found o mid p m ≡ (ok k, m')
          → Aside pos m m'
      go none e h = cc
      go (some i) e h =
          let f : Found mid m.session.qos_outgoing_messages i = searched m.session mid i t e in
          let same_place : i ≡ pos =
            one_position m.session.qos_outgoing_messages i pos f.elem x t.distinct f.there got
              (f.same_mid ∙ sym same) in
          let h' = rw (f.there) at h in
          subst (λ j. Aside j m m') same_place
            (finish i _ (λ m1 q. Aside-at_position i f.elem m m1 q) h')
