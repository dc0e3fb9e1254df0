-- ===== src/Sessions/Loading/Restored.antt =====
-- src/sessions/sessionworker.rs: the invariant of the queue after `init_persist_session`.
use squillion_mqtt.Prelude.{
  ℕ, true, ◌||◌, List, [], ◌∷◌, String, ◌≡◌, refl, ap, arith, Bool-cases, inl, inr,
}
use squillion_mqtt.Result.{Result, ok, err}
use mathlib.Core.Path.{subst}
use squillion_mqtt.Messages.Codec.{MqttMessage}
use squillion_mqtt.Sessions.State.{contains, insert}
use squillion_mqtt.Sessions.Machine.{Outside, Machine, Step, ◌>>=◌, ◌>>◌, outside}
use squillion_mqtt.Sessions.Invariant.{ids, AllQueued, Distinct, IsTracked}
use squillion_mqtt.Sessions.Invariant.Ids.{contains-insert}
use squillion_mqtt.Sessions.Loading.{
  track_messages, keep_queue, keep_incoming, keep_subscriptions, load_state, keep_session,
  init_persist_session,
}

-- What a store of the queue gives back: messages each with an identifier of its own.
pub record KeepsQueue {W : Type 0} (o : Outside W) : Type 0 where
  pub distinct :
      (id : ℕ) (w : W) (ms : List MqttMessage)
      → (o.persistent_qosout_load id w).0 ≡ ok ms
      → Distinct (ids ms)

module _ {W : Type 0} where
  -- A call of the provider inside a computation that succeeds.
  outside_ok :
      {A B : Type 0} (f : W → Result String A × W) (g : A → Step W B) (m m' : Machine W) (b : B)
      → (outside f >>= g) m ≡ (ok b, m')
      → (a : A) × (w : W) × ((f m.world).0 ≡ ok a) × (g a (record m { world = w }) ≡ (ok b, m'))
  outside_ok {A} {B} f g m m' b h = go (f m.world) h
    where
      go :
          (x : Result String A × W)
          → (outside {W = W} (λ _. x) >>= g) m ≡ (ok b, m')
          → (a : A) × (w : W) × (x.0 ≡ ok a) × (g a (record m { world = w }) ≡ (ok b, m'))
      go (ok a, w) h = (a, w, refl, h)
      go (err e, w) h = cc

module _ {W : Type 0} (o : Outside W) where
  -- The messages that are taken are PUBLISH and PUBREC; their identifiers end up in `qos_outgoing`, and
  -- the old ones stay.
  tracked_then :
      (ms : List MqttMessage) (k : Step W (Unit {0})) (m m' : Machine W)
      → (track_messages o ms >> k) m ≡ (ok tt, m')
      → AllQueued ms
        × (out : List ℕ) × ((n : ℕ)
            → (contains n m.session.qos_outgoing || contains n (ids ms)) ≡ true
            → contains n out ≡ true)
        × (k (record m { session = record m.session { qos_outgoing = out } }) ≡ (ok tt, m'))
  unfolding track_messages
  tracked_then [] k m m' h = (tt, m.session.qos_outgoing, (λ n e. ground arith), h)
  tracked_then (MqttMessage.publish x ∷ ms) k m m' h =
      let m1 = record m {
        session = record m.session { qos_outgoing = insert x.identifier m.session.qos_outgoing };
      } in
      let (q, out, kept, rest) = tracked_then ms k m1 m' h in
      (
        (refl, q),
        out,
        (λ n e. kept n (rw (contains-insert n x.identifier m.session.qos_outgoing) (ground arith))),
        rest,
      )
  tracked_then (MqttMessage.pub_rec x ∷ ms) k m m' h =
      let m1 = record m {
        session = record m.session { qos_outgoing = insert x.identifier m.session.qos_outgoing };
      } in
      let (q, out, kept, rest) = tracked_then ms k m1 m' h in
      (
        (refl, q),
        out,
        (λ n e. kept n (rw (contains-insert n x.identifier m.session.qos_outgoing) (ground arith))),
        rest,
      )
  tracked_then (_ ∷ ms) k m m' h = cc

  queue_tracked :
      (ms : List MqttMessage) (m m' : Machine W)
      → Distinct (ids ms)
      → keep_queue o ms m ≡ (ok tt, m')
      → IsTracked m'.session
  unfolding keep_queue
  queue_tracked ms m m' distinct h =
      let (kinds, out, kept, rest) = tracked_then ms _ m m' h in
      subst IsTracked (ap (λ r. r.1.session) rest)
        (record { kinds = kinds; distinct = distinct; listed = λ n e. kept n (ground arith) })

  loaded : (m m' : Machine W) → KeepsQueue o → load_state o m ≡ (ok tt, m') → IsTracked m'.session
  unfolding load_state keep_subscriptions keep_incoming
  loaded m m' store h =
      let id : ℕ = m.session.internal_id in
      let (subs, w1, _, h1) =
        outside_ok (o.load_persistent_subscriptions id) (keep_subscriptions o) m m' tt h in
      let (mids, w2, _, h2) =
        outside_ok (o.persist_qos_incoming_load id) (keep_incoming o) _ m' tt h1 in
      let (ms, w3, from_store, h3) =
        outside_ok (o.persistent_qosout_load id) (keep_queue o) _ m' tt h2 in
      queue_tracked ms _ m' (store.distinct id w2 ms from_store) h3

  -- When the store returns messages each with an identifier of its own, a session with a tracked queue that
  -- loads its state without an error has a tracked queue: other messages than PUBLISH and PUBREC are refused.
  pub init_persist_session-IsTracked :
      (m m' : Machine W)
      → KeepsQueue o
      → IsTracked m.session
      → init_persist_session o m ≡ (ok tt, m')
      → IsTracked m'.session
  unfolding init_persist_session keep_session
  init_persist_session-IsTracked m m' store t h =
      let (row, w, _, h1) =
        outside_ok (o.persist_session m.session.id) (keep_session o) m m' tt h in
      elim (Bool-cases (row.2)) [
        | inl clean ↦
            let h2 = rw clean at h1 in
            let session = ap (λ r. r.1.session) h2 in
            subst IsTracked session
              (record { kinds = t.kinds; distinct = t.distinct; listed = t.listed })
        | inr stored ↦ let h2 = rw stored at h1 in loaded _ m' store h2
      ]
