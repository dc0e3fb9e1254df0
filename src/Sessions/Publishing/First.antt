-- ===== src/Sessions/Publishing/First.antt =====
-- src/sessions/sessionworker.rs: `publish_message` on a QoS 2 message whose identifier is new.
use squillion_mqtt.Prelude.{
  ℕ, ◌+◌, true, false, ◌&&◌, [], ◌∷◌, ◌≡◌, ◌==◌, refl, ap, arith, Bool-cases, inl, inr,
}
use squillion_mqtt.Result.{Result, ok, err}
use squillion_mqtt.Messages.Publish.{MqttMessagePublish}
use squillion_mqtt.Messages.Codec.{MqttMessage}
use squillion_mqtt.Sessions.State.{contains, SessionError, RouterMessage}
use squillion_mqtt.Sessions.Machine.{
  Outside, Machine, Sent, Step, continue_with, session_id, send_message_router,
}
use squillion_mqtt.Sessions.Once.{
  is_second, routed, routed-append, Remembered, Remembers-send_client_message,
}
use squillion_mqtt.Sessions.Queue.{qos_incoming_received, qos_incoming_store}
use squillion_mqtt.Sessions.Queue.First.{incoming_stored}
use squillion_mqtt.Sessions.Publishing.{acknowledge, forward, publish_message}

module _ {W : Type 0} (o : Outside W) where
  stored_next :
      (mid n : ℕ) (x : Result SessionError ℕ × Machine W) (f : ℕ → Step W (Unit {0}))
      (m' : Machine W)
      → ((k : ℕ) → x.0 ≡ ok k → Remembered mid n x.1)
      → ((k : ℕ) (m : Machine W) → Remembered mid n m → Remembered mid n ((f k m).1))
      → continue_with x f ≡ (ok tt, m')
      → Remembered mid n m'
  stored_next mid n (ok k, m) f m' h step e =
      let same : (f k m).1 ≡ m' = ap (λ q. q.1) e in rw same at (step k m (h k refl))
  stored_next mid n (err x, m) f m' h step e = cc

  -- The tail of the handler, at QoS 2.
  acknowledged :
      (qos mid n : ℕ) (m m' : Machine W)
      → qos ≡ 2
      → routed mid m.sent ≡ n
      → acknowledge o qos mid m ≡ (ok tt, m')
      → Remembered mid n m'
  unfolding acknowledge
  acknowledged qos mid n m m' two count e =
      stored_next mid n (qos_incoming_store o mid m) _ m'
        (λ k stored. incoming_stored o mid n m k count stored)
        (λ k m'' r.
          (Remembers-send_client_message o (MqttMessage.pub_rec (record { identifier = mid }))).at n
            m'' r)
        (rw two at e)

  forwarded :
      (p : MqttMessagePublish) (m m' : Machine W)
      → p.qos ≡ 2
      → forward o p m.session m ≡ (ok tt, m')
      → Remembered p.identifier (1 + routed p.identifier m.sent) m'
  unfolding forward send_message_router
  forwarded p m m' two done =
      let message : RouterMessage =
        RouterMessage.publish (session_id m.session) (record p { dup = false }) in
      let second : is_second p.identifier p ≡ true = ground arith in
      elim (Bool-cases ((o.send_router message m.world).0)) [
        | inr closed ↦ let e = rw closed at done in cc
        | inl taken ↦
            let e = rw taken at done in
            let one : routed p.identifier (Sent.to_router message ∷ []) ≡ 1 = rw second in
            acknowledged p.qos p.identifier _ _ m' two
              (omega (arith, one, routed-append p.identifier m.sent (Sent.to_router message ∷ [])))
              e
      ]

  pub first_publish :
      (p : MqttMessagePublish) (m m' : Machine W)
      → p.qos ≡ 2
      → contains p.identifier m.session.qos_incoming ≡ false
      → publish_message o p m ≡ (ok tt, m')
      → Remembered p.identifier (1 + routed p.identifier m.sent) m'
  unfolding publish_message qos_incoming_received
  first_publish p m m' two fresh done =
      let new_one : (p.qos == 2 && contains p.identifier m.session.qos_incoming) ≡ false =
        ground (arith, fresh) in
      forwarded p m m' two (rw new_one at done)
