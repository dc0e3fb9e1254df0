-- ===== src/Sessions/Worker/ExactlyOnce.antt =====
-- src/sessions/sessionworker.rs: messages of QoS 2 over the events of a session.
use squillion_mqtt.Prelude.{ℕ, ◌+◌, Bool, false, List, [], ◌∷◌, ◌≡◌, ◌==◌, if◌then◌else◌, All}
use squillion_mqtt.Result.{Result, ok, err}
use squillion_mqtt.Messages.Codec.{MqttMessage}
use squillion_mqtt.Messages.Publish.{MqttMessagePublish}
use squillion_mqtt.Sessions.State.{
  contains, SessionError, SessionMessage, internal, client_message, new_client,
}
use squillion_mqtt.Sessions.Machine.{Outside, Machine}
use squillion_mqtt.Sessions.Once.{
  Remembered, Remembers, Remembers-pure, Remembers-bind, Remembers-get, Remembers-if, routed,
}
use squillion_mqtt.Sessions.Lifecycle.Once.{Remembers-new_client_connected}
use squillion_mqtt.Sessions.Subscribing.Once.{
  Remembers-subscribe_message, Remembers-unsubscribe_message,
}
use squillion_mqtt.Sessions.Publishing.Once.{
  Remembers-internal_publish_message, Remembers-puback_message, Remembers-pubrel_message,
  Remembers-pubrec_message, Remembers-pubcomp_message, Remembers-publish_message,
}
use squillion_mqtt.Sessions.Publishing.{publish_message}
use squillion_mqtt.Sessions.Publishing.First.{first_publish}
use squillion_mqtt.Sessions.Worker.{client_step, internal_step, step, goes_on, run_events}

-- The event neither releases the identifier nor cleans the session.
abbrev pub Spares : ℕ → SessionMessage → Type 0
Spares mid (client_message (MqttMessage.pub_rel m)) = mid == m.identifier ≡ false
Spares mid (new_client n) = n.msg.clean_session ≡ false
Spares mid _ = Unit

module _ {W : Type 0} (o : Outside W) where
  Remembers-client_step :
      (mid : ℕ) (m : MqttMessage) → Spares mid (client_message m) → Remembers mid (client_step o m)
  unfolding client_step
  Remembers-client_step mid (MqttMessage.publish m) h = Remembers-publish_message o m
  Remembers-client_step mid (MqttMessage.pub_ack m) h = Remembers-puback_message o m
  Remembers-client_step mid (MqttMessage.pub_rel m) h = Remembers-pubrel_message o m h
  Remembers-client_step mid (MqttMessage.pub_rec m) h = Remembers-pubrec_message o m
  Remembers-client_step mid (MqttMessage.pub_comp m) h = Remembers-pubcomp_message o m
  Remembers-client_step mid (MqttMessage.subscribe m) h = Remembers-subscribe_message o m
  Remembers-client_step mid (MqttMessage.unsubscribe m) h = Remembers-unsubscribe_message o m
  Remembers-client_step mid _ h = Remembers-pure tt

  Remembers-internal_step : (mid : ℕ) (m : MqttMessage) → Remembers mid (internal_step o m)
  unfolding internal_step
  Remembers-internal_step mid (MqttMessage.publish m) = Remembers-internal_publish_message o m
  Remembers-internal_step mid _ = Remembers-pure tt

  Remembers-step : (mid : ℕ) (e : SessionMessage) → Spares mid e → Remembers mid (step o e)
  unfolding step
  Remembers-step mid (internal i) h =
      Remembers-bind _ _ Remembers-get
        (λ self. Remembers-if _ _ _ (Remembers-internal_step mid i.message) (Remembers-pure tt))
  Remembers-step mid (client_message m) h = Remembers-client_step mid m h
  Remembers-step mid (new_client n) h = Remembers-new_client_connected o n h

  choose :
      (mid n : ℕ) (r : Result SessionError (Unit {0})) (m : Machine W) (rest : Bool × Machine W)
      → Remembered mid n m
      → Remembered mid n rest.1
      → Remembered mid n ((if◌then◌else◌ {A = Bool × Machine W} (goes_on r) rest (false, m)).1)
  choose mid n (ok u) m rest h k = k
  choose mid n (err SessionError.client) m rest h k = k
  choose mid n (err SessionError.router) m rest h k = h
  choose mid n (err (SessionError.persist e)) m rest h k = h
  choose mid n (err SessionError.index_panic) m rest h k = h

  -- While an identifier is held, events that neither release it by PUBREL nor clean the session keep it
  -- held and let the session route no message of QoS 2 with it.
  pub run_events-Remembered :
      (mid n : ℕ) (events : List SessionMessage) (m : Machine W)
      → All (Spares mid) events
      → Remembered mid n m
      → Remembered mid n ((run_events o events m).1)
  unfolding run_events
  run_events-Remembered mid n [] m h r = r
  run_events-Remembered mid n (e ∷ events) m (h, hs) r =
      let r' : Remembered mid n ((step o e m).1) = (Remembers-step mid e h).at n m r in
      choose mid n _ _ _ r' (run_events-Remembered mid n events ((step o e m).1) hs r')

  -- Once a PUBLISH of QoS 2 whose identifier was not held is handled without an error, the router has got
  -- exactly one message of QoS 2 with that identifier since, however often the client repeats it, over
  -- any events that neither release the identifier by PUBREL nor clean the session.
  pub exactly_once :
      (p : MqttMessagePublish) (events : List SessionMessage) (m m' : Machine W)
      → p.qos ≡ 2
      → contains p.identifier m.session.qos_incoming ≡ false
      → publish_message o p m ≡ (ok tt, m')
      → All (Spares p.identifier) events
      → routed p.identifier ((run_events o events m').1.sent) ≡ 1 + routed p.identifier m.sent
  exactly_once p events m m' two fresh done hs =
      (run_events-Remembered p.identifier (1 + routed p.identifier m.sent) events m' hs
        (first_publish o p m m' two fresh done)).count
