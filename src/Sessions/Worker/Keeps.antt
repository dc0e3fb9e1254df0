-- ===== src/Sessions/Worker/Keeps.antt =====
-- src/sessions/sessionworker.rs: the invariant of the queue over the events of a session.
use squillion_mqtt.Prelude.{Bool, false, List, [], ◌∷◌, if◌then◌else◌, ◌==◌}
use squillion_mqtt.Result.{Result, ok, err}
use squillion_mqtt.Messages.Codec.{MqttMessage}
use squillion_mqtt.Sessions.State.{
  MqttSession, SessionError, SessionMessage, internal, client_message, new_client,
}
use squillion_mqtt.Sessions.Machine.{Outside, Machine}
use squillion_mqtt.Sessions.Invariant.{IsTracked, From, From-pure, From-if, Good}
use squillion_mqtt.Sessions.Lifecycle.Keeps.{From-new_client_connected}
use squillion_mqtt.Sessions.Subscribing.Keeps.{From-subscribe_message, From-unsubscribe_message}
use squillion_mqtt.Sessions.Publishing.Keeps.{
  From-internal_publish_message, From-puback_message, From-pubrel_message, From-pubrec_message,
  From-pubcomp_message, From-publish_message,
}
use squillion_mqtt.Sessions.Worker.{client_step, internal_step, step, goes_on, run_events}

module _ {W : Type 0} (o : Outside W) where
  From-client_step : (s : MqttSession) (m : MqttMessage) → IsTracked s → From s (client_step o m)
  unfolding client_step
  From-client_step s (MqttMessage.publish m) t = From-publish_message o s m t
  From-client_step s (MqttMessage.pub_ack m) t = From-puback_message o s m t
  From-client_step s (MqttMessage.pub_rel m) t = From-pubrel_message o s m t
  From-client_step s (MqttMessage.pub_rec m) t = From-pubrec_message o s m t
  From-client_step s (MqttMessage.pub_comp m) t = From-pubcomp_message o s m t
  From-client_step s (MqttMessage.subscribe m) t = From-subscribe_message o s m t
  From-client_step s (MqttMessage.unsubscribe m) t = From-unsubscribe_message o s m t
  From-client_step s _ t = From-pure tt t

  From-internal_step :
      (s : MqttSession) (m : MqttMessage) → IsTracked s → From s (internal_step o m)
  unfolding internal_step
  From-internal_step s (MqttMessage.publish m) t = From-internal_publish_message o s m t
  From-internal_step s _ t = From-pure tt t

  From-step : (s : MqttSession) (e : SessionMessage) → IsTracked s → From s (step o e)
  unfolding step
  From-step s (internal i) t = record {
    at = λ w l.
        (From-if (i.session.session_generation == s.generation) _ _
            (From-internal_step s i.message t) (From-pure tt t)).at
          w l;
  }
  From-step s (client_message m) t = From-client_step s m t
  From-step s (new_client n) t = From-new_client_connected o s n t

  -- Whatever event comes, and whatever the database and the channels answer, a session whose queue is
  -- tracked handles the event without an index out of bounds, and its queue is still tracked: only
  -- PUBLISH and PUBREC in it, each with an identifier of its own that is in `qos_outgoing`.
  pub step-Good : (e : SessionMessage) (m : Machine W) → IsTracked m.session → Good (step o e m)
  step-Good e m t = (From-step m.session e t).at m.world m.sent

  choose :
      (r : Result SessionError (Unit {0})) (m : Machine W) (rest : Bool × Machine W)
      → IsTracked m.session
      → IsTracked rest.1.session
      → IsTracked ((if◌then◌else◌ {A = Bool × Machine W} (goes_on r) rest (false, m)).1.session)
  choose (ok u) m rest t k = k
  choose (err SessionError.client) m rest t k = k
  choose (err SessionError.router) m rest t k = t
  choose (err (SessionError.persist e)) m rest t k = t
  choose (err SessionError.index_panic) m rest t k = t

  -- Over any sequence of events, a session whose queue is tracked still has a tracked queue when the loop
  -- waits for the next event or ends.
  pub run_events-IsTracked :
      (events : List SessionMessage) (m : Machine W)
      → IsTracked m.session
      → IsTracked ((run_events o events m).1.session)
  unfolding run_events
  run_events-IsTracked [] m t = t
  run_events-IsTracked (e ∷ events) m t =
      let g : Good (step o e m) = step-Good e m t in
      choose _ _ _ g.tracked (run_events-IsTracked events ((step o e m).1) g.tracked)
