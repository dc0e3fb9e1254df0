-- ===== src/Broker/Router/Keeps.antt =====
-- broker/router.rs: the invariant of the router under every message, and its start.
use squillion_mqtt.Result.{err}
use squillion_mqtt.Prelude.{
  ◌≡◌, String, ℕ, Bool, true, false, Option, none, some, List, [], ◌∷◌, ◌≢◌, Bool-cases, inl, inr,
  ltb, if◌then◌else◌,
}
use squillion_mqtt.Result.{Result}
use squillion_mqtt.Action.{Ensures_err, Ensures, Ensures-bind, pure}
use squillion_mqtt.Messages.Publish.{MqttMessagePublish}
use squillion_mqtt.Sessions.State.{SessionId, SessionInternalMessage, RouterMessage}
use squillion_mqtt.Sessions.Table.{Sessions}
use squillion_mqtt.Sessions.Table.Channels.{
  IsDistinct, get_session-IsDistinct, stopped-IsDistinct, get_session-IsServed, new-IsDistinct,
}
use squillion_mqtt.Broker.Topics.{get_subscribed}
use squillion_mqtt.Broker.Store.{BrokerError, Store, call, Ensures-call}
use squillion_mqtt.Broker.Subscriptions.{retain}
use squillion_mqtt.Broker.Subscriptions.Changes.{IsSound}
use squillion_mqtt.Broker.Subscriptions.Sound.{
  Sound, SoundError, subscribe-Sound, unsubscribe-Sound, retain-Sound, load_persistent_state-Sound,
  new-IsSound,
}
use squillion_mqtt.Broker.Router.{
  new, RouterOutside, MessageRouter, lifted, in_topics, started_tx, reach_session, send_session,
  forward, forward_all, publish_message, send_response, subscribe_message, unsubscribe_message,
  init_persistent_store, handle, RouterEvent, goes_on, start,
}

-- The topics in use are stored, the tables of clients are keyed, and no two sessions share a channel.
pub record IsGood {W : Type 0} (r : MessageRouter W) : Type 0 where
  pub sound : IsSound r.topics
  pub distinct : IsDistinct r.sessions

abbrev pub Good : {W A : Type 0} → A → MessageRouter W → Type 0
Good a r = IsGood r

abbrev pub GoodError : {W : Type 0} → BrokerError → MessageRouter W → Type 0
GoodError e r = (e ≢ BrokerError.unwrap_panic) × IsGood r

lifted-Good :
    {W A : Type 0} (r : MessageRouter W) {x : Result BrokerError A × Store W}
    → IsDistinct r.sessions
    → Ensures Sound SoundError x
    → Ensures Good GoodError (lifted r x)
lifted-Good r d (Ensures.returned {a} {s} h) = Ensures.returned (record { sound = h; distinct = d })
lifted-Good r d (Ensures.failed {e} {s} h) =
    Ensures.failed (h.0, record { sound = h.1; distinct = d })

reach_session-IsDistinct :
    (session : SessionId) (qos : ℕ) (x : Option ℕ) (t : Sessions)
    → IsDistinct t
    → IsDistinct (reach_session session qos x t).1
unfolding reach_session started_tx
reach_session-IsDistinct session qos (some tx) t d = d
reach_session-IsDistinct session qos none t d = elim (Bool-cases (ltb 0 qos)) [
  | inr zero_qos ↦ rw zero_qos d
  | inl more ↦
      let (tx, t', eq, s) = get_session-IsServed session.session t in
      let d' : IsDistinct t' = rw eq at (get_session-IsDistinct session.session t d) in
      rw (more, eq) d'
]

module _ {W : Type 0} (o : RouterOutside W) where
  send_session-IsGood :
      (x : Option ℕ) (m : SessionInternalMessage) (r : MessageRouter W)
      → IsGood r
      → IsGood (send_session o x m r)
  unfolding send_session
  send_session-IsGood none m r g = g
  send_session-IsGood (some tx) m r g = record { sound = g.sound; distinct = g.distinct }

  forward_all-IsGood :
      (msg : MqttMessagePublish) (subscribed : List (SessionId × ℕ)) (r : MessageRouter W)
      → IsGood r
      → IsGood (forward_all o msg subscribed r)
  unfolding forward_all forward
  forward_all-IsGood msg [] r g = g
  forward_all-IsGood msg ((session, qos) ∷ rest) r g = forward_all-IsGood msg rest _ (
      send_session-IsGood _ _ _ (record {
        sound = g.sound;
        distinct = reach_session-IsDistinct session qos _ r.sessions g.distinct;
      }))

  publish_message-Good :
      (msg : MqttMessagePublish) (r : MessageRouter W)
      → IsGood r
      → Ensures Good GoodError (publish_message o msg r)
  unfolding publish_message
  publish_message-Good msg r g = Ensures-bind {P = λ _ r'. IsGood r'} (kept msg.retain) (λ a r' g'.
      Ensures.returned (forward_all-IsGood msg (get_subscribed r'.topics msg.topic) r' g'))
    where
      kept :
          (b : Bool)
          → Ensures Good GoodError ((if b then in_topics (retain o.persist msg) else pure tt) r)
      kept true = lifted-Good r g.distinct (retain-Sound o.persist msg _ g.sound)
      kept false = Ensures.returned g

  unsubscribe_message-Good :
      (session : SessionId) (topics : List (List ℕ)) (r : MessageRouter W)
      → IsGood r
      → Ensures Good GoodError (unsubscribe_message o session topics r)
  unfolding unsubscribe_message
  unsubscribe_message-Good session [] r g = Ensures.returned g
  unsubscribe_message-Good session (topic ∷ topics) r g =
      Ensures-bind (lifted-Good r g.distinct (unsubscribe-Sound o.persist session topic _ g.sound))
        (λ a r' g'. unsubscribe_message-Good session topics r' g')

  handle-Good :
      (event : RouterMessage) (r : MessageRouter W)
      → IsGood r
      → Ensures Good GoodError (handle o event r)
  unfolding handle subscribe_message send_response
  handle-Good (RouterMessage.publish session msg) r g = publish_message-Good msg r g
  handle-Good (RouterMessage.subscribe session topic qos) r g =
      Ensures-bind
        (lifted-Good r g.distinct (subscribe-Sound o.persist session topic qos _ g.sound))
        (λ q r' g'. Ensures.returned (record { sound = g'.sound; distinct = g'.distinct }))
  handle-Good (RouterMessage.unsubscribe session topics) r g =
      unsubscribe_message-Good session topics r g

  -- A message that ends the router, from a router that keeps its invariant, does so by an error of the
  -- database and not by an unwrap of a missing identifier, and the invariant still holds.
  pub handle_fails :
      (event : RouterMessage) (r r' : MessageRouter W) (e : BrokerError)
      → IsGood r
      → handle o event r ≡ (err e, r')
      → (e ≢ BrokerError.unwrap_panic) × IsGood r'
  handle_fails event r r' e g h = Ensures_err (handle-Good event r g) e r' h

  goes_on-IsGood :
      {x : Result BrokerError (Unit {0}) × MessageRouter W}
      (rest : MessageRouter W → Bool × MessageRouter W)
      → Ensures Good GoodError x
      → ((r : MessageRouter W) → IsGood r → IsGood (rest r).1)
      → IsGood (goes_on o rest x).1
  unfolding goes_on
  goes_on-IsGood rest (Ensures.returned {a} {s} g) h = h s g
  goes_on-IsGood rest (Ensures.failed g) h = g.1

  -- The invariant holds after any sequence of messages, while sessions are asked for and end in between.
  pub start-IsGood :
      (events : List RouterEvent) (r : MessageRouter W) → IsGood r → IsGood (start o events r).1
  unfolding start
  start-IsGood [] r g = g
  start-IsGood (RouterEvent.message m ∷ events) r g =
      goes_on-IsGood (start o events) (handle-Good m r g) (start-IsGood events)
  start-IsGood (RouterEvent.session_asked id ∷ events) r g =
      start-IsGood events _
        (record { sound = g.sound; distinct = get_session-IsDistinct id r.sessions g.distinct })
  start-IsGood (RouterEvent.session_ended id ∷ events) r g =
      start-IsGood events _
        (record { sound = g.sound; distinct = stopped-IsDistinct id r.sessions g.distinct })

  init_persistent_store-Good :
      (r : MessageRouter W) → IsGood r → Ensures Good GoodError (init_persistent_store o r)
  unfolding init_persistent_store
  init_persistent_store-Good r g =
      Ensures-bind (opened o.persist.create_persistent_connection r g) (λ a r1 g1.
        Ensures-bind (opened o.persist.init_persistent_store r1 g1) (λ b r2 g2.
          Ensures-bind
            (lifted-Good r2 g2.distinct (load_persistent_state-Sound o.persist _ g2.sound))
            (λ c r3 g3. Ensures.returned g3)))
    where
      opened :
          (f : W → Result String ℕ × W) (r : MessageRouter W)
          → IsGood r
          → Ensures Good GoodError (in_topics (call f) r)
      opened f r g =
          lifted-Good r g.distinct (Ensures-call _ (λ a w. g.sound) (λ x w. ((λ e. cc), g.sound)) f)

  ended :
      {A : Type 0} {x : Result BrokerError A × MessageRouter W}
      → Ensures Good GoodError x
      → IsGood x.1
  ended (Ensures.returned g) = g
  ended (Ensures.failed g) = g.1

  -- A router that starts from nothing keeps its invariant: after the load of its database, well or badly
  -- ended, and any sequence of messages, with sessions asked for and ended in between, every topic in use
  -- is a stored one, every table of clients is keyed, and no two sessions share a channel.
  pub start-IsGood_new :
      (w : W) (events : List RouterEvent)
      → IsGood (start o events (init_persistent_store o (new w)).1).1
  unfolding new
  start-IsGood_new w events = start-IsGood events _ (
      ended (
        init_persistent_store-Good (new w)
          (record { sound = new-IsSound; distinct = new-IsDistinct })))
