-- ===== src/Tests/Router.antt =====
-- Runs of broker/router.rs: a SUBSCRIBE, a PUBLISH that reaches the session, and a database that fails.
use squillion_mqtt.Prelude.{ℕ, true, false, List, [], ◌∷◌, ◌≡◌, ◌≢◌, refl}
use squillion_mqtt.Prelude.Split.{split}
use squillion_mqtt.Result.{ok, err}
use squillion_mqtt.Messages.Publish.{MqttMessagePublish}
use squillion_mqtt.Sessions.State.{SessionId, RouterMessage}
use squillion_mqtt.Broker.Topics.{get_subscribed, find}
use squillion_mqtt.Broker.Store.{BrokerError, PersistProvider, persist_topic_test}
use squillion_mqtt.Broker.Subscriptions.{subscribe, get_topic}
use squillion_mqtt.Broker.Subscriptions.Node.{is_new, reserve}
use squillion_mqtt.Broker.Subscriptions.Sound.{new-IsSound}
use squillion_mqtt.Sessions.Table.Channels.{new-IsDistinct}
use squillion_mqtt.Broker.Router.{
  RouterOutside, MessageRouter, RouterEvent, new, publish_message, handle, subscribe_message,
  init_persistent_store, start,
}
use squillion_mqtt.Broker.Router.Delivered.{Forwarded, publish_message_delivers}
use squillion_mqtt.Broker.Router.Keeps.{IsGood, handle_fails, start-IsGood_new}

abbrev reader : SessionId
reader = record { session = b'r' ∷ []; internal_id = 1; session_generation = 1 }

abbrev topic : List ℕ
topic = b'a' ∷ []

abbrev msg : MqttMessagePublish
msg = record {
  identifier = 7;
  topic = topic;
  message = b'x' ∷ [];
  retain = false;
  dup = false;
  qos = 2;
}

-- Channels that take every message.
abbrev open_channels : PersistProvider (Unit {0}) → RouterOutside (Unit {0})
open_channels database = record {
  persist = database;
  unbounded_send = λ _ _ w. (true, w);
  respond = λ _ w. (true, w);
}

abbrev outside : RouterOutside (Unit {0})
outside = open_channels persist_topic_test

abbrev subscribed : MessageRouter (Unit {0})
subscribed = (handle outside (RouterMessage.subscribe reader topic 1) (new tt)).1

publish_message_delivers_example :
    (r' : MessageRouter (Unit {0})) × (publish_message outside msg subscribed ≡ (ok tt, r'))
    × Forwarded msg (get_subscribed subscribed.topics topic) subscribed r'
publish_message_delivers_example =
    publish_message_delivers outside (λ tx m w. refl) msg subscribed refl

abbrev broken : RouterOutside (Unit {0})
broken =
    open_channels
      (record (persist_topic_test {W = Unit {0}}) { persist_topic = λ _ w. (err "disk full", w) })

abbrev broken_event : RouterMessage
broken_event = RouterMessage.subscribe reader topic 1

abbrev ended : MessageRouter (Unit {0})
ended = (handle broken broken_event (new tt)).1

fails : handle broken broken_event (new tt) ≡ (err (BrokerError.persist_error "disk full"), ended)
unfolding handle subscribe_message subscribe get_topic is_new reserve find split new
fails = refl

new-IsGood : IsGood (new tt)
unfolding new
new-IsGood = record { sound = new-IsSound; distinct = new-IsDistinct }

handle_fails_example :
    (BrokerError.persist_error "disk full" ≢ BrokerError.unwrap_panic) × IsGood ended
handle_fails_example =
    handle_fails broken broken_event (new tt) ended (BrokerError.persist_error "disk full")
      new-IsGood fails

abbrev events : List RouterEvent
events =
    RouterEvent.message (RouterMessage.subscribe reader topic 1)
    ∷ RouterEvent.session_ended (b'r' ∷ [])
    ∷ RouterEvent.message (RouterMessage.publish reader msg)
    ∷ []

start-IsGood_new_example :
    IsGood (start outside events (init_persistent_store outside (new tt)).1).1
start-IsGood_new_example = start-IsGood_new outside tt events
