-- ===== src/Broker/Requests.antt =====
-- broker/mod.rs: a broker, which starts its router and hands out the channels of its sessions.
pub mod Served
use squillion_mqtt.Prelude.{
  ℕ, suc, Bool, true, false, Option, none, some, List, [], ◌∷◌, String, if◌then◌else◌,
}
use squillion_mqtt.Result.{Result, ok, err}
use squillion_mqtt.Sessions.State.{RouterMessage}
use squillion_mqtt.Sessions.Table.{Sessions, get_session, stopped}
use squillion_mqtt.Broker.Store.{BrokerError}
use squillion_mqtt.Broker.Subscriptions.Node
use squillion_mqtt.Broker.Router.{RouterOutside, MessageRouter, init_persistent_store, handle}
use squillion_mqtt.Broker.Router

-- A broker: `running` is the flag of `RouterState`, which the router takes back when it is dropped;
-- `router` is the router with the table of sessions, which is shared (`TenantState`). `next_router`, the
-- channel of a router made next, is no state of the code. The pool of the database is behind the provider.
pub record MqttBroker (W : Type 0) : Type 0 where
  pub router_tx : Option ℕ
  pub running : Bool
  pub next_router : ℕ
  pub router : MessageRouter W

unfoldable pub new : {W : Type 0} → W → MqttBroker W
new w = record { router_tx = none; running = false; next_router = 0; router = Router.new w }

-- What a broker meets: a request for a session, a message for its router, or the end of a session.
pub data BrokerEvent : Type 0 where
  session_request : List ℕ → BrokerEvent
  router_message : RouterMessage → BrokerEvent
  session_ended : List ℕ → BrokerEvent

-- `MessageRouter::new` on the table of the broker.
abbrev pub new_router : {W : Type 0} → MessageRouter W → MessageRouter W
new_router r = record r { topics = Node.new none }

module _ {W : Type 0} (o : RouterOutside W) where
  unfoldable pub settle_router : ℕ → Result BrokerError ℕ × MessageRouter W → MqttBroker W
  settle_router tx (ok _, r) = record {
    router_tx = some tx;
    running = true;
    next_router = suc tx;
    router = r;
  }
  settle_router tx (err _, r) = record {
    router_tx = none;
    running = false;
    next_router = suc tx;
    router = r;
  }

  unfoldable pub start_router : MqttBroker W → MqttBroker W
  unfolding settle_router
  start_router b = settle_router b.next_router (init_persistent_store o (new_router b.router))

  unfoldable pub session_taken : MqttBroker W → Result String ℕ × Sessions → Option ℕ × MqttBroker W
  session_taken b (ok tx, t) = (some tx, record b { router = record b.router { sessions = t } })
  session_taken b (err e, t) = (none, record b { router = record b.router { sessions = t } })

  -- The session that a broker answers with, once it has started its router if that did not run.
  unfoldable pub respond_session : List ℕ → Option ℕ → MqttBroker W → Option ℕ × MqttBroker W
  unfolding session_taken
  respond_session id none b = (none, b)
  respond_session id (some router_tx) b = session_taken b (get_session id b.router.sessions)

  unfoldable pub handle_session_request : List ℕ → MqttBroker W → Option ℕ × MqttBroker W
  unfolding respond_session
  handle_session_request id b =
      let b' = if b.running then b else start_router b in respond_session id b'.router_tx b'

  -- The router handles a message, or is dropped with its error.
  unfoldable pub settle_message :
      MqttBroker W → Result BrokerError (Unit {0}) × MessageRouter W → MqttBroker W
  settle_message b (ok _, r) = record b { router = r }
  settle_message b (err _, r) = record b { router = r; running = false }

  unfoldable pub step : BrokerEvent → MqttBroker W → MqttBroker W
  unfolding settle_message
  step (BrokerEvent.session_request id) b = (handle_session_request id b).1
  step (BrokerEvent.router_message m) b =
      if b.running then settle_message b (handle o m b.router) else b
  step (BrokerEvent.session_ended id) b = record b {
    router = record b.router { sessions = stopped id b.router.sessions };
  }

  unfoldable pub run_events : List BrokerEvent → MqttBroker W → MqttBroker W
  unfolding step
  run_events [] b = b
  run_events (e ∷ events) b = run_events events (step e b)

  unfoldable pub run_loop : List BrokerEvent → MqttBroker W → MqttBroker W
  unfolding run_events
  run_loop events b = run_events events (start_router b)
