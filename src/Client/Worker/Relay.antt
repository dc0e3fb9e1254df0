-- ===== src/Client/Worker/Relay.antt =====
-- client/clientworker.rs: what each event of a connection asks its worker to relay.
pub mod Steps
pub mod Runs
use squillion_mqtt.Prelude.{
  ℕ, Bool, true, false, Option, none, some, List, [], ◌∷◌, ◌++◌, map, String, ◌≡◌, refl, sym, ap,
  ◌∙◌, ltb, ◌+◌, ◌*◌, ◌/◌, if◌then◌else◌, Bool-cases, Option-cases, inl, inr,
}
use mathlib.Core.List.{append_assoc, append-nil}
use squillion_mqtt.Action.{pure, ◌>>◌}
use squillion_mqtt.Result.{Result, ok, err}
use squillion_mqtt.Messages.Connect.{ReturnCode, MqttMessageConnack}
use squillion_mqtt.Messages.Ack.{MqttMessagePingResp}
use squillion_mqtt.Messages.Codec.{MqttMessage}
use squillion_mqtt.Sessions.State.{SessionMessage}
use squillion_mqtt.Client.Worker.{
  ConnectionStatus, WillMessage, set_status, WorkerOutside, MqttClientWorker, WorkerEvent,
  is_disconnect, is_accepted, send_client_message, stream_taken, send_message_session,
  session_taken, add_timer, reset_at, reset_timer, remove_at, remove_timer, reset_keepalive,
  set_keepalive_timer, client_rx_recv_event, forward_message, ping_request_message,
  disconnect_message, client_recv_event, timer_event, on_event, goes_on, run_events, will_publish,
  send_will, finish, run_loop,
}

-- How a connection stands: it goes on, it was ended in order (by a DISCONNECT or a refused CONNECT), or
-- it was lost.
pub data Ending : Type 0 where
  running orderly lost : Ending

-- What is relayed to the session and to the client, and how the connection stands.
pub record Trace : Type 0 where
  pub to_session : List MqttMessage
  pub to_client : List MqttMessage
  pub ending : Ending

abbrev pub ended_by : Ending → Trace
ended_by e = record { to_session = []; to_client = []; ending = e }

abbrev pub forwards : MqttMessage → Trace
forwards m = record { to_session = m ∷ []; to_client = []; ending = Ending.running }

abbrev pub answers : MqttMessage → Ending → Trace
answers m e = record { to_session = []; to_client = m ∷ []; ending = e }

-- What one packet of the client asks for.
pub client_trace : MqttMessage → Trace
client_trace (MqttMessage.publish m) = forwards (MqttMessage.publish m)
client_trace (MqttMessage.pub_ack m) = forwards (MqttMessage.pub_ack m)
client_trace (MqttMessage.pub_rec m) = forwards (MqttMessage.pub_rec m)
client_trace (MqttMessage.pub_rel m) = forwards (MqttMessage.pub_rel m)
client_trace (MqttMessage.pub_comp m) = forwards (MqttMessage.pub_comp m)
client_trace (MqttMessage.subscribe m) = forwards (MqttMessage.subscribe m)
client_trace (MqttMessage.unsubscribe m) = forwards (MqttMessage.unsubscribe m)
client_trace (MqttMessage.ping_req m) =
    answers (MqttMessage.ping_resp MqttMessagePingResp.ping_resp) Ending.running
client_trace MqttMessage.disconnect = ended_by Ending.orderly
client_trace _ = ended_by Ending.lost

pub session_trace : MqttMessage → Trace
session_trace (MqttMessage.conn_ack m) =
    answers (MqttMessage.conn_ack m)
      (if is_accepted m.return_code then Ending.running else Ending.orderly)
session_trace (MqttMessage.publish m) = answers (MqttMessage.publish m) Ending.running
session_trace (MqttMessage.pub_ack m) = answers (MqttMessage.pub_ack m) Ending.running
session_trace (MqttMessage.pub_rec m) = answers (MqttMessage.pub_rec m) Ending.running
session_trace (MqttMessage.pub_rel m) = answers (MqttMessage.pub_rel m) Ending.running
session_trace (MqttMessage.pub_comp m) = answers (MqttMessage.pub_comp m) Ending.running
session_trace (MqttMessage.sub_ack m) = answers (MqttMessage.sub_ack m) Ending.running
session_trace (MqttMessage.unsub_ack m) = answers (MqttMessage.unsub_ack m) Ending.running
session_trace _ = ended_by Ending.lost

pub event_trace : WorkerEvent → Trace
unfolding client_trace session_trace
event_trace (WorkerEvent.from_client m) = client_trace m
event_trace (WorkerEvent.from_session m) = session_trace m
event_trace _ = ended_by Ending.lost

abbrev pub behind : Ending → Trace → Trace → Trace
behind Ending.running a b = record {
  to_session = a.to_session ++ b.to_session;
  to_client = a.to_client ++ b.to_client;
  ending = b.ending;
}
behind _ a b = a

-- What is relayed by a step and, if the connection still runs, by the steps behind it.
abbrev pub and_then : Trace → Trace → Trace
and_then a b = behind a.ending a b

pub trace : List WorkerEvent → Trace
unfolding event_trace
trace [] = ended_by Ending.running
trace (e ∷ events) = and_then (event_trace e) (trace events)

-- The last message of a session: the will, if the connection was lost.
abbrev pub last_words : Ending → Option WillMessage → List SessionMessage
last_words Ending.lost (some will) =
    SessionMessage.client_message (MqttMessage.publish (will_publish will)) ∷ []
last_words _ _ = []

abbrev pub is_running : Ending → Bool
is_running Ending.running = true
is_running _ = false

abbrev pub for_session : List MqttMessage → List SessionMessage
for_session ms = map SessionMessage.client_message ms
