-- ===== src/Client/Worker.antt =====
-- client/clientworker.rs and client/mod.rs: the worker of a connection, between the stream of a client and
-- its session. `settings` is loaded and read by nothing, and left out.
pub mod Relay
use squillion_mqtt.Prelude.{
  ℕ, ◌+◌, ◌*◌, ◌/◌, Bool, true, false, ◌&&◌, ◌||◌, not, Option, none, some, List, [], ◌∷◌, ◌++◌,
  String, ltb, if◌then◌else◌,
}
use squillion_mqtt.Result.{Result, ok, err}
use squillion_mqtt.Action.{Action, ◌>>=◌, ◌>>◌, pure, fail, gets, modify, attempt}
use squillion_mqtt.Messages.Publish
use squillion_mqtt.Messages.Publish.{MqttMessagePublish}
use squillion_mqtt.Messages.Connect.{ReturnCode, MqttMessageConnack}
use squillion_mqtt.Messages.Ack.{MqttMessagePingResp}
use squillion_mqtt.Messages.Codec.{MqttMessage}
use squillion_mqtt.Sessions.State.{SessionMessage}

pub data ConnectionStatus : Type 0 where
  connected disconnect : ConnectionStatus

pub record WillMessage : Type 0 where
  pub topic : List ℕ
  pub qos : ℕ
  pub retain : Bool
  pub message : List ℕ

-- What is outside a worker: the stream to the client, the channel to the session, and the queue of the
-- timers (`DelayQueue`), whose keys are numbers.
pub record WorkerOutside (W : Type 0) : Type 0 where
  pub send_stream : MqttMessage → W → Result String (Unit {0}) × W
  pub send_session : SessionMessage → W → Result String (Unit {0}) × W
  pub timers_insert : (ms : ℕ) → W → ℕ × W
  pub timers_reset : (key ms : ℕ) → W → W
  pub timers_remove : (key : ℕ) → W → W

-- `MQTTClientWorker`; of `timer_keys` the entry of the one timer that there is, with its time and its key.
-- `to_client` and `to_session` are no state of the code: they record what the stream and the channel took.
pub record MqttClientWorker (W : Type 0) : Type 0 where
  pub status : ConnectionStatus
  pub timer_key : Option (ℕ × ℕ)
  pub keep_alive : ℕ
  pub will : Option WillMessage
  pub world : W
  pub to_client : List MqttMessage
  pub to_session : List SessionMessage

unfoldable pub new : {W : Type 0} → ℕ → Option WillMessage → W → MqttClientWorker W
new keep_alive will w = record {
  status = ConnectionStatus.connected;
  timer_key = none;
  keep_alive = keep_alive;
  will = will;
  world = w;
  to_client = [];
  to_session = [];
}

-- What a round of the loop may wait for; the timer fires only while there is one.
pub data WorkerEvent : Type 0 where
  from_session : MqttMessage → WorkerEvent
  session_closed : WorkerEvent
  from_client : MqttMessage → WorkerEvent
  client_error client_closed timer_fired timer_error : WorkerEvent

abbrev pub Worker : Type 0 → Type 0 → Type 0
Worker W A = Action (MqttClientWorker W) String A

abbrev pub is_disconnect : ConnectionStatus → Bool
is_disconnect ConnectionStatus.connected = false
is_disconnect ConnectionStatus.disconnect = true

abbrev pub is_accepted : ReturnCode → Bool
is_accepted ReturnCode.accepted = true
is_accepted _ = false

abbrev pub set_status : {W : Type 0} → ConnectionStatus → Worker W (Unit {0})
set_status s = modify (λ w. record w { status = s })

abbrev pub will_publish : WillMessage → MqttMessagePublish
will_publish will = record Publish.new {
  topic = will.topic;
  message = will.message;
  retain = will.retain;
  qos = will.qos;
}

module _ {W : Type 0} (o : WorkerOutside W) where
  -- The text of an error is that of the stream or of the channel, without the words before it.
  unfoldable pub stream_taken :
      MqttMessage
      → MqttClientWorker W
      → Result String (Unit {0}) × W
      → Result String (Unit {0}) × MqttClientWorker W
  stream_taken m self (ok _, w) =
      (ok tt, record self { world = w; to_client = self.to_client ++ (m ∷ []) })
  stream_taken m self (err e, w) = (err e, record self { world = w })

  unfoldable pub send_client_message : MqttMessage → Worker W (Unit {0})
  unfolding stream_taken
  send_client_message m self = stream_taken m self (o.send_stream m self.world)

  unfoldable pub session_taken :
      SessionMessage
      → MqttClientWorker W
      → Result String (Unit {0}) × W
      → Result String (Unit {0}) × MqttClientWorker W
  session_taken m self (ok _, w) =
      (ok tt, record self { world = w; to_session = self.to_session ++ (m ∷ []) })
  session_taken m self (err e, w) = (err e, record self { world = w })

  unfoldable pub send_message_session : MqttMessage → Worker W (Unit {0})
  unfolding session_taken
  send_message_session m self =
      session_taken (SessionMessage.client_message m) self
        (o.send_session (SessionMessage.client_message m) self.world)

  unfoldable pub add_timer : ℕ → Worker W (Unit {0})
  add_timer ms self =
      let (key, w) = o.timers_insert ms self.world in
      (ok tt, record self { world = w; timer_key = some (ms, key) })

  unfoldable pub reset_at : Option (ℕ × ℕ) → Worker W (Unit {0})
  reset_at none self = (ok tt, self)
  reset_at (some (ms, key)) self = (ok tt, record self { world = o.timers_reset key ms self.world })

  unfoldable pub reset_timer : Worker W (Unit {0})
  unfolding reset_at
  reset_timer self = reset_at self.timer_key self

  unfoldable pub remove_at : Option (ℕ × ℕ) → Worker W (Unit {0})
  remove_at none self = (ok tt, self)
  remove_at (some (ms, key)) self =
      (ok tt, record self { world = o.timers_remove key self.world; timer_key = none })

  unfoldable pub remove_timer : Worker W (Unit {0})
  unfolding remove_at
  remove_timer self = remove_at self.timer_key self

  unfoldable pub reset_keepalive : Worker W (Unit {0})
  unfolding reset_timer
  reset_keepalive self = (if ltb 0 self.keep_alive then reset_timer else pure tt) self

  -- Five quarters of the keep alive of the client, in milliseconds.
  unfoldable pub set_keepalive_timer : Worker W (Unit {0})
  unfolding add_timer
  set_keepalive_timer self =
      (if ltb 0 self.keep_alive
          then add_timer ((self.keep_alive + self.keep_alive / 4) * 1000)
          else pure tt)
        self

  unfoldable pub client_rx_recv_event : MqttMessage → Worker W (Unit {0})
  client_rx_recv_event (MqttMessage.conn_ack msg) = do
    if is_accepted msg.return_code then pure tt else set_status ConnectionStatus.disconnect
    send_client_message (MqttMessage.conn_ack msg)
  client_rx_recv_event (MqttMessage.publish msg) = send_client_message (MqttMessage.publish msg)
  client_rx_recv_event (MqttMessage.pub_ack msg) = send_client_message (MqttMessage.pub_ack msg)
  client_rx_recv_event (MqttMessage.pub_rec msg) = send_client_message (MqttMessage.pub_rec msg)
  client_rx_recv_event (MqttMessage.pub_rel msg) = send_client_message (MqttMessage.pub_rel msg)
  client_rx_recv_event (MqttMessage.pub_comp msg) = send_client_message (MqttMessage.pub_comp msg)
  client_rx_recv_event (MqttMessage.sub_ack msg) = send_client_message (MqttMessage.sub_ack msg)
  client_rx_recv_event (MqttMessage.unsub_ack msg) = send_client_message (MqttMessage.unsub_ack msg)
  client_rx_recv_event MqttMessage.disconnect = fail "Session Disconnect"
  client_rx_recv_event _ = fail "Unknown msg over internal channel"

  -- The handlers of the packets that go to the session, which are alike.
  unfoldable pub forward_message : MqttMessage → Worker W (Unit {0})
  forward_message m = do reset_keepalive; send_message_session m

  unfoldable pub ping_request_message : Worker W (Unit {0})
  ping_request_message = do
    reset_keepalive
    send_client_message (MqttMessage.ping_resp MqttMessagePingResp.ping_resp)

  unfoldable pub disconnect_message : Worker W (Unit {0})
  disconnect_message = do remove_timer; set_status ConnectionStatus.disconnect

  unfoldable pub client_recv_event : MqttMessage → Worker W (Unit {0})
  client_recv_event (MqttMessage.publish msg) = forward_message (MqttMessage.publish msg)
  client_recv_event (MqttMessage.pub_ack msg) = forward_message (MqttMessage.pub_ack msg)
  client_recv_event (MqttMessage.pub_rec msg) = forward_message (MqttMessage.pub_rec msg)
  client_recv_event (MqttMessage.pub_rel msg) = forward_message (MqttMessage.pub_rel msg)
  client_recv_event (MqttMessage.pub_comp msg) = forward_message (MqttMessage.pub_comp msg)
  client_recv_event (MqttMessage.subscribe msg) = forward_message (MqttMessage.subscribe msg)
  client_recv_event (MqttMessage.unsubscribe msg) = forward_message (MqttMessage.unsubscribe msg)
  client_recv_event (MqttMessage.ping_req msg) = ping_request_message
  client_recv_event MqttMessage.disconnect = do
    _ ← attempt disconnect_message
    fail "Client Disconnect"
  client_recv_event _ = fail "Unknown message from client recevied"

  -- The keep alive timer always finishes the connection.
  unfoldable pub timer_event : Worker W (Unit {0})
  timer_event = do modify (λ w. record w { timer_key = none }); fail "Client Timeout"

  unfoldable pub on_event : WorkerEvent → Worker W (Unit {0})
  on_event (WorkerEvent.from_session m) = client_rx_recv_event m
  on_event WorkerEvent.session_closed = fail "Session rx closed"
  on_event (WorkerEvent.from_client m) = client_recv_event m
  on_event WorkerEvent.client_error = fail "Client recv error event"
  on_event WorkerEvent.client_closed = fail "Client closed"
  on_event WorkerEvent.timer_fired = timer_event
  on_event WorkerEvent.timer_error = fail "Timer error event"

  -- `running` behind a round of the loop.
  unfoldable pub goes_on :
      (MqttClientWorker W → Bool × MqttClientWorker W)
      → Result String (Unit {0}) × MqttClientWorker W
      → Bool × MqttClientWorker W
  goes_on rest (err _, w) = (false, w)
  goes_on rest (ok _, w) = if is_disconnect w.status then (false, w) else rest w

  -- The loop, over the events that arrive: whether it still runs, and the worker.
  unfoldable pub run_events : List WorkerEvent → MqttClientWorker W → Bool × MqttClientWorker W
  run_events [] w = (true, w)
  run_events (e ∷ events) w = goes_on (run_events events) (on_event e w)

  unfoldable pub send_will : MqttClientWorker W → MqttClientWorker W
  send_will self = elim self.will [
    | none ↦ self
    | some will ↦ (send_message_session (MqttMessage.publish (will_publish will)) self).1
  ]

  -- What the end of the loop does.
  unfoldable pub finish : Bool × MqttClientWorker W → Bool × MqttClientWorker W
  finish (true, w) = (true, w)
  finish (false, w) = (false, if is_disconnect w.status then w else send_will w)

  unfoldable pub run_loop : List WorkerEvent → MqttClientWorker W → Bool × MqttClientWorker W
  run_loop events w = finish (run_events events (set_keepalive_timer w).1)
