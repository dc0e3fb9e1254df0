-- ===== src/Client/Worker/Relay/Steps.antt =====
-- client/clientworker.rs: a handler relays what its trace says.
use squillion_mqtt.Prelude.{
  ℕ, Bool, true, false, Option, none, some, [], ◌∷◌, ◌++◌, String, ◌≡◌, refl, sym, ◌∙◌, ltb,
  if◌then◌else◌,
}
use mathlib.Core.List.{append-nil}
use squillion_mqtt.Action.{pure, ◌>>◌}
use squillion_mqtt.Result.{Result, ok, err}
use squillion_mqtt.Messages.Connect.{MqttMessageConnack}
use squillion_mqtt.Messages.Ack.{MqttMessagePingResp}
use squillion_mqtt.Messages.Codec.{MqttMessage}
use squillion_mqtt.Sessions.State.{SessionMessage}
use squillion_mqtt.Client.Worker.{
  ConnectionStatus, set_status, WorkerOutside, MqttClientWorker, WorkerEvent, is_accepted,
  send_client_message, stream_taken, send_message_session, session_taken, reset_at, reset_timer,
  remove_at, remove_timer, reset_keepalive, client_rx_recv_event, forward_message,
  ping_request_message, disconnect_message, client_recv_event, timer_event, on_event,
}
use squillion_mqtt.Client.Worker.Relay.{
  Ending, Trace, ended_by, forwards, answers, client_trace, session_trace, event_trace, for_session,
}

abbrev pub Ends : {W : Type 0} → Ending → Result String (Unit {0}) × MqttClientWorker W → Type 0
Ends Ending.running x = (x.0 ≡ ok tt) × (x.1.status ≡ ConnectionStatus.connected)
Ends Ending.orderly x = x.1.status ≡ ConnectionStatus.disconnect
Ends Ending.lost x = ((e : String) × (x.0 ≡ err e)) × (x.1.status ≡ ConnectionStatus.connected)

-- A step of the worker did what the trace says.
pub record Follows {W : Type 0} (t : Trace) (w : MqttClientWorker W)
    (x : Result String (Unit {0}) × MqttClientWorker W) : Type 0 where
  pub session : x.1.to_session ≡ w.to_session ++ for_session t.to_session
  pub client : x.1.to_client ≡ w.to_client ++ t.to_client
  pub same_will : x.1.will ≡ w.will
  pub ends : Ends t.ending x

module _ {W : Type 0} (o : WorkerOutside W)
    (stream_accepts : (m : MqttMessage) (w : W) → (o.send_stream m w).0 ≡ ok tt)
    (session_accepts : (m : SessionMessage) (w : W) → (o.send_session m w).0 ≡ ok tt) where
  sent_client :
      (m : MqttMessage) (w : MqttClientWorker W)
      → (v : W) × (send_client_message o m w
          ≡ (ok tt, record w { world = v; to_client = w.to_client ++ (m ∷ []) }))
  unfolding send_client_message stream_taken
  sent_client m w = at (o.send_stream m w.world) (stream_accepts m w.world)
    where
      at :
          (x : Result String (Unit {0}) × W)
          → x.0 ≡ ok tt
          → (v : W) × (stream_taken o m w x
              ≡ (ok tt, record w { world = v; to_client = w.to_client ++ (m ∷ []) }))
      at (ok _, v) e = (v, refl)
      at (err _, v) e = absurd (cc)

  pub sent_session :
      (m : MqttMessage) (w : MqttClientWorker W)
      → (v : W) × (send_message_session o m w ≡ (
        ok tt,
        record w { world = v; to_session = w.to_session ++ (SessionMessage.client_message m ∷ []) },
      ))
  unfolding send_message_session session_taken
  sent_session m w =
      at (o.send_session (SessionMessage.client_message m) w.world)
        (session_accepts (SessionMessage.client_message m) w.world)
    where
      at :
          (x : Result String (Unit {0}) × W)
          → x.0 ≡ ok tt
          → (v : W) × (session_taken o (SessionMessage.client_message m) w x ≡ (
            ok tt,
            record w {
              world = v;
              to_session = w.to_session ++ (SessionMessage.client_message m ∷ []);
            },
          ))
      at (ok _, v) e = (v, refl)
      at (err _, v) e = absurd (cc)

  reset_now :
      (w : MqttClientWorker W) → (v : W) × (reset_timer o w ≡ (ok tt, record w { world = v }))
  unfolding reset_timer reset_at
  reset_now w = at w.timer_key
    where
      at : (k : Option (ℕ × ℕ)) → (v : W) × (reset_at o k w ≡ (ok tt, record w { world = v }))
      at none = (w.world, refl)
      at (some (ms, key)) = (o.timers_reset key ms w.world, refl)

  reset :
      (w : MqttClientWorker W) → (v : W) × (reset_keepalive o w ≡ (ok tt, record w { world = v }))
  unfolding reset_keepalive
  reset w = at (ltb 0 w.keep_alive)
    where
      at :
          (b : Bool)
          → (v : W) × ((if b then reset_timer o else pure tt) w ≡ (ok tt, record w { world = v }))
      at true = reset_now w
      at false = (w.world, refl)

  Follows-forward :
      (m : MqttMessage) (w : MqttClientWorker W)
      → w.status ≡ ConnectionStatus.connected
      → Follows (forwards m) w (forward_message o m w)
  unfolding forward_message
  Follows-forward m w c =
      let (v, e) = reset w in
      let (v', e') = sent_session m (record w { world = v }) in
      rw (e, e')
        (record {
          session = refl;
          client = sym (append-nil w.to_client);
          same_will = refl;
          ends = (refl, c);
        })

  Follows-ping :
      (w : MqttClientWorker W)
      → w.status ≡ ConnectionStatus.connected
      → Follows
          (answers (MqttMessage.ping_resp MqttMessagePingResp.ping_resp) Ending.running)
          w
          (ping_request_message o w)
  unfolding ping_request_message
  Follows-ping w c =
      let (v, e) = reset w in
      let (v', e') =
        sent_client (MqttMessage.ping_resp MqttMessagePingResp.ping_resp)
          (record w { world = v }) in
      rw (e, e')
        (record {
          session = sym (append-nil w.to_session);
          client = refl;
          same_will = refl;
          ends = (refl, c);
        })

  Follows-answer :
      (m : MqttMessage) (w : MqttClientWorker W)
      → w.status ≡ ConnectionStatus.connected
      → Follows (answers m Ending.running) w (send_client_message o m w)
  Follows-answer m w c =
      let (v', e') = sent_client m w in
      rw e' (record {
        session = sym (append-nil w.to_session);
        client = refl;
        same_will = refl;
        ends = (refl, c);
      })

  Follows-lost :
      (e : String) (w w' : MqttClientWorker W)
      → w.status ≡ ConnectionStatus.connected
      → w'.status ≡ w.status
      → w'.to_session ≡ w.to_session
      → w'.to_client ≡ w.to_client
      → w'.will ≡ w.will
      → Follows (ended_by Ending.lost) w (err e, w')
  Follows-lost e w w' c s a b d = record {
    session = a ∙ sym (append-nil w.to_session);
    client = b ∙ sym (append-nil w.to_client);
    same_will = d;
    ends = ((e, refl), s ∙ c);
  }

  removed :
      (w : MqttClientWorker W)
      → (v : W) × (k : Option (ℕ × ℕ)) × (remove_timer o w
          ≡ (ok tt, record w { world = v; timer_key = k }))
  unfolding remove_timer remove_at
  removed w = at w.timer_key refl
    where
      at :
          (k : Option (ℕ × ℕ))
          → w.timer_key ≡ k
          → (v : W) × (k' : Option (ℕ × ℕ)) × (remove_at o k w
              ≡ (ok tt, record w { world = v; timer_key = k' }))
      at none e = (w.world, w.timer_key, refl)
      at (some (ms, key)) e = (o.timers_remove key w.world, none, refl)

  Follows-disconnect :
      (w : MqttClientWorker W)
      → Follows (ended_by Ending.orderly) w (client_recv_event o MqttMessage.disconnect w)
  unfolding client_recv_event disconnect_message
  Follows-disconnect w =
      let (v, k, e) = removed w in
      rw e (record {
        session = sym (append-nil w.to_session);
        client = sym (append-nil w.to_client);
        same_will = refl;
        ends = refl;
      })

  Follows-refusal :
      (m : MqttMessageConnack) (w : MqttClientWorker W) (b : Bool)
      → w.status ≡ ConnectionStatus.connected
      → Follows
          (answers (MqttMessage.conn_ack m) (if b then Ending.running else Ending.orderly))
          w
          (((if b then pure tt else set_status ConnectionStatus.disconnect)
              >> send_client_message o (MqttMessage.conn_ack m))
            w)
  Follows-refusal m w true c = Follows-answer (MqttMessage.conn_ack m) w c
  Follows-refusal m w false c =
      let (v, e) =
        sent_client (MqttMessage.conn_ack m) (record w { status = ConnectionStatus.disconnect }) in
      rw e (record {
        session = sym (append-nil w.to_session);
        client = refl;
        same_will = refl;
        ends = refl;
      })

  Follows-client :
      (m : MqttMessage) (w : MqttClientWorker W)
      → w.status ≡ ConnectionStatus.connected
      → Follows (client_trace m) w (client_recv_event o m w)
  unfolding client_trace client_recv_event
  Follows-client (MqttMessage.publish m) w c = Follows-forward (MqttMessage.publish m) w c
  Follows-client (MqttMessage.pub_ack m) w c = Follows-forward (MqttMessage.pub_ack m) w c
  Follows-client (MqttMessage.pub_rec m) w c = Follows-forward (MqttMessage.pub_rec m) w c
  Follows-client (MqttMessage.pub_rel m) w c = Follows-forward (MqttMessage.pub_rel m) w c
  Follows-client (MqttMessage.pub_comp m) w c = Follows-forward (MqttMessage.pub_comp m) w c
  Follows-client (MqttMessage.subscribe m) w c = Follows-forward (MqttMessage.subscribe m) w c
  Follows-client (MqttMessage.unsubscribe m) w c = Follows-forward (MqttMessage.unsubscribe m) w c
  Follows-client (MqttMessage.ping_req m) w c = Follows-ping w c
  Follows-client MqttMessage.disconnect w c = Follows-disconnect w
  Follows-client _ w c = Follows-lost _ w w c refl refl refl refl

  Follows-session :
      (m : MqttMessage) (w : MqttClientWorker W)
      → w.status ≡ ConnectionStatus.connected
      → Follows (session_trace m) w (client_rx_recv_event o m w)
  unfolding session_trace client_rx_recv_event
  Follows-session (MqttMessage.conn_ack m) w c = Follows-refusal m w (is_accepted m.return_code) c
  Follows-session (MqttMessage.publish m) w c = Follows-answer (MqttMessage.publish m) w c
  Follows-session (MqttMessage.pub_ack m) w c = Follows-answer (MqttMessage.pub_ack m) w c
  Follows-session (MqttMessage.pub_rec m) w c = Follows-answer (MqttMessage.pub_rec m) w c
  Follows-session (MqttMessage.pub_rel m) w c = Follows-answer (MqttMessage.pub_rel m) w c
  Follows-session (MqttMessage.pub_comp m) w c = Follows-answer (MqttMessage.pub_comp m) w c
  Follows-session (MqttMessage.sub_ack m) w c = Follows-answer (MqttMessage.sub_ack m) w c
  Follows-session (MqttMessage.unsub_ack m) w c = Follows-answer (MqttMessage.unsub_ack m) w c
  Follows-session _ w c = Follows-lost _ w w c refl refl refl refl

  pub Follows-event :
      (e : WorkerEvent) (w : MqttClientWorker W)
      → w.status ≡ ConnectionStatus.connected
      → Follows (event_trace e) w (on_event o e w)
  unfolding event_trace on_event timer_event
  Follows-event (WorkerEvent.from_client m) w c = Follows-client m w c
  Follows-event (WorkerEvent.from_session m) w c = Follows-session m w c
  Follows-event _ w c = Follows-lost _ w _ c refl refl refl refl
