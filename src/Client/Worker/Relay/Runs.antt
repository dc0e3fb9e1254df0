-- ===== src/Client/Worker/Relay/Runs.antt =====
-- client/clientworker.rs: the loop relays what the traces of its events say, and the will.
use squillion_mqtt.Prelude.{
  ℕ, Bool, true, false, Option, none, some, List, [], ◌∷◌, ◌++◌, String, ◌≡◌, refl, sym, ap, ◌∙◌,
  ltb, ◌+◌, ◌*◌, ◌/◌, if◌then◌else◌,
}
use mathlib.Core.List.{append_assoc, append-nil}
use squillion_mqtt.Action.{pure}
use squillion_mqtt.Result.{Result, ok, err}
use squillion_mqtt.Messages.Codec.{MqttMessage}
use squillion_mqtt.Sessions.State.{SessionMessage}
use squillion_mqtt.Client.Worker.{
  ConnectionStatus, WillMessage, WorkerOutside, MqttClientWorker, WorkerEvent, is_disconnect,
  send_message_session, add_timer, set_keepalive_timer, on_event, goes_on, run_events, will_publish,
  send_will, finish, run_loop,
}
use squillion_mqtt.Client.Worker.Relay.{
  Ending, Trace, event_trace, behind, and_then, trace, last_words, is_running, for_session,
}
use squillion_mqtt.Client.Worker.Relay.Steps.{Ends, Follows, Follows-event, sent_session}

abbrev Stands : {W : Type 0} → Ending → Bool × MqttClientWorker W → Type 0
Stands Ending.running x = (x.0 ≡ true) × (x.1.status ≡ ConnectionStatus.connected)
Stands Ending.orderly x = (x.0 ≡ false) × (x.1.status ≡ ConnectionStatus.disconnect)
Stands Ending.lost x = (x.0 ≡ false) × (x.1.status ≡ ConnectionStatus.connected)

module _ {W : Type 0} (o : WorkerOutside W)
    (stream_accepts : (m : MqttMessage) (w : W) → (o.send_stream m w).0 ≡ ok tt)
    (session_accepts : (m : SessionMessage) (w : W) → (o.send_session m w).0 ≡ ok tt) where
  -- Behind a number of rounds of the loop.
  record Ran (t : Trace) (w : MqttClientWorker W) (x : Bool × MqttClientWorker W) : Type 0 where
    session : x.1.to_session ≡ w.to_session ++ for_session t.to_session
    client : x.1.to_client ≡ w.to_client ++ t.to_client
    same_will : x.1.will ≡ w.will
    stands : Stands t.ending x

  for_session-append :
      (xs ys : List MqttMessage) → for_session (xs ++ ys) ≡ for_session xs ++ for_session ys
  for_session-append [] ys = refl
  for_session-append (x ∷ xs) ys =
      ap (λ r. SessionMessage.client_message x ∷ r) (for_session-append xs ys)

  Ran-append :
      (t rest : Trace) (w w' : MqttClientWorker W) (x : Bool × MqttClientWorker W)
      → w'.to_session ≡ w.to_session ++ for_session t.to_session
      → w'.to_client ≡ w.to_client ++ t.to_client
      → w'.will ≡ w.will
      → Ran rest w' x
      → Ran
          (record {
            to_session = t.to_session ++ rest.to_session;
            to_client = t.to_client ++ rest.to_client;
            ending = rest.ending;
          })
          w
          x
  Ran-append t rest w w' x s c d r = record {
    session =
        r.session
        ∙ ap (λ l. l ++ for_session rest.to_session) s
        ∙ append_assoc w.to_session (for_session t.to_session) (for_session rest.to_session)
        ∙ ap (λ l. w.to_session ++ l) (sym (for_session-append t.to_session rest.to_session));
    client =
        r.client
        ∙ ap (λ l. l ++ rest.to_client) c
        ∙ append_assoc w.to_client t.to_client rest.to_client;
    same_will = r.same_will ∙ d;
    stands = r.stands;
  }

  Ran-over :
      (t : Trace) (w w' : MqttClientWorker W) (x : Bool × MqttClientWorker W)
      → w'.to_session ≡ w.to_session ++ for_session t.to_session
      → w'.to_client ≡ w.to_client ++ t.to_client
      → w'.will ≡ w.will
      → x ≡ (false, w')
      → (e : Ending) → t.ending ≡ e
      → Stands e (false, w')
      → Ran t w x
  Ran-over t w w' x s c d q e p st =
      rw q (record { session = s; client = c; same_will = d; stands = rw p st })

  goes_on-connected :
      (u : Unit {0}) (w : MqttClientWorker W) (f : MqttClientWorker W → Bool × MqttClientWorker W)
      → w.status ≡ ConnectionStatus.connected
      → goes_on o f (ok u, w) ≡ f w
  unfolding goes_on
  goes_on-connected u w f c = ap (λ st. if is_disconnect st then (false, w) else f w) c

  Ran-goes_on :
      (t rest : Trace) (w : MqttClientWorker W) (x : Result String (Unit {0}) × MqttClientWorker W)
      (f : MqttClientWorker W → Bool × MqttClientWorker W)
      → Follows t w x
      → ((w' : MqttClientWorker W) → w'.status ≡ ConnectionStatus.connected → Ran rest w' (f w'))
      → Ran (and_then t rest) w (goes_on o f x)
  unfolding goes_on
  Ran-goes_on t rest w x f s k = at t.ending x refl s.ends s.session s.client s.same_will
    where
      at :
          (e : Ending) (x' : Result String (Unit {0}) × MqttClientWorker W)
          → t.ending ≡ e
          → Ends e x'
          → x'.1.to_session ≡ w.to_session ++ for_session t.to_session
          → x'.1.to_client ≡ w.to_client ++ t.to_client
          → x'.1.will ≡ w.will
          → Ran (behind e t rest) w (goes_on o f x')
      at Ending.running (ok u, w') p (_, c) a b d =
          rw (goes_on-connected u w' f c) (Ran-append t rest w w' (f w') a b d (k w' c))
      at Ending.running (err _, w') p (q, _) a b d = absurd (cc)
      at Ending.orderly (ok _, w') p c a b d =
          Ran-over t w w' _ a b d (rw c refl) Ending.orderly p (refl, c)
      at Ending.orderly (err _, w') p c a b d =
          Ran-over t w w' _ a b d refl Ending.orderly p (refl, c)
      at Ending.lost (ok _, w') p ((m, q), _) a b d = absurd (cc)
      at Ending.lost (err _, w') p (_, c) a b d =
          Ran-over t w w' _ a b d refl Ending.lost p (refl, c)

  run_events-Ran :
      (events : List WorkerEvent) (w : MqttClientWorker W)
      → w.status ≡ ConnectionStatus.connected
      → Ran (trace events) w (run_events o events w)
  unfolding trace run_events
  run_events-Ran [] w c = record {
    session = sym (append-nil w.to_session);
    client = sym (append-nil w.to_client);
    same_will = refl;
    stands = (refl, c);
  }
  run_events-Ran (e ∷ events) w c =
      Ran-goes_on (event_trace e) (trace events) w (on_event o e w) (run_events o events)
        (Follows-event o stream_accepts session_accepts e w c) (run_events-Ran events)

  send_will_lem :
      (w : MqttClientWorker W)
      → ((send_will o w).to_session ≡ w.to_session ++ last_words Ending.lost w.will)
        × ((send_will o w).to_client ≡ w.to_client)
  unfolding send_will
  send_will_lem w = at w.will
    where
      sent : Option WillMessage → MqttClientWorker W
      sent will' = elim will' [
        | none ↦ w
        | some will ↦ (send_message_session o (MqttMessage.publish (will_publish will)) w).1
      ]

      at :
          (will' : Option WillMessage)
          → ((sent will').to_session ≡ w.to_session ++ last_words Ending.lost will')
            × ((sent will').to_client ≡ w.to_client)
      at none = (sym (append-nil w.to_session), refl)
      at (some will) =
          let (v, e) =
            sent_session o stream_accepts session_accepts (MqttMessage.publish (will_publish will))
              w in
          (ap (λ x. x.1.to_session) e, ap (λ x. x.1.to_client) e)

  finish-status :
      {st : ConnectionStatus} (w : MqttClientWorker W)
      → w.status ≡ st
      → (finish o (false, w)).1 ≡ (if is_disconnect st then w else send_will o w)
  unfolding finish
  finish-status w e = ap (λ st'. if is_disconnect st' then w else send_will o w) e

  -- What the end of the loop does behind a run that stands as `e`.
  finish-Stands :
      (e : Ending) (x : Bool × MqttClientWorker W)
      → Stands e x
      → ((finish o x).1.to_session ≡ x.1.to_session ++ last_words e x.1.will)
        × ((finish o x).1.to_client ≡ x.1.to_client)
        × ((finish o x).0 ≡ is_running e)
  unfolding finish
  finish-Stands Ending.running (true, w) s = (sym (append-nil w.to_session), refl, refl)
  finish-Stands Ending.running (false, w) s = absurd (cc)
  finish-Stands Ending.orderly (true, w) s = absurd (cc)
  finish-Stands Ending.orderly (false, w) (_, c) =
      let p = finish-status w c in
      (ap (λ x. x.to_session) p ∙ sym (append-nil w.to_session), ap (λ x. x.to_client) p, refl)
  finish-Stands Ending.lost (true, w) s = absurd (cc)
  finish-Stands Ending.lost (false, w) (_, c) =
      let (a, b) = send_will_lem w in
      let p = finish-status w c in (ap (λ x. x.to_session) p ∙ a, ap (λ x. x.to_client) p ∙ b, refl)

  set_keepalive_timer_lem :
      (w : MqttClientWorker W)
      → (v : W) × (k : Option (ℕ × ℕ)) × ((set_keepalive_timer o w).1
          ≡ record w { world = v; timer_key = k })
  unfolding set_keepalive_timer add_timer
  set_keepalive_timer_lem w = at (ltb 0 w.keep_alive)
    where
      at :
          (b : Bool)
          → (v : W) × (k : Option (ℕ × ℕ)) × (((if b
                  then add_timer o ((w.keep_alive + w.keep_alive / 4) * 1000)
                  else pure tt)
                w).1
              ≡ record w { world = v; timer_key = k })
      at true = (_, _, refl)
      at false = (w.world, w.timer_key, refl)

  -- Where the stream and the channel to the session take every message, the loop, run by a connected
  -- worker over any events, sends the client and the session, in order, what the traces of the events up
  -- to the one that ends the connection list; then, if the connection was lost and the client has a will,
  -- and only then, the session is sent the will; and the loop still runs exactly when no event ended it.
  pub run_loop_relays :
      (events : List WorkerEvent) (w : MqttClientWorker W)
      → w.status ≡ ConnectionStatus.connected
      → ((run_loop o events w).1.to_client ≡ w.to_client ++ (trace events).to_client)
        × ((run_loop o events w).1.to_session
            ≡ (w.to_session ++ for_session (trace events).to_session)
              ++ last_words (trace events).ending w.will)
        × ((run_loop o events w).0 ≡ is_running (trace events).ending)
  unfolding run_loop
  run_loop_relays events w c =
      let (v, k, e) = set_keepalive_timer_lem w in
      let w' = record w { world = v; timer_key = k } in
      let r = run_events-Ran events w' c in
      let (a, b, d) = finish-Stands (trace events).ending (run_events o events w') r.stands in
      rw e (
        b ∙ r.client,
        a
            ∙ ap (λ l. l ++ last_words (trace events).ending (run_events o events w').1.will)
                r.session
            ∙ ap
                (λ x.
                  (w.to_session ++ for_session (trace events).to_session)
                  ++ last_words (trace events).ending x)
                r.same_will,
        d,
      )
