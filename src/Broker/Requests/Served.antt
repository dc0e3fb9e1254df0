-- ===== src/Broker/Requests/Served.antt =====
-- broker/mod.rs: which requests are answered with a session.
use squillion_mqtt.Prelude.{
  ℕ, Bool, true, false, Option, none, some, List, [], ◌∷◌, String, if◌then◌else◌, ◌≡◌, refl, ap,
  ◌∙◌, subst,
}
use squillion_mqtt.Result.{Result, ok, err}
use squillion_mqtt.Action.{◌>>=◌, continue_with}
use squillion_mqtt.Sessions.Table.{Sessions}
use squillion_mqtt.Sessions.Table.Channels.{IsServed, get_session-IsServed}
use squillion_mqtt.Broker.Store.{BrokerError, call}
use squillion_mqtt.Broker.Subscriptions.{Broker, load_persistent_state}
use squillion_mqtt.Broker.Router.{
  RouterOutside, MessageRouter, Router, in_topics, init_persistent_store, handle,
}
use squillion_mqtt.Broker.Requests.{
  MqttBroker, BrokerEvent, new, new_router, settle_router, start_router, session_taken,
  respond_session, handle_session_request, settle_message, step, run_events, run_loop,
}

module _ {W : Type 0} where
  -- The table of the sessions stays as it was.
  abbrev Keeps : {A : Type 0} → Router W A → Type 0
  Keeps m = (r : MessageRouter W) → (m r).1.sessions ≡ r.sessions

  in_topics-Keeps : {A : Type 0} (m : Broker W A) → Keeps (in_topics m)
  in_topics-Keeps m r = refl

  bind-Keeps :
      {A B : Type 0} (m : Router W A) (f : A → Router W B)
      → Keeps m
      → ((a : A) → Keeps (f a))
      → Keeps (m >>= f)
  bind-Keeps {A} m f k l r = at (m r) (k r)
    where
      at :
          (x : Result BrokerError A × MessageRouter W)
          → x.1.sessions ≡ r.sessions
          → (continue_with x f).1.sessions ≡ r.sessions
      at (ok a, r') e = l a r' ∙ e
      at (err _, r') e = e

  -- A running router has a channel.
  abbrev pub IsLinked : MqttBroker W → Type 0
  IsLinked b = b.running ≡ true → (tx : ℕ) × (b.router_tx ≡ some tx)

  module _ (o : RouterOutside W) where
    init_persistent_store-Keeps : Keeps (init_persistent_store o)
    unfolding init_persistent_store
    init_persistent_store-Keeps =
        bind-Keeps (in_topics (call o.persist.create_persistent_connection)) _
          (in_topics-Keeps (call o.persist.create_persistent_connection))
          (λ _.
            bind-Keeps (in_topics (call o.persist.init_persistent_store)) _
              (in_topics-Keeps (call o.persist.init_persistent_store))
              (λ _.
                bind-Keeps (in_topics (load_persistent_state o.persist)) _
                  (in_topics-Keeps (load_persistent_state o.persist)) (λ _ _. refl)))

    settle_router-IsLinked :
        (tx : ℕ) (x : Result BrokerError ℕ × MessageRouter W) → IsLinked (settle_router o tx x)
    unfolding settle_router
    settle_router-IsLinked tx (ok _, r) = λ _. (tx, refl)
    settle_router-IsLinked tx (err _, r) = λ e. absurd (cc)

    pub start_router-IsLinked : (b : MqttBroker W) → IsLinked (start_router o b)
    unfolding start_router
    start_router-IsLinked b = settle_router-IsLinked b.next_router _

    session_taken-IsLinked :
        (b : MqttBroker W) (x : Result String ℕ × Sessions)
        → IsLinked b
        → IsLinked (session_taken o b x).1
    unfolding session_taken
    session_taken-IsLinked b (ok _, t) l = l
    session_taken-IsLinked b (err _, t) l = l

    respond-IsLinked :
        (id : List ℕ) (tx : Option ℕ) (b : MqttBroker W)
        → IsLinked b
        → IsLinked (respond_session o id tx b).1
    unfolding respond_session
    respond-IsLinked id none b l = l
    respond-IsLinked id (some _) b l = session_taken-IsLinked b _ l

    pub request-IsLinked :
        (id : List ℕ) (b : MqttBroker W) → IsLinked b → IsLinked (handle_session_request o id b).1
    unfolding handle_session_request
    request-IsLinked id b l = at b.running
      where
        at :
            (r : Bool)
            → let b' = if r then b else start_router o b in
              IsLinked (respond_session o id b'.router_tx b').1
        at true = respond-IsLinked id b.router_tx b l
        at false =
            respond-IsLinked id (start_router o b).router_tx (start_router o b)
              (start_router-IsLinked b)

    settle_message-IsLinked :
        (b : MqttBroker W) (x : Result BrokerError (Unit {0}) × MessageRouter W)
        → IsLinked b
        → IsLinked (settle_message o b x)
    unfolding settle_message
    settle_message-IsLinked b (ok _, r) l = l
    settle_message-IsLinked b (err _, r) l = λ e. absurd (cc)

    pub step-IsLinked : (e : BrokerEvent) (b : MqttBroker W) → IsLinked b → IsLinked (step o e b)
    unfolding step
    step-IsLinked (BrokerEvent.session_request id) b l = request-IsLinked id b l
    step-IsLinked (BrokerEvent.router_message m) b l = at b.running
      where
        at : (r : Bool) → IsLinked (if r then settle_message o b (handle o m b.router) else b)
        at true = settle_message-IsLinked b _ l
        at false = l
    step-IsLinked (BrokerEvent.session_ended id) b l = l

    pub run_events-IsLinked :
        (events : List BrokerEvent) (b : MqttBroker W)
        → IsLinked b
        → IsLinked (run_events o events b)
    unfolding run_events
    run_events-IsLinked [] b l = l
    run_events-IsLinked (e ∷ events) b l = run_events-IsLinked events _ (step-IsLinked e b l)

    -- What a broker answers to the request for a session. With a session: the router runs, and the table
    -- has served the request. Without one: the router did not run and its start fails, it still does not
    -- run, and the table is as it was.
    pub data IsAnswered (id : List ℕ) (b : MqttBroker W) : Option ℕ × MqttBroker W → Type 0 where
      with_session :
          (tx : ℕ) (b' : MqttBroker W)
          → b'.running ≡ true
          → IsServed id tx b.router.sessions b'.router.sessions
          → IsAnswered id b (some tx, b')
      without_session :
          (b' : MqttBroker W) (e : BrokerError)
          → b.running ≡ false
          → (init_persistent_store o (new_router b.router)).0 ≡ err e
          → b'.running ≡ false
          → b'.router.sessions ≡ b.router.sessions
          → IsAnswered id b (none, b')

    -- Without a session of its own, `b'` has the table of `b`.
    respond-IsAnswered :
        (id : List ℕ) (b b' : MqttBroker W) (tx : Option ℕ) (router_tx : ℕ)
        → tx ≡ some router_tx
        → b'.running ≡ true
        → b'.router.sessions ≡ b.router.sessions
        → IsAnswered id b (respond_session o id tx b')
    unfolding respond_session session_taken
    respond-IsAnswered id b b' tx router_tx e running same =
        let (got, t, f, served) = get_session-IsServed id b'.router.sessions in
        rw (e, f)
          (IsAnswered.with_session got _ running (subst (λ t'. IsServed id got t' t) same served))

    settled-IsAnswered :
        (id : List ℕ) (b : MqttBroker W) (x : Result BrokerError ℕ × MessageRouter W)
        → b.running ≡ false
        → init_persistent_store o (new_router b.router) ≡ x
        → x.1.sessions ≡ b.router.sessions
        → let b' = settle_router o b.next_router x in
          IsAnswered id b (respond_session o id b'.router_tx b')
    unfolding settle_router respond_session
    settled-IsAnswered id b (ok _, r) idle e same =
        respond-IsAnswered id b _ _ b.next_router refl refl same
    settled-IsAnswered id b (err m, r) idle e same =
        IsAnswered.without_session _ m idle (ap (λ x. x.0) e) refl same

    pub request-IsAnswered :
        (id : List ℕ) (b : MqttBroker W)
        → IsLinked b
        → IsAnswered id b (handle_session_request o id b)
    unfolding handle_session_request start_router
    request-IsAnswered id b l = at b.running refl
      where
        at :
            (r : Bool)
            → b.running ≡ r
            → let b' = if r then b else start_router o b in
              IsAnswered id b (respond_session o id b'.router_tx b')
        at true e = let (tx, f) = l e in respond-IsAnswered id b b b.router_tx tx f e refl
        at false e =
            settled-IsAnswered id b (init_persistent_store o (new_router b.router)) e refl
              (init_persistent_store-Keeps (new_router b.router))

    -- A broker that has met any events, with a router that stopped any number of times, answers the
    -- request for a session with a session, and its router runs then, unless the router did not run and
    -- its start fails; then no session is started or changed, and the router does not run.
    pub handle_session_request_answers :
        (events : List BrokerEvent) (w : W) (id : List ℕ)
        → IsAnswered id
            (run_loop o events (new w))
            (handle_session_request o id (run_loop o events (new w)))
    unfolding run_loop
    handle_session_request_answers events w id =
        request-IsAnswered id _ (run_events-IsLinked events _ (start_router-IsLinked (new w)))
