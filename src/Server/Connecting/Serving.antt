-- ===== src/Server/Connecting/Serving.antt =====
-- server/mod.rs: what the request for a session changes.
use squillion_mqtt.Prelude.{
  ℕ, Bool, true, false, Option, none, some, List, if◌then◌else◌, ◌&&◌, bytes_eq, bytes_eq_iff, ◌≡◌,
  ◌≢◌, ◌↔◌, refl, ap, ◌∙◌, subst, Bool-cases, inl, inr,
}
use squillion_mqtt.Prelude.Dict.{get, put, get-put_same, get-put_other}
use squillion_mqtt.Messages.Connect.{MqttMessageConnect}
use squillion_mqtt.Sessions.Table.{get_session_tx}
use squillion_mqtt.Sessions.Table.Channels.{get_session-IsServed}
use squillion_mqtt.Broker.Router.{RouterOutside}
use squillion_mqtt.Broker.Requests.{
  MqttBroker, handle_session_request, respond_session, session_taken, start_router,
}
use squillion_mqtt.Server.Connecting.{
  BrokerId, tenant_eq, broker_eq, Client, MqttServer, ServerOutside, Joined, broker_found,
  get_broker, join, request_session,
}

tenant_eq_iff : (a b : Option (List ℕ)) → (tenant_eq a b ≡ true) ↔ (a ≡ b)
tenant_eq_iff none none = (λ _. refl, λ _. refl)
tenant_eq_iff none (some b) = (λ e. absurd (cc), λ e. absurd (cc))
tenant_eq_iff (some a) none = (λ e. absurd (cc), λ e. absurd (cc))
tenant_eq_iff (some a) (some b) =
    (λ e. ap (λ x. some x) ((bytes_eq_iff a b).0 e), λ e. (bytes_eq_iff a b).1 (cc))

and_true : (x y : Bool) → (x && y) ≡ true → (x ≡ true) × (y ≡ true)
and_true true y e = (refl, e)
and_true false y e = absurd (cc)

pub broker_eq_iff : (a b : BrokerId) → (broker_eq a b ≡ true) ↔ (a ≡ b)
broker_eq_iff a b = (
  λ e.
      let (p, q) =
        and_true (tenant_eq a.tenant_id b.tenant_id) (bytes_eq a.broker_id b.broker_id) e in
      let t : a.tenant_id ≡ b.tenant_id = (tenant_eq_iff a.tenant_id b.tenant_id).0 p in
      let i : a.broker_id ≡ b.broker_id = (bytes_eq_iff a.broker_id b.broker_id).0 q in cc,
  λ e.
      rw ((tenant_eq_iff a.tenant_id b.tenant_id).1 (ap (λ (x : BrokerId). x.tenant_id) e))
        ((bytes_eq_iff a.broker_id b.broker_id).1 (ap (λ (x : BrokerId). x.broker_id) e)),
)

module _ {W : Type 0} (o : RouterOutside W) where
  -- A session that is answered runs behind its channel.
  respond-running :
      (id : List ℕ) (router_tx : Option ℕ) (b b' : MqttBroker W) (tx : ℕ)
      → respond_session o id router_tx b ≡ (some tx, b')
      → get_session_tx id b'.router.sessions ≡ some tx
  unfolding respond_session session_taken
  respond-running id none b b' tx e = absurd (cc)
  respond-running id (some _) b b' tx e =
      let (got, t, f, served) = get_session-IsServed id b.router.sessions in
      let g : (some got, record b { router = record b.router { sessions = t } }) ≡ (some tx, b') =
        rw f at e in
      subst (λ (x : Option ℕ × MqttBroker W). get_session_tx id x.1.router.sessions ≡ x.0) g
        served.running

  request-running :
      (id : List ℕ) (b b' : MqttBroker W) (tx : ℕ)
      → handle_session_request o id b ≡ (some tx, b')
      → get_session_tx id b'.router.sessions ≡ some tx
  unfolding handle_session_request
  request-running id b b' tx e =
      let b1 = if b.running then b else start_router o b in
      respond-running id b1.router_tx b1 b' tx e

-- A client with a running session.
pub record IsServing {W : Type 0} (j : Joined) (s : MqttServer W) : Type 0 where
  pub broker : MqttBroker W
  pub found : get broker_eq j.client.broker_id s.brokers ≡ some broker
  pub serving : get_session_tx j.client.id broker.router.sessions ≡ some j.session_tx

module _ {W : Type 0} (o : ServerOutside W) where
  join_cases :
      (msg : MqttMessageConnect) (c : Client) (tx : Option ℕ) (j : Joined)
      → join o msg c tx ≡ some j
      → (j.connect_msg ≡ msg) × (j.client ≡ c) × (tx ≡ some j.session_tx)
  unfolding join
  join_cases msg c none j e = absurd (cc)
  join_cases msg c (some tx) j e = elim (Bool-cases (o.send_new_client tx msg)) [
    | inr n ↦ absurd (let g : none ≡ some j = rw n at e in cc)
    | inl y ↦
        let g : some (record { connect_msg = msg; client = c; session_tx = tx }) ≡ some j =
          rw y at e in
        let h : record { connect_msg = msg; client = c; session_tx = tx } ≡ j = cc in
        rw (← h) (refl, refl, refl)
  ]

  pub request_session-IsServing :
      (msg : MqttMessageConnect) (c : Client) (s : MqttServer W) (j : Joined)
      → (request_session o msg c s).0 ≡ some j
      → (j.connect_msg ≡ msg) × (j.client ≡ c) × IsServing j (request_session o msg c s).1
  unfolding request_session get_broker
  request_session-IsServing msg c s j e =
      let b = broker_found o c.broker_id (get broker_eq c.broker_id s.brokers) in
      let x = handle_session_request o.router c.id b in
      let (p, q, r) = join_cases msg c x.0 j e in
      (
        p,
        q,
        record {
          broker = x.1;
          found = rw q (get-put_same broker_eq broker_eq_iff c.broker_id x.1 _);
          serving = rw q (
              request-running o.router c.id b x.1 j.session_tx (ap (λ (t : Option ℕ). (t, x.1)) r));
        },
      )

  -- The brokers of other identifiers are as they were.
  pub request_session-others :
      (msg : MqttMessageConnect) (c : Client) (s : MqttServer W) (id : BrokerId)
      → id ≢ c.broker_id
      → get broker_eq id (request_session o msg c s).1.brokers ≡ get broker_eq id s.brokers
  unfolding request_session get_broker
  request_session-others msg c s id n =
      let b = broker_found o c.broker_id (get broker_eq c.broker_id s.brokers) in
      get-put_other broker_eq broker_eq_iff id c.broker_id _ (put broker_eq c.broker_id b s.brokers)
        n
      ∙ get-put_other broker_eq broker_eq_iff id c.broker_id b s.brokers n
