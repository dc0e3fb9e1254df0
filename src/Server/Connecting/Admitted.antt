-- ===== src/Server/Connecting/Admitted.antt =====
-- server/mod.rs: who gets a session, and what a connection changes.
use squillion_mqtt.Prelude.{
  ℕ, Bool, true, false, not, Option, none, some, List, [], if◌then◌else◌, ◌==◌, ==_iff, is_empty,
  ◌≡◌, refl, sym, ap, ◌∙◌, Bool-cases, inl, inr, ◌⊎◌,
}
use squillion_mqtt.Prelude.Dict.{get, IsLast}
use squillion_mqtt.Messages.Connect.{ReturnCode, MqttMessageConnect}
use squillion_mqtt.Messages.Codec.{MqttMessage}
use squillion_mqtt.Client.Worker.{is_accepted}
use squillion_mqtt.Auth.Users.{load_passwords}
use squillion_mqtt.Auth.Users.Written.{check_password_list_accepts}
use squillion_mqtt.Auth.Service.{
  AuthRequest, AuthResponse, AuthProvider, AuthOutside, AuthConfig, answer, check_password,
}
use squillion_mqtt.Server.Connecting.{
  BrokerId, default_broker, broker_eq, Client, FirstFrame, AuthReply, Connected, mqtt311_version,
  refused, client_of, request_of, connect_replied, connect_message, connect, MqttServer,
  ServerOutside, Joined, request_session, settle_connect, connect_stream,
}
use squillion_mqtt.Server.Connecting.Serving.{
  IsServing, broker_eq_iff, request_session-IsServing, request_session-others,
}

is_accepted→accepted : (c : ReturnCode) → is_accepted c ≡ true → c ≡ ReturnCode.accepted
is_accepted→accepted ReturnCode.accepted e = refl
is_accepted→accepted _ e = absurd (cc)

module _ (ask : AuthRequest → AuthReply) (limit : ℕ) (src : List ℕ) where
  -- The service accepted the first packet, a CONNECT.
  pub record IsAccepted (frame : FirstFrame) (msg : MqttMessageConnect) (tenant : Option (List ℕ))
      : Type 0 where
    pub is_connect : frame ≡ FirstFrame.received (MqttMessage.connect msg)
    pub version : msg.version ≡ mqtt311_version
    pub named : is_empty msg.client ≡ false
    pub reply :
        ask (request_of msg)
        ≡ AuthReply.replied (record { return_code = ReturnCode.accepted; tenant = tenant })

  connect_cases :
      (frame : FirstFrame)
      → ((connect ask limit src frame).0 ≡ none)
        ⊎ ((msg : MqttMessageConnect) × (tenant : Option (List ℕ)) × IsAccepted frame msg tenant
            × ((connect ask limit src frame).0 ≡ some (msg, client_of limit src tenant msg)))
  unfolding connect connect_message connect_replied
  connect_cases (FirstFrame.received (MqttMessage.connect msg)) =
      at (msg.version == mqtt311_version) (is_empty msg.client) (ask (request_of msg)) refl refl
        refl
    where
      at :
          (v n : Bool) (r : AuthReply)
          → (msg.version == mqtt311_version) ≡ v
          → is_empty msg.client ≡ n
          → ask (request_of msg) ≡ r
          → let x =
              if not v
              then refused ReturnCode.unacceptable_version
              else if n
              then refused ReturnCode.identifier_rejected
              else connect_replied ask limit src msg r in
            (x.0 ≡ none)
            ⊎ ((msg' : MqttMessageConnect) × (tenant : Option (List ℕ)) × IsAccepted
                  (FirstFrame.received (MqttMessage.connect msg))
                  msg'
                  tenant
                × (x.0 ≡ some (msg', client_of limit src tenant msg')))
      at false n r p q e = inl refl
      at true true r p q e = inl refl
      at true false AuthReply.unsent p q e = inl refl
      at true false AuthReply.dropped p q e = inl refl
      at true false (AuthReply.replied a) p q e = elim (Bool-cases (is_accepted a.return_code)) [
        | inr i ↦ rw i (inl refl)
        | inl i ↦ rw i (
            inr (
              msg,
              a.tenant,
              record {
                is_connect = refl;
                version = (==_iff msg.version mqtt311_version).0 p;
                named = q;
                reply =
                    e
                    ∙ ap (λ c. AuthReply.replied (record { return_code = c; tenant = a.tenant }))
                        (is_accepted→accepted a.return_code i);
              },
              refl,
            ))
      ]
  connect_cases _ = inl refl

-- Who a client with a session is, for the users of the configuration: the first packet was its CONNECT
-- with version 4 and a client identifier, the last entry of the configuration with its name has its
-- password, it is a client of the broker without a tenant, its codec has the limit for clients that are
-- authenticated, and its session runs behind the channel.
pub record IsAuthentic {W : Type 0} (users : List (List ℕ × List ℕ)) (post_auth_limit : ℕ)
    (frame : FirstFrame) (j : Joined) (s : MqttServer W) : Type 0 where
  is_connect : frame ≡ FirstFrame.received (MqttMessage.connect j.connect_msg)
  version : j.connect_msg.version ≡ mqtt311_version
  named : is_empty j.connect_msg.client ≡ false
  known : IsLast j.connect_msg.username j.connect_msg.password users
  place : j.client.broker_id ≡ record { tenant_id = none; broker_id = default_broker }
  identity : j.client.id ≡ j.connect_msg.client
  limit : j.client.max_packet_size ≡ post_auth_limit
  served : IsServing j s

module _ {W : Type 0} (o : ServerOutside W) (ask : AuthRequest → AuthReply)
    (pre_auth_limit post_auth_limit : ℕ) (src : List ℕ) where
  listed :
      (auth : AuthOutside) (config : AuthConfig) (users : List (List ℕ × List ℕ))
      (msg : MqttMessageConnect) (tenant : Option (List ℕ))
      → record { return_code = ReturnCode.accepted; tenant = tenant }
        ≡ answer auth config
            (AuthProvider.password_list_auth (load_passwords users (record { users = [] })))
            (request_of msg)
      → IsLast msg.username msg.password users × (tenant ≡ none)
  unfolding answer check_password
  listed auth config users msg tenant e = (
    (check_password_list_accepts users msg.username msg.password).0
        (sym (ap (λ (r : AuthResponse). r.return_code) e)),
    ap (λ (r : AuthResponse). r.tenant) e,
  )

  -- Where the service, when it answers, answers by the list of the users of the configuration: a connection
  -- gets a session only if its first packet is a CONNECT with version 4, a client identifier, and the
  -- password of the last entry of the configuration with its user name; it is then a client of the broker
  -- without a tenant, under that identifier, its codec has the limit for authenticated clients, and its
  -- session runs in that broker behind the channel that it got.
  pub connect_stream_authenticates :
      (auth : AuthOutside) (config : AuthConfig) (users : List (List ℕ × List ℕ))
      → ((request : AuthRequest) (a : AuthResponse)
          → ask request ≡ AuthReply.replied a
          → a
            ≡ answer auth config
                (AuthProvider.password_list_auth (load_passwords users (record { users = [] })))
                request)
      → (frame : FirstFrame) (s : MqttServer W) (j : Joined)
      → (connect_stream o ask pre_auth_limit post_auth_limit src frame s).0 ≡ some j
      → IsAuthentic users post_auth_limit frame j
          (connect_stream o ask pre_auth_limit post_auth_limit src frame s).1
  unfolding connect_stream settle_connect
  connect_stream_authenticates auth config users service frame s j e =
      at (connect ask pre_auth_limit src frame) (connect_cases ask pre_auth_limit src frame) e
    where
      at :
          (x : Connected)
          → ((x.0 ≡ none)
              ⊎ ((msg : MqttMessageConnect) × (tenant : Option (List ℕ)) × IsAccepted ask
                    pre_auth_limit src frame msg tenant
                  × (x.0 ≡ some (msg, client_of pre_auth_limit src tenant msg))))
          → (settle_connect o post_auth_limit x s).0 ≡ some j
          → IsAuthentic users post_auth_limit frame j (settle_connect o post_auth_limit x s).1
      at (none, sent) k f = absurd (cc)
      at (some (m, c), sent) (inl k) f = absurd (cc)
      at (some (m, c), sent) (inr (msg, tenant, acc, k)) f =
          let (p, q, v) =
            request_session-IsServing o m (record c { max_packet_size = post_auth_limit }) s j f in
          let em : m ≡ msg = cc in
          let ec : c ≡ client_of pre_auth_limit src tenant msg = cc in
          let ej : j.connect_msg ≡ msg = p ∙ em in
          let (l, t) = listed auth config users msg tenant (service (request_of msg) _ acc.reply) in
          record {
            is_connect = rw ej acc.is_connect;
            version = rw ej acc.version;
            named = rw ej acc.named;
            known = rw ej l;
            place =
                ap (λ (y : Client). y.broker_id)
                  (q ∙ ap (λ (y : Client). record y { max_packet_size = post_auth_limit }) ec)
                ∙ ap (λ (y : Option (List ℕ)). record { tenant_id = y; broker_id = default_broker })
                    t;
            identity =
                ap (λ (y : Client). y.id)
                  (q ∙ ap (λ (y : Client). record y { max_packet_size = post_auth_limit }) ec)
                ∙ ap (λ (y : MqttMessageConnect). y.client) (sym ej);
            limit = ap (λ (y : Client). y.max_packet_size) q;
            served = v;
          }

  -- Whatever the service answers: either a connection changes nothing in the server and gets no session,
  -- or its first packet was a CONNECT with version 4 and a client identifier whose user and password the
  -- service accepted, and then no broker changes but the default broker of the tenant that the service
  -- named.
  pub connect_stream_isolates :
      (frame : FirstFrame) (s : MqttServer W) (id : BrokerId)
      → (connect_stream o ask pre_auth_limit post_auth_limit src frame s ≡ (none, s))
        ⊎ ((msg : MqttMessageConnect) × (tenant : Option (List ℕ)) × IsAccepted ask pre_auth_limit
              src frame msg tenant
            × ((id ≡ record { tenant_id = tenant; broker_id = default_broker })
                ⊎ (get broker_eq id
                      (connect_stream o ask pre_auth_limit post_auth_limit src frame s).1.brokers
                    ≡ get broker_eq id s.brokers)))
  unfolding connect_stream settle_connect
  connect_stream_isolates frame s id =
      at (connect ask pre_auth_limit src frame) (connect_cases ask pre_auth_limit src frame)
    where
      own :
          (tenant : Option (List ℕ)) (m : MqttMessageConnect) (c : Client)
          → c.broker_id ≡ record { tenant_id = tenant; broker_id = default_broker }
          → (id ≡ record { tenant_id = tenant; broker_id = default_broker })
            ⊎ (get broker_eq id (request_session o m c s).1.brokers ≡ get broker_eq id s.brokers)
      own tenant m c e = elim (Bool-cases (broker_eq id c.broker_id)) [
        | inl same ↦ inl ((broker_eq_iff id c.broker_id).0 same ∙ e)
        | inr other ↦ inr (
            request_session-others o m c s id
              (λ k. let yes = (broker_eq_iff id c.broker_id).1 k in cc))
      ]

      at :
          (x : Connected)
          → ((x.0 ≡ none)
              ⊎ ((msg : MqttMessageConnect) × (tenant : Option (List ℕ)) × IsAccepted ask
                    pre_auth_limit src frame msg tenant
                  × (x.0 ≡ some (msg, client_of pre_auth_limit src tenant msg))))
          → (settle_connect o post_auth_limit x s ≡ (none, s))
            ⊎ ((msg : MqttMessageConnect) × (tenant : Option (List ℕ)) × IsAccepted ask
                  pre_auth_limit src frame msg tenant
                × ((id ≡ record { tenant_id = tenant; broker_id = default_broker })
                    ⊎ (get broker_eq id (settle_connect o post_auth_limit x s).1.brokers
                        ≡ get broker_eq id s.brokers)))
      at (none, sent) k = inl refl
      at (some (m, c), sent) (inl k) = absurd (cc)
      at (some (m, c), sent) (inr (msg, tenant, acc, k)) =
          let ec : c ≡ client_of pre_auth_limit src tenant msg = cc in
          inr (
            msg,
            tenant,
            acc,
            own tenant m (record c { max_packet_size = post_auth_limit })
                (ap (λ (y : Client). y.broker_id) ec),
          )
