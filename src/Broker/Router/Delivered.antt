-- ===== src/Broker/Router/Delivered.antt =====
-- broker/router.rs: what the router sends for a PUBLISH.
use Prim.Native.Nat.{min}
use squillion_mqtt.Prelude.{
  ℕ, true, false, Option, none, some, List, [], ◌∷◌, ◌++◌, ◌≡◌, refl, sym, ap, ◌∙◌, ltb, inl, inr,
  Bool-cases, bytes_eq, bytes_eq→eq, arith,
}
use mathlib.Core.List.{append_assoc, append-nil}
use squillion_mqtt.Result.{ok}
use squillion_mqtt.Messages.Publish.{MqttMessagePublish}
use squillion_mqtt.Messages.Codec.{MqttMessage}
use squillion_mqtt.Sessions.State.{SessionId, SessionInternalMessage}
use squillion_mqtt.Sessions.Table.{Sessions, running_tx, get_session_tx}
use squillion_mqtt.Sessions.Table.Channels.{IsServed, get_session-IsServed}
use squillion_mqtt.Broker.Topics.{get_subscribed}
use squillion_mqtt.Broker.Router.{
  RouterOutside, MessageRouter, lower_qos, started_tx, reach_session, send_session, forward,
  forward_all, publish_message,
}

-- The message that goes to a subscribed session.
abbrev pub forwarded : MqttMessagePublish → SessionId → ℕ → SessionInternalMessage
forwarded msg session qos = record {
  session = session;
  message = MqttMessage.publish (record msg { qos = min msg.qos qos });
}

lower_qos-min :
    (qos : ℕ) (m : MqttMessagePublish) → lower_qos qos m ≡ record m { qos = min m.qos qos }
lower_qos-min qos m = elim (Bool-cases (ltb qos m.qos)) [
  | inl lower ↦ let e : min m.qos qos ≡ qos = ground arith in rw (lower, e)
  | inr same ↦ let e : min m.qos qos ≡ m.qos = ground arith in simp (same, e)
]

-- One message for each subscribed session, to the channel that the table `t` has for it; a session
-- that does not run may be left out at QoS 0.
pub data Delivered (t : Sessions) (msg : MqttMessagePublish)
    : List (SessionId × ℕ) → List (ℕ × SessionInternalMessage) → Type 0 where
  done : Delivered t msg [] []
  delivered :
      {session : SessionId} {qos tx : ℕ} {rest : List (SessionId × ℕ)}
      {new : List (ℕ × SessionInternalMessage)}
      → get_session_tx session.session t ≡ some tx
      → Delivered t msg rest new
      → Delivered t msg ((session, qos) ∷ rest) ((tx, forwarded msg session qos) ∷ new)
  skipped :
      {session : SessionId} {qos : ℕ} {rest : List (SessionId × ℕ)}
      {new : List (ℕ × SessionInternalMessage)}
      → qos ≡ 0
      → Delivered t msg rest new
      → Delivered t msg ((session, qos) ∷ rest) new

-- A session that runs goes on with its channel.
pub record Grows (t t' : Sessions) : Type 0 where
  pub still : (k : List ℕ) (tx : ℕ) → get_session_tx k t ≡ some tx → get_session_tx k t' ≡ some tx

pub Grows-refl : {t : Sessions} → Grows t t
Grows-refl = record { still = λ k tx e. e }

pub Grows-trans : {t u v : Sessions} → Grows t u → Grows u v → Grows t v
Grows-trans a b = record { still = λ k tx e. b.still k tx (a.still k tx e) }

served-Grows : {id : List ℕ} {tx : ℕ} {t t' : Sessions} → IsServed id tx t t' → Grows t t'
unfolding get_session_tx
served-Grows {id} {tx} {t} {t'} s = record {
  still = λ k tx' e. elim (Bool-cases (bytes_eq k id)) [
    | inr other ↦ ap running_tx (s.others k other) ∙ e
    | inl same ↦ elim s.once [
      | inl (runs, unchanged) ↦ rw unchanged e
      | inr (idle, w) ↦
          let f : none ≡ some tx' =
            sym idle ∙ ap (λ n. get_session_tx n t) (sym (bytes_eq→eq k id same)) ∙ e in
          absurd (cc)
    ]
  ];
}

-- One session is reached: by its channel, or not at all at QoS 0.
data Reached (session : SessionId) (qos : ℕ) (t : Sessions) : Option ℕ × Sessions → Type 0 where
  by_channel :
      {tx : ℕ} {t' : Sessions}
      → get_session_tx session.session t' ≡ some tx
      → Grows t t'
      → Reached session qos t (some tx, t')
  not_reached : {t' : Sessions} → t' ≡ t → qos ≡ 0 → Reached session qos t (none, t')

reach_session-Reached :
    (session : SessionId) (qos : ℕ) (t : Sessions)
    → Reached session qos t (reach_session session qos (get_session_tx session.session t) t)
unfolding reach_session started_tx
reach_session-Reached session qos t = at (get_session_tx session.session t) refl
  where
    at :
        (tx : Option ℕ)
        → get_session_tx session.session t ≡ tx
        → Reached session qos t (reach_session session qos tx t)
    at (some tx) e = by_channel e Grows-refl
    at none e = elim (Bool-cases (ltb 0 qos)) [
      | inr zero_qos ↦ rw zero_qos (not_reached refl (ground arith))
      | inl more ↦
          let (tx, t', eq, s) = get_session-IsServed session.session t in
          rw (more, eq) (by_channel s.running (served-Grows s))
    ]

-- The end of the loop over the subscribed sessions.
pub record Forwarded {W : Type 0} (msg : MqttMessagePublish) (subscribed : List (SessionId × ℕ))
    (r r' : MessageRouter W) : Type 0 where
  pub new : List (ℕ × SessionInternalMessage)
  pub sent : r'.sent ≡ r.sent ++ new
  pub each : Delivered r'.sessions msg subscribed new
  pub same_topics : r'.topics ≡ r.topics
  pub grows : Grows r.sessions r'.sessions

module _ {W : Type 0} (o : RouterOutside W)
    (accepts : (tx : ℕ) (m : SessionInternalMessage) (w : W) → (o.unbounded_send tx m w).0 ≡ true)
    (msg : MqttMessagePublish) where
  -- One round of the loop, for what comes after it.
  Forwarded-cons :
      (session : SessionId) (qos : ℕ) (rest : List (SessionId × ℕ)) (r r' : MessageRouter W)
      (x : Option ℕ × Sessions)
      → Reached session qos r.sessions x
      → Forwarded msg rest
          (send_session o x.0
            (record { session = session; message = MqttMessage.publish (lower_qos qos msg) })
            (record r { sessions = x.1 }))
          r'
      → Forwarded msg ((session, qos) ∷ rest) r r'
  unfolding send_session
  Forwarded-cons session qos rest r r' _ (by_channel {tx} {t'} at g) f = record {
    new = (tx, forwarded msg session qos) ∷ f.new;
    sent =
        f.sent
        ∙ rw (lower_qos-min qos msg, accepts tx (forwarded msg session qos) r.world)
            (rw append_assoc);
    each = Delivered.delivered (f.grows.still session.session tx at) f.each;
    same_topics = f.same_topics;
    grows = Grows-trans g f.grows;
  }
  Forwarded-cons session qos rest r r' _ (not_reached {t'} e z) f = record {
    new = f.new;
    sent = f.sent;
    each = Delivered.skipped z f.each;
    same_topics = f.same_topics;
    grows = rw e at f.grows;
  }

  forward_all-Forwarded :
      (subscribed : List (SessionId × ℕ)) (r : MessageRouter W)
      → Forwarded msg subscribed r (forward_all o msg subscribed r)
  unfolding forward_all forward
  forward_all-Forwarded [] r = record {
    new = [];
    sent = sym (append-nil r.sent);
    each = Delivered.done;
    same_topics = refl;
    grows = Grows-refl;
  }
  forward_all-Forwarded ((session, qos) ∷ rest) r =
      Forwarded-cons session qos rest r _ _ (reach_session-Reached session qos r.sessions)
        (forward_all-Forwarded rest (forward o msg (session, qos) r))

  -- Where the channels to the sessions take every message, a PUBLISH without the RETAIN flag always
  -- succeeds: the router sends one message, at the lower QoS, to
  -- each session that `get_subscribed` finds for the topic, over the channel that the table then has for
  -- the session, and starts a session that does not run for a subscription above QoS 0; at QoS 0 it may
  -- leave the session out. The topics stay.
  pub publish_message_delivers :
      (r : MessageRouter W)
      → msg.retain ≡ false
      → (r' : MessageRouter W) × (publish_message o msg r ≡ (ok tt, r'))
        × Forwarded msg (get_subscribed r.topics msg.topic) r r'
  unfolding publish_message
  publish_message_delivers r plain = (
    forward_all o msg (get_subscribed r.topics msg.topic) r,
    rw plain,
    forward_all-Forwarded (get_subscribed r.topics msg.topic) r,
  )
