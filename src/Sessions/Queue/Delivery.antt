-- ===== src/Sessions/Queue/Delivery.antt =====
-- src/sessions/sessionworker.rs: what `send_queued_messages` sends.
use squillion_mqtt.Prelude.{
  ℕ, zero, suc, ◌+◌, Bool, true, false, not, ◌&&◌, ◌||◌, List, [], ◌∷◌, ◌++◌, Option, none, some,
  ◌≡◌, ◌==◌, refl, ap, ◌∙◌, sym, arith, if◌then◌else◌, Bool-cases, inl, inr, length, drop,
}
use mathlib.Core.List.{append_assoc, append-nil}
use mathlib.Core.Path.{subst}
use squillion_mqtt.Result.{Result, ok, err}
use squillion_mqtt.Messages.Publish.{MqttMessagePublish}
use squillion_mqtt.Messages.Codec.{MqttMessage}
use squillion_mqtt.Sessions.State.{SessionError, ClientTx}
use squillion_mqtt.Sessions.Machine.{
  Outside, Machine, Sent, Step, pure, continue_with, ◌>>=◌, when, send_client_message,
}
use squillion_mqtt.Sessions.Invariant.{IsTracked}
use squillion_mqtt.Sessions.Queue.{
  get_elem?, qos_outgoing_set_dup, send_queued, send_from, send_queued_messages,
}
use squillion_mqtt.Sessions.Queue.Positions.{drop-get_elem?, drop-all}
use squillion_mqtt.Sessions.Queue.Aside.{Aside, aside}
use squillion_mqtt.Sessions.Queue.Sending.{get_elem?_total, From-send_queued, SameSize-send_queued}

-- What a message of the queue is sent as.
abbrev pub resent : MqttMessage → MqttMessage
resent (MqttMessage.pub_rec m) = MqttMessage.pub_rel (record { identifier = m.identifier })
resent message = message

abbrev pub deliveries : ClientTx → List MqttMessage → List Sent
deliveries tx [] = []
deliveries tx (x ∷ xs) = Sent.to_client tx (resent x) ∷ deliveries tx xs

-- The parts of a computation that succeeds.
bind_ok :
    {W A B : Type 0} (x : Result SessionError A × Machine W) (f : A → Step W B) (m' : Machine W)
    (b : B)
    → continue_with x f ≡ (ok b, m')
    → (a : A) × (m1 : Machine W) × (x ≡ (ok a, m1)) × (f a m1 ≡ (ok b, m'))
bind_ok (ok a, m1) f m' b h = (a, m1, refl, h)
bind_ok (err e, m1) f m' b h = cc

module _ {W : Type 0} (o : Outside W) where
  -- A message that the client took.
  delivered :
      (tx : ClientTx) (x : MqttMessage) (m m' : Machine W)
      → m.session.client ≡ some tx
      → send_client_message o x m ≡ (ok tt, m')
      → (w : W) × (m' ≡ record m { world = w; sent = m.sent ++ (Sent.to_client tx x ∷ []) })
  unfolding send_client_message
  delivered tx x m m' c h = go m.session.client c h
    where
      go :
          (c : Option ClientTx)
          → c ≡ some tx
          → (elim c as (λ _. Result SessionError (Unit {0}) × Machine W) [
            | none ↦ (err SessionError.client, m)
            | some tx ↦
                let (taken, w) = o.send_client tx x m.world in
                if taken
                then (ok tt, record m { world = w; sent = m.sent ++ (Sent.to_client tx x ∷ []) })
                else (
                  err SessionError.client,
                  record m { world = w; session = record m.session { client = none } },
                )
          ])
            ≡ (ok tt, m')
          → (w : W) × (m' ≡ record m { world = w; sent = m.sent ++ (Sent.to_client tx x ∷ []) })
      go none c h = cc
      go (some tx') c h =
          let e : tx' ≡ tx = cc in
          elim (Bool-cases ((o.send_client tx' x m.world).0)) [
            | inl taken ↦
                let h' = rw taken at h in
                rw (sym e) ((o.send_client tx' x m.world).1, sym (ap (λ r. r.1) h'))
            | inr closed ↦ let h' = rw closed at h in cc
          ]

  -- One round: the message at the position is sent, and the messages behind it are as they were.
  record Round (tx : ClientTx) (pos : ℕ) (x : MqttMessage) (m m' : Machine W) : Type 0 where
    sent : m'.sent ≡ m.sent ++ (Sent.to_client tx (resent x) ∷ [])
    client : m'.session.client ≡ some tx
    later :
        drop (suc pos) m'.session.qos_outgoing_messages
        ≡ drop (suc pos) m.session.qos_outgoing_messages

  Round-send_client_message :
      (tx : ClientTx) (pos : ℕ) (x : MqttMessage) (m m' : Machine W)
      → m.session.client ≡ some tx
      → send_client_message o (resent x) m ≡ (ok tt, m')
      → Round tx pos x m m'
  Round-send_client_message tx pos x m m' c h =
      let (w, e) = delivered tx (resent x) m m' c h in
      subst (Round tx pos x m) (sym e) (record { sent = refl; client = c; later = refl })

  Round-when :
      (tx : ClientTx) (pos : ℕ) (p : MqttMessagePublish) (m m1 m' : Machine W) (flag : Bool)
      → IsTracked m.session
      → m.session.client ≡ some tx
      → get_elem? m.session.qos_outgoing_messages pos ≡ some (MqttMessage.publish p)
      → send_client_message o (MqttMessage.publish p) m ≡ (ok tt, m1)
      → when flag (qos_outgoing_set_dup o p.identifier >>= λ mid. pure tt) m1 ≡ (ok tt, m')
      → Round tx pos (MqttMessage.publish p) m m'
  Round-when tx pos p m m1 m' false t c got h1 h2 =
      let e : m1 ≡ m' = ap (λ r. r.1) h2 in
      subst (Round tx pos (MqttMessage.publish p) m) e
        (Round-send_client_message tx pos (MqttMessage.publish p) m m1 c h1)
  Round-when tx pos p m m1 m' true t c got h1 h2 =
      let (w, e) = delivered tx (MqttMessage.publish p) m m1 c h1 in
      let (k, m2, hk, e2) =
        bind_ok (qos_outgoing_set_dup o p.identifier m1) (λ mid. pure tt) m' tt h2 in
      let same : m2 ≡ m' = ap (λ r. r.1) e2 in
      let s : m1.session ≡ m.session = ap (λ q. q.session) e in
      let a : Aside pos m1 m2 =
        aside o pos p.identifier k (MqttMessage.publish p) m1 m2 (subst IsTracked (sym s) t)
          (ap (λ q. get_elem? q.qos_outgoing_messages pos) s ∙ got) refl hk in
      subst (Round tx pos (MqttMessage.publish p) m) same (record {
        sent = a.sent ∙ ap (λ q. q.sent) e;
        client = a.client ∙ ap (λ q. q.client) s ∙ c;
        later = a.later ∙ ap (λ q. drop (suc pos) q.qos_outgoing_messages) s;
      })

  Round-send_queued :
      (tx : ClientTx) (pos : ℕ) (x : MqttMessage) (m m' : Machine W)
      → IsTracked m.session
      → m.session.client ≡ some tx
      → get_elem? m.session.qos_outgoing_messages pos ≡ some x
      → send_queued o (some x) m ≡ (ok tt, m')
      → Round tx pos x m m'
  unfolding send_queued
  Round-send_queued tx pos (MqttMessage.publish p) m m' t c got h =
      let flag : Bool = (p.qos == 1 || p.qos == 2) && not p.dup in
      let (u, m1, h1, h2) =
        bind_ok (send_client_message o (MqttMessage.publish p) m)
          (λ _. when flag (qos_outgoing_set_dup o p.identifier >>= λ mid. pure tt)) m' tt h in
      Round-when tx pos p m m1 m' flag t c got h1 h2
  Round-send_queued tx pos (MqttMessage.pub_rec p) m m' t c got h =
      Round-send_client_message tx pos (MqttMessage.pub_rec p) m m' c h
  Round-send_queued tx pos _ m m' t c got h = cc

  sent_from :
      (tx : ClientTx) (n pos : ℕ) (m m' : Machine W)
      → IsTracked m.session
      → m.session.client ≡ some tx
      → n + pos ≡ length m.session.qos_outgoing_messages
      → send_from o pos n m ≡ (ok tt, m')
      → m'.sent ≡ m.sent ++ deliveries tx (drop pos m.session.qos_outgoing_messages)
  unfolding send_from
  sent_from tx zero pos m m' t c size h =
      let none_left : drop pos m.session.qos_outgoing_messages ≡ [] =
        drop-all pos _ (omega arith) in
      let e : m ≡ m' = ap (λ r. r.1) h in
      rw none_left (ap (λ q. q.sent) (sym e) ∙ sym (append-nil m.sent))
  sent_from tx (suc n) pos m m' t c size h =
      let queue : List MqttMessage = m.session.qos_outgoing_messages in
      let (x, got) = get_elem?_total queue pos (omega arith) in
      let (u, m1, h1, h2) =
        bind_ok (send_queued o (get_elem? queue pos) m) (λ _. send_from o (suc pos) n) m' tt h in
      let first : send_queued o (some x) m ≡ (ok tt, m1) = rw got at h1 in
      let r : Round tx pos x m m1 = Round-send_queued tx pos x m m1 t c got first in
      let t1 : IsTracked m1.session =
        subst IsTracked (ap (λ q. q.1.session) first)
          (((From-send_queued o m.session x t).at m.world m.sent).tracked) in
      let len : length m1.session.qos_outgoing_messages ≡ length queue =
        ap (λ q. length q.1.session.qos_outgoing_messages) (sym first)
        ∙ (SameSize-send_queued o (length queue) m (some x) refl).same in
      let rest = sent_from tx n (suc pos) m1 m' t1 (r.client) (omega arith) h2 in
      rest
      ∙ ap (λ l. l ++ deliveries tx (drop (suc pos) m1.session.qos_outgoing_messages)) r.sent
      ∙ append_assoc m.sent (Sent.to_client tx (resent x) ∷ [])
          (deliveries tx (drop (suc pos) m1.session.qos_outgoing_messages))
      ∙ ap (λ q. m.sent ++ (Sent.to_client tx (resent x) ∷ deliveries tx q)) r.later
      ∙ ap (λ q. m.sent ++ deliveries tx q) (sym (drop-get_elem? pos queue x got))

  -- Where the queue of the session is tracked (only PUBLISH and PUBREC, each with an identifier of its own
  -- that `qos_outgoing` holds) and `send_queued_messages` succeeds for a connected client, the client has
  -- got every message of the queue, once and in the order of the queue: a PUBLISH as it is stored, a PUBREL
  -- for each PUBREC.
  pub send_queued_messages-deliveries :
      (tx : ClientTx) (m m' : Machine W)
      → IsTracked m.session
      → m.session.client ≡ some tx
      → send_queued_messages o m ≡ (ok tt, m')
      → m'.sent ≡ m.sent ++ deliveries tx m.session.qos_outgoing_messages
  unfolding send_queued_messages
  send_queued_messages-deliveries tx m m' t c h =
      sent_from tx (length m.session.qos_outgoing_messages) 0 m m' t c (omega arith) h
