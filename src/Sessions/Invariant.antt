-- ===== src/Sessions/Invariant.antt =====
-- What holds of the message queue of a session between two events, and rules to prove that a handler
-- keeps it and does not index a vector out of bounds.
pub mod Ids
use squillion_mqtt.Prelude.{
  ℕ, Bool, true, false, List, [], ◌∷◌, ◌++◌, Option, none, some, String, All, ◌≡◌, refl, Bool-cases,
  inl, inr, if◌then◌else◌,
}
use squillion_mqtt.Result.{Result, ok, err}
use squillion_mqtt.Messages.Codec.{MqttMessage}
use squillion_mqtt.Sessions.State.{contains, MqttSession, ClientTx, SessionError, RouterMessage}
use squillion_mqtt.Sessions.Machine.{
  PersistCall, Outside, Machine, Sent, Step, pure, fail, continue_with, ◌>>=◌, ◌>>◌, attempt, get,
  modify, when, give, outside, persist, send_client_message, send_message_router,
}

abbrev pub is_queued : MqttMessage → Bool
is_queued (MqttMessage.publish m) = true
is_queued (MqttMessage.pub_rec m) = true
is_queued message = false

abbrev pub mid_of : MqttMessage → ℕ
mid_of (MqttMessage.publish m) = m.identifier
mid_of (MqttMessage.pub_rec m) = m.identifier
mid_of message = 0

abbrev pub ids : List MqttMessage → List ℕ
ids [] = []
ids (x ∷ xs) = mid_of x ∷ ids xs

abbrev pub AllQueued : List MqttMessage → Type 0
AllQueued = All (λ x. is_queued x ≡ true)

abbrev pub Distinct : List ℕ → Type 0
Distinct [] = Unit
Distinct (n ∷ ns) = (contains n ns ≡ false) × Distinct ns

-- The queue holds PUBLISH and PUBREC only, with distinct identifiers, all of which are in
-- `qos_outgoing`.
pub record IsTracked (s : MqttSession) : Type 0 where
  pub kinds : AllQueued s.qos_outgoing_messages
  pub distinct : Distinct (ids s.qos_outgoing_messages)
  pub listed :
      (n : ℕ) → contains n (ids s.qos_outgoing_messages) ≡ true → contains n s.qos_outgoing ≡ true

-- Results of the code, as opposed to a panic.
pub data NoPanic {A : Type 0} : Result SessionError A → Type 0 where
  returned : {a : A} → NoPanic (ok a)
  no_client : NoPanic (err SessionError.client)
  no_router : NoPanic (err SessionError.router)
  not_stored : {e : String} → NoPanic (err (SessionError.persist e))

module _ {W : Type 0} where
  pub record Good {A : Type 0} (r : Result SessionError A × Machine W) : Type 0 where
    pub tracked : IsTracked r.1.session
    pub calm : NoPanic r.0

  abbrev pub machine : MqttSession → W → List Sent → Machine W
  machine s w l = record { session = s; world = w; sent = l }

  -- From the session `s`, `p` ends well.
  pub record From {A : Type 0} (s : MqttSession) (p : Step W A) : Type 0 where
    pub at : (w : W) (l : List Sent) → Good (p (machine s w l))

  pub From-pure : {A : Type 0} {s : MqttSession} (a : A) → IsTracked s → From s (pure a)
  From-pure a t = record { at = λ w l. record { tracked = t; calm = NoPanic.returned } }

  pub From-fail :
      {A : Type 0} {s : MqttSession} (e : SessionError)
      → NoPanic {A = A} (err e)
      → IsTracked s
      → From {A = A} s (fail e)
  From-fail e n t = record { at = λ w l. record { tracked = t; calm = n } }

  pub Good-pure :
      {A : Type 0} {s : MqttSession} {w : W} {l : List Sent} (a : A)
      → IsTracked s
      → Good (ok a, machine s w l)
  Good-pure a t = record { tracked = t; calm = NoPanic.returned }

  -- An error is passed on, whatever the type of the result.
  pub Good-err :
      {A B : Type 0} (e : SessionError) (m : Machine W)
      → Good {A = A} (err e, m)
      → Good {A = B} (err e, m)
  Good-err SessionError.client m g = record { tracked = g.tracked; calm = NoPanic.no_client }
  Good-err SessionError.router m g = record { tracked = g.tracked; calm = NoPanic.no_router }
  Good-err (SessionError.persist e) m g = record { tracked = g.tracked; calm = NoPanic.not_stored }
  Good-err SessionError.index_panic m g = elim g.calm [ ]

  Good-continue :
      {A B : Type 0} (x : Result SessionError A × Machine W) (f : A → Step W B)
      → Good x
      → ((a : A) (s : MqttSession) → IsTracked s → From s (f a))
      → Good (continue_with x f)
  Good-continue (ok a, m) f g h = (h a m.session g.tracked).at m.world m.sent
  Good-continue (err e, m) f g h = Good-err e m g

  -- The next step runs on any session that is tracked.
  pub Good-bind :
      {A B : Type 0} (x : Result SessionError A × Machine W) (f : A → Step W B)
      → Good x
      → ((a : A) (m : Machine W) → IsTracked m.session → Good (f a m))
      → Good (continue_with x f)
  Good-bind x f g h = Good-continue x f g (λ a s t. record { at = λ w l. h a (machine s w l) t })

  pub From-if :
      {A : Type 0} {s : MqttSession} (b : Bool) (p q : Step W A)
      → From s p
      → From s q
      → From s (if b then p else q)
  From-if true p q hp hq = hp
  From-if false p q hp hq = hq

  pub From-give :
      {A : Type 0} {s : MqttSession} (r : Result SessionError A)
      → NoPanic r
      → IsTracked s
      → From s (give r)
  From-give (ok a) n t = From-pure a t
  From-give (err e) n t = From-fail e n t

-- A channel that closes is no part of what is tracked.
pub no_client_tracked : (s : MqttSession) → IsTracked s → IsTracked (record s { client = none })
no_client_tracked s t = record { kinds = t.kinds; distinct = t.distinct; listed = t.listed }

module _ {W : Type 0} (o : Outside W) where
  pub From-persist : {s : MqttSession} (c : PersistCall) → IsTracked s → From s (persist o c)
  unfolding persist
  From-persist {s} c t = record { at = λ w l. go (o.persist c w) l }
    where
      go :
          (x : Result String (Unit {0}) × W) (l : List Sent)
          → Good ((outside {W = W} (λ _. x)) (machine s x.1 l))
      go (ok u, w) l = record { tracked = t; calm = NoPanic.returned }
      go (err e, w) l = record { tracked = t; calm = NoPanic.not_stored }

  -- The session is the same after a call of the provider.
  pub Good-persist :
      {A : Type 0} (s : MqttSession) (w : W) (l : List Sent) (c : PersistCall)
      (f : Unit {0} → Step W A)
      → IsTracked s
      → ((w' : W) → Good (f tt (machine s w' l)))
      → Good (continue_with (persist o c (machine s w l)) f)
  unfolding persist
  Good-persist {A} s w l c f t h = go (o.persist c w)
    where
      go :
          (x : Result String (Unit {0}) × W)
          → Good (continue_with ((outside {W = W} (λ _. x)) (machine s x.1 l)) f)
      go (ok u, w') = h w'
      go (err e, w') = record { tracked = t; calm = NoPanic.not_stored }

  pub From-send_client_message :
      {s : MqttSession} (m : MqttMessage) → IsTracked s → From s (send_client_message o m)
  unfolding send_client_message
  From-send_client_message {s} m t = record { at = λ w l. choose s.client refl w l }
    where
      choose :
          (c : Option ClientTx)
          → s.client ≡ c
          → (w : W) (l : List Sent) → Good (send_client_message o m (machine s w l))
      choose none e w l = rw e (record { tracked = t; calm = NoPanic.no_client })
      choose (some tx) e w l = elim (Bool-cases ((o.send_client tx m w).0)) [
        | inl taken ↦ rw (e, taken) (record { tracked = t; calm = NoPanic.returned })
        | inr closed ↦
            rw (e, closed) (record { tracked = no_client_tracked s t; calm = NoPanic.no_client })
      ]

  pub From-send_message_router :
      {s : MqttSession} (m : RouterMessage) → IsTracked s → From s (send_message_router o m)
  unfolding send_message_router
  From-send_message_router {s} m t = record {
    at = λ w l. elim (Bool-cases ((o.send_router m w).0)) [
      | inl taken ↦ rw taken (record { tracked = t; calm = NoPanic.returned })
      | inr closed ↦ rw closed (record { tracked = t; calm = NoPanic.no_router })
    ];
  }
