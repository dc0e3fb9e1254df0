-- ===== src/Sessions/Machine.antt =====
-- What a session does to itself and to what is outside it: a small state monad with the errors of
-- sessions/sessionworker.rs. An error keeps the changes made before it.
use squillion_mqtt.Prelude.{
  ℕ, Bool, true, false, Option, none, some, List, [], ◌∷◌, ◌++◌, String, if◌then◌else◌,
}
use squillion_mqtt.Result.{Result, ok, err}
use squillion_mqtt.Messages.Codec.{MqttMessage}
use squillion_mqtt.Sessions.State.{
  SessionId, MqttSession, SessionError, ClientTx, RouterMessage, RouterPublishSubscribeResponse,
}

-- The writes of `SessionPersistProvider`.
pub data PersistCall : Type 0 where
  update_session_generation : (internal_id generation : ℕ) → PersistCall
  qos_incoming_store qos_incoming_delete : (session_id mid : ℕ) → PersistCall
  qos_incoming_clear : (session_id : ℕ) → PersistCall
  qos_outgoing_store : (session_id mid : ℕ) (msg : MqttMessage) → PersistCall
  qos_outgoing_delete : (session_id mid : ℕ) → PersistCall
  qos_outgoing_update_dup : (session_id mid : ℕ) (dup : Bool) → PersistCall
  qos_outgoing_clear : (session_id : ℕ) → PersistCall
  update_session_mid : (internal_id mid : ℕ) → PersistCall

-- What is outside a session, over a state `W` of its own: the database behind the provider (`err` is a
-- `SessionError::Persist` with its text) and the channels to the client and to the router (`true` when
-- the message was taken).
pub record Outside (W : Type 0) : Type 0 where
  pub persist : PersistCall → W → Result String (Unit {0}) × W
  pub create_persistent_connection : W → Result String (Unit {0}) × W
  pub persist_session : List ℕ → W → Result String (ℕ × ℕ × Bool × ℕ) × W
  pub load_persistent_subscriptions : ℕ → W → Result String (List (List ℕ)) × W
  pub persist_qos_incoming_load : ℕ → W → Result String (List ℕ) × W
  pub persistent_qosout_load : ℕ → W → Result String (List MqttMessage) × W
  pub send_client : ClientTx → MqttMessage → W → Bool × W
  pub send_router : RouterMessage → W → Bool × W
  pub subscribe_response : W → Option RouterPublishSubscribeResponse × W

-- A message that a channel took.
pub data Sent : Type 0 where
  to_client : ClientTx → MqttMessage → Sent
  to_router : RouterMessage → Sent

-- `sent` is no state of the code: it records what the channels took, in order.
pub record Machine (W : Type 0) : Type 0 where
  pub session : MqttSession
  pub world : W
  pub sent : List Sent

abbrev pub Step : Type 0 → Type 0 → Type 0
Step W A = Machine W → Result SessionError A × Machine W

abbrev pub pure : {W A : Type 0} → A → Step W A
pure a m = (ok a, m)

abbrev pub fail : {W A : Type 0} → SessionError → Step W A
fail e m = (err e, m)

abbrev pub continue_with :
    {W A B : Type 0}
    → Result SessionError A × Machine W
    → (A → Step W B)
    → Result SessionError B × Machine W
continue_with (ok a, m) f = f a m
continue_with (err e, m) f = (err e, m)

infixl 5 ◌>>=◌ ◌>>◌
abbrev pub ◌>>=◌ : {W A B : Type 0} → Step W A → (A → Step W B) → Step W B
◌>>=◌ m f s = continue_with (m s) f

abbrev pub ◌>>◌ : {W B : Type 0} → Step W (Unit {0}) → Step W B → Step W B
m >> k = m >>= λ _. k

-- A result that the code inspects in place of passing an error on.
abbrev pub attempt : {W A : Type 0} → Step W A → Step W (Result SessionError A)
attempt m s = let (r, s') = m s in (ok r, s')

abbrev pub get : {W : Type 0} → Step W MqttSession
get m = (ok m.session, m)

abbrev pub modify : {W : Type 0} → (MqttSession → MqttSession) → Step W (Unit {0})
modify f m = (ok tt, record m { session = f m.session })

abbrev pub when : {W : Type 0} → Bool → Step W (Unit {0}) → Step W (Unit {0})
when b k = if b then k else pure tt

-- A call of the provider, with `?` on its result.
abbrev pub outside : {W A : Type 0} → (W → Result String A × W) → Step W A
outside f m =
    let (r, w) = f m.world in
    elim r [
      | ok a ↦ (ok a, record m { world = w })
      | err e ↦ (err (SessionError.persist e), record m { world = w })
    ]

abbrev pub session_id : MqttSession → SessionId
session_id self = record {
  session = self.id;
  internal_id = self.internal_id;
  session_generation = self.generation;
}

-- `.is_ok()`
abbrev pub is_ok : {A : Type 0} → Result SessionError A → Bool
is_ok (ok a) = true
is_ok (err e) = false

abbrev pub is_some : {A : Type 0} → Option A → Bool
is_some (some a) = true
is_some none = false

-- A result in the place of a computation.
abbrev pub give : {W A : Type 0} → Result SessionError A → Step W A
give (ok a) = pure a
give (err e) = fail e

module _ {W : Type 0} (o : Outside W) where
  unfoldable pub persist : PersistCall → Step W (Unit {0})
  persist c = outside (o.persist c)

  -- `send_client_message`: a channel that is closed is forgotten.
  unfoldable pub send_client_message : MqttMessage → Step W (Unit {0})
  send_client_message message m = elim m.session.client [
    | none ↦ (err SessionError.client, m)
    | some tx ↦
        let (taken, w) = o.send_client tx message m.world in
        if taken
        then (ok tt, record m { world = w; sent = m.sent ++ (Sent.to_client tx message ∷ []) })
        else (
          err SessionError.client,
          record m { world = w; session = record m.session { client = none } },
        )
  ]

  unfoldable pub send_message_router : RouterMessage → Step W (Unit {0})
  send_message_router message m =
      let (taken, w) = o.send_router message m.world in
      if taken
      then (ok tt, record m { world = w; sent = m.sent ++ (Sent.to_router message ∷ []) })
      else (err SessionError.router, record m { world = w })
