-- ===== src/Sessions/Lifecycle/Once.antt =====
-- src/sessions/sessionworker.rs: `new_client_connected` without a clean session, and `unsubscribe`, next to
-- the incoming identifiers.
use squillion_mqtt.Prelude.{ℕ, Bool, false, List, ◌≡◌, refl}
use squillion_mqtt.Result.{Result}
use squillion_mqtt.Sessions.State.{SessionError, NewClient, RouterMessage}
use squillion_mqtt.Sessions.Machine.{Outside, when, session_id}
use squillion_mqtt.Sessions.Once.{
  Remembers, Remembers-pure, Remembers-bind, Remembers-then, Remembers-get, Remembers-modify,
  Remembers-attempt, Remembers-send_message_router, once_rules,
}
use squillion_mqtt.Sessions.Queue.Once.{Remembers-send_queued_messages}
use squillion_mqtt.Sessions.Lifecycle.{
  unsubscribe, clean_session, drop_client, greet, new_client_connected,
}

module _ {W : Type 0} (o : Outside W) {mid : ℕ} where
  pub Remembers-unsubscribe : (topics : List (List ℕ)) → Remembers mid (unsubscribe o topics)
  unfolding unsubscribe
  Remembers-unsubscribe topics = Remembers-then _ _ (Remembers-modify _ (λ s h. h)) (
      Remembers-bind _ _ Remembers-get (λ self.
        Remembers-send_message_router o (RouterMessage.unsubscribe (session_id self) topics) refl))

  Remembers-drop_client : Remembers mid (drop_client o)
  unfolding drop_client
  Remembers-drop_client = search (once_rules, Remembers-modify) depth 20

  Remembers-greet :
      (n : NewClient) (r : Result SessionError (Unit {0})) → Remembers mid (greet o n r)
  unfolding greet
  Remembers-greet n r =
      search (once_rules, Remembers-modify, Remembers-send_queued_messages) depth 20

  not_cleaned : (b : Bool) → b ≡ false → Remembers mid (when b (clean_session o))
  not_cleaned b h = rw h (Remembers-pure tt)

  pub Remembers-new_client_connected :
      (n : NewClient) → n.msg.clean_session ≡ false → Remembers mid (new_client_connected o n)
  unfolding new_client_connected
  Remembers-new_client_connected n h = Remembers-then _ _ Remembers-drop_client (
      Remembers-bind _ _ (Remembers-attempt _ (not_cleaned n.msg.clean_session h))
        (λ r. Remembers-greet n r))
