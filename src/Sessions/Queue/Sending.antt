-- ===== src/Sessions/Queue/Sending.antt =====
-- src/sessions/sessionworker.rs: the invariant of the queue, and its length, under `send_queued_messages`.
use squillion_mqtt.Prelude.{
  ℕ, zero, suc, ◌+◌, true, not, ◌&&◌, ◌||◌, List, [], ◌∷◌, Option, none, some, String, ◌≡◌, ◌==◌,
  refl, ◌∙◌, arith, Bool-cases, inl, inr, length, ◌<◌, ◌≤◌,
}
use squillion_mqtt.Result.{Result, ok, err}
use squillion_mqtt.Messages.Codec.{MqttMessage}
use squillion_mqtt.Sessions.State.{MqttSession, SessionError}
use squillion_mqtt.Sessions.Machine.{
  PersistCall, Outside, Machine, Step, continue_with, outside, persist, send_client_message,
}
use squillion_mqtt.Sessions.Invariant.{
  IsTracked, NoPanic, From, From-pure, From-fail, Good, Good-pure, Good-bind, Good-err, From-if,
  From-send_client_message, machine,
}
use squillion_mqtt.Sessions.Queue.{
  get_elem?, set_elem, qos_outgoing_message_position, set_dup_at, set_dup_found,
  qos_outgoing_set_dup, send_queued, send_from, send_queued_messages,
}
use squillion_mqtt.Sessions.Queue.Keeps.{From-qos_outgoing_set_dup}

length-set_elem :
    (i : ℕ) (x : MqttMessage) (xs : List MqttMessage) → length (set_elem i x xs) ≡ length xs
length-set_elem i x [] = refl
length-set_elem zero x (y ∷ ys) = refl
length-set_elem (suc i) x (y ∷ ys) = omega (arith, length-set_elem i x ys)

pub get_elem?_total :
    (xs : List MqttMessage) (i : ℕ) → i < length xs → (x : MqttMessage) × (get_elem? xs i ≡ some x)
get_elem?_total [] i h = absurd (omega arith)
get_elem?_total (x ∷ xs) zero h = (x, refl)
get_elem?_total (x ∷ xs) (suc i) h = get_elem?_total xs i (omega arith)

module _ {W : Type 0} where
  abbrev pub size : Machine W → ℕ
  size m = length m.session.qos_outgoing_messages

  -- The queue keeps its length, whatever the result.
  pub record SameSize {A : Type 0} (n : ℕ) (r : Result SessionError A × Machine W) : Type 0 where
    pub same : size (r.1) ≡ n

  SameSize-bind :
      {A B : Type 0} (n : ℕ) (x : Result SessionError A × Machine W) (f : A → Step W B)
      → SameSize n x
      → ((a : A) (m : Machine W) → size m ≡ n → SameSize n (f a m))
      → SameSize n (continue_with x f)
  SameSize-bind n (ok a, m) f h k = k a m h.same
  SameSize-bind n (err e, m) f h k = record { same = h.same }

  continued :
      {n : ℕ} (x : Result SessionError (Unit {0}) × Machine W) (k : Step W (Unit {0}))
      → Good x
      → SameSize n x
      → ((m : Machine W) → IsTracked m.session → size m ≡ n → Good (k m))
      → Good (continue_with x (λ _. k))
  continued (ok u, m) k g e h = h m g.tracked e.same
  continued (err e, m) k g e' h = Good-err e m g

module _ {W : Type 0} (o : Outside W) where
  SameSize-persist :
      {A : Type 0} (n : ℕ) (m : Machine W) (c : PersistCall) (f : Unit {0} → Step W A)
      → size m ≡ n
      → ((w : W) → SameSize n (f tt (record m { world = w })))
      → SameSize n (continue_with (persist o c m) f)
  unfolding persist
  SameSize-persist {A} n m c f e h = go (o.persist c m.world)
    where
      go :
          (x : Result String (Unit {0}) × W)
          → SameSize n (continue_with ((outside {W = W} (λ _. x)) m) f)
      go (ok u, w) = h w
      go (err e', w) = record { same = e }

  SameSize-send :
      (n : ℕ) (m : Machine W) (x : MqttMessage)
      → size m ≡ n
      → SameSize n (send_client_message o x m)
  unfolding send_client_message
  SameSize-send n m x h = record { same = go m.session.client refl }
    where
      go : (c : Option _) → m.session.client ≡ c → size ((send_client_message o x m).1) ≡ n
      go none e = rw e h
      go (some tx) e = elim (Bool-cases ((o.send_client tx x m.world).0)) [
        | inl taken ↦ rw (e, taken) h
        | inr closed ↦ rw (e, closed) h
      ]

  SameSize-set_dup_at :
      (n i : ℕ) (m : Machine W) (x : Option MqttMessage)
      → size m ≡ n
      → SameSize n (set_dup_at o i x m)
  unfolding set_dup_at
  SameSize-set_dup_at n i m none h = record { same = h }
  SameSize-set_dup_at n i m (some (MqttMessage.publish p)) h = elim (Bool-cases p.dup) [
    | inl flagged ↦ rw flagged (record { same = h })
    | inr fresh ↦ rw fresh (
        SameSize-persist n m _ _ h (λ w. record {
          same =
              length-set_elem i (MqttMessage.publish (record p { dup = true }))
                m.session.qos_outgoing_messages
              ∙ h;
        }))
  ]
  SameSize-set_dup_at n i m (some _) h = record { same = h }

  SameSize-set_dup :
      (n mid : ℕ) (m : Machine W) → size m ≡ n → SameSize n (qos_outgoing_set_dup o mid m)
  unfolding qos_outgoing_set_dup set_dup_found
  SameSize-set_dup n mid m h = go (qos_outgoing_message_position m.session mid)
    where
      go : (p : Option ℕ) → SameSize n (set_dup_found o mid p m)
      go none = record { same = h }
      go (some i) =
          SameSize-bind n _ _
            (SameSize-set_dup_at n i m (get_elem? m.session.qos_outgoing_messages i) h)
            (λ u m' h'. record { same = h' })

  pub SameSize-send_queued :
      (n : ℕ) (m : Machine W) (x : Option MqttMessage) → size m ≡ n → SameSize n (send_queued o x m)
  unfolding send_queued
  SameSize-send_queued n m none h = record { same = h }
  SameSize-send_queued n m (some (MqttMessage.publish p)) h =
      SameSize-bind n _ _ (SameSize-send n m (MqttMessage.publish p) h) (λ u m' h'.
        elim (Bool-cases ((p.qos == 1 || p.qos == 2) && not p.dup)) [
          | inl flag ↦ rw flag (
              SameSize-bind n _ _ (SameSize-set_dup n p.identifier m' h')
                (λ mid m'' h''. record { same = h'' }))
          | inr done ↦ rw done (record { same = h' })
        ])
  SameSize-send_queued n m (some (MqttMessage.pub_rec p)) h = SameSize-send n m _ h
  SameSize-send_queued n m (some _) h = record { same = h }

  pub From-send_queued :
      (s : MqttSession) (x : MqttMessage) → IsTracked s → From s (send_queued o (some x))
  unfolding send_queued
  From-send_queued s (MqttMessage.publish p) t = record {
    at = λ w l.
        Good-bind _ _ ((From-send_client_message o (MqttMessage.publish p) t).at w l) (λ u m t'.
          (From-if ((p.qos == 1 || p.qos == 2) && not p.dup) _ _
              (record {
                at = λ w' l'.
                    Good-bind _ _ ((From-qos_outgoing_set_dup o m.session p.identifier t').at w' l')
                      (λ mid m' t''. Good-pure tt t'');
              })
              (From-pure tt t')).at
            m.world m.sent);
  }
  From-send_queued s (MqttMessage.pub_rec p) t = From-send_client_message o _ t
  From-send_queued s _ t = From-fail _ NoPanic.not_stored t

  Good-send_from :
      (n pos : ℕ) (m : Machine W)
      → IsTracked m.session
      → pos + n ≤ size m
      → Good (send_from o pos n m)
  unfolding send_from
  Good-send_from zero pos m t h = Good-pure tt t
  Good-send_from (suc n) pos m t h =
      let (x, got) = get_elem?_total m.session.qos_outgoing_messages pos (omega arith) in
      rw got (
        continued _ (send_from o (suc pos) n) ((From-send_queued m.session x t).at m.world m.sent)
          (SameSize-send_queued (size m) m (some x) refl)
          (λ m' t' e. Good-send_from n (suc pos) m' t' (omega arith)))

  pub From-send_queued_messages : (s : MqttSession) → IsTracked s → From s (send_queued_messages o)
  unfolding send_queued_messages
  From-send_queued_messages s t = record {
    at = λ w l. Good-send_from (length s.qos_outgoing_messages) 0 (machine s w l) t (omega arith);
  }
