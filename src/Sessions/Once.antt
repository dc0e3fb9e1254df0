-- ===== src/Sessions/Once.antt =====
-- Messages of QoS 2 that were routed, and rules to show that a handler routes none with a given
-- identifier and remembers it.
use squillion_mqtt.Prelude.{
  ℕ, ◌+◌, Bool, true, false, ◌&&◌, List, [], ◌∷◌, ◌++◌, Option, none, some, String, ◌≡◌, ◌==◌, refl,
  if◌then◌else◌, arith, Bool-cases, inl, inr,
}
use squillion_mqtt.Result.{Result, ok, err}
use squillion_mqtt.Messages.Publish.{MqttMessagePublish}
use squillion_mqtt.Messages.Codec.{MqttMessage}
use squillion_mqtt.Sessions.State.{contains, MqttSession, ClientTx, SessionError, RouterMessage}
use squillion_mqtt.Sessions.Machine.{
  PersistCall, Outside, Machine, Sent, Step, pure, fail, continue_with, ◌>>=◌, ◌>>◌, attempt, get,
  modify, give, outside, persist, send_client_message, send_message_router,
}

-- A PUBLISH of QoS 2 with this identifier.
abbrev pub is_second : ℕ → MqttMessagePublish → Bool
is_second mid m = m.qos == 2 && m.identifier == mid

-- How many of them the router got.
abbrev pub routed : ℕ → List Sent → ℕ
routed mid [] = 0
routed mid (Sent.to_router (RouterMessage.publish session m) ∷ sent) =
    (if is_second mid m then 1 else 0) + routed mid sent
routed mid (_ ∷ sent) = routed mid sent

pub routed-append :
    (mid : ℕ) (xs ys : List Sent) → routed mid (xs ++ ys) ≡ routed mid xs + routed mid ys
routed-append mid [] ys = omega arith
routed-append mid (Sent.to_client tx x ∷ xs) ys = routed-append mid xs ys
routed-append mid (Sent.to_router (RouterMessage.publish session m) ∷ xs) ys =
    omega (arith, routed-append mid xs ys)
routed-append mid (Sent.to_router (RouterMessage.subscribe session topic qos) ∷ xs) ys =
    routed-append mid xs ys
routed-append mid (Sent.to_router (RouterMessage.unsubscribe session topics) ∷ xs) ys =
    routed-append mid xs ys

-- The identifier is remembered, and `n` messages were routed.
pub record Remembered {W : Type 0} (mid n : ℕ) (m : Machine W) : Type 0 where
  pub incoming : contains mid m.session.qos_incoming ≡ true
  pub count : routed mid m.sent ≡ n

-- `p` neither forgets the identifier nor routes another message with it.
pub record Remembers {W A : Type 0} (mid : ℕ) (p : Step W A) : Type 0 where
  pub at : (n : ℕ) (m : Machine W) → Remembered mid n m → Remembered mid n ((p m).1)

module _ {W : Type 0} {mid : ℕ} where
  pub Remembers-pure : {A : Type 0} (a : A) → Remembers {W = W} mid (pure a)
  Remembers-pure a = record { at = λ n m r. r }

  pub Remembers-fail : {A : Type 0} (e : SessionError) → Remembers {W = W} {A = A} mid (fail e)
  Remembers-fail e = record { at = λ n m r. r }

  pub Remembers-get : Remembers {W = W} mid get
  Remembers-get = record { at = λ n m r. r }

  pub Remembers-modify :
      (f : MqttSession → MqttSession)
      → ((s : MqttSession)
          → contains mid s.qos_incoming ≡ true
          → contains mid ((f s).qos_incoming) ≡ true)
      → Remembers {W = W} mid (modify f)
  Remembers-modify f h = record {
    at = λ n m r. record { incoming = h m.session r.incoming; count = r.count };
  }

  continued :
      {A B : Type 0} (n : ℕ) (x : Result SessionError A × Machine W) (f : A → Step W B)
      → Remembered mid n (x.1)
      → ((a : A) → Remembers mid (f a))
      → Remembered mid n ((continue_with x f).1)
  continued n (ok a, m) f r h = (h a).at n m r
  continued n (err e, m) f r h = r

  pub Remembers-bind :
      {A B : Type 0} (p : Step W A) (f : A → Step W B)
      → Remembers mid p
      → ((a : A) → Remembers mid (f a))
      → Remembers mid (p >>= f)
  Remembers-bind p f h k = record { at = λ n m r. continued n (p m) f (h.at n m r) k }

  pub Remembers-then :
      {B : Type 0} (p : Step W (Unit {0})) (q : Step W B)
      → Remembers mid p
      → Remembers mid q
      → Remembers mid (p >> q)
  Remembers-then p q h k = Remembers-bind p (λ _. q) h (λ _. k)

  pub Remembers-attempt : {A : Type 0} (p : Step W A) → Remembers mid p → Remembers mid (attempt p)
  Remembers-attempt p h = record { at = λ n m r. h.at n m r }

  pub Remembers-if :
      {A : Type 0} (b : Bool) (p q : Step W A)
      → Remembers mid p
      → Remembers mid q
      → Remembers mid (if b then p else q)
  Remembers-if true p q hp hq = hp
  Remembers-if false p q hp hq = hq

  pub Remembers-give : {A : Type 0} (r : Result SessionError A) → Remembers {W = W} mid (give r)
  Remembers-give (ok a) = Remembers-pure a
  Remembers-give (err e) = Remembers-fail e

  pub Remembers-persist : (o : Outside W) (c : PersistCall) → Remembers mid (persist o c)
  unfolding persist
  Remembers-persist o c = record { at = λ n m r. go (o.persist c m.world) n m r }
    where
      go :
          (x : Result String (Unit {0}) × W) (n : ℕ) (m : Machine W)
          → Remembered mid n m
          → Remembered mid n (((outside {W = W} (λ _. x)) m).1)
      go (ok u, w) n m r = record { incoming = r.incoming; count = r.count }
      go (err e, w) n m r = record { incoming = r.incoming; count = r.count }

  pub Remembers-send_client_message :
      (o : Outside W) (x : MqttMessage) → Remembers mid (send_client_message o x)
  unfolding send_client_message
  Remembers-send_client_message o x = record { at = λ n m r. choose n m r m.session.client refl }
    where
      choose :
          (n : ℕ) (m : Machine W)
          → Remembered mid n m
          → (c : Option ClientTx) → m.session.client ≡ c
          → Remembered mid n ((send_client_message o x m).1)
      choose n m r none e = rw e (record { incoming = r.incoming; count = r.count })
      choose n m r (some tx) e = elim (Bool-cases ((o.send_client tx x m.world).0)) [
        | inl taken ↦
            rw (e, taken)
              (record {
                incoming = r.incoming;
                count = omega (arith, routed-append mid m.sent (Sent.to_client tx x ∷ []), r.count);
              })
        | inr closed ↦ rw (e, closed) (record { incoming = r.incoming; count = r.count })
      ]

  -- Every message to the router but a PUBLISH of QoS 2 with the identifier.
  pub Remembers-send_message_router :
      (o : Outside W) (x : RouterMessage)
      → routed mid (Sent.to_router x ∷ []) ≡ 0
      → Remembers mid (send_message_router o x)
  unfolding send_message_router
  Remembers-send_message_router o x h = record {
    at = λ n m r. elim (Bool-cases ((o.send_router x m.world).0)) [
      | inl taken ↦ rw taken (record {
        incoming = r.incoming;
        count = omega (arith, routed-append mid m.sent (Sent.to_router x ∷ []), h, r.count);
      })
      | inr closed ↦ rw closed (record { incoming = r.incoming; count = r.count })
    ];
  }

pub ruleset once_rules = (
  Remembers-bind, Remembers-then, Remembers-pure, Remembers-fail, Remembers-get, Remembers-attempt,
  Remembers-if, Remembers-give, Remembers-persist, Remembers-send_client_message,
)
