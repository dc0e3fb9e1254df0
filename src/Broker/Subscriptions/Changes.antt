-- ===== src/Broker/Subscriptions/Changes.antt =====
-- broker/topics.rs: changes of the clients and of the retained message of one topic, and the invariant
-- of the tree.
use squillion_mqtt.Prelude.{
  some, ◌∷◌, length, ◌==◌, arith, ℕ, Bool, true, false, Option, none, List, [], ◌≡◌, refl, ap, ◌∙◌,
  inl, inr, ◌⊎◌, ◌&&◌, if◌then◌else◌, Bool-cases, All,
}
use squillion_mqtt.Messages.Publish.{MqttMessagePublish}
use squillion_mqtt.Broker.Topics.{Topic, topics, clients, message, get_internal_id}
use squillion_mqtt.Broker.Subscriptions.Node.{is_none, write}
use squillion_mqtt.Broker.Subscriptions.Views.{
  Payload, payload_at, path_eq, path_eq→eq, path_eq_refl,
}
use squillion_mqtt.Broker.Subscriptions.Reached.{IsUpdate, Still, Reached, identified, written}
use squillion_mqtt.Broker.Subscriptions.Clients.{Clients, IsKeyed}

-- Nobody subscribes to the topic, and it retains no message.
abbrev pub IsBlank : Payload → Type 0
IsBlank v = (v.clients ≡ []) × (v.message ≡ none)

abbrev pub SameUse : Payload → Payload → Type 0
SameUse v v' = (v'.clients ≡ v.clients) × (v'.message ≡ v.message)

-- The clients and the message at one path are changed, and a topic in use is a stored one, if it was.
pub record Change (p : List (List ℕ)) (cs : Clients) (m : Option MqttMessagePublish) (t t' : Topic)
    : Type 0 where
  pub clients :
      (q : List (List ℕ))
      → (payload_at q t').clients ≡ (if path_eq q p then cs else (payload_at q t).clients)
  pub message :
      (q : List (List ℕ))
      → (payload_at q t').message ≡ (if path_eq q p then m else (payload_at q t).message)
  pub registered :
      (q : List (List ℕ))
      → is_none (payload_at q t').internal_id ≡ true
      → ((is_none (payload_at q t).internal_id ≡ true) × SameUse (payload_at q t) (payload_at q t'))
        ⊎ IsBlank (payload_at q t')

pub Change-Still :
    {p : List (List ℕ)} {cs : Clients} {m : Option MqttMessagePublish} {t u t' : Topic}
    → Change p cs m t u
    → Still u t'
    → Change p cs m t t'
Change-Still c s = record {
  clients = λ q. s.same_clients q ∙ c.clients q;
  message = λ q. s.same_message q ∙ c.message q;
  registered = λ q h. elim (c.registered q (s.registered q h)) [
    | inl (i, (a, b)) ↦ inl (i, (s.same_clients q ∙ a, s.same_message q ∙ b))
    | inr (a, b) ↦ inr (s.same_clients q ∙ a, s.same_message q ∙ b)
  ];
}

pub Change-update :
    {p : List (List ℕ)} {v : Payload} {t t' : Topic}
    → IsUpdate p v t t'
    → (is_none v.internal_id ≡ true
        → ((is_none (payload_at p t).internal_id ≡ true) × SameUse (payload_at p t) v) ⊎ IsBlank v)
    → Change p v.clients v.message t t'
Change-update {p} {v} {t} {t'} u h = record {
  clients =
      λ q. ap (λ (w : Payload). w.clients) (u.view q) ∙ pushed (λ w. w.clients) (path_eq q p) q;
  message =
      λ q. ap (λ (w : Payload). w.message) (u.view q) ∙ pushed (λ w. w.message) (path_eq q p) q;
  registered = λ q. rw (u.view q) (at q);
}
  where
    pushed :
        {A : Type 0} (f : Payload → A) (b : Bool) (q : List (List ℕ))
        → f (if b then v else payload_at q t) ≡ (if b then f v else f (payload_at q t))
    pushed f true q = refl
    pushed f false q = refl

    at :
        (q : List (List ℕ))
        → let w = if path_eq q p then v else payload_at q t in
          is_none w.internal_id ≡ true
          → ((is_none (payload_at q t).internal_id ≡ true) × SameUse (payload_at q t) w) ⊎ IsBlank w
    at q = elim (Bool-cases (path_eq q p)) [
      | inl same ↦ let e : q ≡ p = path_eq→eq q p same in rw same (rw e h)
      | inr other ↦ rw other (λ n. inl (n, (refl, refl)))
    ]

pub Change-trans :
    {p : List (List ℕ)} {cs cs' : Clients} {m m' : Option MqttMessagePublish} {t u t' : Topic}
    → Change p cs m t u
    → Change p cs' m' u t'
    → Change p cs' m' t t'
Change-trans {p} {cs} {cs'} {m} {m'} {t} {u} {t'} a b = record {
  clients = λ q. b.clients q ∙ over (path_eq q p) _ _ cs' (a.clients q);
  message = λ q. b.message q ∙ over (path_eq q p) _ _ m' (a.message q);
  registered = λ q h. elim (b.registered q h) [
    | inl (i, (x, y)) ↦ elim (a.registered q i) [
      | inl (j, (x', y')) ↦ inl (j, (x ∙ x', y ∙ y'))
      | inr (x', y') ↦ inr (x ∙ x', y ∙ y')
    ]
    | inr blank ↦ inr blank
  ];
}
  where
    over :
        {A : Type 0} (b : Bool) {x : A} (y z w : A)
        → x ≡ (if b then y else z)
        → (if b then w else x) ≡ (if b then w else z)
    over true y z w e = refl
    over false y z w e = e

-- A topic that is in use has an identifier of the database, and the tables of clients are keyed.
pub record IsSound (t : Topic) : Type 0 where
  pub stored :
      (q : List (List ℕ)) → is_none (payload_at q t).internal_id ≡ true → IsBlank (payload_at q t)
  pub keyed : (q : List (List ℕ)) → All IsKeyed (payload_at q t).clients

pub Still-IsSound : {t t' : Topic} → Still t t' → IsSound t → IsSound t'
Still-IsSound s h = record {
  stored = λ q n.
      let (a, b) = h.stored q (s.registered q n) in (s.same_clients q ∙ a, s.same_message q ∙ b);
  keyed = λ q. rw (s.same_clients q) (h.keyed q);
}

pub Change-IsSound :
    {p : List (List ℕ)} {cs : Clients} {m : Option MqttMessagePublish} {t t' : Topic}
    → Change p cs m t t'
    → All IsKeyed cs
    → IsSound t
    → IsSound t'
Change-IsSound {p} {cs} c k h = record {
  stored = λ q n. elim (c.registered q n) [
    | inl (i, (a, b)) ↦ let (x, y) = h.stored q i in (a ∙ x, b ∙ y)
    | inr blank ↦ blank
  ];
  keyed = λ q.
      rw (c.clients q) (elim (Bool-cases (path_eq q p)) [
        | inl same ↦ rw same k
        | inr other ↦ rw other (h.keyed q)
      ]);
}

pub Change-self :
    {p : List (List ℕ)} {cs : Clients} {m : Option MqttMessagePublish} {t t' : Topic}
    → Change p cs m t t'
    → ((payload_at p t').clients ≡ cs) × ((payload_at p t').message ≡ m)
Change-self {p} c = (c.clients p ∙ rw (path_eq_refl p), c.message p ∙ rw (path_eq_refl p))

-- The test of a topic that is deleted.
pub deletable :
    (m : Option MqttMessagePublish) (cs : Clients)
    → (is_none m && length cs == 0) ≡ true
    → (cs ≡ []) × (m ≡ none)
deletable none [] h = (refl, refl)
deletable none (c ∷ cs) h = absurd (ground arith)
deletable (some m) cs h = cc

pub Change-refl :
    {p : List (List ℕ)} {t : Topic} → Change p (payload_at p t).clients (payload_at p t).message t t
Change-refl {p} {t} =
    Change-update (record { view = λ q. at q (Bool-cases (path_eq q p)) })
      (λ n. inl (n, (refl, refl)))
  where
    at :
        (q : List (List ℕ))
        → (path_eq q p ≡ true) ⊎ (path_eq q p ≡ false)
        → payload_at q t ≡ (if path_eq q p then payload_at p t else payload_at q t)
    at q (inl same) = let e : q ≡ p = path_eq→eq q p same in rw same (rw e)
    at q (inr other) = rw other

-- A write behind `get_topic` that keeps the identifier.
pub Change-written :
    {p : List (List ℕ)} {t t' n : Topic} (f : Topic → Topic)
    → ((u : Topic) → topics (f u) ≡ topics u)
    → ((u : Topic) → get_internal_id (f u) ≡ get_internal_id u)
    → Reached p t t' n
    → Change p (clients (f n)) (message (f n)) t (write p f t')
Change-written {n = n} f keeps same r =
    let (j, e) = identified r in
    Change-update (written f keeps r)
      (λ h. absurd (let k : false ≡ true = rw (same n, e) at h in (cc)))
