-- ===== src/Broker/Subscriptions/Reached.antt =====
-- broker/topics.rs: what `get_topic` and a write through its reference do to the tree.
use squillion_mqtt.Prelude.{
  ℕ, Bool, true, false, Option, none, some, List, ◌∷◌, ◌≡◌, refl, sym, ap, subst, ◌∙◌, inl, inr,
  if◌then◌else◌, Bool-cases, ◌≢◌, String,
}
use squillion_mqtt.Prelude.Split.{split_some}
use squillion_mqtt.Action.{Ensures, Ensures-bind, Ensures-weaken}
use squillion_mqtt.Broker.Topics.{get_internal_id, Topic, topics}
use squillion_mqtt.Broker.Topics.Filters.{node_at}
use squillion_mqtt.Broker.Store.{BrokerError, PersistProvider, Store, Ensures-call}
use squillion_mqtt.Broker.Subscriptions.{levels, get_topic}
use squillion_mqtt.Broker.Subscriptions.Node.{is_none, write, reserve, is_new, complete, last_node}
use squillion_mqtt.Broker.Subscriptions.Views.{
  Payload, payload, payload_at, filled, fill, path_eq, path_eq→eq, path_eq_refl,
}
use squillion_mqtt.Broker.Subscriptions.Loops.{reserve-view, node_at-complete, opened-view}
use squillion_mqtt.Broker.Subscriptions.Writes.{write-view}

-- A tree that differs from another at one path only, where it holds `v`.
pub record IsUpdate (p : List (List ℕ)) (v : Payload) (t t' : Topic) : Type 0 where
  pub view : (q : List (List ℕ)) → payload_at q t' ≡ (if path_eq q p then v else payload_at q t)

-- No subscription and no message has changed, and no identifier has gone.
pub record Still (t t' : Topic) : Type 0 where
  pub same_clients : (q : List (List ℕ)) → (payload_at q t').clients ≡ (payload_at q t).clients
  pub same_message : (q : List (List ℕ)) → (payload_at q t').message ≡ (payload_at q t).message
  pub registered :
      (q : List (List ℕ))
      → is_none (payload_at q t').internal_id ≡ true
      → is_none (payload_at q t).internal_id ≡ true

-- The reference that `get_topic` returns is that of the node `n`.
pub record Reached (p : List (List ℕ)) (t t' n : Topic) : Type 0 where
  pub there : node_at p t' ≡ some n
  pub fresh : ℕ
  pub update : IsUpdate p (fill fresh (payload_at p t)) t t'

pub IsUpdate-self :
    {p : List (List ℕ)} {v : Payload} {t t' : Topic} → IsUpdate p v t t' → payload_at p t' ≡ v
IsUpdate-self {p} u = u.view p ∙ rw (path_eq_refl p)

pub payload-Reached :
    {p : List (List ℕ)} {t t' n : Topic} (r : Reached p t t' n)
    → payload (some n) ≡ fill r.fresh (payload_at p t)
payload-Reached r = sym (ap payload r.there) ∙ IsUpdate-self r.update

pub Still-refl : {t : Topic} → Still t t
Still-refl = record { same_clients = λ q. refl; same_message = λ q. refl; registered = λ q h. h }

pub Still-trans : {t u v : Topic} → Still t u → Still u v → Still t v
Still-trans a b = record {
  same_clients = λ q. b.same_clients q ∙ a.same_clients q;
  same_message = λ q. b.same_message q ∙ a.same_message q;
  registered = λ q h. a.registered q (b.registered q h);
}

filled_some : (i : ℕ) (o : Option ℕ) → is_none (filled i o) ≡ true → is_none o ≡ true
filled_some i none h = refl
filled_some i (some j) h = h

pub Reached-Still : {p : List (List ℕ)} {t t' n : Topic} → Reached p t t' n → Still t t'
Reached-Still {p} {t} {t'} r = record {
  same_clients = λ q. at (λ v. v.clients ≡ (payload_at q t).clients) q (λ e. rw e) refl;
  same_message = λ q. at (λ v. v.message ≡ (payload_at q t).message) q (λ e. rw e) refl;
  registered = λ q.
      at (λ v. is_none v.internal_id ≡ true → is_none (payload_at q t).internal_id ≡ true) q
        (λ e h. rw e (filled_some r.fresh _ h)) (λ h. h);
}
  where
    at :
        (P : Payload → Type 0) (q : List (List ℕ))
        → (q ≡ p → P (fill r.fresh (payload_at p t)))
        → P (payload_at q t)
        → P (payload_at q t')
    at P q here aside = elim (Bool-cases (path_eq q p)) [
      | inl same ↦ rw (r.update.view q) (rw same (here (path_eq→eq q p same)))
      | inr other ↦ rw (r.update.view q) (rw other aside)
    ]

-- A write through a reference, seen from the tree in which `get_topic` found it.
pub written :
    {p : List (List ℕ)} {t t' n : Topic} (f : Topic → Topic)
    → ((u : Topic) → topics (f u) ≡ topics u)
    → Reached p t t' n
    → IsUpdate p (payload (some (f n))) t (write p f t')
written {p} {t} {t'} {n} f keeps r = record {
  view = λ q. write-view f keeps p t' n r.there q ∙ rest q;
}
  where
    rest :
        (q : List (List ℕ))
        → (if path_eq q p then payload (some (f n)) else payload_at q t')
          ≡ (if path_eq q p then payload (some (f n)) else payload_at q t)
    rest q = elim (Bool-cases (path_eq q p)) [
      | inl same ↦ rw same
      | inr other ↦ rw (other, r.update.view q) (rw other)
    ]

fill_twice : (i j : ℕ) (v : Payload) → fill j (fill i v) ≡ fill i v
fill_twice i j v = go v.internal_id
  where
    go :
        (o : Option ℕ)
        → record v { internal_id = filled j (filled i o) } ≡ record v { internal_id = filled i o }
    go none = refl
    go (some k) = refl

-- A topic that is looked up again.
pub Reached-trans :
    {p : List (List ℕ)} {t u t' n n' : Topic}
    → Reached p t u n
    → Reached p u t' n'
    → Reached p t t' n'
Reached-trans {p} {t} {u} {t'} a b = record {
  there = b.there;
  fresh = a.fresh;
  update = record { view = λ q. b.update.view q ∙ rest q };
}
  where
    rest :
        (q : List (List ℕ))
        → (if path_eq q p then fill b.fresh (payload_at p u) else payload_at q u)
          ≡ (if path_eq q p then fill a.fresh (payload_at p t) else payload_at q t)
    rest q = elim (Bool-cases (path_eq q p)) [
      | inl same ↦
          rw same (
            ap (fill b.fresh) (IsUpdate-self a.update)
            ∙ fill_twice a.fresh b.fresh (payload_at p t))
      | inr other ↦ rw (other, a.update.view q) (rw other)
    ]

filled_is_some : (i : ℕ) (o : Option ℕ) → (j : ℕ) × (filled i o ≡ some j)
filled_is_some i none = (i, refl)
filled_is_some i (some j) = (j, refl)

-- The `unwrap` of the identifier behind `get_topic`.
pub identified :
    {p : List (List ℕ)} {t t' n : Topic} → Reached p t t' n → (j : ℕ) × (get_internal_id n ≡ some j)
identified {p} {t} r =
    let (j, e) = filled_is_some r.fresh (payload_at p t).internal_id in
    (j, ap (λ (v : Payload). v.internal_id) (payload-Reached r) ∙ e)

-- What a caller of `get_topic` relies on after an error: the database has failed.
pub record Failed (t : Topic) (e : BrokerError) (t' : Topic) : Type 0 where
  pub not_panic : e ≢ BrokerError.unwrap_panic
  pub still : Still t t'

pub Failed-after :
    {t u : Topic} {e : BrokerError} {t' : Topic} → Still t u → Failed u e t' → Failed t e t'
Failed-after a f = record { not_panic = f.not_panic; still = Still-trans a f.still }

pub Failed-call :
    {t t' : Topic} (x : String) → Still t t' → Failed t (BrokerError.persist_error x) t'
Failed-call x a = record { not_panic = λ e. cc; still = a }

reserve-Still : (p : List (List ℕ)) (t : Topic) → Still t (reserve p t)
reserve-Still p t = record {
  same_clients = λ q. ap (λ (v : Payload). v.clients) (reserve-view p t q);
  same_message = λ q. ap (λ (v : Payload). v.message) (reserve-view p t q);
  registered = λ q h. rw (reserve-view p t q) at h;
}

pub levels_some : (name : List ℕ) → (l : List ℕ) × (ls : List (List ℕ)) × (levels name ≡ l ∷ ls)
levels_some name = split_some b'/' name

completed :
    (name : List ℕ) (t : Topic) (i : ℕ) (b : Bool)
    → is_new (levels name) t ≡ b
    → Reached
        (levels name)
        t
        (complete b i (levels name) (reserve (levels name) t))
        (last_node b i (levels name) (reserve (levels name) t))
completed name t i b e = record {
  there = node_at-complete b i (levels name) (reserve (levels name) t);
  fresh = i;
  update = record {
    view = let (l, ls, s) = levels_some name in rw (← e) (rw s (opened-view i l ls t));
  };
}

module _ {W : Type 0} (o : PersistProvider W) where
  -- `get_topic` finds or makes the node of its topic, on every path.
  pub get_topic-Reached :
      (name : List ℕ) (s : Store W)
      → Ensures
          (λ n s'. Reached (levels name) s.topics s'.topics n)
          (λ e s'. Failed s.topics e s'.topics)
          (get_topic o name s)
  unfolding get_topic
  get_topic-Reached name s = elim (Bool-cases (is_new (levels name) s.topics)) [
    | inl new_topic ↦ rw new_topic (
        Ensures-bind {P = λ i s'. s'.topics ≡ reserve (levels name) s.topics}
          (Ensures-call _ (λ i w. refl)
            (λ x w. Failed-call x (reserve-Still (levels name) s.topics)) (o.persist_topic name))
          (λ i s' e. rw e (Ensures.returned (completed name s.topics i true new_topic))))
    | inr old ↦ rw old (Ensures.returned (completed name s.topics 0 false old))
  ]

  -- The second call of `get_topic` in an operation.
  pub get_topic_again :
      (name : List ℕ) {t n : Topic} (s : Store W)
      → Reached (levels name) t s.topics n
      → Ensures
          (λ n' s'. Reached (levels name) t s'.topics n')
          (λ e s'. Failed t e s'.topics)
          (get_topic o name s)
  get_topic_again name s r =
      Ensures-weaken (λ n' s' r'. Reached-trans r r') (λ e s' f. Failed-after (Reached-Still r) f)
        (get_topic-Reached name s)

  -- A call of `get_topic` in a tree that is known.
  pub get_topic_from :
      (name : List ℕ) {t : Topic} (s : Store W)
      → s.topics ≡ t
      → Ensures
          (λ n s'. Reached (levels name) t s'.topics n)
          (λ e s'. Failed t e s'.topics)
          (get_topic o name s)
  get_topic_from name s same =
      subst
        (λ t.
          Ensures (λ n s'. Reached (levels name) t s'.topics n) (λ e s'. Failed t e s'.topics)
            (get_topic o name s))
        same (get_topic-Reached name s)
