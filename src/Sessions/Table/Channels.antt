-- ===== src/Sessions/Table/Channels.antt =====
-- sessions/mod.rs: which channel a session has.
use squillion_mqtt.Prelude.{
  ℕ, ◌<◌, ◌≤◌, true, false, Option, none, some, List, [], ◌∷◌, ◌++◌, ◌≡◌, refl, if◌then◌else◌,
  bytes_eq, bytes_eq_iff, bytes_eq_refl, bytes_eq→eq, arith, Bool-cases, inl, inr, ◌⊎◌, ap, ◌∙◌,
  sym,
}
use squillion_mqtt.Result.{ok}
use squillion_mqtt.Sessions.Table.{
  new, Session, Sessions, get_entry, put_entry, get_session_tx, start_session, enter_started,
  get_session, serve, stopped, stopped_at,
}

pub get_entry-put_entry :
    (k id : List ℕ) (x : Session) (xs : List (List ℕ × Session))
    → get_entry k (put_entry id x xs) ≡ (if bytes_eq k id then some x else get_entry k xs)
unfolding get_entry put_entry
get_entry-put_entry k id x [] = refl
get_entry-put_entry k id x ((name, old) ∷ xs) = ground (
  arith,
  bytes_eq_iff k id,
  bytes_eq_iff id name,
  bytes_eq_iff k name,
  get_entry-put_entry k id x xs,
)

-- Every channel in the table was made before, and no two sessions share one.
pub record IsDistinct (t : Sessions) : Type 0 where
  pub made :
      (id : List ℕ) (x : Session) → get_entry id t.sessions ≡ some x → x.session_tx < t.next_channel
  pub apart :
      (a b : List ℕ) (x y : Session)
      → get_entry a t.sessions ≡ some x
      → get_entry b t.sessions ≡ some y
      → x.session_tx ≡ y.session_tx
      → a ≡ b

-- What `get_session` leaves behind: the session runs behind the channel it returns; the other sessions are
-- as they were; and a worker was started only for a session that did not run.
pub record IsServed (id : List ℕ) (tx : ℕ) (t t' : Sessions) : Type 0 where
  pub running : get_session_tx id t' ≡ some tx
  pub others :
      (k : List ℕ) → bytes_eq k id ≡ false → get_entry k t'.sessions ≡ get_entry k t.sessions
  pub once :
      ((get_session_tx id t ≡ some tx) × (t' ≡ t))
      ⊎ ((get_session_tx id t ≡ none) × (t'.workers ≡ t.workers ++ ((id, tx) ∷ [])))

started :
    (id : List ℕ) (t : Sessions)
    → get_session_tx id t ≡ none
    → (tx : ℕ) × (t' : Sessions) × (enter_started id (start_session id t) ≡ (ok tx, t'))
      × IsServed id tx t t'
unfolding enter_started start_session get_session_tx
started id t gone = (
  t.next_channel,
  _,
  refl,
  record {
    running = rw (get_entry-put_entry id id _ t.sessions, bytes_eq_refl id);
    others = λ k n. rw (get_entry-put_entry k id _ t.sessions) (rw n);
    once = inr (gone, refl);
  },
)

-- `get_session` always returns a channel, behind which the session runs; a session that runs keeps its
-- channel and its worker, and no other session is touched.
pub get_session-IsServed :
    (id : List ℕ) (t : Sessions)
    → (tx : ℕ) × (t' : Sessions) × (get_session id t ≡ (ok tx, t')) × IsServed id tx t t'
unfolding get_session serve get_session_tx
get_session-IsServed id t = at (get_entry id t.sessions) refl
  where
    at :
        (e : Option Session)
        → get_entry id t.sessions ≡ e
        → (tx : ℕ) × (t' : Sessions) × (serve id e t ≡ (ok tx, t')) × IsServed id tx t t'
    at none e = started id t (rw e)
    at (some x) e = elim (Bool-cases x.running) [
      | inr idle ↦ rw idle (started id t (rw e (rw idle)))
      | inl runs ↦ (
        x.session_tx,
        t,
        rw runs,
        record {
          running = rw e (rw runs);
          others = λ k n. refl;
          once = inl (rw e (rw runs), refl);
        },
      )
    ]

entry_cases :
    (k id : List ℕ) (x y : Session) (xs : List (List ℕ × Session))
    → get_entry k (put_entry id x xs) ≡ some y
    → ((k ≡ id) × (x ≡ y)) ⊎ ((bytes_eq k id ≡ false) × (get_entry k xs ≡ some y))
entry_cases k id x y xs e = elim (Bool-cases (bytes_eq k id)) [
  | inl same ↦
      let f : some x ≡ some y = rw (get_entry-put_entry k id x xs, same) at e in
      inl (bytes_eq→eq k id same, (cc))
  | inr other ↦ inr (other, rw (get_entry-put_entry k id x xs, other) at e)
]

-- An entry that is put with a channel of its own, or with the one that it has.
put-IsDistinct :
    (id : List ℕ) (x : Session) (t t' : Sessions)
    → t'.sessions ≡ put_entry id x t.sessions
    → t.next_channel ≤ t'.next_channel
    → x.session_tx < t'.next_channel
    → ((k : List ℕ) (y : Session)
        → get_entry k t.sessions ≡ some y
        → y.session_tx ≡ x.session_tx
        → k ≡ id)
    → IsDistinct t
    → IsDistinct t'
put-IsDistinct id x t t' put grows below own d = record {
  made = λ k y e. elim (entry_cases k id x y t.sessions (rw put at e)) [
    | inl (same, at) ↦ rw (← at) below
    | inr (other, at) ↦ omega (arith, d.made k y at)
  ];
  apart = λ a b y z ea eb n. elim (entry_cases a id x y t.sessions (rw put at ea)) [
    | inl (sa, xa) ↦ elim (entry_cases b id x z t.sessions (rw put at eb)) [
      | inl (sb, xb) ↦ sa ∙ sym sb
      | inr (ob, zb) ↦ sa ∙ sym (own b z zb (sym n ∙ ap (λ (v : Session). v.session_tx) (sym xa)))
    ]
    | inr (oa, ya) ↦ elim (entry_cases b id x z t.sessions (rw put at eb)) [
      | inl (sb, xb) ↦ own a y ya (n ∙ ap (λ (v : Session). v.session_tx) (sym xb)) ∙ sym sb
      | inr (ob, zb) ↦ d.apart a b y z ya zb n
    ]
  ];
}

entered-IsDistinct :
    (id : List ℕ) (t : Sessions)
    → IsDistinct t
    → IsDistinct (enter_started id (start_session id t)).1
unfolding enter_started start_session
entered-IsDistinct id t d =
    put-IsDistinct id (record { session_tx = t.next_channel; running = true }) t _ refl
      (omega arith) (omega arith) (λ k y e n. absurd (omega (arith, d.made k y e))) d

-- `get_session` never hands out the channel of another session, whatever sessions have ended.
pub get_session-IsDistinct :
    (id : List ℕ) (t : Sessions) → IsDistinct t → IsDistinct (get_session id t).1
unfolding get_session serve
get_session-IsDistinct id t d = at (get_entry id t.sessions)
  where
    at : (e : Option Session) → IsDistinct (serve id e t).1
    at none = entered-IsDistinct id t d
    at (some x) = elim (Bool-cases x.running) [
      | inl runs ↦ rw runs d
      | inr idle ↦ rw idle (entered-IsDistinct id t d)
    ]

pub stopped-IsDistinct : (id : List ℕ) (t : Sessions) → IsDistinct t → IsDistinct (stopped id t)
unfolding stopped stopped_at
stopped-IsDistinct id t d = at (get_entry id t.sessions) refl
  where
    at : (e : Option Session) → get_entry id t.sessions ≡ e → IsDistinct (stopped_at id e t)
    at none e = d
    at (some x) e =
        put-IsDistinct id (record x { running = false }) t _ refl (omega arith) (d.made id x e)
          (λ k y f n. d.apart k id y x f e n) d

-- What happens to the table: a session is asked for, or its worker ends.
pub data TableEvent : Type 0 where
  asked ended : List ℕ → TableEvent

unfoldable pub run_table : List TableEvent → Sessions → Sessions
run_table [] t = t
run_table (asked id ∷ events) t = run_table events (get_session id t).1
run_table (ended id ∷ events) t = run_table events (stopped id t)

kept-IsDistinct :
    (events : List TableEvent) (t : Sessions) → IsDistinct t → IsDistinct (run_table events t)
unfolding run_table
kept-IsDistinct [] t d = d
kept-IsDistinct (asked id ∷ events) t d = kept-IsDistinct events _ (get_session-IsDistinct id t d)
kept-IsDistinct (ended id ∷ events) t d = kept-IsDistinct events _ (stopped-IsDistinct id t d)

pub new-IsDistinct : IsDistinct new
unfolding new get_entry
new-IsDistinct = record { made = λ id x e. cc; apart = λ a b x y ea eb n. cc }

-- In a table that has served any sequence of requests, with workers that ended at any time between
-- them, no two sessions have the same channel, and every channel was made before.
pub run_table-IsDistinct : (events : List TableEvent) → IsDistinct (run_table events new)
run_table-IsDistinct events = kept-IsDistinct events new new-IsDistinct
