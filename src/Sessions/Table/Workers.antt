-- ===== src/Sessions/Table/Workers.antt =====
-- sessions/mod.rs: how many workers a session has.
use squillion_mqtt.Prelude.{
  ℕ, ◌+◌, false, Option, none, some, List, [], ◌∷◌, ◌++◌, ◌≡◌, refl, ap, ◌∙◌, if◌then◌else◌,
  bytes_eq, bytes_eq_iff, arith, Bool-cases, inl, inr,
}
use squillion_mqtt.Sessions.Table.{
  new, Session, Sessions, get_entry, running_tx, get_session_tx, get_session, stopped, stopped_at,
}
use squillion_mqtt.Sessions.Table.Channels.{
  TableEvent, run_table, IsServed, get_session-IsServed, get_entry-put_entry,
}

-- The workers that were started for a session.
abbrev pub workers_of : List ℕ → List (List ℕ × ℕ) → ℕ
workers_of id [] = 0
workers_of id ((name, tx) ∷ ws) = (if bytes_eq id name then 1 else 0) + workers_of id ws

abbrev pub one_if : Option ℕ → ℕ
one_if none = 0
one_if (some tx) = 1

-- The ends of a worker of the session: an end while the session runs.
pub ends_of : List ℕ → List TableEvent → Sessions → ℕ
ends_of id [] t = 0
ends_of id (TableEvent.asked name ∷ events) t = ends_of id events (get_session name t).1
ends_of id (TableEvent.ended name ∷ events) t =
    (if bytes_eq id name then one_if (get_session_tx id t) else 0)
    + ends_of id events (stopped name t)

workers_of-append :
    (id : List ℕ) (ws vs : List (List ℕ × ℕ))
    → workers_of id (ws ++ vs) ≡ workers_of id ws + workers_of id vs
workers_of-append id [] vs = omega arith
workers_of-append id ((name, tx) ∷ ws) vs = omega (arith, workers_of-append id ws vs)

-- The workers that run: those that were started and have not ended.
abbrev Counts : List ℕ → ℕ → Sessions → Type 0
Counts id ends t = workers_of id t.workers ≡ ends + one_if (get_session_tx id t)

served-Counts :
    (id name : List ℕ) (tx : ℕ) (t t' : Sessions) (ends : ℕ)
    → IsServed name tx t t'
    → Counts id ends t
    → Counts id ends t'
unfolding get_session_tx
served-Counts id name tx t t' ends s c = elim s.once [
  | inl (same, e) ↦ rw e c
  | inr (gone, w) ↦ elim (Bool-cases (bytes_eq id name)) [
    | inl eq ↦
        let e : id ≡ name = (bytes_eq_iff id name).0 eq in
        let before : one_if (get_session_tx id t) ≡ 0 = rw (e, gone) refl in
        let after : one_if (get_session_tx id t') ≡ 1 = rw (e, s.running) refl in
        let one : workers_of id ((name, tx) ∷ []) ≡ 1 = rw eq refl in
        ap (workers_of id) w
        ∙ workers_of-append id t.workers ((name, tx) ∷ [])
        ∙ omega (arith, c, before, after, one)
    | inr other ↦
        let same : one_if (get_session_tx id t') ≡ one_if (get_session_tx id t) =
          ap (λ e. one_if (running_tx e)) (s.others id other) in
        let zero : workers_of id ((name, tx) ∷ []) ≡ 0 = rw other refl in
        ap (workers_of id) w
        ∙ workers_of-append id t.workers ((name, tx) ∷ [])
        ∙ omega (arith, c, same, zero)
  ]
]

asked-Counts :
    (id name : List ℕ) (t : Sessions) (ends : ℕ)
    → Counts id ends t
    → Counts id ends (get_session name t).1
asked-Counts id name t ends c =
    let (tx, t', e, s) = get_session-IsServed name t in
    rw e (served-Counts id name tx t t' ends s c)

stopped_tx :
    (id name : List ℕ) (t : Sessions)
    → get_session_tx id (stopped name t) ≡ (if bytes_eq id name then none else get_session_tx id t)
unfolding stopped stopped_at get_session_tx
stopped_tx id name t = at (get_entry name t.sessions) refl
  where
    at :
        (e : Option Session)
        → get_entry name t.sessions ≡ e
        → running_tx (get_entry id (stopped_at name e t).sessions)
          ≡ (if bytes_eq id name then none else running_tx (get_entry id t.sessions))
    at none f = elim (Bool-cases (bytes_eq id name)) [
      | inl eq ↦
          let e : id ≡ name = (bytes_eq_iff id name).0 eq in
          rw eq (ap running_tx (ap (λ k. get_entry k t.sessions) e ∙ f))
      | inr other ↦ rw other refl
    ]
    at (some x) f =
        ap running_tx (get_entry-put_entry id name (record x { running = false }) t.sessions)
        ∙ (elim (Bool-cases (bytes_eq id name)) [ inl eq ↦ rw eq refl | inr other ↦ rw other refl ])

stopped-workers : (name : List ℕ) (t : Sessions) → (stopped name t).workers ≡ t.workers
unfolding stopped stopped_at
stopped-workers name t = at (get_entry name t.sessions)
  where
    at : (e : Option Session) → (stopped_at name e t).workers ≡ t.workers
    at none = refl
    at (some x) = refl

ended-Counts :
    (id name : List ℕ) (t : Sessions) (ends : ℕ)
    → Counts id ends t
    → Counts id
        ((if bytes_eq id name then one_if (get_session_tx id t) else 0) + ends)
        (stopped name t)
ended-Counts id name t ends c = elim (Bool-cases (bytes_eq id name)) [
  | inl eq ↦
      let gone : one_if (get_session_tx id (stopped name t)) ≡ 0 =
        ap one_if (stopped_tx id name t) ∙ rw eq refl in
      rw eq (ap (workers_of id) (stopped-workers name t) ∙ omega (arith, c, gone))
  | inr other ↦
      let same : one_if (get_session_tx id (stopped name t)) ≡ one_if (get_session_tx id t) =
        ap one_if (stopped_tx id name t) ∙ rw other refl in
      rw other (ap (workers_of id) (stopped-workers name t) ∙ omega (arith, c, same))
]

kept-Counts :
    (id : List ℕ) (events : List TableEvent) (t : Sessions) (ends : ℕ)
    → Counts id ends t
    → Counts id (ends + ends_of id events t) (run_table events t)
unfolding run_table ends_of
kept-Counts id [] t ends c = omega (arith, c)
kept-Counts id (TableEvent.asked name ∷ events) t ends c =
    kept-Counts id events (get_session name t).1 ends (asked-Counts id name t ends c)
kept-Counts id (TableEvent.ended name ∷ events) t ends c =
    let one = if bytes_eq id name then one_if (get_session_tx id t) else 0 in
    let rest =
      kept-Counts id events (stopped name t) (one + ends) (ended-Counts id name t ends c) in
    omega (arith, rest)

-- In a table that has served any sequence of requests, with workers that ended at any time between them,
-- a session has exactly as many workers started as have ended while it ran, and one more if it runs, so
-- never two at a time.
pub run_table-workers :
    (events : List TableEvent) (id : List ℕ)
    → workers_of id (run_table events new).workers
      ≡ ends_of id events new + one_if (get_session_tx id (run_table events new))
unfolding new get_session_tx get_entry
run_table-workers events id = let h = kept-Counts id events new 0 refl in omega (arith, h)
