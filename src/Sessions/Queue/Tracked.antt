-- ===== src/Sessions/Queue/Tracked.antt =====
-- The changes of the queue, on a session whose queue is tracked.
use squillion_mqtt.Prelude.{
  ℕ, true, false, List, [], ◌∷◌, ◌++◌, none, some, All-append, ◌≡◌, ◌==◌, refl, arith, Bool-cases,
  inl, inr,
}
use squillion_mqtt.Messages.Ack.{MqttMessagePubrec}
use squillion_mqtt.Messages.Codec.{MqttMessage}
use squillion_mqtt.Sessions.State.{contains, insert, remove, MqttSession}
use squillion_mqtt.Sessions.Invariant.{is_queued, mid_of, ids, IsTracked}
use squillion_mqtt.Sessions.Invariant.Ids.{
  contains-append, contains-insert, contains-remove, contains-remove_same, contains_kept,
  Distinct-append, Distinct-remove, ids-append,
}
use squillion_mqtt.Sessions.Queue.{get_elem?, set_elem, remove_elem, qos_outgoing_message_position}
use squillion_mqtt.Sessions.Queue.Positions.{
  Found, position-Found, position-none, ids-set_elem, AllQueued-set_elem, AllQueued-remove_elem,
}

-- A search that goes through `qos_outgoing` first.
pub searched :
    (s : MqttSession) (mid i : ℕ)
    → IsTracked s
    → qos_outgoing_message_position s mid ≡ some i
    → Found mid s.qos_outgoing_messages i
unfolding qos_outgoing_message_position
searched s mid i t h = elim (Bool-cases (contains mid s.qos_outgoing)) [
  | inl held ↦ position-Found mid s.qos_outgoing_messages i t.kinds t.distinct (rw held at h)
  | inr not_held ↦ let h' = rw not_held at h in cc
]

pub missed :
    (s : MqttSession) (mid : ℕ)
    → IsTracked s
    → qos_outgoing_message_position s mid ≡ none
    → contains mid (ids s.qos_outgoing_messages) ≡ false
unfolding qos_outgoing_message_position
missed s mid t h = elim (Bool-cases (contains mid s.qos_outgoing)) [
  | inl held ↦ position-none mid s.qos_outgoing_messages t.kinds (rw held at h)
  | inr not_held ↦ ground (arith, t.listed mid)
]

-- A new message, with an identifier that no message of the queue has.
pub pushed :
    (s : MqttSession) (x : MqttMessage)
    → IsTracked s
    → is_queued x ≡ true
    → contains (mid_of x) (ids s.qos_outgoing_messages) ≡ false
    → IsTracked (record s {
      qos_outgoing = insert (mid_of x) s.qos_outgoing;
      qos_outgoing_messages = s.qos_outgoing_messages ++ (x ∷ []);
    })
pushed s x t q fresh = record {
  kinds = All-append (λ y. is_queued y ≡ true) s.qos_outgoing_messages (x ∷ []) t.kinds (q, tt);
  distinct =
      rw (ids-append s.qos_outgoing_messages (x ∷ []))
        (Distinct-append (ids s.qos_outgoing_messages) (mid_of x) t.distinct fresh);
  listed = λ n h.
      let h' =
        rw
          (
            ids-append s.qos_outgoing_messages (x ∷ []),
            contains-append n (ids s.qos_outgoing_messages) (mid_of x),
          )
          at h in
      rw (contains-insert n (mid_of x) s.qos_outgoing) (ground (arith, t.listed n));
}

-- The message of an identifier is taken out of the vector.
pub dropped :
    (s : MqttSession) (mid i : ℕ)
    → IsTracked s
    → Found mid s.qos_outgoing_messages i
    → IsTracked (record s { qos_outgoing_messages = remove_elem i s.qos_outgoing_messages })
dropped s mid i t f = record {
  kinds = AllQueued-remove_elem i s.qos_outgoing_messages t.kinds;
  distinct = rw (f.ids_removed) (Distinct-remove (ids s.qos_outgoing_messages) mid t.distinct);
  listed = λ n h.
      let h' = rw (f.ids_removed) at h in
      t.listed n (contains_kept n mid (ids s.qos_outgoing_messages) h');
}

-- The same, with the identifier taken out of `qos_outgoing`.
pub removed :
    (s : MqttSession) (mid i : ℕ)
    → IsTracked s
    → Found mid s.qos_outgoing_messages i
    → IsTracked (record s {
      qos_outgoing_messages = remove_elem i s.qos_outgoing_messages;
      qos_outgoing = remove mid s.qos_outgoing;
    })
removed s mid i t f = record {
  kinds = (dropped s mid i t f).kinds;
  distinct = (dropped s mid i t f).distinct;
  listed = λ n h. elim (Bool-cases (n == mid)) [
    | inl same ↦
        let e : n ≡ mid = ground arith in
        let h' = rw (f.ids_removed, e) at h in
        absurd (ground (arith, contains-remove_same mid (ids s.qos_outgoing_messages)))
    | inr other ↦ rw (contains-remove n mid s.qos_outgoing other) ((dropped s mid i t f).listed n h)
  ];
}

-- Setting a flag of a message changes no identifier.
pub flagged :
    (s : MqttSession) (i : ℕ) (x y : MqttMessage)
    → IsTracked s
    → get_elem? s.qos_outgoing_messages i ≡ some x
    → mid_of y ≡ mid_of x
    → is_queued y ≡ true
    → IsTracked (record s { qos_outgoing_messages = set_elem i y s.qos_outgoing_messages })
flagged s i x y t g e q = record {
  kinds = AllQueued-set_elem i y s.qos_outgoing_messages q t.kinds;
  distinct = rw (ids-set_elem i x y s.qos_outgoing_messages g e) t.distinct;
  listed = λ n h. t.listed n (rw (ids-set_elem i x y s.qos_outgoing_messages g e) at h);
}

-- A PUBLISH gives way to the PUBREC that answers it; the identifier stays in `qos_outgoing`.
pub answered :
    (s : MqttSession) (m : MqttMessagePubrec) (i : ℕ)
    → IsTracked s
    → Found m.identifier s.qos_outgoing_messages i
    → IsTracked (record s {
      qos_outgoing_messages = remove_elem i s.qos_outgoing_messages ++ (MqttMessage.pub_rec m ∷ []);
    })
answered s m i t f =
    let t' = dropped s m.identifier i t f in
    let left : List MqttMessage = remove_elem i s.qos_outgoing_messages in
    let gone : contains m.identifier (ids left) ≡ false =
      rw (f.ids_removed) (contains-remove_same m.identifier (ids s.qos_outgoing_messages)) in
    record {
      kinds =
          All-append (λ y. is_queued y ≡ true) left (MqttMessage.pub_rec m ∷ []) t'.kinds
            (refl, tt);
      distinct =
          rw (ids-append left (MqttMessage.pub_rec m ∷ []))
            (Distinct-append (ids left) m.identifier t'.distinct gone);
      listed = λ n h.
          let h' =
            rw
              (
                ids-append left (MqttMessage.pub_rec m ∷ []),
                contains-append n (ids left) m.identifier,
              )
              at h in
          elim (Bool-cases (n == m.identifier)) [
            | inl same ↦
                let e : n ≡ m.identifier = ground arith in rw e (t.listed m.identifier f.held)
            | inr other ↦ t'.listed n (ground arith)
          ];
    }
