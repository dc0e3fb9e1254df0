-- ===== src/Messages/Subscribe/Accepted.antt =====
-- src/messages/mod.rs: the parsers of SUBSCRIBE and UNSUBSCRIBE on any packet.
use squillion_mqtt.Prelude.{
  ℕ, zero, suc, ◌+◌, ◌-◌, ◌<◌, List, [], ◌∷◌, ◌++◌, length, ◌≡◌, ap, ◌∙◌, arith,
}
use squillion_mqtt.Messages.Reader.{remaining_lem, Parse, pure, ◌>>=◌, remaining}
use squillion_mqtt.Messages.Reader.Safe.{
  Safe, Safe-bind, Safe-if, Safe-pure, Safe-read_u16_then, safe_rules, Settled, Settled-run,
  Fine-weaken, done,
}
use squillion_mqtt.Messages.Subscribe.{
  at_end, left, subscribe_entry, unsubscribe_entry, subscribe_loop, subscribe_parse,
  subscribe_from_bytes, unsubscribe_loop, unsubscribe_parse, unsubscribe_from_bytes,
}

Safe-at_end : {lo : ℕ} {buf : List ℕ} → Safe lo buf at_end
unfolding at_end
Safe-at_end = record { at = λ r s l i. done s l i }

-- The rest of the parser runs with the number of bytes that are left.
Safe-left_then :
    {A : Type 0} {lo : ℕ} {buf : List ℕ} (f : ℕ → Parse A)
    → ((from : ℕ) → Safe from buf (f (length buf - from)))
    → Safe lo buf (left >>= f)
unfolding left
Safe-left_then {lo = lo} {buf = buf} f h = record {
  at = λ r s l i.
      let n : remaining r ≡ length buf - r.pos =
        remaining_lem r ∙ ap (λ b. length {A = ℕ} b - r.pos) s in
      rw n (Fine-weaken {lo' = r.pos} l ((h r.pos).at r s (omega arith) i));
}

Safe-subscribe_entry : {lo : ℕ} {buf : List ℕ} (n : ℕ) → Safe lo buf (subscribe_entry n)
unfolding subscribe_entry
Safe-subscribe_entry n = search safe_rules depth 30

Safe-unsubscribe_entry : {lo : ℕ} {buf : List ℕ} (n : ℕ) → Safe lo buf (unsubscribe_entry n)
unfolding unsubscribe_entry
Safe-unsubscribe_entry n = search safe_rules depth 30

Safe-subscribe_loop :
    (buf : List ℕ) (fuel lo : ℕ) (topics : List (List ℕ × ℕ))
    → length buf - lo < fuel
    → Safe lo buf (subscribe_loop fuel topics)
unfolding subscribe_loop
Safe-subscribe_loop buf zero lo topics h = absurd (omega arith)
Safe-subscribe_loop buf (suc fuel) lo topics h = Safe-bind at_end _ Safe-at_end (λ done.
    Safe-if done (pure topics) _ (Safe-pure topics) (
      Safe-read_u16_then (λ n. subscribe_entry n >>= λ e. subscribe_loop fuel (topics ++ (e ∷ [])))
        (λ room n.
          Safe-bind (subscribe_entry n) _ (Safe-subscribe_entry n)
            (λ e. Safe-subscribe_loop buf fuel (lo + 2) (topics ++ (e ∷ [])) (omega arith)))))

Safe-unsubscribe_loop :
    (buf : List ℕ) (fuel lo : ℕ) (topics : List (List ℕ))
    → length buf - lo < fuel
    → Safe lo buf (unsubscribe_loop fuel topics)
unfolding unsubscribe_loop
Safe-unsubscribe_loop buf zero lo topics h = absurd (omega arith)
Safe-unsubscribe_loop buf (suc fuel) lo topics h = Safe-bind at_end _ Safe-at_end (λ done.
    Safe-if done (pure topics) _ (Safe-pure topics) (
      Safe-read_u16_then
        (λ n. unsubscribe_entry n >>= λ e. unsubscribe_loop fuel (topics ++ (e ∷ [])))
        (λ room n.
          Safe-bind (unsubscribe_entry n) _ (Safe-unsubscribe_entry n)
            (λ e. Safe-unsubscribe_loop buf fuel (lo + 2) (topics ++ (e ∷ [])) (omega arith)))))

-- On any packet the parser of SUBSCRIBE returns a message or an error of the code: it does not panic,
-- and its loop has rounds enough.
pub subscribe-Settled : (buf : List ℕ) → Settled (subscribe_from_bytes buf)
unfolding subscribe_from_bytes subscribe_parse
subscribe-Settled buf =
    let loop =
      λ (from : ℕ). Safe-subscribe_loop buf (suc (length buf - from)) from [] (omega arith) in
    Settled-run subscribe_parse buf (search (safe_rules, Safe-left_then, loop) depth 30)

-- On any packet the parser of UNSUBSCRIBE returns a message or an error of the code: it does not panic,
-- and its loop has rounds enough.
pub unsubscribe-Settled : (buf : List ℕ) → Settled (unsubscribe_from_bytes buf)
unfolding unsubscribe_from_bytes unsubscribe_parse
unsubscribe-Settled buf =
    let loop =
      λ (from : ℕ). Safe-unsubscribe_loop buf (suc (length buf - from)) from [] (omega arith) in
    Settled-run unsubscribe_parse buf (search (safe_rules, Safe-left_then, loop) depth 30)
