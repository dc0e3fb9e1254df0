-- ===== src/Messages/Validation/Total.antt =====
-- src/messages/validation.rs: the rounds of the validators' loops; the iterator may stand still at the
-- character 0.
use squillion_mqtt.Prelude.{
  ℕ, zero, suc, ◌<◌, Bool, true, false, List, [], ◌∷◌, Option, none, some, length, ◌≡◌, arith, ◌⊎◌,
  inl, inr, Option-cases,
}
use squillion_mqtt.Messages.Validation.{next, for_chars}

-- The iterator passes at least one byte, or yields 0.
pub next_moves :
    (string : List ℕ) (c : ℕ) (rest : List ℕ)
    → next string ≡ some (c, rest)
    → (c ≡ 0) ⊎ (length rest < length string)
unfolding next
next_moves [] c rest e = cc
next_moves (b ∷ []) c rest e = ground arith
next_moves (b ∷ b2 ∷ []) c rest e = ground arith
next_moves (b ∷ b2 ∷ b3 ∷ []) c rest e = ground arith
next_moves (b ∷ b2 ∷ b3 ∷ b4 ∷ s) c rest e = ground arith

shorter :
    (body : ℕ → ℕ → Option ℕ)
    → ((previous : ℕ) → body previous 0 ≡ none)
    → (previous c p : ℕ) (string rest : List ℕ) (fuel : ℕ) → body previous c ≡ some p
    → (c ≡ 0) ⊎ (length rest < length string)
    → length string < suc fuel
    → length rest < fuel
shorter body stops previous c p string rest fuel s (inl z) h = cc (z, s, stops previous)
shorter body stops previous c p string rest fuel s (inr m) h = omega arith

module _ (body : ℕ → ℕ → Option ℕ) (fuel previous : ℕ) (string : List ℕ) where
  pub for_chars_end : next string ≡ none → for_chars body (suc fuel) previous string ≡ some true
  unfolding for_chars
  for_chars_end e = rw (e, for_chars)

  pub for_chars_stop :
      (c : ℕ) (rest : List ℕ)
      → next string ≡ some (c, rest)
      → body previous c ≡ none
      → for_chars body (suc fuel) previous string ≡ some false
  unfolding for_chars
  for_chars_stop c rest e s = rw (e, for_chars) (rw s)

  pub for_chars_step :
      (c : ℕ) (rest : List ℕ) (p : ℕ)
      → next string ≡ some (c, rest)
      → body previous c ≡ some p
      → for_chars body (suc fuel) previous string ≡ for_chars body fuel p rest
  unfolding for_chars
  for_chars_step c rest p e s = rw (e, for_chars) (rw s)

-- A loop over the characters whose body stops at the character 0 ends within one round more than there
-- are bytes.
pub for_chars_total :
    (body : ℕ → ℕ → Option ℕ)
    → ((previous : ℕ) → body previous 0 ≡ none)
    → (fuel previous : ℕ) (string : List ℕ) → length string < fuel
    → (b : Bool) × (for_chars body fuel previous string ≡ some b)
unfolding for_chars
for_chars_total body stops zero previous string h = absurd (omega arith)
for_chars_total body stops (suc fuel) previous string h = elim (Option-cases (next string)) [
  | inl e ↦ (true, for_chars_end body fuel previous string e)
  | inr ((c, rest), e) ↦ elim (Option-cases (body previous c)) [
    | inl s ↦ (false, for_chars_stop body fuel previous string c rest e s)
    | inr (p, s) ↦ rw (for_chars_step body fuel previous string c rest p e s) (
        for_chars_total body stops fuel p rest
          (shorter body stops previous c p string rest fuel s (next_moves string c rest e) h))
  ]
]
