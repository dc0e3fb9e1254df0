-- ===== src/Messages/Validation/Ascii.antt =====
-- What the validators accept among ASCII strings, by rules that do not scan.
use squillion_mqtt.Prelude.{
  ℕ, zero, suc, ◌<◌, Bool, true, false, not, ◌&&◌, ◌||◌, List, [], ◌∷◌, Option, none, some, length,
  leb, ◌==◌, if◌then◌else◌, ◌≡◌, refl, ap, ◌∙◌, sym, arith, inl, inr, Option-cases, All, is_empty,
}
use squillion_mqtt.Prelude.Bits.{top_bit}
use squillion_mqtt.Prelude.Split.{split, split_some, split_head}
use squillion_mqtt.Messages.Validation.{
  next, for_chars, or_false, all_chars, publish_topic_char, topic_filter_char, publish_topic_valid,
  topic_filter_valid,
}
use squillion_mqtt.Messages.Validation.Total.{for_chars_end, for_chars_stop, for_chars_step}

abbrev pub IsAscii : List ℕ → Type 0
IsAscii = All (λ b. b < 128)

pub next-ascii : (b : ℕ) (rest : List ℕ) → b < 128 → next (b ∷ rest) ≡ some (b, rest)
unfolding next
next-ascii b rest h = ground (arith, top_bit b)

-- The body's verdict on every byte in turn.
unfoldable pub accepts : (ℕ → ℕ → Option ℕ) → ℕ → List ℕ → Bool
accepts body previous [] = true
accepts body previous (c ∷ s) = elim (body previous c) [ none ↦ false | some p ↦ accepts body p s ]

for_chars-accepts :
    (body : ℕ → ℕ → Option ℕ) (fuel previous : ℕ) (s : List ℕ)
    → IsAscii s
    → length s < fuel
    → for_chars body fuel previous s ≡ some (accepts body previous s)
unfolding accepts
for_chars-accepts body zero previous s a h = absurd (omega arith)
for_chars-accepts body (suc fuel) previous [] a h =
    for_chars_end body fuel previous [] (unfold next in refl)
for_chars-accepts body (suc fuel) previous (c ∷ s) a h = elim (Option-cases (body previous c)) [
  | inl e ↦ for_chars_stop body fuel previous (c ∷ s) c s (next-ascii c s a.0) e ∙ rw (e, accepts)
  | inr (p, e) ↦
      for_chars_step body fuel previous (c ∷ s) c s p (next-ascii c s a.0) e
      ∙ for_chars-accepts body fuel p s a.1 (omega arith)
      ∙ rw (e, accepts)
]

pub all_chars-ascii :
    (body : ℕ → ℕ → Option ℕ) (s : List ℕ) → IsAscii s → all_chars body s ≡ accepts body 0 s
unfolding all_chars or_false
all_chars-ascii body s a = rw (for_chars-accepts body (suc (length s)) 0 s a (omega arith))

-- No null character and no wildcard.
unfoldable pub is_plain : List ℕ → Bool
is_plain [] = true
is_plain (c ∷ s) = not (c == 0) && not (c == b'+') && not (c == b'#') && is_plain s

abbrev pub length_allowed : List ℕ → Bool
length_allowed s = leb 1 (length s) && leb (length s) 65535

accepts-plain : (previous : ℕ) (s : List ℕ) → accepts publish_topic_char previous s ≡ is_plain s
unfolding accepts publish_topic_char is_plain
accepts-plain previous [] = refl
accepts-plain previous (c ∷ s) = ground (arith, accepts-plain previous s)

-- An ASCII topic may be published to exactly when its length is from 1 to 65535 and it has no null
-- character and no wildcard.
pub publish_topic_valid-ascii :
    (topic : List ℕ)
    → IsAscii topic
    → publish_topic_valid topic ≡ (length_allowed topic && is_plain topic)
unfolding publish_topic_valid
publish_topic_valid-ascii topic a =
    rw (all_chars-ascii publish_topic_char topic a, accepts-plain) (ground arith)

-- The rule for one topic level of a filter, of which the last may be `#`.
unfoldable pub level_valid : Bool → List ℕ → Bool
unfolding is_plain
level_valid last (c ∷ []) = if c == b'#' then last else c == b'+' || is_plain (c ∷ [])
level_valid last s = is_plain s

unfoldable pub levels_valid : List (List ℕ) → Bool
unfolding level_valid
levels_valid [] = true
levels_valid (l ∷ ls) = level_valid (is_empty ls) l && levels_valid ls

-- What `previous` allows for the levels ahead, of which the first has begun.
resumes : ℕ → List (List ℕ) → Bool
resumes previous [] = true
resumes previous (l ∷ ls) =
    if previous == 0 || previous == b'/'
    then levels_valid (l ∷ ls)
    else if previous == b'#'
    then is_empty l && is_empty ls
    else if previous == b'+'
    then is_empty l && levels_valid ls
    else is_plain l && levels_valid ls

-- One character, before the rest of its level and the other levels.
resumes_step :
    (previous c : ℕ) (l : List ℕ) (ls : List (List ℕ))
    → ((p : ℕ) → topic_filter_char previous c ≡ some p → p ≡ c)
      × (topic_filter_char previous c ≡ none
          → resumes previous (if c == b'/' then [] ∷ l ∷ ls else (c ∷ l) ∷ ls) ≡ false)
      × (topic_filter_char previous c ≡ some c
          → resumes previous (if c == b'/' then [] ∷ l ∷ ls else (c ∷ l) ∷ ls) ≡ resumes c (l ∷ ls))
unfolding topic_filter_char resumes levels_valid
resumes_step previous c [] ls = (λ p e. ground arith, λ e. ground arith, λ e. ground arith)
resumes_step previous c (x ∷ xs) ls = (λ p e. ground arith, λ e. ground arith, λ e. ground arith)

accepts-none :
    (previous c : ℕ) (s : List ℕ)
    → topic_filter_char previous c ≡ none
    → accepts topic_filter_char previous (c ∷ s) ≡ false
unfolding accepts
accepts-none previous c s e = rw (e, accepts)

accepts_next :
    (previous c p : ℕ) (s : List ℕ)
    → topic_filter_char previous c ≡ some p
    → accepts topic_filter_char previous (c ∷ s) ≡ accepts topic_filter_char p s
unfolding accepts
accepts_next previous c p s e = rw (e, accepts)

accepts-resumes :
    (previous : ℕ) (s : List ℕ)
    → accepts topic_filter_char previous s ≡ resumes previous (split b'/' s)
accepts-resumes previous [] = unfold accepts resumes levels_valid split in ground arith
accepts-resumes previous (c ∷ s) =
    let (l, ls, q) = split_some b'/' s in
    let (same, stops, goes) = resumes_step previous c l ls in
    rw (split_head b'/' c s l ls q) (elim (Option-cases (topic_filter_char previous c)) [
      | inl e ↦ accepts-none previous c s e ∙ sym (stops e)
      | inr (p, e) ↦
          let e' : topic_filter_char previous c ≡ some c = e ∙ ap some (same p e) in
          accepts_next previous c c s e' ∙ accepts-resumes c s ∙ ap (resumes c) q ∙ sym (goes e')
    ])

resumes_start : (ls : List (List ℕ)) → resumes 0 ls ≡ levels_valid ls
unfolding resumes levels_valid
resumes_start [] = refl
resumes_start (l ∷ ls) = refl

-- An ASCII filter is accepted exactly when its length is from 1 to 65535 and each of its levels is
-- `+`, or has no null character and no wildcard, or is a last level `#`.
pub topic_filter_valid-ascii :
    (filter : List ℕ)
    → IsAscii filter
    → topic_filter_valid filter ≡ (length_allowed filter && levels_valid (split b'/' filter))
unfolding topic_filter_valid
topic_filter_valid-ascii filter a =
    rw
      (
        all_chars-ascii topic_filter_char filter a,
        accepts-resumes 0 filter,
        resumes_start (split b'/' filter),
      )
      (ground arith)
