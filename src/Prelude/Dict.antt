-- ===== src/Prelude/Dict.antt =====
-- A `HashMap` as a list of entries, one for a key: a lookup and an insert, and the insert of many entries,
-- of which the last with a key is found.
use mathlib.Core.Path.{◌≡◌, refl, sym, ◌∙◌}
use mathlib.Core.Logic.{◌≢◌, ◌↔◌, ◌⊎◌, inl, inr}
use mathlib.Core.Bool.{Bool, true}
use mathlib.Core.Option.{Option, none, some}
use mathlib.Core.List.{List, [], ◌∷◌}
use native.Mathlib.Omega.{arith}
use squillion_mqtt.Prelude.Tests.{if◌then◌else◌, Bool-cases}
use squillion_mqtt.Prelude.Lists.{All}

module _ {K V : Type 0} (eq : K → K → Bool) where
  unfoldable pub get : K → List (K × V) → Option V
  get k [] = none
  get k ((k', v) ∷ xs) = let later = get k xs in if eq k k' then some v else later

  unfoldable pub put : K → V → List (K × V) → List (K × V)
  put k v [] = (k, v) ∷ []
  put k v ((k', old) ∷ xs) =
      let later = put k v xs in if eq k k' then (k', v) ∷ xs else (k', old) ∷ later

  unfoldable pub put_all : List (K × V) → List (K × V) → List (K × V)
  unfolding put
  put_all [] m = m
  put_all ((k, v) ∷ xs) m = put_all xs (put k v m)

-- No entry has the key.
abbrev pub Absent : {K V : Type 0} → K → List (K × V) → Type 0
Absent k xs = All (λ e. e.0 ≢ k) xs

-- The last entry with the key has the value.
pub data IsLast {K V : Type 0} (k : K) (v : V) : List (K × V) → Type 0 where
  here : {xs : List (K × V)} → Absent k xs → IsLast k v ((k, v) ∷ xs)
  there : {e : K × V} {xs : List (K × V)} → IsLast k v xs → IsLast k v (e ∷ xs)

module _ {K V : Type 0} (eq : K → K → Bool) (eq_iff : (a b : K) → (eq a b ≡ true) ↔ (a ≡ b)) where
  pub get-put :
      (k id : K) (x : V) (xs : List (K × V))
      → get eq k (put eq id x xs) ≡ (if eq k id then some x else get eq k xs)
  unfolding get put
  get-put k id x [] = refl
  get-put k id x ((name, old) ∷ xs) =
      ground (arith, eq_iff k id, eq_iff id name, eq_iff k name, get-put k id x xs)

  pub get-put_same : (k : K) (x : V) (xs : List (K × V)) → get eq k (put eq k x xs) ≡ some x
  get-put_same k x xs = rw (get-put k k x xs, (eq_iff k k).1 refl) refl

  pub get-put_other :
      (k id : K) (x : V) (xs : List (K × V)) → k ≢ id → get eq k (put eq id x xs) ≡ get eq k xs
  get-put_other k id x xs n = ground (arith, get-put k id x xs, eq_iff k id)

  get-put_all-Absent :
      (k : K) (xs m : List (K × V)) → Absent k xs → get eq k (put_all eq xs m) ≡ get eq k m
  unfolding put_all
  get-put_all-Absent k [] m a = refl
  get-put_all-Absent k ((id, x) ∷ xs) m (n, a) =
      get-put_all-Absent k xs (put eq id x m) a ∙ ground (arith, get-put k id x m, eq_iff k id)

  get-put_all :
      (k : K) (v : V) (xs m : List (K × V)) → IsLast k v xs → get eq k (put_all eq xs m) ≡ some v
  unfolding put_all
  get-put_all k v _ m (IsLast.here {xs} a) =
      get-put_all-Absent k xs (put eq k v m) a ∙ get-put_same k v m
  get-put_all k v _ m (IsLast.there {e} {xs} l) = get-put_all k v xs (put eq e.0 e.1 m) l

  get-put_all_cases :
      (k : K) (v : V) (xs m : List (K × V))
      → get eq k (put_all eq xs m) ≡ some v
      → IsLast k v xs ⊎ (Absent k xs × (get eq k m ≡ some v))
  unfolding put_all
  get-put_all_cases k v [] m e = inr (tt, e)
  get-put_all_cases k v ((id, x) ∷ xs) m e = elim (get-put_all_cases k v xs (put eq id x m) e) [
    | inl l ↦ inl (IsLast.there l)
    | inr (a, f) ↦ elim (Bool-cases (eq k id)) [
      | inl same ↦
          let p : k ≡ id = (eq_iff k id).0 same in
          let g : some x ≡ some v = rw (get-put k id x m, same) at f in
          let q : x ≡ v = cc in inl (rw (← p, q) (IsLast.here a))
      | inr other ↦ inr (
        (λ p. absurd (let t = (eq_iff k id).1 (sym p) in cc), a),
        rw (get-put k id x m, other) at f,
      )
    ]
  ]

  -- What is found behind the insert of many entries into an empty table.
  pub put_all-IsLast :
      (k : K) (v : V) (xs : List (K × V)) → (get eq k (put_all eq xs []) ≡ some v) ↔ IsLast k v xs
  unfolding get
  put_all-IsLast k v xs = (
    λ e. elim (get-put_all_cases k v xs [] e) [ inl l ↦ l | inr (a, f) ↦ absurd (cc) ],
    get-put_all k v xs [],
  )
