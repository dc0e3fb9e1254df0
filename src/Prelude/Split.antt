-- ===== src/Prelude/Split.antt =====
-- `str::split` by one character, on the bytes of the string: at least one piece, and no piece has
-- the separator in it.
use Prim.Native.Nat.{ℕ}
use mathlib.Core.Path.{◌≡◌, refl}
use mathlib.Core.Logic.{inl, inr}
use mathlib.Core.List.{List, [], ◌∷◌}
use squillion_mqtt.Prelude.Tests.{◌==◌, if◌then◌else◌, Bool-cases}

push_front : ℕ → List (List ℕ) → List (List ℕ)
push_front c [] = (c ∷ []) ∷ []
push_front c (l ∷ ls) = (c ∷ l) ∷ ls

unfoldable pub split : ℕ → List ℕ → List (List ℕ)
unfolding push_front
split sep [] = [] ∷ []
split sep (c ∷ s) = let rest = split sep s in if c == sep then [] ∷ rest else push_front c rest

-- There is a first piece.
pub split_some :
    (sep : ℕ) (s : List ℕ) → (l : List ℕ) × (ls : List (List ℕ)) × (split sep s ≡ l ∷ ls)
unfolding split push_front
split_some sep [] = ([], [], refl)
split_some sep (c ∷ s) = elim (Bool-cases (c == sep)) [
  | inl e ↦ ([], split sep s, rw e)
  | inr e ↦ let (l, ls, q) = split_some sep s in (c ∷ l, ls, rw (e, q))
]

pub split_head :
    (sep c : ℕ) (s l : List ℕ) (ls : List (List ℕ))
    → split sep s ≡ l ∷ ls
    → split sep (c ∷ s) ≡ (if c == sep then [] ∷ l ∷ ls else (c ∷ l) ∷ ls)
unfolding split push_front
split_head sep c s l ls e = rw e
