-- ===== src/Tests/Auth.antt =====
-- Runs of auth: a file with two entries for one user, of which the last counts.
use squillion_mqtt.Prelude.{
  ℕ, List, [], ◌∷◌, ◌++◌, ◌≡◌, ◌↔◌, refl, Bool, true, not, ◌&&◌, ◌==◌, ◌≢◌, arith,
}
use squillion_mqtt.Prelude.Dict.{IsLast}
use squillion_mqtt.Result.{ok}
use squillion_mqtt.Messages.Connect.{ReturnCode}
use squillion_mqtt.Auth.Users.{check_password_file, load_password_file, sha_prefix}
use squillion_mqtt.Auth.Users.Written.{check_password_file_accepts, write_file, IsEntries, IsField}

abbrev ann : List ℕ
ann = b'a' ∷ b'n' ∷ b'n' ∷ []

-- In place of a digest, a letter before the password.
abbrev digest : List ℕ → List ℕ
digest password = b'x' ∷ password

abbrev entries : List (List ℕ × List ℕ)
entries =
    (ann, sha_prefix ++ digest (b'1' ∷ []))
    ∷ (b'b' ∷ [], b'p' ∷ [])
    ∷ (ann, sha_prefix ++ digest (b'3' ∷ []))
    ∷ []

abbrev is_field : List ℕ → Bool
is_field [] = true
is_field (c ∷ s) = not (c == b':') && (not (c == 10) && (not (c == 13) && is_field s))

is_field→IsField : (s : List ℕ) → is_field s ≡ true → IsField s
is_field→IsField [] e = tt
is_field→IsField (c ∷ s) e = let (p, q, r, f) = parts c s e in ((p, q, r), is_field→IsField s f)
  where
    parts :
        (c : ℕ) (s : List ℕ)
        → is_field (c ∷ s) ≡ true
        → (c ≢ b':') × (c ≢ 10) × (c ≢ 13) × (is_field s ≡ true)
    parts c s e = ground arith

entries-IsEntries : IsEntries entries
entries-IsEntries = (
  (is_field→IsField ann refl, is_field→IsField (sha_prefix ++ digest (b'1' ∷ [])) refl),
  (
    (is_field→IsField (b'b' ∷ []) refl, is_field→IsField (b'p' ∷ []) refl),
    ((is_field→IsField ann refl, is_field→IsField (sha_prefix ++ digest (b'3' ∷ [])) refl), tt),
  ),
)

check_password_file_accepts_example :
    (check_password_file digest
        (load_password_file (ok (write_file entries)) (record { users = [] }))
        ann
        (b'3' ∷ [])
      ≡ ReturnCode.accepted)
    ↔ IsLast ann (sha_prefix ++ digest (b'3' ∷ [])) entries
check_password_file_accepts_example =
    check_password_file_accepts digest entries ann (b'3' ∷ []) entries-IsEntries
