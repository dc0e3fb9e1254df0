-- ===== src/Auth/Users.antt =====
-- auth/pwd_list.rs and auth/pwd_file.rs: the users with their passwords, from the configuration or from a
-- file, and the check of a password.
pub mod Written
use squillion_mqtt.Prelude.{
  ℕ, Bool, true, false, Option, none, some, List, [], ◌∷◌, String, if◌then◌else◌, ◌==◌, bytes_eq,
}
use squillion_mqtt.Prelude.Split.{split}
use squillion_mqtt.Prelude.Dict.{get, put, put_all}
use squillion_mqtt.Result.{Result, ok, err}
use squillion_mqtt.Messages.Connect.{ReturnCode}

pub record PasswordListAuth : Type 0 where
  pub users : List (List ℕ × List ℕ)

pub record PasswordAuth : Type 0 where
  pub users : List (List ℕ × List ℕ)

-- A user of the configuration, `config::get_users`, is a pair of a name and a password.
unfoldable pub load_passwords : List (List ℕ × List ℕ) → PasswordListAuth → PasswordListAuth
load_passwords passwords self = record self { users = put_all bytes_eq passwords self.users }

abbrev pub accept_if : Bool → ReturnCode
accept_if true = ReturnCode.accepted
accept_if false = ReturnCode.bad_username_or_password

abbrev pub check_stored : (List ℕ → Bool) → Option (List ℕ) → ReturnCode
check_stored test none = ReturnCode.bad_username_or_password
check_stored test (some stored) = accept_if (test stored)

unfoldable pub check_password_list : PasswordListAuth → List ℕ → List ℕ → ReturnCode
check_password_list self user password =
    check_stored (bytes_eq password) (get bytes_eq user self.users)

abbrev starts_line_feed : List ℕ → Bool
starts_line_feed [] = false
starts_line_feed (c ∷ s) = c == 10

abbrev push_line : ℕ → List (List ℕ) → List (List ℕ)
push_line c [] = (c ∷ []) ∷ []
push_line c (l ∷ ls) = (c ∷ l) ∷ ls

-- `str::lines`: the lines without their ends, which are \n or \r\n.
unfoldable pub lines : List ℕ → List (List ℕ)
lines [] = []
lines (c ∷ s) =
    let rest = lines s in
    if c == 10
    then [] ∷ rest
    else if c == 13
    then (if starts_line_feed s then rest else push_line c rest)
    else push_line c rest

-- A line that is not two fields is left out.
unfoldable pub insert_fields : List (List ℕ) → List (List ℕ × List ℕ) → List (List ℕ × List ℕ)
insert_fields (user ∷ hash ∷ []) users = put bytes_eq user hash users
insert_fields _ users = users

unfoldable pub insert_lines : List (List ℕ) → List (List ℕ × List ℕ) → List (List ℕ × List ℕ)
unfolding insert_fields
insert_lines [] users = users
insert_lines (l ∷ ls) users = insert_lines ls (insert_fields (split b':' l) users)

-- What `fs::read_to_string` returns is an argument.
unfoldable pub load_password_file : Result String (List ℕ) → PasswordAuth → PasswordAuth
unfolding lines insert_lines
load_password_file (ok content) self = record self {
  users = insert_lines (lines content) self.users;
}
load_password_file (err e) self = self

abbrev pub sha_prefix : List ℕ
sha_prefix = b'{' ∷ b'S' ∷ b'H' ∷ b'A' ∷ b'}' ∷ []

-- `str::strip_prefix`
unfoldable pub strip_prefix : List ℕ → List ℕ → Option (List ℕ)
strip_prefix [] s = some s
strip_prefix (p ∷ ps) [] = none
strip_prefix (p ∷ ps) (c ∷ s) = let rest = strip_prefix ps s in if p == c then rest else none

-- `digest` is the SHA-1 digest of a string, written in base 64.
module _ (digest : List ℕ → List ℕ) where
  unfoldable pub check_sha_password : List ℕ → List ℕ → Bool
  check_sha_password password hash = bytes_eq (digest password) hash

  unfoldable pub check_hash : List ℕ → Option (List ℕ) → Bool
  unfolding check_sha_password
  check_hash password none = false
  check_hash password (some h) = check_sha_password password h

  unfoldable pub check_password_file : PasswordAuth → List ℕ → List ℕ → ReturnCode
  unfolding strip_prefix check_hash
  check_password_file self user password =
      check_stored (λ hash. check_hash password (strip_prefix sha_prefix hash))
        (get bytes_eq user self.users)
