-- ===== src/Auth/Service.antt =====
-- auth/mod.rs and auth/testauth.rs: the providers of the authentication and the service that asks one.
use squillion_mqtt.Prelude.{
  ℕ, Option, none, some, List, [], ◌∷◌, String, if◌then◌else◌, bytes_eq, is_empty,
}
use squillion_mqtt.Result.{Result, ok, err}
use squillion_mqtt.Messages.Connect.{ReturnCode}
use squillion_mqtt.Auth.Users.{
  PasswordListAuth, PasswordAuth, load_passwords, check_password_list, load_password_file,
  check_password_file,
}

pub record AuthResponse : Type 0 where
  pub return_code : ReturnCode
  pub tenant : Option (List ℕ)

-- Without the channel that the response goes to.
pub record AuthRequest : Type 0 where
  pub username : List ℕ
  pub password : List ℕ

-- `Box<dyn AuthProvider>`, by the type in the box.
pub data AuthProvider : Type 0 where
  password_auth : PasswordAuth → AuthProvider
  password_list_auth : PasswordListAuth → AuthProvider
  test_auth : AuthProvider

-- `not_initialized` is the error that no provider returns.
pub data AuthError : Type 0 where
  not_configured not_initialized unwrap_panic : AuthError

-- What the configuration has: `config::get_string` of auth_method and of password_file, and
-- `config::get_users`; the tenant of a user is read by nothing.
pub record AuthConfig : Type 0 where
  pub auth_method : Option (List ℕ)
  pub password_file : Option (List ℕ)
  pub users : List (List ℕ × List ℕ)

-- What is outside: the file system, and SHA-1 with base 64.
pub record AuthOutside : Type 0 where
  pub read_to_string : List ℕ → Result String (List ℕ)
  pub digest : List ℕ → List ℕ

abbrev pub pwdfile : List ℕ
pwdfile = b'p' ∷ b'w' ∷ b'd' ∷ b'f' ∷ b'i' ∷ b'l' ∷ b'e' ∷ []

abbrev pub pwdlist : List ℕ
pwdlist = b'p' ∷ b'w' ∷ b'd' ∷ b'l' ∷ b'i' ∷ b's' ∷ b't' ∷ []

abbrev pub test : List ℕ
test = b't' ∷ b'e' ∷ b's' ∷ b't' ∷ []

abbrev pub test_tenant : List ℕ
test_tenant = b't' ∷ b'e' ∷ b's' ∷ b't' ∷ b'_' ∷ b't' ∷ b'e' ∷ b'n' ∷ b'a' ∷ b'n' ∷ b't' ∷ []

-- The provider that a method names; an unknown name is taken for the list.
unfoldable pub provider_named : List ℕ → AuthProvider
provider_named method =
    if bytes_eq method pwdfile
    then AuthProvider.password_auth (record { users = [] })
    else if bytes_eq method pwdlist
    then AuthProvider.password_list_auth (record { users = [] })
    else if bytes_eq method test
    then AuthProvider.test_auth
    else AuthProvider.password_list_auth (record { users = [] })

module _ (o : AuthOutside) (config : AuthConfig) where
  unfoldable pub initialize : AuthProvider → Result AuthError AuthProvider
  initialize (AuthProvider.password_auth a) = elim config.password_file [
    | none ↦ err AuthError.unwrap_panic
    | some filename ↦
        ok (AuthProvider.password_auth (load_password_file (o.read_to_string filename) a))
  ]
  initialize (AuthProvider.password_list_auth a) =
      ok (AuthProvider.password_list_auth (load_passwords config.users a))
  initialize AuthProvider.test_auth = ok AuthProvider.test_auth

  -- `process` up to the loop that it starts: the provider that the loop asks.
  unfoldable pub process : Result AuthError AuthProvider
  unfolding initialize provider_named
  process = elim config.auth_method [
    | none ↦ err AuthError.not_configured
    | some method ↦ initialize (provider_named method)
  ]

  unfoldable pub check_password : AuthProvider → List ℕ → List ℕ → AuthResponse
  check_password (AuthProvider.password_auth a) user password = record {
    return_code = check_password_file o.digest a user password;
    tenant = none;
  }
  check_password (AuthProvider.password_list_auth a) user password = record {
    return_code = check_password_list a user password;
    tenant = none;
  }
  check_password AuthProvider.test_auth user password = record {
    return_code = ReturnCode.accepted;
    tenant = some (if is_empty user then test_tenant else user);
  }

  -- The answer of the loop to a request.
  unfoldable pub answer : AuthProvider → AuthRequest → AuthResponse
  unfolding check_password
  answer provider request = check_password provider request.username request.password
