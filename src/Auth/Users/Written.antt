-- ===== src/Auth/Users/Written.antt =====
-- auth/pwd_list.rs and auth/pwd_file.rs: which users and passwords are accepted.
use squillion_mqtt.Prelude.{
  ℕ, Bool, true, false, Option, none, some, List, [], ◌∷◌, ◌++◌, ◌==◌, ==_iff, bytes_eq,
  bytes_eq_iff, bytes_eq_refl, ◌≡◌, ◌≢◌, ◌↔◌, refl, sym, ap, ◌∙◌, arith, Bool-cases, Option-cases,
  inl, inr, All, All-append,
}
use squillion_mqtt.Prelude.Split.{split, split_head}
use squillion_mqtt.Prelude.Dict.{get, put, put_all, IsLast, put_all-IsLast}
use squillion_mqtt.Result.{ok}
use squillion_mqtt.Messages.Connect.{ReturnCode}
use squillion_mqtt.Auth.Users.{
  load_passwords, check_stored, check_password_list, lines, insert_fields, insert_lines,
  load_password_file, sha_prefix, strip_prefix, check_sha_password, check_hash, check_password_file,
}

check_stored_accepts :
    (test : List ℕ → Bool) (want : List ℕ) (found : Option (List ℕ))
    → ((s : List ℕ) → (test s ≡ true) ↔ (s ≡ want))
    → (check_stored test found ≡ ReturnCode.accepted) ↔ (found ≡ some want)
check_stored_accepts test want none h = (λ e. absurd (cc), λ e. absurd (cc))
check_stored_accepts test want (some s) h = elim (Bool-cases (test s)) [
  | inl e ↦ (λ _. ap (λ x. some x) ((h s).0 e), λ _. rw e refl)
  | inr e ↦ (
    λ f.
        absurd
          (let g : ReturnCode.bad_username_or_password ≡ ReturnCode.accepted = rw e at f in cc),
    λ f. absurd (let g = (h s).1 (cc) in cc),
  )
]

-- A user of the configuration is accepted with a password exactly if the last entry of the
-- configuration with the name of the user has that password.
pub check_password_list_accepts :
    (users : List (List ℕ × List ℕ)) (user password : List ℕ)
    → (check_password_list (load_passwords users (record { users = [] })) user password
        ≡ ReturnCode.accepted)
      ↔ IsLast user password users
unfolding check_password_list load_passwords
check_password_list_accepts users user password =
    let (there', back) =
      check_stored_accepts (bytes_eq password) password
        (get bytes_eq user (put_all bytes_eq users []))
        (λ s.
          (λ e. sym ((bytes_eq_iff password s).0 e), λ e. (bytes_eq_iff password s).1 (sym e))) in
    let (l, r) = put_all-IsLast bytes_eq bytes_eq_iff user password users in
    (λ e. l (there' e), λ p. back (r p))

-- A name or a hash that has no end of a field or of a line in it.
abbrev pub IsField : List ℕ → Type 0
IsField s = All (λ c. (c ≢ b':') × (c ≢ 10) × (c ≢ 13)) s

abbrev entry_line : List ℕ × List ℕ → List ℕ
entry_line (user, hash) = user ++ (b':' ∷ hash)

-- The file with a line user:hash for each entry.
abbrev pub write_file : List (List ℕ × List ℕ) → List ℕ
write_file [] = []
write_file (e ∷ es) = entry_line e ++ (10 ∷ write_file es)

abbrev IsText : List ℕ → Type 0
IsText s = All (λ c. (c ≢ 10) × (c ≢ 13)) s

IsField-IsText : (s : List ℕ) → IsField s → IsText s
IsField-IsText [] f = tt
IsField-IsText (c ∷ s) ((_, n, m), f) = ((n, m), IsField-IsText s f)

entry_line-IsText : (u h : List ℕ) → IsField u → IsField h → IsText (entry_line (u, h))
entry_line-IsText u h f g =
    All-append (λ c. (c ≢ 10) × (c ≢ 13)) u (b':' ∷ h) (IsField-IsText u f)
      (((λ e. absurd (cc)), (λ e. absurd (cc))), IsField-IsText h g)

==_false : (a b : ℕ) → a ≢ b → (a == b) ≡ false
==_false a b n = elim (Bool-cases (a == b)) [ inl e ↦ absurd (n ((==_iff a b).0 e)) | inr e ↦ e ]

lines_line : (s rest : List ℕ) → IsText s → lines (s ++ (10 ∷ rest)) ≡ s ∷ lines rest
unfolding lines
lines_line [] rest f = refl
lines_line (c ∷ s) rest ((n, m), f) =
    rw (==_false c 10 n, ==_false c 13 m, lines_line s rest f) refl

split_field : (s : List ℕ) → IsField s → split b':' s ≡ s ∷ []
unfolding split
split_field [] f = refl
split_field (c ∷ s) ((n, _, _), f) =
    split_head b':' c s s [] (split_field s f) ∙ rw (==_false c b':' n) refl

split_fields : (u h : List ℕ) → IsField u → IsField h → split b':' (entry_line (u, h)) ≡ u ∷ h ∷ []
unfolding split
split_fields [] h f g = rw (split_field h g) refl
split_fields (c ∷ u) h ((n, _, _), f) g =
    split_head b':' c (entry_line (u, h)) u (h ∷ []) (split_fields u h f g)
    ∙ rw (==_false c b':' n) refl

abbrev pub IsEntries : List (List ℕ × List ℕ) → Type 0
IsEntries es = All (λ e. IsField e.0 × IsField e.1) es

insert_written :
    (es m : List (List ℕ × List ℕ))
    → IsEntries es
    → insert_lines (lines (write_file es)) m ≡ put_all bytes_eq es m
unfolding lines insert_lines insert_fields put_all
insert_written [] m f = refl
insert_written ((u, h) ∷ es) m ((fu, fh), f) =
    ap (λ ls. insert_lines ls m)
      (lines_line (entry_line (u, h)) (write_file es) (entry_line-IsText u h fu fh))
    ∙ ap (λ fs. insert_lines (lines (write_file es)) (insert_fields fs m)) (split_fields u h fu fh)
    ∙ insert_written es (put bytes_eq u h m) f

strip_prefix_iff : (ps s h : List ℕ) → (strip_prefix ps s ≡ some h) ↔ (s ≡ ps ++ h)
unfolding strip_prefix
strip_prefix_iff [] s h = (λ e. cc, λ e. rw e refl)
strip_prefix_iff (p ∷ ps) [] h = (λ e. absurd (cc), λ e. absurd (cc))
strip_prefix_iff (p ∷ ps) (c ∷ s) h = ground (arith, strip_prefix_iff ps s h)

module _ (digest : List ℕ → List ℕ) where
  check_hash_iff :
      (password stored : List ℕ)
      → (check_hash digest password (strip_prefix sha_prefix stored) ≡ true)
        ↔ (stored ≡ sha_prefix ++ digest password)
  unfolding check_hash check_sha_password
  check_hash_iff password stored = elim (Option-cases (strip_prefix sha_prefix stored)) [
    | inl e ↦ (
      λ t. absurd (let u : false ≡ true = rw e at t in cc),
      λ t. absurd (let u = (strip_prefix_iff sha_prefix stored (digest password)).1 t in cc),
    )
    | inr (h, e) ↦ (
      λ t.
          let u : bytes_eq (digest password) h ≡ true = rw e at t in
          (strip_prefix_iff sha_prefix stored (digest password)).0
            (e ∙ ap (λ x. some x) (sym ((bytes_eq_iff (digest password) h).0 u))),
      λ t.
          rw ((strip_prefix_iff sha_prefix stored (digest password)).1 t)
            (bytes_eq_refl (digest password)),
    )
  ]

  -- A password file that was written with a line user:hash for each of any entries, whose names and hashes
  -- have no colon and no end of a line in them, accepts a user with a password exactly if the hash of the
  -- last entry with the name of the user is {SHA} before the digest of the password.
  pub check_password_file_accepts :
      (entries : List (List ℕ × List ℕ)) (user password : List ℕ)
      → IsEntries entries
      → (check_password_file digest
            (load_password_file (ok (write_file entries)) (record { users = [] }))
            user
            password
          ≡ ReturnCode.accepted)
        ↔ IsLast user (sha_prefix ++ digest password) entries
  unfolding check_password_file load_password_file
  check_password_file_accepts entries user password f =
      let (there', back) =
        check_stored_accepts (λ hash. check_hash digest password (strip_prefix sha_prefix hash))
          (sha_prefix ++ digest password) (get bytes_eq user (put_all bytes_eq entries []))
          (check_hash_iff password) in
      let (l, r) =
        put_all-IsLast bytes_eq bytes_eq_iff user (sha_prefix ++ digest password) entries in
      rw (insert_written entries [] f) (λ e. l (there' e), λ p. back (r p))
