-- ===== src/Broker/Subscriptions/Clients.antt =====
-- broker/topics.rs: the table of the clients of a node.
use squillion_mqtt.Prelude.{
  ℕ, none, some, List, [], ◌∷◌, ◌≡◌, refl, arith, if◌then◌else◌, bytes_eq, bytes_eq_iff,
  bytes_eq→eq, Bool-cases, inl, inr, All,
}
use squillion_mqtt.Broker.Topics.{TopicEntry}
use squillion_mqtt.Broker.Subscriptions.Node.{get_client, insert_entry, remove_entry}

abbrev pub Clients : Type 0
Clients = List (List ℕ × TopicEntry)

pub get_client-insert_entry :
    (k j : List ℕ) (e : TopicEntry) (cs : Clients)
    → get_client k (insert_entry j e cs) ≡ (if bytes_eq k j then some e else get_client k cs)
unfolding get_client insert_entry
get_client-insert_entry k j e [] = refl
get_client-insert_entry k j e ((name, old) ∷ cs) = ground (
  arith,
  bytes_eq_iff k j,
  bytes_eq_iff j name,
  bytes_eq_iff k name,
  get_client-insert_entry k j e cs,
)

pub get_client-remove_entry :
    (k j : List ℕ) (cs : Clients)
    → get_client k (remove_entry j cs) ≡ (if bytes_eq k j then none else get_client k cs)
unfolding get_client remove_entry
get_client-remove_entry k j [] = ground arith
get_client-remove_entry k j ((name, old) ∷ cs) = ground (
  arith,
  bytes_eq_iff k j,
  bytes_eq_iff j name,
  bytes_eq_iff k name,
  get_client-remove_entry k j cs,
)

-- An entry stands under the name of its session.
abbrev pub IsKeyed : List ℕ × TopicEntry → Type 0
IsKeyed (name, e) = e.session.session ≡ name

pub insert_entry-IsKeyed :
    (e : TopicEntry) (cs : Clients)
    → All IsKeyed cs
    → All IsKeyed (insert_entry e.session.session e cs)
unfolding insert_entry
insert_entry-IsKeyed e [] h = (refl, tt)
insert_entry-IsKeyed e ((name, old) ∷ cs) (h, hs) =
    elim (Bool-cases (bytes_eq e.session.session name)) [
      | inl same ↦ rw same (bytes_eq→eq _ name same, hs)
      | inr other ↦ rw other (h, insert_entry-IsKeyed e cs hs)
    ]

pub remove_entry-IsKeyed :
    (k : List ℕ) (cs : Clients) → All IsKeyed cs → All IsKeyed (remove_entry k cs)
unfolding remove_entry
remove_entry-IsKeyed k [] h = tt
remove_entry-IsKeyed k ((name, e) ∷ cs) (h, hs) = elim (Bool-cases (bytes_eq k name)) [
  | inl same ↦ rw same (remove_entry-IsKeyed k cs hs)
  | inr other ↦ rw other (h, remove_entry-IsKeyed k cs hs)
]
