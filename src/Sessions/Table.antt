-- ===== src/Sessions/Table.antt =====
-- sessions/mod.rs: the table of the sessions of a broker.
pub mod Channels
pub mod Workers
use squillion_mqtt.Prelude.{
  ℕ, suc, Bool, true, false, Option, none, some, List, [], ◌∷◌, ◌++◌, String, if◌then◌else◌,
  bytes_eq,
}
use squillion_mqtt.Result.{Result, ok, err}

-- The channel of a session by a number, and the flag `running` of its `SessionState`, which the table
-- shares with the worker of the session.
pub record Session : Type 0 where
  pub session_tx : ℕ
  pub running : Bool

-- `next_channel` and `workers` are no state of the code: the channel that `mpsc::unbounded` makes next,
-- and the workers that `tokio::spawn` has started, with their channels.
pub record Sessions : Type 0 where
  pub sessions : List (List ℕ × Session)
  pub next_channel : ℕ
  pub workers : List (List ℕ × ℕ)

unfoldable pub new : Sessions
new = record { sessions = []; next_channel = 0; workers = [] }

unfoldable pub get_entry : List ℕ → List (List ℕ × Session) → Option Session
get_entry id [] = none
get_entry id ((name, x) ∷ xs) = if bytes_eq id name then some x else get_entry id xs

unfoldable pub put_entry : List ℕ → Session → List (List ℕ × Session) → List (List ℕ × Session)
put_entry id x [] = (id, x) ∷ []
put_entry id x ((name, old) ∷ xs) =
    let later = put_entry id x xs in
    if bytes_eq id name then (name, x) ∷ xs else (name, old) ∷ later

abbrev pub running_tx : Option Session → Option ℕ
running_tx none = none
running_tx (some x) = if x.running then some x.session_tx else none

unfoldable pub get_session_tx : List ℕ → Sessions → Option ℕ
get_session_tx key t = running_tx (get_entry key t.sessions)

-- A new channel, and a worker at its other end. Nothing in it fails.
unfoldable pub start_session : List ℕ → Sessions → Result String ℕ × Sessions
start_session id t = (
  ok t.next_channel,
  record t {
    next_channel = suc t.next_channel;
    workers = t.workers ++ ((id, t.next_channel) ∷ []);
  },
)

-- The new session, or the session that is started again, is entered into the table.
unfoldable pub enter_started : List ℕ → Result String ℕ × Sessions → Result String ℕ × Sessions
enter_started id (err e, t) = (err e, t)
enter_started id (ok tx, t) = (
  ok tx,
  record t { sessions = put_entry id (record { session_tx = tx; running = true }) t.sessions },
)

-- `get_session` at the entry of the session.
unfoldable pub serve : List ℕ → Option Session → Sessions → Result String ℕ × Sessions
serve id none t = enter_started id (start_session id t)
serve id (some e) t =
    if e.running then (ok e.session_tx, t) else enter_started id (start_session id t)

unfoldable pub get_session : List ℕ → Sessions → Result String ℕ × Sessions
get_session id t = serve id (get_entry id t.sessions) t

-- The worker of a session has ended (`drop` of `MQTTSession`).
unfoldable pub stopped_at : List ℕ → Option Session → Sessions → Sessions
stopped_at id none t = t
stopped_at id (some e) t = record t {
  sessions = put_entry id (record e { running = false }) t.sessions;
}

unfoldable pub stopped : List ℕ → Sessions → Sessions
stopped id t = stopped_at id (get_entry id t.sessions) t
