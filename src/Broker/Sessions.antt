-- ===== src/Broker/Sessions.antt =====
-- broker/sessions.py: the client sessions, and the registry with one client for each role.
-- A session is shared by the reader thread that made it and by the registry, and both may write to
-- it, so sessions are kept in a store and named by a number; `is` compares these numbers. Sockets
-- are numbers too. `now` is the clock that `time.time` reads.
use dynvar_sync.Base.{
  ℕ, suc, ◌==◌, ℤ, String, Bool, true, false, List, [], ◌∷◌, Option, none, some, if◌then◌else◌,
  str_eq, nat_eq, string_eq, Dict, get, put, remove,
}
use dynvar_sync.Broker.Role
use dynvar_sync.Broker.Protocol.{Result, ok, raises, value_error}
use dynvar_sync.Value.{Value, member}

pub record ClientSession : Type 0 where
  pub role : String
  pub sock : ℕ
  pub address : String
  pub connected_at : ℕ
  pub last_seen_at : ℕ
  pub client_name : String
  pub version : String
  pub protocol : ℤ

-- The broker with its registry. `closed` lists the sockets that it has closed, and `sent` the
-- messages that it has handed to `sendall`, newest first; a failed `sendall` is only logged.
pub record Server : Type 0 where
  pub clients : Dict String ℕ
  pub sessions : Dict ℕ ClientSession
  pub next_session : ℕ
  pub closed : List ℕ
  pub sent : List (ℕ × Value)
  pub now : ℕ

abbrev pub initial : Server
initial = record { clients = []; sessions = []; next_session = 0; closed = []; sent = []; now = 0 }

abbrev pub client_roles : List String
client_roles = Role.ida ∷ Role.windbg ∷ []

-- ClientSession(…)
unfoldable pub new_session : ClientSession → Server → ℕ × Server
new_session session s = (
  s.next_session,
  record s { sessions = put s.next_session session s.sessions; next_session = suc s.next_session },
)

-- session.touch()
unfoldable pub touch : ℕ → Server → Server
touch id s = elim (get id s.sessions) [
  | none ↦ s
  | some session ↦ record s {
    sessions = put id (record session { last_seen_at = s.now }) s.sessions;
  }
]

-- session.close(): errors of the socket are ignored.
unfoldable pub close : ℕ → Server → Server
close sock s = record s { closed = sock ∷ s.closed }

-- `if old is not None and old.sock is not session.sock: old.close()`
unfoldable pub close_replaced : Option ClientSession → ℕ → Server → Server
unfolding close
close_replaced none sock s = s
close_replaced (some old) sock s = if old.sock == sock then s else close old.sock s

abbrev pub session_of : Server → Option ℕ → Option ClientSession
session_of s none = none
session_of s (some id) = get id s.sessions

-- The old client's session is returned.
unfoldable pub register : ℕ → ClientSession → Server → Result (Option ℕ × Server)
unfolding close_replaced
register id session s =
    if member session.role client_roles
    then ok (
      get session.role s.clients,
      close_replaced (session_of s (get session.role s.clients)) session.sock
          (record s { clients = put session.role id s.clients }),
    )
    else raises value_error

-- registry.get(role)
unfoldable pub active : String → Server → Option ℕ
active role s = get role s.clients

-- `self._clients.get(session.role) is session`
unfoldable pub is_active : ℕ → String → Server → Bool
is_active id role s = elim (get role s.clients) [ none ↦ false | some other ↦ other == id ]

-- registry.remove(session)
unfoldable pub remove_session : ℕ → ClientSession → Server → Bool × Server
unfolding is_active
remove_session id session s =
    if is_active id session.role s
    then (true, record s { clients = remove session.role s.clients })
    else (false, s)

unfoldable pub opposite_role : String → Option String
opposite_role role =
    if str_eq role Role.ida
    then some Role.windbg
    else if str_eq role Role.windbg
    then some Role.ida
    else none
