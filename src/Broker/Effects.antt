-- ===== src/Broker/Effects.antt =====
-- What one line does to the registry and the store of sessions (broker/dayvar_broker.py:
-- `handle_client`, `handle_message`, `route_message`).
use dynvar_sync.Base.{
  ℕ, suc, ◌==◌, String, true, Option, none, some, str_eq, ==_iff, nat_eq, string_eq, get, put,
  get-put, Bool-cases, Option-cases, List-cases, ◌≡◌, refl, arith, inl, inr, ◌⊎◌, ◌≢◌, In,
}
use dynvar_sync.Broker.Protocol.{
  Bytes, Runtime, Message, Result, ok, raises, protocol_error, Raised, strip, is_byte_space,
}
use dynvar_sync.Broker.Sessions.{
  ClientSession, Server, touch, register, close_replaced, session_of, client_roles,
}
use dynvar_sync.Broker.Routing.{
  handle_message, route_message, send_to_socket, send_to_session, send_raw_error, deliver,
  handle_registered, handle_unregistered, admit, session_from,
}
use dynvar_sync.Broker.Reader.{Turn, process_line, accept, reject, after_handling, read_message}
use dynvar_sync.Value.{Value, member}

-- The registry and the closed sockets are as before, and each session keeps its role and socket.
pub record Quiet (s s' : Server) : Type 0 where
  pub clients : s'.clients ≡ s.clients
  pub closed : s'.closed ≡ s.closed
  pub next_session : s'.next_session ≡ s.next_session
  pub kept :
      (id : ℕ) (session : ClientSession)
      → get id s.sessions ≡ some session
      → (session' : ClientSession) × (get id s'.sessions ≡ some session')
        × (session'.role ≡ session.role)
        × (session'.sock ≡ session.sock)
  pub absent : (id : ℕ) → get id s.sessions ≡ none → get id s'.sessions ≡ none

Quiet-refl : (s : Server) → Quiet s s
Quiet-refl s = record {
  clients = refl;
  closed = refl;
  next_session = refl;
  kept = λ id session e. (session, e, refl, refl);
  absent = λ id e. e;
}

-- Only what was sent has changed.
Quiet-sent :
    (s s' : Server)
    → s'.clients ≡ s.clients
    → s'.closed ≡ s.closed
    → s'.next_session ≡ s.next_session
    → s'.sessions ≡ s.sessions
    → Quiet s s'
Quiet-sent s s' a b c d = record {
  clients = a;
  closed = b;
  next_session = c;
  kept = λ id session e. (session, rw d e, refl, refl);
  absent = λ id e. rw d e;
}

Quiet-trans : {s t u : Server} → Quiet s t → Quiet t u → Quiet s u
Quiet-trans p q = record {
  clients = cc;
  closed = cc;
  next_session = cc;
  kept = λ id session e.
      let (a, ea, ra, sa) = p.kept id session e in
      let (b, eb, rb, sb) = q.kept id a ea in (b, eb, cc, cc);
  absent = λ id e. q.absent id (p.absent id e);
}

Quiet-touch : (id : ℕ) (s : Server) → Quiet s (touch id s)
unfolding touch
Quiet-touch id s = elim (Option-cases (get id s.sessions)) [
  | inl e ↦ rw (e, touch) (Quiet-refl s)
  | inr (session, e) ↦
      rw (e, touch)
        (record {
          clients = refl;
          closed = refl;
          next_session = refl;
          kept = λ id' session' e'. elim (Bool-cases (id == id')) [
            | inl same ↦ (
              record session { last_seen_at = s.now },
              rw get-put (rw same),
              ground (arith, ==_iff id id'),
              ground (arith, ==_iff id id'),
            )
            | inr other ↦ (session', rw get-put (rw other e'), refl, refl)
          ];
          absent = λ id' e'. ground (
            arith,
            get-put id id' (record session { last_seen_at = s.now }) s.sessions,
            ==_iff id id',
          );
        })
]

Quiet-send : (sock : ℕ) (message : Value) (s : Server) → Quiet s (send_to_socket sock message s)
unfolding send_to_socket
Quiet-send sock message s = Quiet-sent s _ refl refl refl refl

Quiet-route :
    (source : ClientSession) (message : Message) (s : Server)
    → Quiet s (route_message source message s)
unfolding route_message deliver send_to_session send_to_socket
Quiet-route source message s =
    Quiet-sent s _ (ground arith) (ground arith) (ground arith) (ground arith)

Quiet-registered :
    (id : ℕ) (session : ClientSession) (message : Message) (s : Server)
    → Quiet s (handle_registered id session message s)
unfolding handle_registered
Quiet-registered id session message s = elim (Bool-cases (str_eq message.role session.role)) [
  | inl same ↦ elim (Bool-cases (str_eq message.kind "hello")) [
    | inl hello ↦
        rw (same, hello)
          (Quiet-trans (Quiet-touch id s) (unfold send_to_session in Quiet-send _ _ _))
    | inr other ↦ rw (same, other) (Quiet-trans (Quiet-touch id s) (Quiet-route session message _))
  ]
  | inr different ↦ rw different (unfold send_to_session in Quiet-send _ _ _)
]

-- The connection has registered a new session under the next number.
pub record Admitted (sock : ℕ) (s s' : Server) : Type 0 where
  pub new : ClientSession
  pub own : new.sock ≡ sock
  pub client : member new.role client_roles ≡ true
  pub clients : s'.clients ≡ put new.role s.next_session s.clients
  pub sessions : s'.sessions ≡ put s.next_session new s.sessions
  pub next_session : s'.next_session ≡ suc s.next_session
  pub closed :
      (k : ℕ)
      → In k s'.closed
      → In k s.closed
        ⊎ ((id : ℕ) × (old : ClientSession) × (get new.role s.clients ≡ some id)
            × (get id (put s.next_session new s.sessions) ≡ some old)
            × (k ≡ old.sock)
            × (k ≢ sock))

-- What a turn of a connection did.
pub data Effect (sock : ℕ) (session : Option ℕ) (s : Server) (t : Turn) : Type 0 where
  quiet : t.session ≡ session → Quiet s t.server → Effect sock session s t
  admitted :
      session ≡ none
      → t.session ≡ some s.next_session
      → Admitted sock s t.server
      → Effect sock session s t

close_replaced-keeps :
    (old : Option ClientSession) (sock : ℕ) (s : Server)
    → ((close_replaced old sock s).clients ≡ s.clients)
      × ((close_replaced old sock s).sessions ≡ s.sessions)
      × ((close_replaced old sock s).next_session ≡ s.next_session)
unfolding close_replaced
close_replaced-keeps none sock s = (refl, refl, refl)
close_replaced-keeps (some old) sock s = ground arith

In-close_replaced :
    (old : Option ClientSession) (sock k : ℕ) (s : Server)
    → In k (close_replaced old sock s).closed
    → In k s.closed ⊎ ((o : ClientSession) × (old ≡ some o) × (k ≡ o.sock) × (k ≢ sock))
unfolding close_replaced
In-close_replaced none sock k s h = inl h
In-close_replaced (some old) sock k s h = elim (Bool-cases (old.sock == sock)) [
  | inl same ↦ inl (rw same at h)
  | inr other ↦ elim (rw other at h) [
    | inl e ↦ inr (old, refl, e, ground (arith, ==_iff old.sock sock))
    | inr m ↦ inl m
  ]
]

In-session_of :
    (s : Server) (o : Option ℕ) (old : ClientSession)
    → session_of s o ≡ some old
    → (id : ℕ) × (o ≡ some id) × (get id s.sessions ≡ some old)
In-session_of s none old h = cc
In-session_of s (some id) old h = (id, refl, h)

module _ (r : Runtime) (sock : ℕ) (address : String) where
  admit-Effect :
      (message : Message) (s : Server)
      → member message.role client_roles ≡ true
      → Effect sock none s (after_handling r sock address none s (admit r sock address message s))
  unfolding after_handling admit register
  admit-Effect message s client =
      let new = session_from r sock address message s in
      let made = record s {
        sessions = put s.next_session new s.sessions;
        next_session = suc s.next_session;
      } in
      let old = session_of made (get message.role s.clients) in
      let listed = record made { clients = put message.role s.next_session s.clients } in
      let keeps = close_replaced-keeps old sock listed in
      rw client (
        admitted refl refl (record {
          new = new;
          own = refl;
          client = client;
          clients = keeps.0;
          sessions = keeps.1;
          next_session = keeps.2;
          closed = λ k m. elim (In-close_replaced old sock k listed m) [
            | inl before ↦ inl before
            | inr (o, e, at, ne) ↦
                let (id, f, g) = In-session_of made (get message.role s.clients) o e in
                inr (id, o, f, g, at, ne)
          ];
        }))

  handle_unregistered-Effect :
      (message : Message) (s : Server)
      → Effect sock none s
          (after_handling r sock address none s (handle_unregistered r sock address message s))
  unfolding handle_unregistered send_raw_error
  handle_unregistered-Effect message s = elim (Bool-cases (str_eq message.kind "hello")) [
    | inr other ↦ rw other (unfold after_handling in quiet refl (Quiet-send _ _ s))
    | inl hello ↦ elim (Bool-cases (member message.role client_roles)) [
      | inl client ↦ rw (hello, client) (admit-Effect message s client)
      | inr other ↦ rw (hello, other) (unfold after_handling in quiet refl (Quiet-send _ _ s))
    ]
  ]

  handle_message-Effect :
      (session : Option ℕ) (message : Message) (s : Server)
      → Effect sock session s (
          after_handling r sock address session s (handle_message r sock address session message s))
  unfolding handle_message
  handle_message-Effect none message s = handle_unregistered-Effect message s
  handle_message-Effect (some id) message s = elim (Option-cases (get id s.sessions)) [
    | inl e ↦ rw (e, handle_message) (unfold after_handling in quiet refl (Quiet-refl s))
    | inr (session, e) ↦
        rw (e, handle_message)
          (unfold after_handling in quiet refl (Quiet-registered id session message s))
  ]

  reject-Effect :
      (e : Raised) (session : Option ℕ) (s : Server)
      → Effect sock session s (reject r sock address e session s)
  unfolding reject send_raw_error
  reject-Effect (protocol_error e) session s = quiet refl (Quiet-send _ _ s)
  reject-Effect _ session s = quiet refl (Quiet-refl s)

  accept-Effect :
      (m : Result Message) (session : Option ℕ) (s : Server)
      → Effect sock session s (accept r sock address m session s)
  unfolding accept
  accept-Effect (ok message) session s = handle_message-Effect session message s
  accept-Effect (raises e) session s = reject-Effect e session s

  -- A line registers its connection, or it leaves registry, sockets and roles as they are.
  pub process_line-Effect :
      (line : Bytes) (session : Option ℕ) (s : Server)
      → Effect sock session s (process_line r sock address line session s)
  unfolding process_line
  process_line-Effect line session s = elim (List-cases (strip is_byte_space line)) [
    | inl e ↦ rw (e, process_line) (quiet refl (Quiet-refl s))
    | inr (c, cs, e) ↦
        rw (e, process_line) (accept-Effect (read_message r sock address line) session s)
  ]
