-- ===== src/Broker/Sends.antt =====
-- To whom the broker sends (broker/dayvar_broker.py: `handle_client`, `handle_message`,
-- `route_message`, `send_raw_error`, `send_to_session`).
use dynvar_sync.Base.{
  ℕ, String, true, List, ◌∷◌, Option, none, some, str_eq, str_eq_iff, nat_eq, string_eq, get,
  Bool-cases, Option-cases, List-cases, ◌≡◌, refl, arith, inl, inr, ap,
}
use dynvar_sync.Broker.Protocol.{
  Bytes, Runtime, Message, Result, ok, raises, protocol_error, strip, is_byte_space, make_envelope,
  create_error, create_hello_ack,
}
use dynvar_sync.Broker.Role
use dynvar_sync.Broker.Sessions.{
  ClientSession, Server, client_roles, register, touch, close_replaced, active,
}
use dynvar_sync.Broker.Routing.{
  handle_message, route_message, send_to_socket, send_to_session, send_raw_error, destination_role,
  deliver, destination, handle_registered, handle_unregistered, admit, not_connected, role_mismatch,
}
use dynvar_sync.Broker.Reader.{process_line, accept, reject, after_handling, read_message}
use dynvar_sync.Value.{Value, obj, Fields, member}

-- A message that the broker itself has written.
pub data IsReply (v : Value) : Type 0 where
  reply :
      (kind : String) (payload : Fields) (id : Value)
      → v ≡ make_envelope kind Role.broker payload id
      → IsReply v

-- What a line made the broker send: nothing, a reply to the connection itself, or the message of the
-- line, unchanged, to the active client of the role that its type is routed to. A message is only
-- forwarded for a registered connection, and under the role that it has registered.
pub data Sent (sock : ℕ) (line : Result Message) (session : Option ℕ) (s s' : Server) : Type 0 where
  silent : s'.sent ≡ s.sent → Sent sock line session s s'
  replied : (v : Value) → IsReply v → s'.sent ≡ (sock, v) ∷ s.sent → Sent sock line session s s'
  forwarded :
      (message : Message) (mine their : ℕ) (source target : ClientSession) (role : String)
      → line ≡ ok message
      → session ≡ some mine
      → get mine s.sessions ≡ some source
      → message.role ≡ source.role
      → destination_role source message ≡ some role
      → get role s'.clients ≡ some their
      → get their s'.sessions ≡ some target
      → s'.sent ≡ (target.sock, obj message.body) ∷ s.sent
      → Sent sock line session s s'

error-IsReply :
    (code text : String) (id : Value) → IsReply (create_error code text id none none none)
unfolding create_error
error-IsReply code text id = reply _ _ _ refl

ack-IsReply : (id : Value) → IsReply (create_hello_ack id)
unfolding create_hello_ack
ack-IsReply id = reply _ _ _ refl

sent-touch : (id : ℕ) (s : Server) → (touch id s).sent ≡ s.sent
unfolding touch
sent-touch id s = ground arith

route-none :
    (source : ClientSession) (message : Message) (s : Server)
    → destination_role source message ≡ none
    → route_message source message s ≡ s
unfolding route_message
route-none source message s e = rw (e, route_message)

route-some :
    (source : ClientSession) (message : Message) (s : Server) (role : String)
    → destination_role source message ≡ some role
    → route_message source message s ≡ deliver (destination role s) role source message s
unfolding route_message
route-some source message s role e = rw (e, route_message)

destination-some :
    (role : String) (s : Server) (target : ClientSession)
    → destination role s ≡ some target
    → (their : ℕ) × (get role s.clients ≡ some their) × (get their s.sessions ≡ some target)
unfolding active
destination-some role s target h = elim (Option-cases (get role s.clients)) [
  | inl e ↦ ground arith
  | inr (their, e) ↦ (their, e, ground arith)
]

sent-close_replaced :
    (old : Option ClientSession) (sock : ℕ) (s : Server) → (close_replaced old sock s).sent ≡ s.sent
unfolding close_replaced
sent-close_replaced none sock s = refl
sent-close_replaced (some old) sock s = ground arith

module _ (sock : ℕ) where
  deliver-Sent :
      (found : Option ClientSession) (mine : ℕ) (source : ClientSession) (message : Message)
      (s t : Server) (role : String)
      → destination role t ≡ found
      → source.sock ≡ sock
      → get mine s.sessions ≡ some source
      → message.role ≡ source.role
      → destination_role source message ≡ some role
      → t.sent ≡ s.sent
      → Sent sock (ok message) (some mine) s (deliver found role source message t)
  unfolding deliver send_to_session send_to_socket
  deliver-Sent none mine source message s t role f own stored same e kept =
      replied (not_connected role message.id) (error-IsReply _ _ _) (ground arith)
  deliver-Sent (some target) mine source message s t role f own stored same e kept =
      let (their, registered, at) = destination-some role t target f in
      forwarded message mine their source target role refl refl stored same e registered at
        (ground arith)

  route-Sent :
      (mine : ℕ) (source : ClientSession) (message : Message) (s t : Server)
      → source.sock ≡ sock
      → get mine s.sessions ≡ some source
      → message.role ≡ source.role
      → t.sent ≡ s.sent
      → Sent sock (ok message) (some mine) s (route_message source message t)
  route-Sent mine source message s t own stored same kept =
      elim (Option-cases (destination_role source message)) [
        | inl e ↦ rw (route-none source message t e) (silent kept)
        | inr (role, e) ↦ rw (route-some source message t role e) (
            deliver-Sent (destination role t) mine source message s t role refl own stored same e
              kept)
      ]

  registered-Sent :
      (mine : ℕ) (source : ClientSession) (message : Message) (s : Server)
      → source.sock ≡ sock
      → get mine s.sessions ≡ some source
      → Sent sock (ok message) (some mine) s (handle_registered mine source message s)
  unfolding handle_registered send_to_session send_to_socket
  registered-Sent mine source message s own stored =
      elim (Bool-cases (str_eq message.role source.role)) [
        | inr other ↦
            rw other (replied (role_mismatch message.id) (error-IsReply _ _ _) (ground arith))
        | inl same ↦ elim (Bool-cases (str_eq message.kind "hello")) [
          | inl hello ↦
              rw (same, hello)
                (replied _ (ack-IsReply message.id) (ground (arith, sent-touch mine s)))
          | inr other ↦
              rw (same, other)
                (route-Sent mine source message s (touch mine s) own stored
                  ((str_eq_iff message.role source.role).0 same) (sent-touch mine s))
        ]
      ]

  module _ (r : Runtime) (address : String) where
    admit-Sent :
        (message : Message) (s : Server)
        → member message.role client_roles ≡ true
        → Sent sock
            (ok message)
            none
            s
            (after_handling r sock address none s (admit r sock address message s)).server
    unfolding admit after_handling register send_to_socket
    admit-Sent message s client = rw client (
        replied (create_hello_ack message.id) (ack-IsReply message.id) (
          ap (λ (l : List (ℕ × Value)). (sock, create_hello_ack message.id) ∷ l)
            (sent-close_replaced _ sock _)))

    unregistered-Sent :
        (message : Message) (s : Server)
        → Sent sock
            (ok message)
            none
            s
            (after_handling r sock address none s
              (handle_unregistered r sock address message s)).server
    unfolding handle_unregistered after_handling send_raw_error send_to_socket
    unregistered-Sent message s = elim (Bool-cases (str_eq message.kind "hello")) [
      | inr other ↦ rw other (replied _ (error-IsReply _ _ _) refl)
      | inl hello ↦ elim (Bool-cases (member message.role client_roles)) [
        | inr other ↦ rw (hello, other) (replied _ (error-IsReply _ _ _) refl)
        | inl client ↦ rw (hello, client) (admit-Sent message s client)
      ]
    ]

    handle_message-Sent :
        (session : Option ℕ) (message : Message) (s : Server)
        → ((id : ℕ) (mine : ClientSession)
            → session ≡ some id
            → get id s.sessions ≡ some mine
            → mine.sock ≡ sock)
        → Sent sock
            (ok message)
            session
            s
            (after_handling r sock address session s
              (handle_message r sock address session message s)).server
    unfolding handle_message
    handle_message-Sent none message s own = unregistered-Sent message s
    handle_message-Sent (some id) message s own = elim (Option-cases (get id s.sessions)) [
      | inl e ↦ rw (e, handle_message) (unfold after_handling in silent refl)
      | inr (mine, e) ↦
          rw (e, handle_message)
            (unfold after_handling in registered-Sent id mine message s (own id mine refl e) e)
    ]

    accept-Sent :
        (m : Result Message) (session : Option ℕ) (s : Server)
        → ((id : ℕ) (mine : ClientSession)
            → session ≡ some id
            → get id s.sessions ≡ some mine
            → mine.sock ≡ sock)
        → Sent sock m session s (accept r sock address m session s).server
    unfolding accept reject send_raw_error send_to_socket
    accept-Sent (ok message) session s own = handle_message-Sent session message s own
    accept-Sent (raises (protocol_error e)) session s own = replied _ (error-IsReply _ _ _) refl
    accept-Sent (raises _) session s own = silent refl

    -- The hypothesis is that the connection's session has the connection's socket.
    pub process_line-Sent :
        (line : Bytes) (session : Option ℕ) (s : Server)
        → ((id : ℕ) (mine : ClientSession)
            → session ≡ some id
            → get id s.sessions ≡ some mine
            → mine.sock ≡ sock)
        → Sent sock
            (read_message r sock address line)
            session
            s
            (process_line r sock address line session s).server
    unfolding process_line
    process_line-Sent line session s own = elim (List-cases (strip is_byte_space line)) [
      | inl e ↦ rw (e, process_line) (silent refl)
      | inr (c, cs, e) ↦
          rw (e, process_line) (accept-Sent (read_message r sock address line) session s own)
    ]
