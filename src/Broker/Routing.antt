-- ===== src/Broker/Routing.antt =====
-- broker/dayvar_broker.py: `handle_message` and `route_message`, and what they send.
use dynvar_sync.Base.{
  ℕ, String, [], ◌∷◌, Option, none, some, if◌then◌else◌, str_eq, nat_eq, string_eq, Dict, get, not,
  ◌<+>◌,
}
use dynvar_sync.Broker.Role
use dynvar_sync.Broker.Kind
use dynvar_sync.Broker.Protocol.{
  Result, ok, ◌>>=◌, Message, Runtime, create_error, create_hello_ack,
}
use dynvar_sync.Broker.Sessions.{
  ClientSession, Server, new_session, touch, register, active, opposite_role, client_roles,
}
use dynvar_sync.Value.{Value, Fields, str, obj, get_field, find_field, or_default, int_of, member}

abbrev routes : Dict String String
routes =
    (Kind.pc_update, Role.ida)
    ∷ (Kind.ida_pc_mapped, Role.windbg)
    ∷ (Kind.reg_request, Role.windbg)
    ∷ (Kind.reg_response, Role.ida)
    ∷ (Kind.mem_request, Role.windbg)
    ∷ (Kind.mem_response, Role.ida)
    ∷ []

-- `sendall` on a socket
unfoldable pub send_to_socket : ℕ → Value → Server → Server
send_to_socket sock message s = record s { sent = (sock, message) ∷ s.sent }

unfoldable pub send_to_session : ClientSession → Value → Server → Server
unfolding send_to_socket
send_to_session session message s = send_to_socket session.sock message s

abbrev plain_error : String → String → Value → Value
plain_error code text id = create_error code text id none none none

unfoldable pub send_raw_error : ℕ → String → String → Value → Server → Server
unfolding send_to_socket
send_raw_error sock code text id s = send_to_socket sock (plain_error code text id) s

unfoldable pub destination_role : ClientSession → Message → Option String
unfolding opposite_role
destination_role source message =
    if str_eq message.kind Kind.error then opposite_role source.role else get message.kind routes

abbrev pub not_connected : String → Value → Value
not_connected role id =
    plain_error "destination_not_connected" ("destination " <+> role <+> " is not connected") id

-- The destination of a routed message, once its role is known.
unfoldable pub deliver : Option ClientSession → String → ClientSession → Message → Server → Server
unfolding send_to_session
deliver none role source message s = send_to_session source (not_connected role message.id) s
deliver (some destination) role source message s = send_to_session destination (obj message.body) s

abbrev pub destination : String → Server → Option ClientSession
destination role s = elim (active role s) [ none ↦ none | some id ↦ get id s.sessions ]

unfoldable pub route_message : ClientSession → Message → Server → Server
route_message source message s = elim (destination_role source message) [
  | none ↦ s
  | some role ↦ deliver (destination role s) role source message s
]

-- str(payload.get(k, ""))
abbrev text_field : Runtime → String → Fields → String
text_field r k payload = r.str_of (or_default (str "") (find_field k payload))

abbrev pub session_from : Runtime → ℕ → String → Message → Server → ClientSession
session_from r sock address message s = record {
  role = message.role;
  sock = sock;
  address = address;
  connected_at = s.now;
  last_seen_at = s.now;
  client_name = text_field r "client_name" message.payload;
  version = text_field r "version" message.payload;
  protocol = int_of (get_field "protocol" message.body);
}

abbrev hello_required : Value → Value
hello_required id = plain_error "hello_required" "client must send hello before other messages" id

abbrev invalid_role : Value → Value
invalid_role id = plain_error "invalid_role" "only ida and windbg clients can register" id

abbrev pub role_mismatch : Value → Value
role_mismatch id =
    plain_error "role_mismatch" "message role does not match registered client role" id

-- The first accepted hello of a connection: the session is made, registered and acknowledged.
unfoldable pub admit : Runtime → ℕ → String → Message → Server → Result (Option ℕ × Server)
unfolding new_session register send_to_socket
admit r sock address message s =
    let session = session_from r sock address message s in
    let (id, made) = new_session session s in
    register id session made >>= λ (old, registered).
    ok (some id, send_to_socket sock (create_hello_ack message.id) registered)

-- A message on a connection that has not registered.
unfoldable pub handle_unregistered :
    Runtime → ℕ → String → Message → Server → Result (Option ℕ × Server)
unfolding send_raw_error
handle_unregistered r sock address message s =
    if not (str_eq message.kind Kind.hello)
    then ok (
      none,
      send_raw_error sock "hello_required" "client must send hello before other messages" message.id
          s,
    )
    else if not (member message.role client_roles)
    then ok (
      none,
      send_raw_error sock "invalid_role" "only ida and windbg clients can register" message.id s,
    )
    else admit r sock address message s

-- A message on a connection with a session. The session is written to before it is used again.
unfoldable pub handle_registered : ℕ → ClientSession → Message → Server → Server
unfolding send_to_session touch route_message
handle_registered id session message s =
    if not (str_eq message.role session.role)
    then send_to_session session (role_mismatch message.id) s
    else if str_eq message.kind Kind.hello
    then send_to_session session (create_hello_ack message.id) (touch id s)
    else route_message session message (touch id s)

-- A session number that the store does not hold cannot come from `handle_message`.
unfoldable pub handle_message :
    Runtime → ℕ → String → Option ℕ → Message → Server → Result (Option ℕ × Server)
unfolding handle_unregistered handle_registered
handle_message r sock address none message s = handle_unregistered r sock address message s
handle_message r sock address (some id) message s = elim (get id s.sessions) [
  | none ↦ ok (some id, s)
  | some session ↦ ok (some id, handle_registered id session message s)
]
