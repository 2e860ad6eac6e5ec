-- ===== src/Broker/Examples.antt =====
-- Runs of the broker on a few lines, and the theorems about it at concrete states.
use dynvar_sync.Base.{
  ℕ, pos, List, [], ◌∷◌, none, some, ◌==◌, if◌then◌else◌, get, put, nat_eq, string_eq, ◌≡◌, refl,
}
use dynvar_sync.Broker.Protocol.{
  Runtime, Loaded, parsed, decode_error, Bytes, decode_jsonl_line, validate_message_shape,
}
use dynvar_sync.Broker.Routing.{handle_message, admit}
use dynvar_sync.Broker.Role
use dynvar_sync.Broker.Kind
use dynvar_sync.Broker.Sessions.{initial, ClientSession, Server}
use dynvar_sync.Broker.Reader.{Turn, process_line, finish, handle_client, read_message}
use dynvar_sync.Broker.Reader.Framing.{serve, split, stream, handle_client-serve}
use dynvar_sync.Broker.Reader.Finish.{IsLeft, finish-get}
use dynvar_sync.Broker.World.{World, start, Reach, begins, steps, connects, line, after_turn}
use dynvar_sync.Broker.World.Invariant.{IsActive}
use dynvar_sync.Broker.World.Reachable.{Reach-IsActive, Reach-Sent}
use dynvar_sync.Broker.Sends.{Sent}
use dynvar_sync.Value.{Value, obj, num, str, end, field, in_texts}

-- A decoder that knows one message: `h` is the hello of an IDA client.
abbrev hello_message : Value
hello_message = obj (
    field "protocol" (num (pos 1)) (
      field "id" (num (pos 7)) (
        field "type" (str Kind.hello)
          (field "role" (str Role.ida) (field "payload" (obj end) end)))))

abbrev loads_letter : List ℕ → Loaded
loads_letter [] = decode_error "empty"
loads_letter (c ∷ cs) = if c == b'h' then parsed hello_message else decode_error "unknown"

abbrev letters : Runtime
letters = record {
  decode_utf8 = λ bytes. some bytes;
  loads = loads_letter;
  dumps = λ v. [];
  repr = λ v. "";
  str_of = λ v. "";
}

-- `h\n` and then a line with nothing in it, cut inside the first line.
abbrev two_chunks : List Bytes
two_chunks = (b'h' ∷ []) ∷ (10 ∷ 32 ∷ 10 ∷ []) ∷ []

handle_client-serve_example :
    handle_client letters 4 "" two_chunks initial
    ≡ finish letters 4 "" (serve letters 4 "" (split (stream two_chunks)).0 none initial)
handle_client-serve_example =
    handle_client-serve letters 4 "" two_chunks initial ((λ e. cc), ((λ e. cc), tt))

abbrev accepted : World
accepted = record start { threads = (4, none) ∷ [] }

abbrev registered : World
registered =
    after_turn letters 4 "" (process_line letters 4 "" (b'h' ∷ []) none accepted.server) accepted

reached : Reach letters registered
unfolding get put
reached = steps (steps begins (connects 4 refl (λ m. m))) (line 4 "" none (b'h' ∷ []) refl)

client_listed : get Role.ida registered.server.clients ≡ some 0
unfolding get put process_line decode_jsonl_line validate_message_shape in_texts handle_message
    admit
client_listed = refl

Reach-IsActive_example : IsActive registered Role.ida 0
Reach-IsActive_example = Reach-IsActive letters registered Role.ida 0 reached client_listed

session_kept : get 4 registered.threads ≡ some (some 0)
unfolding get put process_line decode_jsonl_line validate_message_shape in_texts handle_message
    admit
session_kept = refl

Reach-Sent_example :
    Sent 4
      (read_message letters 4 "" (b'h' ∷ []))
      (some 0)
      registered.server
      (process_line letters 4 "" (b'h' ∷ []) (some 0) registered.server).server
Reach-Sent_example = Reach-Sent letters registered 4 "" (some 0) (b'h' ∷ []) reached session_kept

abbrev ida_session : ClientSession
ida_session = record {
  role = Role.ida;
  sock = 4;
  address = "";
  connected_at = 0;
  last_seen_at = 0;
  client_name = "";
  version = "";
  protocol = pos 1;
}

-- The session 0 has been replaced by the session 1.
abbrev replaced : Server
replaced = record initial { clients = (Role.ida, 1) ∷ []; sessions = (0, ida_session) ∷ [] }

ida_stored : get 0 replaced.sessions ≡ some ida_session
unfolding get
ida_stored = refl

abbrev last_turn : Turn
last_turn = record { raised = none; session = some 0; server = replaced }

finish-get_example : IsLeft 0 ida_session Role.ida replaced (finish letters 4 "" last_turn)
finish-get_example = finish-get letters 4 "" last_turn 0 ida_session Role.ida refl ida_stored
