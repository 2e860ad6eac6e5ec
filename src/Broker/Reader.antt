-- ===== src/Broker/Reader.antt =====
-- broker/dayvar_broker.py: `handle_client`, the loop of one reader thread, from the chunks that
-- `recv` returns to the end of the connection. Text output of the broker is left out.
pub mod Framing
pub mod Finish
use dynvar_sync.Base.{
  ℕ, zero, suc, ◌==◌, pos, String, Bool, true, false, List, [], ◌∷◌, ◌++◌, Option, none, some, get,
  nat_eq, if◌then◌else◌, length, ◌<+>◌, ◌≡◌, refl, arith, ◌≤◌, ◌<◌,
}
use dynvar_sync.Broker.Protocol.{
  Bytes, Runtime, Raised, protocol_error, Result, ok, raises, ◌>>=◌, ◌>>◌, ProtocolError,
  empty_line, not_an_object, bad_id, bad_payload, invalid_json, bad_version, bad_type, bad_role,
  strip, is_byte_space, decode_jsonl_line, validate_message_shape, Message,
}
use dynvar_sync.Broker.Sessions.{Server, close, remove_session}
use dynvar_sync.Broker.Routing.{handle_message, send_raw_error}
use dynvar_sync.Value.{num}

abbrev pub newline : ℕ
newline = b'\n'

-- `buffer.split(b"\n", 1)`, if `b"\n" in buffer`
unfoldable pub split_line : Bytes → Option (Bytes × Bytes)
split_line [] = none
split_line (c ∷ cs) =
    if c == newline
    then some ([], cs)
    else elim (split_line cs) [ none ↦ none | some (line, rest) ↦ some (c ∷ line, rest) ]

-- str(exc)
unfoldable pub describe : Runtime → ProtocolError → String
describe r empty_line = "empty JSONL line"
describe r not_an_object = "message must be a JSON object"
describe r bad_id = "message id must be an integer"
describe r bad_payload = "payload must be an object"
describe r (invalid_json msg) = "invalid JSON: " <+> msg
describe r (bad_version v) = "unsupported protocol version: " <+> r.repr v
describe r (bad_type v) = "unsupported message type: " <+> r.repr v
describe r (bad_role v) = "unsupported role: " <+> r.repr v

-- What the thread keeps between lines. An exception that leaves the loop is in `raised`.
pub record Turn : Type 0 where
  pub raised : Option Raised
  pub session : Option ℕ
  pub server : Server

module _ (r : Runtime) (sock : ℕ) (address : String) where
  -- `decode_jsonl_line` and `validate_message_shape`
  abbrev pub read_message : Bytes → Result Message
  read_message line = do body ← decode_jsonl_line r line; validate_message_shape body

  -- The `except protocol.ProtocolError` clause: the peer is told, and the loop goes on.
  unfoldable pub reject : Raised → Option ℕ → Server → Turn
  reject (protocol_error e) session s = record {
    raised = none;
    session = session;
    server = send_raw_error sock "invalid_message" (describe r e) (num (pos 0)) s;
  }
  reject e session s = record { raised = some e; session = session; server = s }

  unfoldable pub after_handling : Option ℕ → Server → Result (Option ℕ × Server) → Turn
  after_handling session s (raises e) = record { raised = some e; session = session; server = s }
  after_handling session s (ok (session', s')) = record {
    raised = none;
    session = session';
    server = s';
  }

  unfoldable pub accept : Result Message → Option ℕ → Server → Turn
  unfolding reject after_handling
  accept (raises e) session s = reject e session s
  accept (ok message) session s =
      after_handling session s (handle_message r sock address session message s)

  -- One round of the inner loop, for a line that has left the buffer.
  unfoldable pub process_line : Bytes → Option ℕ → Server → Turn
  unfolding accept strip is_byte_space
  process_line line session s = elim (strip is_byte_space line) [
    | [] ↦ record { raised = none; session = session; server = s }
    | _ ∷ _ ↦ accept (read_message line) session s
  ]

  -- `while b"\n" in buffer`: the buffer that is left, and the turn.
  unfoldable pub drain : ℕ → Bytes → Option ℕ → Server → Bytes × Turn
  drain zero buffer session s = (buffer, record { raised = none; session = session; server = s })
  drain (suc fuel) buffer session s = elim (split_line buffer) [
    | none ↦ (buffer, record { raised = none; session = session; server = s })
    | some (line, rest) ↦
        let t = process_line line session s in
        elim t.raised [ none ↦ drain fuel rest t.session t.server | some e ↦ (rest, t) ]
  ]

  abbrev started : Option ℕ → Server → Turn
  started session s = record { raised = none; session = session; server = s }

  -- `while True: chunk = recv(4096)`. An empty chunk is the end of the stream, and so is the end of
  -- the list, where `recv` raises. Every line takes at least its newline from the buffer.
  unfoldable pub receive : List Bytes → Bytes → Option ℕ → Server → Turn
  receive [] buffer session s = started session s
  receive (chunk ∷ chunks) buffer session s =
      let (rest, t) = drain (length (buffer ++ chunk)) (buffer ++ chunk) session s in
      let more : Turn = elim t.raised [
        | none ↦ receive chunks rest t.session t.server
        | some e ↦ t
      ] in
      elim chunk [ [] ↦ started session s | _ ∷ _ ↦ more ]

  -- The `finally` clause: the session leaves the registry if it is still active there, and the
  -- socket is closed.
  unfoldable pub finish : Turn → Server
  unfolding remove_session close
  finish t = elim t.session [
    | none ↦ close sock t.server
    | some id ↦ elim (get id t.server.sessions) [
      | none ↦ close sock t.server
      | some session ↦ close sock (remove_session id session t.server).1
    ]
  ]

  unfoldable pub handle_client : List Bytes → Server → Server
  unfolding receive finish
  handle_client chunks s = finish (receive chunks [] none s)
