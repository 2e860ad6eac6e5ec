-- ===== src/Client.antt =====
-- ida_plugin/protocol_client.py: the class `ProtocolClient`. Its thread is a list of rounds of the
-- loop of `_run`, each with what the other threads have done before it and what the socket does.
pub mod Exchange
mod Examples
use dynvar_sync.Base.{
  ℕ, zero, suc, Bool, true, false, ◌||◌, List, [], ◌∷◌, ◌++◌, length, Option, none, some,
  if◌then◌else◌,
}
use dynvar_sync.Value.{Value, Fields, obj}
use dynvar_sync.Broker.Protocol.{
  Bytes, Runtime, Loaded, decode_error, parsed, strip, is_space, is_byte_space,
}
use dynvar_sync.Broker.Reader.{split_line}

abbrev pub message_of : Loaded → Option Fields
message_of (parsed (obj message)) = some message
message_of loaded = none

-- decode_jsonl_line; `none` is an exception that `_drain_receive_buffer` catches.
unfoldable pub decode_jsonl_line : Runtime → Bytes → Option Fields
unfolding strip is_space
decode_jsonl_line r line = elim (r.decode_utf8 line) [
  | none ↦ none
  | some text ↦ message_of (r.loads (strip is_space text))
]

-- `queue` is `self._send_queue`, in which `none` wakes the thread up; `written` are the messages that
-- the socket took, `delivered` those that `self._on_message` got.
pub record Client : Type 0 where
  pub queue : List (Option Value)
  pub stop_event : Bool
  pub connected : Bool
  pub written : List Value
  pub delivered : List Fields

unfoldable pub new_client : Client
new_client = record {
  queue = [];
  stop_event = false;
  connected = false;
  written = [];
  delivered = [];
}

-- send(message)
unfoldable pub send : Value → Client → Client
send message c = if c.stop_event then c else record c { queue = c.queue ++ some message ∷ [] }

-- disconnect()
unfoldable pub disconnect : Client → Client
disconnect c = record c { stop_event = true; queue = c.queue ++ none ∷ []; connected = false }

-- _drain_send_queue, where the socket takes so many messages before it fails.
unfoldable pub drain_send_queue : ℕ → List (Option Value) → Client → Client
drain_send_queue accepts [] c = record c { queue = [] }
drain_send_queue accepts (none ∷ queue) c = record c { queue = queue }
drain_send_queue zero (some message ∷ queue) c = record c { queue = queue; stop_event = true }
drain_send_queue (suc accepts) (some message ∷ queue) c =
    drain_send_queue accepts queue (record c { written = c.written ++ message ∷ [] })

-- What one line delivers.
unfoldable pub messages_of : Runtime → Bytes → List Fields
unfolding strip is_byte_space decode_jsonl_line
messages_of r line = elim (strip is_byte_space line) [
  | [] ↦ []
  | _ ∷ _ ↦ elim (decode_jsonl_line r line) [ none ↦ [] | some message ↦ message ∷ [] ]
]

-- _drain_receive_buffer: the buffer that is left, and the messages.
unfoldable pub drain_receive_buffer : Runtime → ℕ → Bytes → Bytes × List Fields
unfolding split_line messages_of
drain_receive_buffer r zero buffer = (buffer, [])
drain_receive_buffer r (suc fuel) buffer = elim (split_line buffer) [
  | none ↦ (buffer, [])
  | some (line, rest) ↦
      let more = drain_receive_buffer r fuel rest in (more.0, messages_of r line ++ more.1)
]

-- What `sock.recv` does: an empty chunk is the end.
pub data Received : Type 0 where
  timed_out failed : Received
  chunk : Bytes → Received

-- Before the round other threads have queued messages and perhaps stopped the client.
pub record Round : Type 0 where
  pub queued : List (Option Value)
  pub stopped : Bool
  pub accepts : ℕ
  pub received : Received

unfoldable pub arrive : Round → Client → Client
arrive round c = record c {
  queue = c.queue ++ round.queued;
  stop_event = c.stop_event || round.stopped;
}

-- The buffer and the client after the bytes have come; `none` is the end of the loop.
unfoldable pub take_in : Runtime → Received → Bytes → Client → Option Bytes × Client
unfolding drain_receive_buffer
take_in r timed_out buffer c = (some buffer, c)
take_in r failed buffer c = (none, c)
take_in r (chunk []) buffer c = (none, c)
take_in r (chunk (b ∷ bs)) buffer c =
    let got = drain_receive_buffer r (length (buffer ++ b ∷ bs)) (buffer ++ b ∷ bs) in
    (some got.0, record c { delivered = c.delivered ++ got.1 })

-- `while not self._stop_event.is_set()`
unfoldable pub run_rounds : Runtime → List Round → Bytes → Client → Client
unfolding arrive drain_send_queue take_in
run_rounds r [] buffer c = c
run_rounds r (round ∷ rounds) buffer c =
    let arrived = arrive round c in
    let sent = drain_send_queue round.accepts arrived.queue arrived in
    let taken = take_in r round.received buffer sent in
    elim arrived.stop_event [
      | true ↦ arrived
      | false ↦ elim taken.0 [ none ↦ taken.1 | some rest ↦ run_rounds r rounds rest taken.1 ]
    ]

-- The `finally` clause.
unfoldable pub finish : Client → Client
finish c = record c { connected = false; stop_event = true }

-- _run, where `reached` says whether there is a connection that takes the hello.
unfoldable pub run : Runtime → Bool → Value → List Round → Client → Client
unfolding run_rounds finish
run r false hello rounds c = finish c
run r true hello rounds c =
    finish
      (run_rounds r rounds [] (record c { written = c.written ++ hello ∷ []; connected = true }))

-- connect(…), where `alive` says whether there is a thread that runs.
unfoldable pub connect : Bool → Runtime → Bool → Value → List Round → Client → Client
unfolding run
connect true r reached hello rounds c = c
connect false r reached hello rounds c =
    run r reached hello rounds (record c { stop_event = false })
