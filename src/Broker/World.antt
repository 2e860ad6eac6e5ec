-- ===== src/Broker/World.antt =====
-- broker/dayvar_broker.py: the broker with all its reader threads (`serve_forever` starts one for
-- each connection, which runs `handle_client`). The threads share the registry; a step is one line
-- of one thread, the end of a thread, a new connection, or the passing of time.
pub mod Invariant
pub mod Turns
pub mod Admission
pub mod Ending
pub mod Reachable
use dynvar_sync.Base.{
  ℕ, ◌≤◌, String, List, [], Option, none, some, Dict, get, put, remove, nat_eq, ◌≡◌, In,
}
use dynvar_sync.Broker.Protocol.{Bytes, Runtime}
use dynvar_sync.Broker.Sessions.{Server, initial}
use dynvar_sync.Broker.Reader.{Turn, process_line, finish}

-- `threads` gives the live connections, each with its variable `session`.
pub record World : Type 0 where
  pub server : Server
  pub threads : Dict ℕ (Option ℕ)

abbrev pub start : World
start = record { server = initial; threads = [] }

-- An exception that leaves the loop ends the thread, through the same `finally` clause as the end of
-- the stream does.
abbrev pub end_thread : Runtime → ℕ → String → Turn → World → World
end_thread r sock address t w = record {
  server = finish r sock address t;
  threads = remove sock w.threads;
}

abbrev pub after_turn : Runtime → ℕ → String → Turn → World → World
after_turn r sock address t w = elim t.raised [
  | none ↦ record { server = t.server; threads = put sock t.session w.threads }
  | some e ↦ end_thread r sock address t w
]

abbrev pub idle : World → Option ℕ → Turn
idle w session = record { raised = none; session = session; server = w.server }

pub data Step (r : Runtime) (w : World) : World → Type 0 where
  -- `accept` returns a socket that no thread has and that the broker has not closed.
  connects :
      (sock : ℕ)
      → get sock w.threads ≡ none
      → (In sock w.server.closed → ⊥)
      → Step r w (record w { threads = put sock none w.threads })
  line :
      (sock : ℕ) (address : String) (session : Option ℕ) (bytes : Bytes)
      → get sock w.threads ≡ some session
      → Step r w (after_turn r sock address (process_line r sock address bytes session w.server) w)
  ends :
      (sock : ℕ) (address : String) (session : Option ℕ)
      → get sock w.threads ≡ some session
      → Step r w (end_thread r sock address (idle w session) w)
  clock :
      (now : ℕ)
      → w.server.now ≤ now
      → Step r w (record w { server = record w.server { now = now } })

pub data Reach (r : Runtime) : World → Type 0 where
  begins : Reach r start
  steps : {w v : World} → Reach r w → Step r w v → Reach r v
