-- ===== src/Broker/World/Reachable.antt =====
-- The invariant in every reachable state of the broker.
use dynvar_sync.Base.{
  ℕ, String, Option, some, nat_eq, string_eq, get, put, remove, get-remove, Option-cases, ◌≡◌, refl,
  inl, inr, subst, arith,
}
use dynvar_sync.Broker.Protocol.{Runtime, Bytes}
use dynvar_sync.Broker.Reader.{Turn, process_line, read_message}
use dynvar_sync.Broker.Effects.{Effect, quiet, admitted, process_line-Effect}
use dynvar_sync.Broker.Sends.{Sent, process_line-Sent}
use dynvar_sync.Broker.World.{
  World, after_turn, idle, Step, connects, line, ends, clock, Reach, begins, steps,
}
use dynvar_sync.Broker.World.Invariant.{IsActive, Inv, start-Inv, connects-Inv}
use dynvar_sync.Broker.World.Turns.{quiet-Inv}
use dynvar_sync.Broker.World.Admission.{admitted-Inv}
use dynvar_sync.Broker.World.Ending.{finish-Inv, end_after-Inv}

turn-Inv :
    (r : Runtime) (w : World) (sock : ℕ) (address : String) (session : Option ℕ) (t : Turn)
    → get sock w.threads ≡ some session
    → Effect sock session w.server t
    → Inv w
    → Inv (record { server = t.server; threads = put sock t.session w.threads })
turn-Inv r w sock address session t live (quiet e q) v =
    rw e (quiet-Inv w sock session t.server live q v)
turn-Inv r w sock address session t live (admitted none_before e a) v =
    rw e (admitted-Inv w sock t.server (rw none_before at live) a v)

after_turn-Inv :
    (r : Runtime) (w : World) (sock : ℕ) (address : String) (t : Turn)
    → Inv (record { server = t.server; threads = put sock t.session w.threads })
    → Inv (after_turn r sock address t w)
after_turn-Inv r w sock address t v = elim (Option-cases t.raised) [
  | inl e ↦ rw (e, after_turn) v
  | inr (raised, e) ↦ rw (e, after_turn) (end_after-Inv r w sock address t v)
]

Step-Inv : (r : Runtime) (w : World) {u : World} → Step r w u → Inv w → Inv u
Step-Inv r w (connects sock free unclosed) v = connects-Inv w sock free unclosed v
Step-Inv r w (line sock address session bytes live) v =
    after_turn-Inv r w sock address (process_line r sock address bytes session w.server) (
      turn-Inv r w sock address session _ live
        (process_line-Effect r sock address bytes session w.server) v)
Step-Inv r w (ends sock address session live) v =
    finish-Inv w sock (remove sock w.threads) (λ k. get-remove sock k w.threads) v r address
      (idle w session) refl live
Step-Inv r w (clock now later) v = record {
  active = λ role id h.
      let a = v.active role id h in
      record {
        session = a.session;
        stored = a.stored;
        role_is = a.role_is;
        client = a.client;
        owned = a.owned;
        open_sock = a.open_sock;
      };
  own = v.own;
  unregistered = v.unregistered;
  fresh = v.fresh;
}

Reach-Inv : (r : Runtime) {w : World} → Reach r w → Inv w
Reach-Inv r begins = start-Inv
Reach-Inv r (steps {w} reached step) = Step-Inv r w step (Reach-Inv r reached)

-- In every state that the threads of the broker can reach, in whatever order they run, an active
-- client has a registrable role, its session has that role, its own thread is still alive with that
-- session, and the broker has not closed its socket.
pub Reach-IsActive :
    (r : Runtime) (w : World) (role : String) (id : ℕ)
    → Reach r w
    → get role w.server.clients ≡ some id
    → IsActive w role id
Reach-IsActive r w role id reached h = (Reach-Inv r reached).active role id h

-- Whatever bytes a live connection sends as a line, in any reachable state, the broker sends at most
-- one message: a reply of its own on that connection's socket, or the line's message, unchanged, on
-- the socket of the active client of the role that the routes give for its type. It forwards only
-- for a connection that has registered, and only under the role that it registered with.
pub Reach-Sent :
    (r : Runtime) (w : World) (sock : ℕ) (address : String) (session : Option ℕ) (bytes : Bytes)
    → Reach r w
    → get sock w.threads ≡ some session
    → Sent sock
        (read_message r sock address bytes)
        session
        w.server
        (process_line r sock address bytes session w.server).server
Reach-Sent r w sock address session bytes reached live =
    process_line-Sent sock r address bytes session w.server λ id mine registered stored.
      let (theirs, at, own) =
        (Reach-Inv r reached).own sock id
          (subst (λ x. get sock w.threads ≡ some x) registered live) in
      ground (arith, own, at)
