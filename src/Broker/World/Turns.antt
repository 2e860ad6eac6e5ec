-- ===== src/Broker/World/Turns.antt =====
-- The invariant across a turn that registers nothing (broker/dayvar_broker.py: `handle_message`).
use dynvar_sync.Base.{
  ℕ, String, Option, some, ==_iff, nat_eq, string_eq, get, put, get-put, ◌≡◌, arith, In, subst, ◌∙◌,
}
use dynvar_sync.Broker.Sessions.{ClientSession, Server}
use dynvar_sync.Broker.Effects.{Quiet}
use dynvar_sync.Broker.World.{World}
use dynvar_sync.Broker.World.Invariant.{IsActive, Inv}

module _ (w : World) (sock : ℕ) (session : Option ℕ) (s : Server)
    (live : get sock w.threads ≡ some session) (q : Quiet w.server s) where
  abbrev after_quiet : World
  after_quiet = record { server = s; threads = put sock session w.threads }

  quiet-IsActive : (role : String) (id : ℕ) → IsActive w role id → IsActive after_quiet role id
  quiet-IsActive role id a =
      let (kept, stored, same_role, same_sock) = q.kept id a.session a.stored in
      record {
        session = kept;
        stored = stored;
        role_is = same_role ∙ a.role_is;
        client = a.client;
        owned = rw same_sock (
            ground (
              arith,
              get-put sock a.session.sock session w.threads,
              ==_iff sock a.session.sock,
              a.owned,
            ));
        open_sock = λ m.
            a.open_sock
              (subst (λ l. In a.session.sock l) q.closed (subst (λ k. In k s.closed) same_sock m));
      }

  quiet-own :
      (k id : ℕ)
      → Inv w
      → get k (put sock session w.threads) ≡ some (some id)
      → (session' : ClientSession) × (get id s.sessions ≡ some session') × (session'.sock ≡ k)
  quiet-own k id v h =
      let before =
        v.own k id (ground (arith, get-put sock k session w.threads, ==_iff sock k, live)) in
      let (kept, stored, same_role, same_sock) = q.kept id before.0 before.1 in
      (kept, stored, same_sock ∙ before.2)

  -- A turn that registered nothing.
  pub quiet-Inv : Inv w → Inv after_quiet
  quiet-Inv v = record {
    active = λ role id h. quiet-IsActive role id (v.active role id (rw q.clients at h));
    own = λ k id h. quiet-own k id v h;
    unregistered = λ k h m.
        v.unregistered k (ground (arith, get-put sock k session w.threads, ==_iff sock k, live))
          (rw q.closed at m);
    fresh = λ id h. q.absent id (v.fresh id (rw q.next_session at h));
  }
