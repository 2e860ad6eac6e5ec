-- ===== src/Broker/World/Ending.antt =====
-- The invariant across the end of a thread (the `finally` clause of `handle_client`).
use dynvar_sync.Base.{
  ℕ, ◌==◌, String, ◌∷◌, Option, none, some, if◌then◌else◌, str_eq_iff, ==_iff, nat_eq, string_eq,
  Dict, get, put, remove, get-put, get-remove, Option-cases, ◌≡◌, ◌≢◌, refl, arith, inl, inr, In,
  subst, get-put_self,
}
use dynvar_sync.Broker.Protocol.{Runtime}
use dynvar_sync.Broker.Sessions.{ClientSession, remove_session, close, Server}
use dynvar_sync.Broker.Reader.{Turn, finish}
use dynvar_sync.Broker.World.{World, end_thread}
use dynvar_sync.Broker.World.Invariant.{IsActive, Inv}

-- The `finally` clause of a thread with session number `id`.
module _ (w : World) (sock : ℕ) (threads : Dict ℕ (Option ℕ))
    (gone : (k : ℕ) → get k threads ≡ (if sock == k then none else get k w.threads))
    (v : Inv w) where
  -- The thread's own session is not among the clients that are left.
  left-IsActive :
      (s : Server) (role : String) (id : ℕ)
      → s.sessions ≡ w.server.sessions
      → s.closed ≡ sock ∷ w.server.closed
      → get sock w.threads ≢ some (some id)
      → IsActive w role id
      → IsActive (record { server = s; threads = threads }) role id
  left-IsActive s role id same_sessions same_closed other a =
      let apart : a.session.sock ≢ sock =
        λ e. other (subst (λ k. get k w.threads ≡ some (some id)) e a.owned) in
      record {
        session = a.session;
        stored = rw same_sessions a.stored;
        role_is = a.role_is;
        client = a.client;
        owned = ground (arith, gone a.session.sock, ==_iff sock a.session.sock, a.owned, apart);
        open_sock = λ m. elim (subst (λ l. In a.session.sock l) same_closed m) [
          | inl e ↦ apart e
          | inr before ↦ a.open_sock before
        ];
      }

  end-Inv :
      (s : Server)
      → s.sessions ≡ w.server.sessions
      → s.next_session ≡ w.server.next_session
      → s.closed ≡ sock ∷ w.server.closed
      → ((role : String) (id : ℕ)
          → get role s.clients ≡ some id
          → (get role w.server.clients ≡ some id) × (get sock w.threads ≢ some (some id)))
      → Inv (record { server = s; threads = threads })
  end-Inv s same_sessions same_next same_closed left = record {
    active = λ role id h.
        let (was, other) = left role id h in
        left-IsActive s role id same_sessions same_closed other (v.active role id was);
    own = λ k id h. rw same_sessions (v.own k id (ground (arith, gone k)));
    unregistered = λ k h m. elim (subst (λ l. In k l) same_closed m) [
      | inl e ↦ ground (arith, gone k, ==_iff sock k)
      | inr before ↦ v.unregistered k (ground (arith, gone k)) before
    ];
    fresh = λ id h. rw same_sessions (v.fresh id (rw same_next at h));
  }

  -- A thread that has registered: its session leaves the registry if it is still active there.
  left_by_owner :
      (mine : ℕ) (session : ClientSession) (role : String) (id : ℕ)
      → get mine w.server.sessions ≡ some session
      → get sock w.threads ≡ some (some mine)
      → get role (remove_session mine session w.server).1.clients ≡ some id
      → (get role w.server.clients ≡ some id) × (get sock w.threads ≢ some (some id))
  unfolding remove_session
  left_by_owner mine session role id stored live h =
      let was : get role w.server.clients ≡ some id =
        ground (arith, get-remove session.role role w.server.clients) in
      let a = v.active role id was in
      (
        was,
        λ e. ground (
          arith,
          get-remove session.role role w.server.clients,
          str_eq_iff session.role role,
          ==_iff id mine,
          a.stored,
          a.role_is,
        ),
      )

  finish-registered :
      (r : Runtime) (address : String) (t : Turn) (mine : ℕ) (session : ClientSession)
      → t.session ≡ some mine
      → t.server ≡ w.server
      → get mine w.server.sessions ≡ some session
      → finish r sock address t ≡ close sock (remove_session mine session w.server).1
  unfolding finish
  finish-registered r address t mine session a b c = ground arith

  end_owner-Inv :
      (mine : ℕ) (session : ClientSession)
      → get mine w.server.sessions ≡ some session
      → get sock w.threads ≡ some (some mine)
      → Inv (record {
        server = close sock (remove_session mine session w.server).1;
        threads = threads;
      })
  end_owner-Inv mine session stored live =
      end-Inv (close sock (remove_session mine session w.server).1)
        (unfold close remove_session in ground arith) (unfold close remove_session in ground arith)
        (unfold close remove_session in ground arith)
        (λ role id h. left_by_owner mine session role id stored live (unfold close in h))

  pub finish-Inv :
      (r : Runtime) (address : String) (t : Turn)
      → t.server ≡ w.server
      → get sock w.threads ≡ some t.session
      → Inv (record { server = finish r sock address t; threads = threads })
  finish-Inv r address t e live = elim (Option-cases t.session) [
    | inl unregistered ↦
        end-Inv (finish r sock address t) (unfold finish in ground arith)
          (unfold finish in ground arith) (unfold finish in ground arith)
          (λ role id h. (unfold finish in ground arith, ground arith))
    | inr (mine, registered) ↦
        let (session, stored, _) = v.own sock mine (rw registered at live) in
        rw (finish-registered r address t mine session registered e stored)
          (end_owner-Inv mine session stored (rw registered at live))
  ]

-- Threads after a turn of one of them.
gone-put :
    (sock : ℕ) (session : Option ℕ) (threads : Dict ℕ (Option ℕ)) (k : ℕ)
    → get k (remove sock threads) ≡ (if sock == k then none else get k (put sock session threads))
gone-put sock session threads k =
    ground (arith, get-remove sock k threads, get-put sock k session threads)

pub end_after-Inv :
    (r : Runtime) (w : World) (sock : ℕ) (address : String) (t : Turn)
    → Inv (record { server = t.server; threads = put sock t.session w.threads })
    → Inv (end_thread r sock address t w)
end_after-Inv r w sock address t v =
    finish-Inv (record { server = t.server; threads = put sock t.session w.threads }) sock
      (remove sock w.threads) (gone-put sock t.session w.threads) v r address t refl
      (get-put_self sock t.session w.threads)
