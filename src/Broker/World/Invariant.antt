-- ===== src/Broker/World/Invariant.antt =====
-- What holds of the registry in every state that the threads can reach: the invariant, and the two
-- steps that leave the sessions alone (broker/sessions.py, broker/dayvar_broker.py).
use dynvar_sync.Base.{
  ℕ, ◌==◌, ◌≤◌, String, true, Option, none, some, ==_iff, nat_eq, string_eq, get, put, get-put,
  Bool-cases, ◌≡◌, refl, arith, inl, inr, In, subst, sym,
}
use dynvar_sync.Broker.Sessions.{ClientSession, client_roles}
use dynvar_sync.Broker.World.{World, start}
use dynvar_sync.Value.{member}

-- An active client of a role is a session of that role, whose own live thread still has it, on a
-- socket that the broker has not closed.
pub record IsActive (w : World) (role : String) (id : ℕ) : Type 0 where
  pub session : ClientSession
  pub stored : get id w.server.sessions ≡ some session
  pub role_is : session.role ≡ role
  pub client : member role client_roles ≡ true
  pub owned : get session.sock w.threads ≡ some (some id)
  pub open_sock : In session.sock w.server.closed → ⊥

pub record Inv (w : World) : Type 0 where
  pub active : (role : String) (id : ℕ) → get role w.server.clients ≡ some id → IsActive w role id
  pub own :
      (sock id : ℕ)
      → get sock w.threads ≡ some (some id)
      → (session : ClientSession) × (get id w.server.sessions ≡ some session)
        × (session.sock ≡ sock)
  pub unregistered : (sock : ℕ) → get sock w.threads ≡ some none → In sock w.server.closed → ⊥
  pub fresh : (id : ℕ) → w.server.next_session ≤ id → get id w.server.sessions ≡ none

pub start-Inv : Inv start
unfolding get
start-Inv = record {
  active = λ role id h. cc;
  own = λ sock id h. cc;
  unregistered = λ sock h m. m;
  fresh = λ id h. refl;
}

pub connects-Inv :
    (w : World) (sock : ℕ)
    → get sock w.threads ≡ none
    → (In sock w.server.closed → ⊥)
    → Inv w
    → Inv (record w { threads = put sock none w.threads })
connects-Inv w sock free unclosed v = record {
  active = λ role id h.
      let a = v.active role id h in
      record {
        session = a.session;
        stored = a.stored;
        role_is = a.role_is;
        client = a.client;
        owned = ground (
          arith,
          get-put {V = Option ℕ} sock a.session.sock none w.threads,
          ==_iff sock a.session.sock,
          a.owned,
        );
        open_sock = a.open_sock;
      };
  own = λ k id h.
      v.own k id (ground (arith, get-put {V = Option ℕ} sock k none w.threads, ==_iff sock k));
  unregistered = λ k h m. elim (Bool-cases (sock == k)) [
    | inl same ↦ unclosed (subst (λ x. In x w.server.closed) (sym ((==_iff sock k).0 same)) m)
    | inr other ↦ v.unregistered k (rw (get-put sock k none w.threads, other) at h) m
  ];
  fresh = v.fresh;
}
