-- ===== src/Broker/World/Admission.antt =====
-- The invariant across the turn that registers a connection (broker/sessions.py: `register`).
use dynvar_sync.Base.{
  ℕ, ◌==◌, String, none, some, str_eq_iff, ==_iff, nat_eq, string_eq, get, put, get-put, Bool-cases,
  ◌≡◌, ◌≢◌, refl, arith, inl, inr, In, subst, ◌∙◌, ap, str_eq, get-put_self,
}
use dynvar_sync.Broker.Sessions.{ClientSession, Server}
use dynvar_sync.Broker.Effects.{Admitted}
use dynvar_sync.Broker.World.{World}
use dynvar_sync.Broker.World.Invariant.{IsActive, Inv}

module _ (w : World) (sock : ℕ) (s : Server) (live : get sock w.threads ≡ some none)
    (a : Admitted sock w.server s) (v : Inv w) where
  abbrev after_admitted : World
  after_admitted = record { server = s; threads = put sock (some w.server.next_session) w.threads }

  -- A session that the store held has another number than the new one.
  old-ne-new :
      (id : ℕ) (old : ClientSession)
      → get id w.server.sessions ≡ some old
      → id ≢ w.server.next_session
  old-ne-new id old h e = cc (v.fresh id (omega arith))

  old_stored :
      (id : ℕ) (old : ClientSession)
      → get id w.server.sessions ≡ some old
      → get id s.sessions ≡ some old
  old_stored id old h = rw a.sessions (
      ground (
        arith,
        get-put w.server.next_session id a.new w.server.sessions,
        ==_iff w.server.next_session id,
        old-ne-new id old h,
      ))

  admitted-own :
      (k id : ℕ)
      → get k (put sock (some w.server.next_session) w.threads) ≡ some (some id)
      → (session : ClientSession) × (get id s.sessions ≡ some session) × (session.sock ≡ k)
  admitted-own k id h = elim (Bool-cases (sock == k)) [
    | inl same ↦ (
      a.new,
      rw a.sessions (
          ground (
            arith,
            get-put sock k (some w.server.next_session) w.threads,
            get-put_self w.server.next_session a.new w.server.sessions,
          )),
      ground (arith, a.own, ==_iff sock k),
    )
    | inr other ↦
        let (old, stored, at_k) =
          v.own k id (ground (arith, get-put sock k (some w.server.next_session) w.threads)) in
        (old, old_stored id old stored, at_k)
  ]

  -- A replaced client still has its own thread.
  pub replaced :
      (id : ℕ) (old : ClientSession)
      → get a.new.role w.server.clients ≡ some id
      → get id (put w.server.next_session a.new w.server.sessions) ≡ some old
      → (get old.sock w.threads ≡ some (some id))
        × (get id w.server.sessions ≡ some old)
        × (old.role ≡ a.new.role)
  replaced id old h e =
      let was = v.active a.new.role id h in
      let same : was.session ≡ old = ground (
        arith,
        was.stored,
        get-put w.server.next_session id a.new w.server.sessions,
        ==_iff w.server.next_session id,
        old-ne-new id was.session was.stored,
      ) in
      (
        subst (λ (x : ClientSession). get x.sock w.threads ≡ some (some id)) same was.owned,
        was.stored ∙ ap some same,
        subst (λ (x : ClientSession). x.role ≡ a.new.role) same was.role_is,
      )

  unregistered_after : (k : ℕ) → get k w.threads ≡ some none → In k s.closed → ⊥
  unregistered_after k h m = elim (a.closed k m) [
    | inl before ↦ v.unregistered k h before
    | inr (id, old, f, g, at, ne) ↦ cc ((replaced id old f g).0, ap (λ (x : ℕ). get x w.threads) at)
  ]

  new-IsActive : IsActive after_admitted a.new.role w.server.next_session
  new-IsActive = record {
    session = a.new;
    stored = rw a.sessions (get-put_self w.server.next_session a.new w.server.sessions);
    role_is = refl;
    client = a.client;
    owned = rw a.own (get-put_self sock (some w.server.next_session) w.threads);
    open_sock = λ m. unregistered_after sock live (rw a.own at m);
  }

  other-IsActive :
      (role : String) (id : ℕ)
      → a.new.role ≢ role
      → IsActive w role id
      → IsActive after_admitted role id
  other-IsActive role id ne b = record {
    session = b.session;
    stored = old_stored id b.session b.stored;
    role_is = b.role_is;
    client = b.client;
    owned = ground (
      arith,
      b.owned,
      live,
      get-put sock b.session.sock (some w.server.next_session) w.threads,
      ==_iff sock b.session.sock,
    );
    open_sock = λ m. elim (a.closed b.session.sock m) [
      | inl before ↦ b.open_sock before
      | inr (id', old, f, g, at, _) ↦
          let (owned, stored, same_role) = replaced id' old f g in
          ne (
            ground (
              arith,
              b.owned,
              b.stored,
              b.role_is,
              owned,
              stored,
              same_role,
              ap (λ (x : ℕ). get x w.threads) at,
            ))
    ];
  }

  -- The turn that registered the connection.
  pub admitted-Inv : Inv after_admitted
  admitted-Inv = record {
    active = λ role id h. elim (Bool-cases (str_eq a.new.role role)) [
      | inl same ↦
          let role_eq = (str_eq_iff a.new.role role).0 same in
          let id_eq : w.server.next_session ≡ id =
            ground
              (arith, a.clients, get-put a.new.role role w.server.next_session w.server.clients) in
          subst (λ (x : String). IsActive after_admitted x id) role_eq
            (subst (λ (x : ℕ). IsActive after_admitted a.new.role x) id_eq new-IsActive)
      | inr other ↦ other-IsActive role id (ground (arith, str_eq_iff a.new.role role)) (
          v.active role id (
            ground
              (arith, a.clients, get-put a.new.role role w.server.next_session w.server.clients)))
    ];
    own = admitted-own;
    unregistered = λ k h m.
        unregistered_after k (ground (arith, get-put sock k (some w.server.next_session) w.threads))
          m;
    fresh = λ id h. ground (
      arith,
      a.sessions,
      a.next_session,
      v.fresh id (omega (arith, a.next_session)),
      get-put w.server.next_session id a.new w.server.sessions,
      ==_iff w.server.next_session id,
    );
  }
