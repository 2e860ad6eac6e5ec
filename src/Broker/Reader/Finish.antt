-- ===== src/Broker/Reader/Finish.antt =====
-- The `finally` clause of `handle_client` (broker/dayvar_broker.py) and `ClientRegistry.remove`
-- (broker/sessions.py) on the registry.
use dynvar_sync.Base.{
  ℕ, String, str_eq, str_eq_iff, ◌==◌, ==_iff, Bool-cases, Option-cases, true, false, none, some,
  nat_eq, string_eq, get, get-remove, ◌≡◌, ◌≢◌, ◌⊎◌, refl, inl, inr, sym, ◌∙◌, subst,
}
use mathlib.Core.Option.{some-injective, none-ne-some}
use dynvar_sync.Broker.Protocol.{Runtime}
use dynvar_sync.Broker.Sessions.{ClientSession, remove_session, is_active, close, Server}
use dynvar_sync.Broker.Reader.{Turn, finish}

is_active-cases :
    (id : ℕ) (role : String) (s : Server)
    → ((is_active id role s ≡ true) × (get role s.clients ≡ some id))
      ⊎ ((is_active id role s ≡ false) × (get role s.clients ≢ some id))
unfolding is_active
is_active-cases id role s = elim (Option-cases (get role s.clients)) [
  | inl nobody ↦ inr (rw (is_active, nobody) refl, λ e. none-ne-some id (sym nobody ∙ e))
  | inr (other, there) ↦ elim (Bool-cases (other == id)) [
    | inl same ↦ inl (rw (is_active, there, same) refl, there ∙ rw ((==_iff other id).0 same) refl)
    | inr replaced ↦ inr (
      rw (is_active, there, replaced) refl,
      λ e.
          let one : other ≡ id = some-injective _ _ (sym there ∙ e) in
          cc (sym replaced ∙ (==_iff other id).1 one),
    )
  ]
]

-- What removing a session leaves of a role.
abbrev pub IsLeft : ℕ → ClientSession → String → Server → Server → Type 0
IsLeft id session role before after =
    ((session.role ≡ role) × (get role before.clients ≡ some id) × (get role after.clients ≡ none))
    ⊎ (((session.role ≢ role) ⊎ (get role before.clients ≢ some id))
        × (get role after.clients ≡ get role before.clients))

remove_session-IsLeft :
    (id : ℕ) (session : ClientSession) (s : Server) (role : String)
    → IsLeft id session role s (remove_session id session s).1
unfolding remove_session
remove_session-IsLeft id session s role = elim (Bool-cases (str_eq session.role role)) [
  | inl same ↦
      let one = (str_eq_iff session.role role).0 same in
      elim (is_active-cases id session.role s) [
        | inl (active, there) ↦ inl (
          one,
          subst (λ x. get x s.clients ≡ some id) one there,
          rw active (get-remove session.role role s.clients ∙ rw same refl),
        )
        | inr (replaced, gone) ↦
            inr (inr (subst (λ x. get x s.clients ≢ some id) one gone), rw replaced refl)
      ]
  | inr other ↦
      let two : session.role ≢ role = λ e. cc (sym other ∙ (str_eq_iff session.role role).1 e) in
      elim (is_active-cases id session.role s) [
        | inl (active, there) ↦
            inr (inl two, rw active (get-remove session.role role s.clients ∙ rw other refl))
        | inr (replaced, gone) ↦ inr (inl two, rw replaced refl)
      ]
]

-- The end of a connection that has a registered session leaves every role as it was, except that the
-- role of the session becomes free if the registry names this very session for it: a client that has
-- replaced the session stays, and so does every other role.
pub finish-get :
    (r : Runtime) (sock : ℕ) (address : String) (t : Turn) (id : ℕ) (session : ClientSession)
    (role : String)
    → t.session ≡ some id
    → get id t.server.sessions ≡ some session
    → IsLeft id session role t.server (finish r sock address t)
unfolding finish close
finish-get r sock address t id session role mine stored =
    rw (mine, stored, finish) (remove_session-IsLeft id session t.server role)
