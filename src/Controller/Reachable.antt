-- ===== src/Controller/Reachable.antt =====
-- The life of a `DayVarController`: messages of the broker, and what its user does.
use dynvar_sync.Base.{
  ℕ, ℤ, Bool, true, false, List, [], In, In-All, Option, none, some, String, ◌≡◌, refl, sym, ap,
  ◌∙◌, inl, inr, arith, subst, Option-cases,
}
use dynvar_sync.Value.{Fields}
use dynvar_sync.Recovery.{PendingRequest, Recovery}
use dynvar_sync.Recovery.Pending.{clear_runtime_state}
use dynvar_sync.Recovery.Invariant.{IsRequestOf}
use dynvar_sync.Recovery.Invariant.Planning.{clear_runtime_state-IsSound}
use dynvar_sync.Recovery.Invariant.Steps.{new_recovery}
use dynvar_sync.Core as Arguments
use dynvar_sync.Core.{DayVarCore, PcContext, make_hello, envelope, take_message_id, new_core}
use dynvar_sync.Core.Contexts.{IsFor, seq_at, runtime_at}
use dynvar_sync.View.{set_filter}
use dynvar_sync.View.Shown.{new_view-IsFiltered, set_filter-IsFiltered}
use dynvar_sync.Controller.{
  Controller, Environment, new_controller, connect, greet, parse_target, disconnect, change_filter,
  invalidate_cache,
}
use dynvar_sync.Controller.Handlers.{handle_message}
use dynvar_sync.Controller.Kept.{handle_message-IsReady}
use dynvar_sync.Controller.Ready.{IsReady, Together, invalidate_cache-IsReady}

-- One step of a controller. IDA may answer otherwise at every message.
pub data Step : Controller → Controller → Type 0 where
  received :
      {c d : Controller} (e : Environment) (message : Fields)
      → handle_message e message c ≡ some d
      → Step c d
  connected :
      {c : Controller} (target : String) (already : Bool) (ida_version : String)
      → Step c (connect target already ida_version c)
  disconnected : {c : Controller} → Step c (disconnect c)
  filtered :
      {c d : Controller} (filter_name : String) → change_filter filter_name c ≡ some d → Step c d
  watched : {c : Controller} (indexes : List ℕ) → Step c (record c { watched = indexes })

pub data Reach : Controller → Type 0 where
  start : (max_recovery_candidates : ℤ) → Reach (new_controller max_recovery_candidates)
  next : {c d : Controller} → Reach c → Step c d → Reach d

start-IsReady : (n : ℤ) → IsReady (new_controller n)
unfolding new_controller new_core new_recovery
start-IsReady n = record {
  sound = record { bounded = omega arith; records_current = tt; pending_current = tt };
  filtered = new_view-IsFiltered;
  current = none;
  arguments = record { here = refl; waiting = tt };
  together = inl refl;
}

greet-IsReady :
    (target : Option (String × ℤ)) (already : Bool) (ida_version : String) (c : Controller)
    → IsReady c
    → IsReady (greet target already ida_version c)
unfolding make_hello envelope take_message_id
greet-IsReady none already ida_version c h = h
greet-IsReady (some target) true ida_version c h = h
greet-IsReady (some target) false ida_version c h = record {
  sound = h.sound;
  filtered = h.filtered;
  current = h.current;
  arguments = record { here = h.arguments.here; waiting = h.arguments.waiting };
  together = h.together;
}

disconnect-IsReady : (c : Controller) → IsReady c → IsReady (disconnect c)
unfolding disconnect clear_runtime_state
disconnect-IsReady c h =
    invalidate_cache-IsReady true
      (record c {
        core = record c.core { pending_requests = [] };
        recovery = clear_runtime_state c.recovery;
      })
      (record {
        sound = clear_runtime_state-IsSound c.recovery h.sound;
        filtered = h.filtered;
        current = h.current;
        arguments = record { here = h.arguments.here; waiting = tt };
        together = inl refl;
      })

filter-IsReady :
    (filter_name : String) (c d : Controller)
    → change_filter filter_name c ≡ some d
    → IsReady c
    → IsReady d
unfolding change_filter invalidate_cache
filter-IsReady filter_name c d done h = elim (Option-cases (set_filter filter_name c.view)) [
  | inl unknown ↦ cc (rw (unknown, change_filter) at done)
  | inr (view, known) ↦
      let e : invalidate_cache false (record c { view = view }) ≡ d =
        cc (rw (known, change_filter) at done) in
      subst IsReady e (record {
        sound = h.sound;
        filtered = set_filter-IsFiltered filter_name c.view view known;
        current = h.current;
        arguments = h.arguments;
        together = h.together;
      })
]

Step-IsReady : {c d : Controller} → Step c d → IsReady c → IsReady d
unfolding connect
Step-IsReady (received {c} {d} e message done) h = handle_message-IsReady e message c d done h
Step-IsReady (connected {c} target already ida_version) h =
    greet-IsReady (parse_target target) already ida_version c h
Step-IsReady (disconnected {c}) h = disconnect-IsReady c h
Step-IsReady (filtered {c} {d} filter_name done) h = filter-IsReady filter_name c d done h
Step-IsReady (watched indexes) h = record {
  sound = h.sound;
  filtered = h.filtered;
  current = h.current;
  arguments = h.arguments;
  together = h.together;
}

pub Reach-IsReady : {c : Controller} → Reach c → IsReady c
Reach-IsReady (start n) = start-IsReady n
Reach-IsReady (next r s) = Step-IsReady s (Reach-IsReady r)

waiting_at :
    (current : Option PcContext) (s : Recovery) (p : PendingRequest)
    → Together current s
    → (some p.pc_seq ≡ s.pc_seq) × (p.runtime_pc ≡ s.runtime_pc)
    → (seq_at current ≡ some p.pc_seq) × (runtime_at current ≡ some p.runtime_pc)
waiting_at current s p (inl none_there) h = cc
waiting_at current s p (inr at) h = (at.0 ∙ sym h.0, at.1 ∙ ap some (sym h.1))

-- In every state that the controller reaches, whatever messages come, in any order and with any
-- answers of IDA, and whatever its user does: all requests that are waited for, those of the
-- arguments and those of the recovery, are for one program counter, the core's own.
pub Reach-one_pc :
    {c : Controller}
    → Reach c
    → ((id : String) (q : Arguments.PendingRequest)
        → In (id, q) c.core.pending_requests
        → IsFor c.core.current_pc q)
      × ((id : String) (p : PendingRequest)
          → In (id, p) c.recovery.pending
          → (seq_at c.core.current_pc ≡ some p.pc_seq)
            × (runtime_at c.core.current_pc ≡ some p.runtime_pc))
Reach-one_pc {c} r =
    let h = Reach-IsReady r in
    let here = h.arguments.here in
    (
      λ id q m. rw here (
          In-All (λ (item : String × Arguments.PendingRequest). IsFor h.current item.1)
            c.core.pending_requests h.arguments.waiting (id, q) m),
      λ id p m.
          let it =
            In-All (IsRequestOf c.recovery.pc_seq c.recovery.runtime_pc) c.recovery.pending
              h.sound.pending_current (id, p) m in
          rw here (waiting_at h.current c.recovery p h.together (it.0, it.1)),
    )
