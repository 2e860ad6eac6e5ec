-- ===== src/Controller/Late.antt =====
-- Responses that come too late, and program counters that cannot be mapped, in the handlers of
-- `DayVarController` (ida_plugin/dayvar_plugin.py).
use dynvar_sync.Base.{ℤ, false, [], Option, none, some, ◌≡◌, refl, sym, inl, inr, subst, either}
use dynvar_sync.Value.{Fields, get_field, equals_int}
use dynvar_sync.Recovery.{Recovery, RequestKind, reg, mem}
use dynvar_sync.Recovery.Pending.{Refusal, refused, stale, take_pending, take_at}
use dynvar_sync.Recovery.Responses as Recovered
use dynvar_sync.Recovery.Responses.{apply_reg_taken, apply_mem_taken}
use dynvar_sync.Core.{DayVarCore, PcContext}
use dynvar_sync.Core.Contexts.{seq_at}
use dynvar_sync.Core.Responses as Argument
use dynvar_sync.Core.Responses.{take_pending_response, take_in}
use dynvar_sync.Controller.{Controller, Environment}
use dynvar_sync.Controller.Handlers.{
  handle_reg_response, handle_mem_response, recovered_registers, recovered_memory,
  argument_registers, argument_memory, is_v_request_id,
}
use dynvar_sync.Controller.Ready.{Together}
use dynvar_sync.Controller.Reachable.{Reach, Reach-IsReady}

-- The response is for another program counter than the current one.
abbrev pub IsLate : Fields → Option PcContext → Type 0
IsLate payload none = Unit
IsLate payload (some context) = equals_int (get_field "pc_seq" payload) context.pc_seq ≡ false

-- Of the recovery the program counter alone matters.
abbrev IsLateAt : Fields → Option ℤ → Type 0
IsLateAt payload none = Unit
IsLateAt payload (some pc_seq) = equals_int (get_field "pc_seq" payload) pc_seq ≡ false

late-recovery :
    (payload : Fields) (current : Option PcContext) (s : Recovery)
    → IsLate payload current
    → Together current s
    → IsLateAt payload s.pc_seq
late-recovery payload current s late (inl none_there) = rw none_there tt
late-recovery payload none s late (inr at) = rw (sym at.0) tt
late-recovery payload (some context) s late (inr at) = rw (sym at.0) late

take_at-late :
    (pc_seq : Option ℤ) (payload : Fields) (kind : RequestKind) (s : Recovery)
    → IsLateAt payload pc_seq
    → (why : Refusal) × (take_at pc_seq payload kind s ≡ refused why)
unfolding take_at
take_at-late none payload kind s late = (_, refl)
take_at-late (some pc_seq) payload kind s late =
    (stale (get_field "pc_seq" payload) pc_seq, rw late refl)

take_in-late :
    (current : Option PcContext) (payload : Fields) (kind : RequestKind) (core : DayVarCore)
    → IsLate payload current
    → (why : Argument.Refusal) × (take_in current payload kind core ≡ Argument.refused why)
unfolding take_in
take_in-late none payload kind core late = (_, refl)
take_in-late (some context) payload kind core late =
    (Argument.stale (get_field "pc_seq" payload) context.pc_seq, rw late refl)

module _ (e : Environment) (payload : Fields) (c : Controller) where
  recovered-refused :
      ((kind : RequestKind)
        → (why : Refusal) × (take_at c.recovery.pc_seq payload kind c.recovery ≡ refused why))
      → (recovered_registers e payload c ≡ c) × (recovered_memory e payload c ≡ c)
  unfolding recovered_registers recovered_memory Recovered.apply_reg_response
      Recovered.apply_mem_response take_pending Recovered.apply_reg_taken Recovered.apply_mem_taken
  recovered-refused why = (rw ((why reg).1) refl, rw ((why mem).1) refl)

  argument-refused :
      ((kind : RequestKind)
        → (why : Argument.Refusal) × (take_in c.core.current_pc payload kind c.core
            ≡ Argument.refused why))
      → (argument_registers e payload c ≡ c) × (argument_memory e payload c ≡ c)
  unfolding argument_registers argument_memory Argument.apply_reg_response
      Argument.apply_mem_response take_pending_response Argument.apply_reg_taken
      Argument.apply_mem_taken
  argument-refused why = (rw ((why reg).1) refl, rw ((why mem).1) refl)

  -- What both parts refuse changes nothing.
  IsIgnored : Type 0
  IsIgnored = (handle_reg_response e payload c ≡ c) × (handle_mem_response e payload c ≡ c)

  refused-IsIgnored :
      (recovered_registers e payload c ≡ c) × (recovered_memory e payload c ≡ c)
      → (argument_registers e payload c ≡ c) × (argument_memory e payload c ≡ c)
      → IsIgnored
  unfolding IsIgnored handle_reg_response handle_mem_response
  refused-IsIgnored recovered argument =
      let id = get_field "request_id" payload in
      (
        either (λ d. d ≡ c) (is_v_request_id id) _ _ recovered.0 argument.0,
        either (λ d. d ≡ c) (is_v_request_id id) _ _ recovered.1 argument.1,
      )

-- In every state that the controller reaches, a register response and a memory response for another
-- program counter than the current one, whichever request they name, change nothing: no row, no
-- request, no message.
pub late_ignored :
    {c : Controller} (e : Environment) (payload : Fields)
    → Reach c
    → IsLate payload c.core.current_pc
    → (handle_reg_response e payload c ≡ c) × (handle_mem_response e payload c ≡ c)
unfolding IsIgnored
late_ignored {c} e payload r late =
    let ready = Reach-IsReady r in
    let late_there =
      late-recovery payload c.core.current_pc c.recovery late (
        subst (λ current. Together current c.recovery) (sym ready.arguments.here) ready.together) in
    refused-IsIgnored e payload c
      (recovered-refused e payload c
        (λ kind. take_at-late c.recovery.pc_seq payload kind c.recovery late_there))
      (argument-refused e payload c
        (λ kind. take_in-late c.core.current_pc payload kind c.core late))

-- Both parts wait for nothing at the program counter, the recovery has no record, and the table is
-- the one of before.
abbrev pub IsCleared : ℤ → Controller → Controller → Type 0
IsCleared pc_seq before after =
    (after.core.pending_requests ≡ [])
    × (after.recovery.pending ≡ [])
    × (after.recovery.records ≡ [])
    × (seq_at after.core.current_pc ≡ some pc_seq)
    × (after.recovery.pc_seq ≡ some pc_seq)
    × (after.view ≡ before.view)
