-- ===== src/Core/Contexts.antt =====
-- The requests that a `DayVarCore` waits for are of its current program counter.
use dynvar_sync.Base.{
  ℕ, not, List, [], ◌∷◌, Option, none, some, String, ℤ, All, All-put, All-remove, In-All, In-get,
  get, string_eq, ◌&&◌, ◌≡◌, refl, sym, inl, inr, Bool-cases,
}
use dynvar_sync.Value.{Value, Fields, obj, get_field, is_true, equals_int, truthy, as_str}
use dynvar_sync.Numbers.{int_text}
use dynvar_sync.Recovery.{VariableRecord, RequestKind, reg, mem}
use dynvar_sync.Recovery.Pending.{same_kind, equals_text}
use dynvar_sync.Core.{
  PcContext, PendingRequest, DayVarCore, envelope, take_message_id, start_pc_context,
}
use dynvar_sync.Core.Plan.{build_entry_plan, request_entry}
use dynvar_sync.Core.Responses.{
  Answer, refused, taken, take_pending_response, take_in, take_named, take_found, request_stack,
  request_row, request_rows, on_stack, request_from, request_at, build_stack_mem_requests,
  with_registers, text_of, apply_reg_taken, apply_reg_response, apply_mem_taken, apply_mem_response,
  mark_rows_error, mark_stack_rows_error,
}

abbrev pub seq_at : Option PcContext → Option ℤ
seq_at none = none
seq_at (some context) = some context.pc_seq

abbrev pub runtime_at : Option PcContext → Option String
runtime_at none = none
runtime_at (some context) = some context.runtime_pc

-- A request was made for the program counter.
abbrev pub IsFor : Option PcContext → PendingRequest → Type 0
IsFor current pending =
    (seq_at current ≡ some pending.pc_seq) × (runtime_at current ≡ some pending.runtime_pc)

-- The core is at the program counter, and so is every request that it waits for.
pub record IsAt (current : Option PcContext) (core : DayVarCore) : Type 0 where
  pub here : core.current_pc ≡ current
  pub waiting : All (λ (item : String × PendingRequest). IsFor current item.1) core.pending_requests

pub envelope-IsAt :
    (current : Option PcContext) (message_type : String) (payload : Fields) (core : DayVarCore)
    → IsAt current core
    → IsAt current (envelope message_type payload core).1
unfolding envelope take_message_id
envelope-IsAt current message_type payload core h = record { here = h.here; waiting = h.waiting }

pub start-IsAt :
    (context : PcContext) (core : DayVarCore) → IsAt (some context) (start_pc_context context core)
unfolding start_pc_context
start-IsAt context core = record { here = refl; waiting = tt }

rows-IsAt :
    (current : Option PcContext) (rows : List VariableRecord) (core : DayVarCore)
    → IsAt current core
    → IsAt current (record core { rows = rows })
rows-IsAt current rows core h = record { here = h.here; waiting = h.waiting }

request_entry-IsAt :
    (context : PcContext) (registers names : List String) (core : DayVarCore)
    → IsAt (some context) core
    → IsAt (some context) (request_entry context.pc_seq context.runtime_pc registers names core).1
unfolding request_entry envelope take_message_id
request_entry-IsAt context [] names core h = h
request_entry-IsAt context (r ∷ rs) names core h = record {
  here = h.here;
  waiting =
      All-put (λ (item : String × PendingRequest). IsFor (some context) item.1) _ _
        core.pending_requests h.waiting (refl, refl);
}

pub build_entry_plan-IsAt :
    (variables : List VariableRecord) (context : PcContext) (core : DayVarCore)
    → IsAt (some context) (build_entry_plan variables context core).1
unfolding build_entry_plan
build_entry_plan-IsAt variables context core =
    request_entry-IsAt context _ _ _ (rows-IsAt (some context) _ _ (start-IsAt context core))

-- What is taken was waited for at the program counter.
abbrev IsTaken : Option PcContext → Answer → Type 0
IsTaken current (refused why) = Unit
IsTaken current (taken pending core) = IsFor current pending × IsAt current core

take_found-IsTaken :
    (current : Option PcContext) (found : Option PendingRequest) (id : String) (kind : RequestKind)
    (core : DayVarCore)
    → found ≡ get id core.pending_requests
    → IsAt current core
    → IsTaken current (take_found found id kind core)
take_found-IsTaken current none id kind core e h = tt
take_found-IsTaken current (some pending) id kind core e h =
    let all_for = λ (item : String × PendingRequest). IsFor current item.1 in
    elim (Bool-cases (same_kind pending.kind kind)) [
      | inr wrong ↦ rw wrong tt
      | inl right ↦ rw right (
        In-All all_for core.pending_requests h.waiting (id, pending)
            (In-get id pending core.pending_requests (sym e)),
        record { here = h.here; waiting = All-remove all_for id core.pending_requests h.waiting },
      )
    ]

take_named-IsTaken :
    (current : Option PcContext) (id : Option String) (kind : RequestKind) (core : DayVarCore)
    → IsAt current core
    → IsTaken current (take_named id kind core)
take_named-IsTaken current none kind core h = tt
take_named-IsTaken current (some id) kind core h =
    take_found-IsTaken current (get id core.pending_requests) id kind core refl h

take_in-IsTaken :
    (current at : Option PcContext) (payload : Fields) (kind : RequestKind) (core : DayVarCore)
    → IsAt current core
    → IsTaken current (take_in at payload kind core)
unfolding take_in
take_in-IsTaken current none payload kind core h = tt
take_in-IsTaken current (some context) payload kind core h =
    elim (Bool-cases (not (equals_int (get_field "pc_seq" payload) context.pc_seq))) [
      | inl old ↦ rw old tt
      | inr now ↦
          elim (Bool-cases (
            truthy (get_field "runtime_pc" payload)
            && not (equals_text (get_field "runtime_pc" payload) context.runtime_pc))) [
              | inl elsewhere ↦ rw (now, elsewhere) tt
              | inr same ↦
                  rw (now, same)
                    (take_named-IsTaken current (as_str (get_field "request_id" payload)) kind core
                      h)
            ]
    ]

take_pending_response-IsTaken :
    (current : Option PcContext) (payload : Fields) (kind : RequestKind) (core : DayVarCore)
    → IsAt current core
    → IsTaken current (take_pending_response payload kind core)
unfolding take_pending_response
take_pending_response-IsTaken current payload kind core h =
    take_in-IsTaken current core.current_pc payload kind core h

request_row-IsAt :
    (current : Option PcContext) (index : Option ℕ) (pending : PendingRequest) (rsp : ℤ)
    (row : VariableRecord) (core : DayVarCore)
    → IsFor current pending
    → IsAt current core
    → IsAt current (request_row index pending rsp row core).1
unfolding request_row request_stack envelope take_message_id
request_row-IsAt current none pending rsp row core for h = h
request_row-IsAt current (some index) pending rsp row core for h = record {
  here = h.here;
  waiting =
      All-put (λ (item : String × PendingRequest). IsFor current item.1) _ _ core.pending_requests
        h.waiting for;
}

request_rows-IsAt :
    (current : Option PcContext) (pending : PendingRequest) (rsp : ℤ) (rows : List VariableRecord)
    (core : DayVarCore)
    → IsFor current pending
    → IsAt current core
    → IsAt current (request_rows pending rsp rows core).1
unfolding request_rows
request_rows-IsAt current pending rsp [] core for h = h
request_rows-IsAt current pending rsp (row ∷ rows) core for h =
    request_rows-IsAt current pending rsp rows (request_row (on_stack row) pending rsp row core).1
      for (request_row-IsAt current (on_stack row) pending rsp row core for h)

module _ (repr str_of : Value → String) (current : Option PcContext) where
  request_from-IsAt :
      (rsp : Option ℤ) (text : String) (pending : PendingRequest) (core : DayVarCore)
      → IsFor current pending
      → IsAt current core
      → IsAt current (request_from repr rsp text pending core).1
  unfolding request_from mark_stack_rows_error
  request_from-IsAt none text pending core for h = rows-IsAt current _ core h
  request_from-IsAt (some rsp) text pending core for h =
      rows-IsAt current _ _ (request_rows-IsAt current pending rsp core.rows core for h)

  request_at-IsAt :
      (text : Option String) (pending : PendingRequest) (core : DayVarCore)
      → IsFor current pending
      → IsAt current core
      → IsAt current (request_at repr text pending core).1
  unfolding request_at mark_stack_rows_error
  request_at-IsAt none pending core for h = rows-IsAt current _ core h
  request_at-IsAt (some text) pending core for h =
      request_from-IsAt (int_text text) text pending core for h

  with_registers-IsAt :
      (registers : Value) (pending : PendingRequest) (core : DayVarCore)
      → IsFor current pending
      → IsAt current core
      → IsAt current (with_registers repr registers pending core).1
  unfolding build_stack_mem_requests mark_rows_error
  with_registers-IsAt (obj registers) pending core for h =
      request_at-IsAt (text_of (get_field "rsp" registers)) pending _ for
        (rows-IsAt current _ core h)
  with_registers-IsAt registers pending core for h = rows-IsAt current _ core h

  apply_reg_taken-IsAt :
      (answer : Answer) (payload : Fields) (core : DayVarCore)
      → IsTaken current answer
      → IsAt current core
      → IsAt current (apply_reg_taken repr answer payload core).1
  unfolding apply_reg_taken mark_rows_error
  apply_reg_taken-IsAt (refused why) payload core t h = h
  apply_reg_taken-IsAt (taken pending after) payload core t h =
      elim (Bool-cases (is_true (get_field "ok" payload))) [
        | inl good ↦
            rw good (with_registers-IsAt (get_field "registers" payload) pending after t.0 t.1)
        | inr bad ↦ rw bad (rows-IsAt current _ after t.1)
      ]

  pub apply_reg_response-IsAt :
      (payload : Fields) (core : DayVarCore)
      → IsAt current core
      → IsAt current (apply_reg_response repr payload core).1
  unfolding apply_reg_response
  apply_reg_response-IsAt payload core h =
      apply_reg_taken-IsAt (take_pending_response payload reg core) payload core
        (take_pending_response-IsTaken current payload reg core h) h

  apply_mem_taken-IsAt :
      (answer : Answer) (payload : Fields) (core : DayVarCore)
      → IsTaken current answer
      → IsAt current core
      → IsAt current (apply_mem_taken str_of answer payload core).1
  unfolding apply_mem_taken
  apply_mem_taken-IsAt (refused why) payload core t h = h
  apply_mem_taken-IsAt (taken pending after) payload core t h = rows-IsAt current _ after t.1

  pub apply_mem_response-IsAt :
      (payload : Fields) (core : DayVarCore)
      → IsAt current core
      → IsAt current (apply_mem_response str_of payload core).1
  unfolding apply_mem_response
  apply_mem_response-IsAt payload core h =
      apply_mem_taken-IsAt (take_pending_response payload mem core) payload core
        (take_pending_response-IsTaken current payload mem core h) h
