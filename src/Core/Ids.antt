-- ===== src/Core/Ids.antt =====
-- The numbers of the messages that a `DayVarCore` sends.
use dynvar_sync.Base.{
  ℕ, zero, suc, ◌+◌, List, [], ◌∷◌, ◌++◌, map, Option, none, some, String, ℤ, pos, length,
  length-append, subst, get, ◌&&◌, not, string_eq, ◌≡◌, refl, inl, inr, arith, Bool-cases, ap, ◌∙◌,
  sym,
}
use dynvar_sync.Value.{equals_int, truthy, Value, obj, num, Fields, get_field, find_field, is_true}
use dynvar_sync.Numbers.{int_text}
use dynvar_sync.Recovery.{VariableRecord, RequestKind, reg}
use dynvar_sync.Recovery.Pending.{equals_text, same_kind}
use dynvar_sync.Core.{PcContext, PendingRequest, DayVarCore, envelope, take_message_id}
use dynvar_sync.Core.Responses.{
  Answer, refused, taken, on_stack, request_stack, request_row, request_rows, request_at,
  request_from, build_stack_mem_requests, mark_stack_rows_error, mark_rows_error, with_registers,
  text_of, apply_reg_taken, apply_reg_response, take_pending_response, take_in, take_named,
  take_found,
}

-- The `id` of a message.
abbrev id_of : Value → Value
id_of (obj message) = get_field "id" message
id_of other = other

-- The next `count` numbers from a number.
pub count_from : ℕ → ℕ → List Value
count_from zero next = []
count_from (suc count) next = num (pos next) ∷ count_from count (suc next)

-- The messages carry the next numbers, in order, and those numbers are used up.
abbrev pub IsNumbered : ℕ → List Value → ℕ → Type 0
IsNumbered next messages after =
    (map id_of messages ≡ count_from (length messages) next) × (after ≡ next + length messages)

map-append : (ms ns : List Value) → map id_of (ms ++ ns) ≡ map id_of ms ++ map id_of ns
map-append [] ns = refl
map-append (m ∷ ms) ns = ap (λ xs. id_of m ∷ xs) (map-append ms ns)

count_from-add :
    (a b next : ℕ) → count_from (a + b) next ≡ count_from a next ++ count_from b (next + a)
unfolding count_from
count_from-add zero b next =
    let none_first : zero + b ≡ b = omega arith in
    let same : next + zero ≡ next = omega arith in rw (none_first, same) refl
count_from-add (suc a) b next =
    let first : suc a + b ≡ suc (a + b) = omega arith in
    let later : next + suc a ≡ suc next + a = omega arith in
    rw (first, later) (ap (λ xs. num (pos next) ∷ xs) (count_from-add a b (suc next)))

none-IsNumbered : (next after : ℕ) → after ≡ next → IsNumbered next [] after
unfolding count_from
none-IsNumbered next after e = (refl, omega (arith, e))

IsNumbered-append :
    (next : ℕ) (ms ns : List Value) (between after : ℕ)
    → IsNumbered next ms between
    → IsNumbered between ns after
    → IsNumbered next (ms ++ ns) after
IsNumbered-append next ms ns between after h k = (
  map-append ms ns
      ∙ (ap (λ xs. xs ++ map id_of ns) h.0
          ∙ (ap (λ xs. count_from (length ms) next ++ xs) (k.0 ∙ ap (count_from (length ns)) h.1)
              ∙ (sym (count_from-add (length ms) (length ns) next)
                  ∙ ap (λ n. count_from n next) (sym (length-append ms ns))))),
  omega (arith, h.1, k.1, length-append ms ns),
)

request_row-IsNumbered :
    (index : Option ℕ) (pending : PendingRequest) (rsp : ℤ) (row : VariableRecord)
    (core : DayVarCore)
    → IsNumbered core.next_message_id
        (request_row index pending rsp row core).0.1
        (request_row index pending rsp row core).1.next_message_id
unfolding request_row request_stack envelope take_message_id count_from get_field find_field
request_row-IsNumbered none pending rsp row core = (refl, omega arith)
request_row-IsNumbered (some index) pending rsp row core = (refl, omega arith)

request_rows-IsNumbered :
    (pending : PendingRequest) (rsp : ℤ) (rows : List VariableRecord) (core : DayVarCore)
    → IsNumbered core.next_message_id
        (request_rows pending rsp rows core).0.1
        (request_rows pending rsp rows core).1.next_message_id
unfolding request_rows count_from
request_rows-IsNumbered pending rsp [] core = (refl, omega arith)
request_rows-IsNumbered pending rsp (row ∷ rows) core =
    let now = request_row (on_stack row) pending rsp row core in
    IsNumbered-append core.next_message_id now.0.1 (request_rows pending rsp rows now.1).0.1
      now.1.next_message_id _ (request_row-IsNumbered (on_stack row) pending rsp row core)
      (request_rows-IsNumbered pending rsp rows now.1)

-- Taking a response does not number anything.
abbrev Keeps : Answer → DayVarCore → Type 0
Keeps (refused why) core = Unit
Keeps (taken pending core') core = core'.next_message_id ≡ core.next_message_id

take_found-Keeps :
    (found : Option PendingRequest) (id : String) (expected : RequestKind) (core : DayVarCore)
    → Keeps (take_found found id expected core) core
take_found-Keeps none id expected core = tt
take_found-Keeps (some p) id expected core = elim (Bool-cases (same_kind p.kind expected)) [
  | inl right ↦ rw right refl
  | inr wrong ↦ rw wrong tt
]

take_named-Keeps :
    (id : Option String) (expected : RequestKind) (core : DayVarCore)
    → Keeps (take_named id expected core) core
take_named-Keeps none expected core = tt
take_named-Keeps (some id) expected core =
    take_found-Keeps (get id core.pending_requests) id expected core

take_in-Keeps :
    (context : Option PcContext) (payload : Fields) (expected : RequestKind) (core : DayVarCore)
    → Keeps (take_in context payload expected core) core
unfolding take_in
take_in-Keeps none payload expected core = tt
take_in-Keeps (some context) payload expected core =
    elim (Bool-cases (not (equals_int (get_field "pc_seq" payload) context.pc_seq))) [
      | inl old ↦ rw old tt
      | inr now ↦
          elim (Bool-cases (
            truthy (get_field "runtime_pc" payload)
            && not (equals_text (get_field "runtime_pc" payload) context.runtime_pc))) [
              | inl elsewhere ↦ rw (now, elsewhere) tt
              | inr here ↦ rw (now, here) (take_named-Keeps _ expected core)
            ]
    ]

module _ (repr : Value → String) where
  request_from-IsNumbered :
      (rsp : Option ℤ) (text : String) (pending : PendingRequest) (core : DayVarCore)
      → IsNumbered core.next_message_id
          (request_from repr rsp text pending core).0
          (request_from repr rsp text pending core).1.next_message_id
  unfolding request_from mark_stack_rows_error
  request_from-IsNumbered none text pending core = none-IsNumbered _ _ refl
  request_from-IsNumbered (some rsp) text pending core =
      request_rows-IsNumbered pending rsp core.rows core

  request_at-IsNumbered :
      (text : Option String) (pending : PendingRequest) (core : DayVarCore)
      → IsNumbered core.next_message_id
          (request_at repr text pending core).0
          (request_at repr text pending core).1.next_message_id
  unfolding request_at mark_stack_rows_error
  request_at-IsNumbered none pending core = none-IsNumbered _ _ refl
  request_at-IsNumbered (some text) pending core =
      request_from-IsNumbered (int_text text) text pending core

  with_registers-IsNumbered :
      (registers : Value) (pending : PendingRequest) (core : DayVarCore)
      → IsNumbered core.next_message_id
          (with_registers repr registers pending core).0
          (with_registers repr registers pending core).1.next_message_id
  unfolding build_stack_mem_requests mark_rows_error
  with_registers-IsNumbered (obj registers) pending core =
      request_at-IsNumbered (text_of (get_field "rsp" registers)) pending _
  with_registers-IsNumbered Value.null pending core = none-IsNumbered _ _ refl
  with_registers-IsNumbered Value.special pending core = none-IsNumbered _ _ refl
  with_registers-IsNumbered (Value.bool b) pending core = none-IsNumbered _ _ refl
  with_registers-IsNumbered (num z) pending core = none-IsNumbered _ _ refl
  with_registers-IsNumbered (Value.float z n) pending core = none-IsNumbered _ _ refl
  with_registers-IsNumbered (Value.str t) pending core = none-IsNumbered _ _ refl
  with_registers-IsNumbered (Value.arr vs) pending core = none-IsNumbered _ _ refl

  taken-IsNumbered :
      (t : Answer) (payload : Fields) (core : DayVarCore)
      → Keeps t core
      → IsNumbered core.next_message_id
          (apply_reg_taken repr t payload core).0
          (apply_reg_taken repr t payload core).1.next_message_id
  unfolding apply_reg_taken mark_rows_error
  taken-IsNumbered (refused why) payload core k = none-IsNumbered _ _ refl
  taken-IsNumbered (taken pending core') payload core k =
      elim (Bool-cases (is_true (get_field "ok" payload))) [
        | inl good ↦ rw good (
            subst
              (λ n.
                IsNumbered n (with_registers repr (get_field "registers" payload) pending core').0
                  (with_registers repr (get_field "registers" payload) pending
                    core').1.next_message_id)
              k (with_registers-IsNumbered (get_field "registers" payload) pending core'))
        | inr bad ↦ rw bad (none-IsNumbered _ _ k)
      ]

  -- The memory requests that a register response leads to carry the next message numbers, in order
  -- and without gaps, and the core counts on from there, whatever the response is.
  pub apply_reg_response-IsNumbered :
      (payload : Fields) (core : DayVarCore)
      → IsNumbered core.next_message_id
          (apply_reg_response repr payload core).0
          (apply_reg_response repr payload core).1.next_message_id
  unfolding apply_reg_response take_pending_response
  apply_reg_response-IsNumbered payload core =
      taken-IsNumbered (take_in core.current_pc payload reg core) payload core
        (take_in-Keeps core.current_pc payload reg core)
