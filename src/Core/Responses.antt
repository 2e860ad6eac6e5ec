-- ===== src/Core/Responses.antt =====
-- `DayVarCore.apply_reg_response` and `apply_mem_response`, and the formats of the values.
use dynvar_sync.Base.{
  ℕ, ltb, Bool, true, false, ◌&&◌, not, List, [], ◌∷◌, ◌++◌, map, Option, none, some, if◌then◌else◌,
  String, ◌<+>◌, ℤ, pos, get, put, remove, string_eq, get_elem?, take, length, ◌*◌, ◌+ℤ◌,
}
use dynvar_sync.Value.{
  Value, obj, num, str, Fields, end, field, nonempty, member, get_field, find_field, truthy,
  equals_int, as_str, is_true,
}
use dynvar_sync.Numbers.{decimal_int, format_hex, int_text}
use dynvar_sync.Registers.{supported, low_bits}
use dynvar_sync.Registers.Memory.{read_bytes, from_little}
use dynvar_sync.Recovery.{VariableRecord, RequestKind, reg, mem}
use dynvar_sync.Recovery.Responses.{runtime_error_reason}
use dynvar_sync.Recovery.Pending.{equals_text, same_kind}
use dynvar_sync.Core.{PcContext, PendingRequest, DayVarCore, envelope, stack_arg_offset}
use dynvar_sync.Core.Plan.{entry_registers, argument_index}

-- Why a response is refused.
pub data Refusal : Type 0 where
  no_context wrong_runtime_pc missing_request_id : Refusal
  stale : Value → ℤ → Refusal
  unexpected_id wrong_kind : String → Refusal

pub data Answer : Type 0 where
  refused : Refusal → Answer
  taken : PendingRequest → DayVarCore → Answer

abbrev pub take_found : Option PendingRequest → String → RequestKind → DayVarCore → Answer
take_found none request_id expected core = refused (unexpected_id request_id)
take_found (some pending) request_id expected core =
    if same_kind pending.kind expected
    then taken pending (record core { pending_requests = remove request_id core.pending_requests })
    else refused (wrong_kind request_id)

abbrev pub take_named : Option String → RequestKind → DayVarCore → Answer
take_named none expected core = refused missing_request_id
take_named (some request_id) expected core =
    take_found (get request_id core.pending_requests) request_id expected core

unfoldable pub take_in : Option PcContext → Fields → RequestKind → DayVarCore → Answer
unfolding get_field equals_int truthy as_str
take_in none payload expected core = refused no_context
take_in (some context) payload expected core =
    if not (equals_int (get_field "pc_seq" payload) context.pc_seq)
    then refused (stale (get_field "pc_seq" payload) context.pc_seq)
    else if truthy (get_field "runtime_pc" payload)
        && not (equals_text (get_field "runtime_pc" payload) context.runtime_pc)
    then refused wrong_runtime_pc
    else take_named (as_str (get_field "request_id" payload)) expected core

unfoldable pub take_pending_response : Fields → RequestKind → DayVarCore → Answer
unfolding take_in
take_pending_response payload expected core = take_in core.current_pc payload expected core

abbrev error_row : String → VariableRecord → VariableRecord
error_row reason row = record row { status = "error"; confidence = "read_failed"; reason = reason }

unfoldable pub mark_rows_error : List String → String → DayVarCore → DayVarCore
mark_rows_error names reason core = record core {
  rows = map (λ row. if member row.name names then error_row reason row else row) core.rows;
}

-- An argument that the caller passes on the stack.
abbrev pub on_stack : VariableRecord → Option ℕ
on_stack row = elim (argument_index row) [
  | none ↦ none
  | some index ↦ if ltb index 4 then none else some index
]

abbrev is_on_stack : Option ℕ → Bool
is_on_stack none = false
is_on_stack (some index) = true

unfoldable pub mark_stack_rows_error : String → DayVarCore → DayVarCore
mark_stack_rows_error reason core = record core {
  rows = map (λ row. if is_on_stack (on_stack row) then error_row reason row else row) core.rows;
}

unfoldable runtime_read_size : ℕ → ℕ
runtime_read_size variable_size = if supported variable_size then variable_size else 8

-- int(value, 0), with the text as it is where it is no number.
unfoldable format_read : Option ℤ → String → ℕ → String
unfolding low_bits format_hex
format_read none value variable_size = value
format_read (some number) value variable_size =
    if supported variable_size
    then format_hex (pos (low_bits number (variable_size * 8)))
    else format_hex number

unfoldable format_hex_value : String → ℕ → String
unfolding format_read int_text
format_hex_value value variable_size = format_read (int_text value) value variable_size

abbrev format_bytes : Option (List ℕ) → String → ℕ → String
format_bytes none bytes_hex size = bytes_hex
format_bytes (some bytes) bytes_hex size =
    if ltb (length bytes) size then bytes_hex else format_hex (pos (from_little (take size bytes)))

unfoldable format_memory_value : String → ℕ → String
unfolding read_bytes from_little format_hex
format_memory_value bytes_hex size =
    if supported size then format_bytes (read_bytes none bytes_hex) bytes_hex size else bytes_hex

-- A register that the response has as a text.
abbrev fill_row : Option String → String → String → VariableRecord → VariableRecord
fill_row none register runtime_pc row =
    error_row ("register " <+> register <+> " missing from response") row
fill_row (some value) register runtime_pc row = record row {
  value = format_hex_value value row.size;
  status = "fresh";
  confidence = "exact_entry";
  location = register;
  reason = register <+> " at exact function entry";
  last_pc = runtime_pc;
}

-- isinstance(value, str) and value
unfoldable pub text_of : Value → Option String
unfolding nonempty
text_of (str s) = if nonempty s then some s else none
text_of _ = none

unfoldable pub apply_register : Fields → String → Option ℕ → VariableRecord → VariableRecord
unfolding format_hex_value text_of get_field
apply_register registers runtime_pc none row = row
apply_register registers runtime_pc (some index) row = elim (get_elem? entry_registers index) [
  | none ↦ row
  | some register ↦ fill_row (text_of (get_field register registers)) register runtime_pc row
]

-- One stack read: the row waits for it, and the request is sent.
unfoldable pub request_stack :
    PendingRequest → ℤ → ℕ → VariableRecord → DayVarCore → (VariableRecord × Value) × DayVarCore
unfolding stack_arg_offset runtime_read_size format_hex decimal_int envelope ◌+ℤ◌
request_stack pending rsp index row core =
    let address = format_hex (rsp +ℤ pos (stack_arg_offset index)) in
    let request_id = "mem-" <+> decimal_int pending.pc_seq <+> "-" <+> row.name in
    let size = runtime_read_size row.size in
    let request : PendingRequest = record {
      kind = mem;
      pc_seq = pending.pc_seq;
      request_id = request_id;
      runtime_pc = pending.runtime_pc;
      variable_names = row.name ∷ [];
      registers = [];
      address = address;
      size = size;
    } in
    let sent =
      envelope "mem_request"
        (field "pc_seq" (num pending.pc_seq) (
          field "request_id" (str request_id) (
            field "runtime_pc" (str pending.runtime_pc) (
              field "address" (str address) (
                field "size" (num (pos size))
                  (field "reason" (str "stack_arg") (field "variable" (str row.name) end)))))))
        (record core { pending_requests = put request_id request core.pending_requests }) in
    (
      (
        record row { location = address; reason = "waiting for stack argument memory read" },
        sent.0,
      ),
      sent.1,
    )

unfoldable pub request_row :
    Option ℕ
    → PendingRequest
    → ℤ
    → VariableRecord
    → DayVarCore
    → (VariableRecord × List Value) × DayVarCore
unfolding request_stack
request_row none pending rsp row core = ((row, []), core)
request_row (some index) pending rsp row core =
    let sent = request_stack pending rsp index row core in ((sent.0.0, sent.0.1 ∷ []), sent.1)

-- The rows with their requests; `core` numbers the messages and keeps the requests.
unfoldable pub request_rows :
    PendingRequest
    → ℤ
    → List VariableRecord
    → DayVarCore
    → (List VariableRecord × List Value) × DayVarCore
unfolding request_row
request_rows pending rsp [] core = (([], []), core)
request_rows pending rsp (row ∷ rows) core =
    let now = request_row (on_stack row) pending rsp row core in
    let rest = request_rows pending rsp rows now.1 in
    ((now.0.0 ∷ rest.0.0, now.0.1 ++ rest.0.1), rest.1)

-- `repr` is Python's `repr`.
module _ (repr : Value → String) where
  unfoldable pub request_from :
      Option ℤ → String → PendingRequest → DayVarCore → List Value × DayVarCore
  unfolding mark_stack_rows_error request_rows
  request_from none rsp_text pending core =
      ([], mark_stack_rows_error ("invalid rsp value " <+> repr (str rsp_text)) core)
  request_from (some rsp) rsp_text pending core =
      let sent = request_rows pending rsp core.rows core in
      (sent.0.1, record sent.1 { rows = sent.0.0 })

  unfoldable pub request_at : Option String → PendingRequest → DayVarCore → List Value × DayVarCore
  unfolding request_from int_text mark_stack_rows_error
  request_at none pending core =
      ([], mark_stack_rows_error "rsp missing from register response" core)
  request_at (some rsp_text) pending core = request_from (int_text rsp_text) rsp_text pending core

  unfoldable pub build_stack_mem_requests :
      Fields → PendingRequest → DayVarCore → List Value × DayVarCore
  unfolding request_at text_of get_field
  build_stack_mem_requests registers pending core =
      request_at (text_of (get_field "rsp" registers)) pending core

  abbrev pub with_registers : Value → PendingRequest → DayVarCore → List Value × DayVarCore
  with_registers (obj registers) pending core =
      build_stack_mem_requests registers pending (record core {
        rows =
            map (λ row. apply_register registers pending.runtime_pc (argument_index row) row)
              core.rows;
      })
  with_registers _ pending core =
      ([], mark_rows_error pending.variable_names "reg_response missing registers" core)

  unfoldable pub apply_reg_taken : Answer → Fields → DayVarCore → List Value × DayVarCore
  unfolding build_stack_mem_requests apply_register mark_rows_error is_true get_field
  apply_reg_taken (refused why) payload core = ([], core)
  apply_reg_taken (taken pending core') payload core =
      if is_true (get_field "ok" payload)
      then with_registers (get_field "registers" payload) pending core'
      else ([], mark_rows_error pending.variable_names "register read failed" core')

  unfoldable pub apply_reg_response : Fields → DayVarCore → List Value × DayVarCore
  unfolding apply_reg_taken take_pending_response
  apply_reg_response payload core =
      apply_reg_taken (take_pending_response payload reg core) payload core

-- `str_of` is Python's `str`.
module _ (str_of : Value → String) where
  -- payload.get("bytes_hex", "")
  unfoldable bytes_hex_of : Fields → String
  unfolding find_field
  bytes_hex_of payload = elim (find_field "bytes_hex" payload) [ none ↦ "" | some v ↦ str_of v ]

  unfoldable error_reason : Fields → String
  unfolding runtime_error_reason
  error_reason payload = runtime_error_reason payload

  unfoldable fill_memory_row : Fields → PendingRequest → VariableRecord → VariableRecord
  unfolding format_memory_value bytes_hex_of error_reason is_true get_field
  fill_memory_row payload pending row =
      if is_true (get_field "ok" payload)
      then record row {
        location = pending.address;
        last_pc = pending.runtime_pc;
        value = format_memory_value (bytes_hex_of payload) pending.size;
        status = "fresh";
        confidence = "exact_entry";
        reason = "stack argument memory read at exact function entry raw=" <+> bytes_hex_of payload;
      }
      else record row {
        location = pending.address;
        last_pc = pending.runtime_pc;
        status = "error";
        confidence = "read_failed";
        reason = error_reason payload;
      }

  unfoldable pub apply_mem_taken : Answer → Fields → DayVarCore → Bool × DayVarCore
  unfolding fill_memory_row
  apply_mem_taken (refused why) payload core = (false, core)
  apply_mem_taken (taken pending core') payload core = (
    true,
    record core' {
      rows =
          map
            (λ row.
              if member row.name pending.variable_names
              then fill_memory_row payload pending row
              else row)
            core'.rows;
    },
  )

  unfoldable pub apply_mem_response : Fields → DayVarCore → Bool × DayVarCore
  unfolding apply_mem_taken take_pending_response
  apply_mem_response payload core =
      apply_mem_taken (take_pending_response payload mem core) payload core
