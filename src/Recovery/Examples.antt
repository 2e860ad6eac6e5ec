-- ===== src/Recovery/Examples.antt =====
-- A local variable on the stack through one program counter, and the theorems about the recovery
-- there.
use dynvar_sync.Base.{
  ◌≤◌, ◌+◌, ◌*◌, ◌+ℤ◌, put, remove, ℕ, ℤ, pos, negsuc, true, false, List, [], ◌∷◌, Option, none,
  some, String, ◌<+>◌, get, get_elem?, ◌≡◌, refl, nat_eq, ◌-ℤ◌, arith,
}
use dynvar_sync.Value.{
  find_field, get_field, equals_int, truthy, as_str, nonempty, is_true, Value, Fields, end, field,
  num, str, bool,
}
use dynvar_sync.Numbers.{strip, format_hex, hex, hex_digits, digit_char}
use dynvar_sync.Numbers.RoundTrip.{readable}
use dynvar_sync.AddressMapping.{parse_int, runtime_pc_to_ida_ea, parse_int-format_hex, offset_kept}
use dynvar_sync.Registers.{
  ok, supported, normalize_register_alias, build_register_specs, add_numbered, add_range,
  lower_plain, parse_runtime_int, concrete_stack_address,
}
use dynvar_sync.Registers.Bounds.{alias-fits, IsPlaced, stack_address}
use dynvar_sync.Registers.Memory.{decode_little_endian, bytes_text, to_little, decode-bytes_text}
use dynvar_sync.Recovery.{
  VariableRecord, RecoveryAnalysis, RecoveryRecord, Recovery, PendingRequest, mem,
}
use dynvar_sync.Recovery.Pending.{take_pending, take_at, taken}
use dynvar_sync.Recovery.Begin.{begin_pc}
use dynvar_sync.Recovery.Responses.{
  differs_text, differs_size, bytes_of, apply_reg_response, apply_mem_response,
}
use dynvar_sync.Recovery.Overlay.{overlay_rows}
use dynvar_sync.Recovery.Invariant.{IsSound}
use dynvar_sync.Recovery.Invariant.Steps.{
  new_recovery, Reach, made, begun, registers_read, memory_read, Reach-IsSound, memory_shown,
}
use dynvar_sync.Recovery.Invariant.Shown.{IsShown, overlay-IsShown}

abbrev no_repr : Value → String
no_repr v = ""

abbrev plain_str : Value → String
plain_str (str s) = s
plain_str _ = ""

abbrev local : VariableRecord
local = record {
  lvar_index = 2;
  name = "v2";
  hexrays_kind = "local";
  type_string = "int";
  size = 4;
  is_arg = false;
  arg_index = none;
  location = "stack";
  function_ea = "0x1000";
  function_start_ea = 4096;
  value = "";
  status = "unavailable";
  confidence = "unknown";
  reason = "not evaluated";
  last_pc = "";
  current_pc = "";
  printed_location = "";
  current_ea = "";
  source_ea = "";
  storage_kind = "";
  storage = "";
  current_pc_seq = none;
  last_success_value = "";
  last_success_pc_seq = none;
  lvar_defea = "";
}

-- The analysis finds the variable at rsp + 16.
abbrev on_stack : ℕ → ℤ → List VariableRecord → Option RecoveryAnalysis
on_stack function_ea current_ea variables = some (record {
  ok = true;
  evidence_by_index =
      (
        2,
        record {
          lvar_index = 2;
          storage_kind = "stack";
          storage = "";
          source_ea = some 4100;
          confidence = "exact_stack_location";
          reason = "";
          register = none;
          stack_pointer_offset = some (pos 16);
          constant_value = none;
          width = 4;
        },
      )
      ∷ [];
})

abbrev begun_state : Recovery
begun_state =
    (begin_pc on_stack (local ∷ []) 4096 (pos 4104) "0x7004" (pos 5) none (new_recovery 256)).0

abbrev rsp_payload : Fields
rsp_payload = field "pc_seq" (num (pos 5)) (
    field "request_id" (str "v-reg-5-runtime")
      (field "ok" (bool true) (field "registers" (Value.obj (field "rsp" (str "0x100") end)) end)))

abbrev waiting_state : Recovery
waiting_state = (apply_reg_response no_repr plain_str rsp_payload begun_state).0

abbrev memory_payload : Fields
memory_payload = field "pc_seq" (num (pos 5)) (
    field "request_id" (str "v-mem-5-2") (
      field "address" (str "0x110") (
        field "size" (num (pos 4))
          (field "ok" (bool true) (field "bytes_hex" (str "2a000000") end)))))

abbrev memory_request : PendingRequest
memory_request = record {
  kind = mem;
  pc_seq = pos 5;
  request_id = "v-mem-5-2";
  runtime_pc = "0x7004";
  lvar_indexes = 2 ∷ [];
  registers = [];
  address = "0x110";
  size = 4;
}

abbrev final_state : Recovery
final_state = (apply_mem_response no_repr plain_str memory_payload waiting_state).0

reached : Reach no_repr plain_str 256 final_state
reached = memory_read memory_payload (
    registers_read rsp_payload
      (begun on_stack (local ∷ []) 4096 (pos 4104) "0x7004" (pos 5) none made))

Reach-IsSound_example : IsSound final_state
Reach-IsSound_example = Reach-IsSound no_repr plain_str 256 final_state reached

waiting_taken :
    take_pending memory_payload mem waiting_state
    ≡ taken memory_request (record waiting_state { pending = [] })
unfolding begin_pc new_recovery apply_reg_response take_pending take_at get put remove find_field
    get_field equals_int truthy as_str nonempty is_true format_hex hex hex_digits digit_char
waiting_taken = refl

-- The record of the variable while its memory is read.
abbrev waiting_record : RecoveryRecord
waiting_record = record {
  lvar_index = 2;
  name = "v2";
  type_string = "int";
  width = 4;
  printed_location = "stack";
  function_ea = 4096;
  current_ea = pos 4104;
  candidate_storage_kind = "stack";
  recovery_status = "unavailable";
  confidence = "unknown";
  reason = "waiting for exact stack memory read";
  storage = "stack:0x110";
  source_ea = some 4100;
  value = "";
  current_runtime_pc = "0x7004";
  current_pc_seq = pos 5;
  last_successful_value = "";
  last_successful_pc_seq = none;
  last_update_pc = "";
}

waiting_found : get 2 waiting_state.records ≡ some waiting_record
unfolding begin_pc new_recovery apply_reg_response take_pending take_at get put remove find_field
    get_field equals_int truthy as_str nonempty is_true format_hex hex hex_digits digit_char
waiting_found = refl

same_address : differs_text no_repr plain_str (get_field "address" memory_payload) "0x110" ≡ false
unfolding get_field find_field
same_address = refl

same_size : differs_size no_repr plain_str (get_field "size" memory_payload) 4 ≡ false
unfolding get_field find_field equals_int
same_size = refl

good : is_true (get_field "ok" memory_payload) ≡ true
unfolding get_field find_field is_true
good = refl

bytes : bytes_of no_repr plain_str memory_payload ≡ bytes_text (to_little 4 42)
unfolding bytes_of find_field bytes_text to_little digit_char
bytes = refl

memory_shown_example :
    (q : RecoveryRecord) × (get 2
        (apply_mem_response no_repr plain_str memory_payload waiting_state).0.records
      ≡ some q)
    × (q.recovery_status ≡ "fresh")
    × (q.value ≡ format_hex (pos 42))
    × (q.last_successful_pc_seq ≡ some (pos 5))
    × (q.storage ≡ "stack:" <+> "0x110")
memory_shown_example =
    memory_shown no_repr plain_str memory_payload waiting_state
      (record waiting_state { pending = [] }) memory_request 2 42 waiting_record waiting_taken refl
      waiting_found same_address same_size good bytes refl (omega arith)

overlay-IsShown_example :
    (shown : VariableRecord) × (get_elem? (overlay_rows (local ∷ []) final_state) 0 ≡ some shown)
    × IsShown final_state local shown
overlay-IsShown_example =
    overlay-IsShown final_state (local ∷ []) 0 local
      (Reach-IsSound no_repr plain_str 256 final_state reached) refl

parse_int-format_hex_example : parse_int (str (format_hex (negsuc 4))) ≡ readable (negsuc 4)
parse_int-format_hex_example = parse_int-format_hex (negsuc 4)

offset_kept_example :
    runtime_pc_to_ida_ea (pos 4104) (pos 4096) (pos 64) -ℤ pos 64 ≡ pos 4104 -ℤ pos 4096
offset_kept_example = offset_kept (pos 4104) (pos 4096) (pos 64)

decode-bytes_text_example :
    decode_little_endian (bytes_text (to_little 2 258)) 2 ≡ ok (format_hex (pos 258))
decode-bytes_text_example = decode-bytes_text 2 258 refl (omega arith)

high_byte :
    normalize_register_alias " `AH` "
    ≡ some (record { alias = "ah"; full_register = "rax"; width = 1; bit_offset = 8 })
unfolding normalize_register_alias get build_register_specs add_range add_numbered put strip
    lower_plain
high_byte = refl

alias-fits_example : (supported 1 ≡ true) × (8 + 1 * 8 ≤ 64)
alias-fits_example =
    alias-fits " `AH` " (record { alias = "ah"; full_register = "rax"; width = 1; bit_offset = 8 })
      high_byte

stack_pointer_read : parse_runtime_int (num (pos 256)) ≡ ok (pos 256)
unfolding parse_runtime_int
stack_pointer_read = refl

stack_address_example :
    IsPlaced (pos 256 +ℤ negsuc 15) (concrete_stack_address (num (pos 256)) (negsuc 15))
stack_address_example = stack_address (num (pos 256)) (pos 256) (negsuc 15) stack_pointer_read
