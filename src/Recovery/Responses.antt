-- ===== src/Recovery/Responses.antt =====
-- `VVariableRecovery.apply_reg_response` and `apply_mem_response`.
use dynvar_sync.Base.{
  ℕ, ◌||◌, not, Bool, false, List, [], ◌∷◌, ◌++◌, Option, none, some, if◌then◌else◌, String, str_eq,
  ◌<+>◌, pos, get, put, nat_eq, string_eq,
}
use dynvar_sync.Value.{
  Value, str, num, null, Fields, end, field, get_field, find_field, equals_int, nonempty, is_true,
}
use dynvar_sync.Numbers.{decimal_int, decimal}
use dynvar_sync.Registers.{
  Result, ok, raised, message, extract_register_value, concrete_stack_address,
}
use dynvar_sync.Registers.Memory.{decode_little_endian}
use dynvar_sync.Recovery.{
  RecoveryEvidence, RecoveryRecord, Recovery, PendingRequest, reg, mem, Message,
}
use dynvar_sync.Recovery.Records.{set_error, mark_fresh, store}
use dynvar_sync.Recovery.Pending.{
  Refusal, Taken, refused, taken, wrong_address, wrong_size, equals_text, take_pending,
}
use dynvar_sync.Recovery.Begin.{Source, constant, register, stack, unknown, source_or}

pub data Reply : Type 0 where
  accepted read_failed missing_registers : Reply
  rejected : Refusal → Reply

-- A text that is not empty.
unfoldable text_or : Value → Option String → Option String
unfolding nonempty
text_or (str s) other = if nonempty s then some s else other
text_or _ other = other

abbrev error_text : Option String → String
error_text none = "runtime read failed"
error_text (some s) = s

-- _runtime_error_reason
unfoldable error_of : Value → Option String
unfolding text_or get_field
error_of (Value.obj error) = text_or (get_field "message" error) none
error_of error = text_or error none

unfoldable pub runtime_error_reason : Fields → String
unfolding error_of get_field
runtime_error_reason payload = error_text (error_of (get_field "error" payload))

-- The records of these indexes are set to an error.
unfoldable pub mark_read_error : List ℕ → String → Recovery → Recovery
unfolding set_error store
mark_read_error [] reason s = s
mark_read_error (index ∷ indexes) reason s = elim (get index s.records) [
  | none ↦ mark_read_error indexes reason s
  | some r ↦ mark_read_error indexes reason (store index (set_error reason r) s)
]

-- What a register response is used for: only a register or a stack location.
unfoldable pub runtime_source : RecoveryEvidence → Source
runtime_source e =
    source_or (str_eq e.storage_kind "register") register e.register
      (source_or (str_eq e.storage_kind "stack") stack e.stack_pointer_offset unknown)

-- `repr` and `str_of` are Python's `repr` and `str`.
module _ (repr : Value → String) (str_of : Value → String) where
  unfoldable pub finish_value :
      Result String → String → String → ℕ → RecoveryRecord → Recovery → Recovery
  unfolding mark_fresh store set_error message
  finish_value (raised e) label confidence index r s =
      store index (set_error (label <+> message repr e) r) s
  finish_value (ok value) label confidence index r s = mark_fresh index value confidence r s

  -- The stack read of a variable is sent and waited for.
  unfoldable pub request_memory :
      PendingRequest → ℕ → RecoveryRecord → String → Recovery → Recovery × List Message
  unfolding store decimal_int decimal
  request_memory pending index r address s =
      let request_id = "v-mem-" <+> decimal_int pending.pc_seq <+> "-" <+> decimal index in
      let request : PendingRequest = record {
        kind = mem;
        pc_seq = pending.pc_seq;
        request_id = request_id;
        runtime_pc = pending.runtime_pc;
        lvar_indexes = index ∷ [];
        registers = [];
        address = address;
        size = r.width;
      } in
      let waiting : RecoveryRecord = record r {
        storage = "stack:" <+> address;
        reason = "waiting for exact stack memory read";
      } in
      let waited = store index waiting s in
      (
        record waited { pending = put request_id request s.pending },
        record {
          message_type = "mem_request";
          payload = field "pc_seq" (num pending.pc_seq) (
              field "request_id" (str request_id) (
                field "runtime_pc" (str pending.runtime_pc) (
                  field "address" (str address) (
                    field "size" (num (pos r.width)) (
                      field "reason" (str "v_variable_stack") (
                        field "variable" (str r.name)
                          (field "lvar_index" (num (pos index)) end)))))));
        }
            ∷ [],
      )

  unfoldable pub finish_address :
      Result String → PendingRequest → ℕ → RecoveryRecord → Recovery → Recovery × List Message
  unfolding request_memory store set_error message
  finish_address (raised e) pending index r s =
      (store index (set_error ("unresolved_stack_location: " <+> message repr e) r) s, [])
  finish_address (ok address) pending index r s = request_memory pending index r address s

  unfoldable pub use_registers :
      Source → Fields → PendingRequest → ℕ → RecoveryRecord → Recovery → Recovery × List Message
  unfolding finish_value finish_address extract_register_value concrete_stack_address get_field
  use_registers (register spec) registers pending index r s = (
    finish_value (extract_register_value (get_field spec.full_register registers) spec r.width)
        "register read failed: " "exact_register_location" index r s,
    [],
  )
  use_registers (stack offset) registers pending index r s =
      finish_address (concrete_stack_address (get_field "rsp" registers) offset) pending index r s
  use_registers (constant value) registers pending index r s = (s, [])
  use_registers unknown registers pending index r s = (s, [])

  -- One round of `for lvar_index in pending.lvar_indexes`.
  unfoldable pub apply_index :
      Option RecoveryRecord
      → Option RecoveryEvidence
      → Fields
      → PendingRequest
      → ℕ
      → Recovery
      → Recovery × List Message
  unfolding use_registers runtime_source
  apply_index (some r) (some e) registers pending index s =
      use_registers (runtime_source e) registers pending index r s
  apply_index none e registers pending index s = (s, [])
  apply_index (some r) none registers pending index s = (s, [])

  unfoldable pub apply_registers :
      List ℕ → Fields → PendingRequest → Recovery → Recovery × List Message
  unfolding apply_index
  apply_registers [] registers pending s = (s, [])
  apply_registers (index ∷ indexes) registers pending s =
      let now =
        apply_index (get index s.records) (get index s.evidence) registers pending index s in
      let later = apply_registers indexes registers pending now.0 in (later.0, now.1 ++ later.1)

  abbrev pub with_registers : Value → PendingRequest → Recovery → Recovery × Reply × List Message
  with_registers (Value.obj registers) pending s =
      let done = apply_registers pending.lvar_indexes registers pending s in
      (done.0, accepted, done.1)
  with_registers _ pending s = (
    mark_read_error pending.lvar_indexes "reg_response missing registers" s,
    missing_registers,
    [],
  )

  unfoldable pub apply_reg_taken : Taken → Fields → Recovery → Recovery × Reply × List Message
  unfolding apply_registers mark_read_error is_true get_field
  apply_reg_taken (refused why) payload s = (s, rejected why, [])
  apply_reg_taken (taken pending s') payload s =
      if is_true (get_field "ok" payload)
      then with_registers (get_field "registers" payload) pending s'
      else (mark_read_error pending.lvar_indexes "register read failed" s', read_failed, [])

  unfoldable pub apply_reg_response : Fields → Recovery → Recovery × Reply × List Message
  unfolding apply_reg_taken take_pending
  apply_reg_response payload s = apply_reg_taken (take_pending payload reg s) payload s

  -- str(payload.get("bytes_hex", ""))
  unfoldable pub bytes_of : Fields → String
  unfolding find_field
  bytes_of payload = elim (find_field "bytes_hex" payload) [ none ↦ "" | some v ↦ str_of v ]

  unfoldable pub fill_memory :
      Result String → Fields → PendingRequest → ℕ → RecoveryRecord → Recovery → Recovery
  unfolding mark_fresh store set_error message bytes_of
  fill_memory (raised e) payload pending index r s =
      store index (set_error ("memory read failed: " <+> message repr e) r) s
  fill_memory (ok value) payload pending index r s =
      let marked = mark_fresh index value "exact_stack_location" r s in
      elim (get index marked.records) [
        | none ↦ marked
        | some fresh ↦
            store index
              (record fresh {
                storage = "stack:" <+> pending.address;
                reason = "exact stack memory read raw=" <+> bytes_of payload;
              })
              marked
      ]

  unfoldable pub apply_memory : List ℕ → Fields → PendingRequest → Recovery → Recovery
  unfolding fill_memory decode_little_endian runtime_error_reason set_error store is_true get_field
      bytes_of
  apply_memory [] payload pending s = s
  apply_memory (index ∷ indexes) payload pending s = elim (get index s.records) [
    | none ↦ apply_memory indexes payload pending s
    | some r ↦ apply_memory indexes payload pending (
        if is_true (get_field "ok" payload)
        then fill_memory (decode_little_endian (bytes_of payload) pending.size) payload pending
            index r s
        else store index (set_error (runtime_error_reason payload) r) s)
  ]

  -- `value not in (None, "", address)`
  abbrev pub differs_text : Value → String → Bool
  differs_text null address = false
  differs_text value address = not (equals_text value "" || equals_text value address)

  abbrev pub differs_size : Value → ℕ → Bool
  differs_size null size = false
  differs_size value size = not (equals_int value (pos size))

  -- `self._pending[pending.request_id] = pending`
  abbrev pub put_back : PendingRequest → Recovery → Recovery
  put_back pending s = record s { pending = put pending.request_id pending s.pending }

  unfoldable pub apply_mem_taken : Taken → Fields → Recovery → Recovery × Reply
  unfolding apply_memory get_field equals_int
  apply_mem_taken (refused why) payload s = (s, rejected why)
  apply_mem_taken (taken pending s') payload s =
      if differs_text (get_field "address" payload) pending.address
      then (put_back pending s', rejected wrong_address)
      else if differs_size (get_field "size" payload) pending.size
      then (put_back pending s', rejected wrong_size)
      else (apply_memory pending.lvar_indexes payload pending s', accepted)

  unfoldable pub apply_mem_response : Fields → Recovery → Recovery × Reply
  unfolding apply_mem_taken take_pending
  apply_mem_response payload s = apply_mem_taken (take_pending payload mem s) payload s
