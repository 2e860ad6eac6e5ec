-- ===== src/Recovery/Invariant/Contexts.antt =====
-- A response leaves a `VVariableRecovery` at its program counter.
use dynvar_sync.Base.{
  ℕ, List, [], ◌∷◌, Option, none, some, String, get, nat_eq, string_eq, not, ◌&&◌, ◌≡◌, refl, ◌∙◌,
  inl, inr, Bool-cases, Option-cases, ℤ,
}
use dynvar_sync.Value.{Value, Fields, get_field, is_true, equals_int, truthy, as_str}
use dynvar_sync.Registers.{Result, ok, raised, concrete_stack_address, extract_register_value}
use dynvar_sync.Registers.Memory.{decode_little_endian}
use dynvar_sync.Recovery.{
  RecoveryRecord, RecoveryEvidence, Recovery, PendingRequest, RequestKind, reg, mem,
}
use dynvar_sync.Recovery.Records.{mark_fresh, remember, prune_history, store, set_error}
use dynvar_sync.Recovery.Pending.{
  Taken, taken, refused, take_pending, take_at, take_id, take_found, same_kind, equals_text,
}
use dynvar_sync.Recovery.Begin.{Source, constant, register, stack, unknown}
use dynvar_sync.Recovery.Responses.{
  finish_value, request_memory, finish_address, use_registers, apply_index, apply_registers,
  runtime_source, with_registers, mark_read_error, apply_reg_taken, apply_reg_response, fill_memory,
  apply_memory, bytes_of, runtime_error_reason, differs_text, differs_size, apply_mem_taken,
  apply_mem_response,
}

-- The same program counter.
abbrev pub SamePc : Recovery → Recovery → Type 0
SamePc s t = (s.pc_seq ≡ t.pc_seq) × (s.runtime_pc ≡ t.runtime_pc)

trans : (s t u : Recovery) → SamePc s t → SamePc t u → SamePc s u
trans s t u h k = (h.0 ∙ k.0, h.1 ∙ k.1)

store-SamePc : (index : ℕ) (r : RecoveryRecord) (s : Recovery) → SamePc (store index r s) s
unfolding store
store-SamePc index r s = (refl, refl)

mark_fresh-SamePc :
    (index : ℕ) (value confidence : String) (r : RecoveryRecord) (s : Recovery)
    → SamePc (mark_fresh index value confidence r s) s
unfolding mark_fresh remember prune_history store
mark_fresh-SamePc index value confidence r s = (refl, refl)

mark_read_error-SamePc :
    (indexes : List ℕ) (reason : String) (s : Recovery)
    → SamePc (mark_read_error indexes reason s) s
unfolding mark_read_error
mark_read_error-SamePc [] reason s = (refl, refl)
mark_read_error-SamePc (index ∷ indexes) reason s = elim (Option-cases (get index s.records)) [
  | inl e ↦ rw (e, mark_read_error) (mark_read_error-SamePc indexes reason s)
  | inr (r, e) ↦
      let failed = store index (set_error reason r) s in
      rw (e, mark_read_error)
        (trans (mark_read_error indexes reason failed) failed s
          (mark_read_error-SamePc indexes reason failed)
          (store-SamePc index (set_error reason r) s))
]

-- What is left when a request is taken.
abbrev TakenSame : Recovery → Taken → Type 0
TakenSame s (refused why) = Unit
TakenSame s (taken pending after) = SamePc after s

take_found-same :
    (found : Option PendingRequest) (id : String) (expected : RequestKind) (s : Recovery)
    → TakenSame s (take_found found id expected s)
take_found-same none id expected s = tt
take_found-same (some p) id expected s = elim (Bool-cases (same_kind p.kind expected)) [
  | inl right ↦ rw right (refl, refl)
  | inr wrong ↦ rw wrong tt
]

take_id-same :
    (id : Option String) (expected : RequestKind) (s : Recovery)
    → TakenSame s (take_id id expected s)
take_id-same none expected s = tt
take_id-same (some id) expected s = take_found-same (get id s.pending) id expected s

take_at-same :
    (pc_seq : Option ℤ) (payload : Fields) (expected : RequestKind) (s : Recovery)
    → TakenSame s (take_at pc_seq payload expected s)
unfolding take_at
take_at-same none payload expected s = tt
take_at-same (some pc_seq) payload expected s =
    elim (Bool-cases (equals_int (get_field "pc_seq" payload) pc_seq)) [
      | inr old ↦ rw old tt
      | inl now ↦
          elim (Bool-cases (
            truthy (get_field "runtime_pc" payload)
            && not (equals_text (get_field "runtime_pc" payload) s.runtime_pc))) [
              | inl elsewhere ↦ rw (now, elsewhere) tt
              | inr here ↦
                  rw (now, here) (take_id-same (as_str (get_field "request_id" payload)) expected s)
            ]
    ]

take_pending-same :
    (payload : Fields) (expected : RequestKind) (s : Recovery)
    → TakenSame s (take_pending payload expected s)
unfolding take_pending
take_pending-same payload expected s = take_at-same s.pc_seq payload expected s

module _ (repr str_of : Value → String) where
  finish_value-SamePc :
      (value : Result String) (label confidence : String) (index : ℕ) (r : RecoveryRecord)
      (s : Recovery)
      → SamePc (finish_value repr str_of value label confidence index r s) s
  unfolding finish_value store
  finish_value-SamePc (raised e) label confidence index r s = (refl, refl)
  finish_value-SamePc (ok value) label confidence index r s =
      mark_fresh-SamePc index value confidence r s

  finish_address-SamePc :
      (address : Result String) (pending : PendingRequest) (index : ℕ) (r : RecoveryRecord)
      (s : Recovery)
      → SamePc (finish_address repr str_of address pending index r s).0 s
  unfolding finish_address request_memory store
  finish_address-SamePc (raised e) pending index r s = (refl, refl)
  finish_address-SamePc (ok address) pending index r s = (refl, refl)

  use_registers-SamePc :
      (source : Source) (registers : Fields) (pending : PendingRequest) (index : ℕ)
      (r : RecoveryRecord) (s : Recovery)
      → SamePc (use_registers repr str_of source registers pending index r s).0 s
  unfolding use_registers
  use_registers-SamePc (register spec) registers pending index r s =
      finish_value-SamePc
        (extract_register_value (get_field spec.full_register registers) spec r.width)
        "register read failed: " "exact_register_location" index r s
  use_registers-SamePc (stack offset) registers pending index r s =
      finish_address-SamePc (concrete_stack_address (get_field "rsp" registers) offset) pending
        index r s
  use_registers-SamePc (constant value) registers pending index r s = (refl, refl)
  use_registers-SamePc unknown registers pending index r s = (refl, refl)

  apply_index-SamePc :
      (r : Option RecoveryRecord) (e : Option RecoveryEvidence) (registers : Fields)
      (pending : PendingRequest) (index : ℕ) (s : Recovery)
      → SamePc (apply_index repr str_of r e registers pending index s).0 s
  unfolding apply_index
  apply_index-SamePc (some r) (some e) registers pending index s =
      use_registers-SamePc (runtime_source e) registers pending index r s
  apply_index-SamePc none e registers pending index s = (refl, refl)
  apply_index-SamePc (some r) none registers pending index s = (refl, refl)

  apply_registers-SamePc :
      (indexes : List ℕ) (registers : Fields) (pending : PendingRequest) (s : Recovery)
      → SamePc (apply_registers repr str_of indexes registers pending s).0 s
  unfolding apply_registers
  apply_registers-SamePc [] registers pending s = (refl, refl)
  apply_registers-SamePc (index ∷ indexes) registers pending s =
      let now =
        (apply_index repr str_of (get index s.records) (get index s.evidence) registers pending
          index s).0 in
      trans (apply_registers repr str_of indexes registers pending now).0 now s
        (apply_registers-SamePc indexes registers pending now)
        (apply_index-SamePc (get index s.records) (get index s.evidence) registers pending index s)

  with_registers-SamePc :
      (registers : Value) (pending : PendingRequest) (s : Recovery)
      → SamePc (with_registers repr str_of registers pending s).0 s
  with_registers-SamePc (Value.obj registers) pending s =
      apply_registers-SamePc pending.lvar_indexes registers pending s
  with_registers-SamePc registers pending s = mark_read_error-SamePc pending.lvar_indexes _ s

  reg_taken-SamePc :
      (t : Taken) (payload : Fields) (s : Recovery)
      → TakenSame s t
      → SamePc (apply_reg_taken repr str_of t payload s).0 s
  unfolding apply_reg_taken
  reg_taken-SamePc (refused why) payload s h = (refl, refl)
  reg_taken-SamePc (taken pending after) payload s h =
      elim (Bool-cases (is_true (get_field "ok" payload))) [
        | inl good ↦ rw good (
            trans (with_registers repr str_of (get_field "registers" payload) pending after).0 after
              s (with_registers-SamePc (get_field "registers" payload) pending after) h)
        | inr bad ↦ rw bad (
            trans (mark_read_error pending.lvar_indexes "register read failed" after) after s
              (mark_read_error-SamePc pending.lvar_indexes "register read failed" after) h)
      ]

  pub apply_reg_response-SamePc :
      (payload : Fields) (s : Recovery) → SamePc (apply_reg_response repr str_of payload s).0 s
  unfolding apply_reg_response
  apply_reg_response-SamePc payload s =
      reg_taken-SamePc (take_pending payload reg s) payload s (take_pending-same payload reg s)

  fill_memory-SamePc :
      (value : Result String) (payload : Fields) (pending : PendingRequest) (index : ℕ)
      (r : RecoveryRecord) (s : Recovery)
      → SamePc (fill_memory repr str_of value payload pending index r s) s
  unfolding fill_memory store
  fill_memory-SamePc (raised e) payload pending index r s = (refl, refl)
  fill_memory-SamePc (ok value) payload pending index r s =
      let marked = mark_fresh index value "exact_stack_location" r s in
      let h = mark_fresh-SamePc index value "exact_stack_location" r s in
      elim (Option-cases (get index marked.records)) [
        | inl e ↦ rw (e, fill_memory) h
        | inr (fresh, e) ↦ rw (e, fill_memory) h
      ]

  apply_memory-SamePc :
      (indexes : List ℕ) (payload : Fields) (pending : PendingRequest) (s : Recovery)
      → SamePc (apply_memory repr str_of indexes payload pending s) s
  unfolding apply_memory store
  apply_memory-SamePc [] payload pending s = (refl, refl)
  apply_memory-SamePc (index ∷ indexes) payload pending s =
      elim (Option-cases (get index s.records)) [
        | inl e ↦ rw (e, apply_memory) (apply_memory-SamePc indexes payload pending s)
        | inr (r, e) ↦ elim (Bool-cases (is_true (get_field "ok" payload))) [
          | inl good ↦
              let filled =
                fill_memory repr str_of
                  (decode_little_endian (bytes_of repr str_of payload) pending.size) payload pending
                  index r s in
              rw (e, good, apply_memory)
                (trans (apply_memory repr str_of indexes payload pending filled) filled s
                  (apply_memory-SamePc indexes payload pending filled)
                  (fill_memory-SamePc _ payload pending index r s))
          | inr bad ↦
              let failed = store index (set_error (runtime_error_reason payload) r) s in
              rw (e, bad, apply_memory)
                (trans (apply_memory repr str_of indexes payload pending failed) failed s
                  (apply_memory-SamePc indexes payload pending failed) (refl, refl))
        ]
      ]

  mem_taken-SamePc :
      (t : Taken) (payload : Fields) (s : Recovery)
      → TakenSame s t
      → SamePc (apply_mem_taken repr str_of t payload s).0 s
  unfolding apply_mem_taken
  mem_taken-SamePc (refused why) payload s h = (refl, refl)
  mem_taken-SamePc (taken pending after) payload s h =
      elim (Bool-cases (differs_text repr str_of (get_field "address" payload) pending.address)) [
        | inl other ↦ rw other h
        | inr same ↦
            elim (Bool-cases (differs_size repr str_of (get_field "size" payload) pending.size)) [
              | inl long ↦ rw (same, long) h
              | inr fits ↦
                  rw (same, fits)
                    (trans (apply_memory repr str_of pending.lvar_indexes payload pending after)
                      after s (apply_memory-SamePc pending.lvar_indexes payload pending after) h)
            ]
      ]

  pub apply_mem_response-SamePc :
      (payload : Fields) (s : Recovery) → SamePc (apply_mem_response repr str_of payload s).0 s
  unfolding apply_mem_response
  apply_mem_response-SamePc payload s =
      mem_taken-SamePc (take_pending payload mem s) payload s (take_pending-same payload mem s)
