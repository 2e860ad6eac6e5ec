-- ===== src/Recovery/Invariant/Answers.antt =====
-- `apply_reg_response` and `apply_mem_response` keep a state sound.
use dynvar_sync.Base.{
  ℕ, ◌&&◌, not, List, [], ◌∷◌, Option, none, some, String, ℤ, All-remove, get, nat_eq, string_eq,
  ◌≡◌, refl, inl, inr, Bool-cases, Option-cases, All-put, In-get, In-All,
}
use dynvar_sync.Value.{Value, Fields, get_field, is_true, equals_int, truthy}
use dynvar_sync.Registers.{Result, ok, raised}
use dynvar_sync.Recovery.{
  RecoveryEvidence, RecoveryRecord, Recovery, PendingRequest, RequestKind, reg, mem,
}
use dynvar_sync.Recovery.Records.{set_error, mark_fresh, remember, prune_history, store}
use dynvar_sync.Recovery.Pending.{
  Taken, refused, taken, take_pending, take_at, take_id, take_found, same_kind, equals_text,
}
use dynvar_sync.Recovery.Begin.{Source, constant, register, stack, unknown}
use dynvar_sync.Recovery.Responses.{
  mark_read_error, finish_value, request_memory, finish_address, use_registers, apply_index,
  apply_registers, with_registers, apply_reg_taken, apply_reg_response, fill_memory, apply_memory,
  differs_text, differs_size, put_back, apply_mem_taken, apply_mem_response, runtime_source,
}
use dynvar_sync.Recovery.Invariant.{
  IsSound, IsRecordOf, IsRequestOf, store-IsSound, set-IsRecordOf, set_error-IsHonest,
  set_error-SameContext, record_context,
}
use dynvar_sync.Recovery.Invariant.History.{mark_fresh-IsSound}

-- The context of a record that stands in a state.
abbrev Fits : RecoveryRecord → Recovery → Type 0
Fits r s = (some r.current_pc_seq ≡ s.pc_seq) × (r.current_runtime_pc ≡ s.runtime_pc)

set_error-IsSound :
    (index : ℕ) (reason : String) (r : RecoveryRecord) (s : Recovery)
    → Fits r s
    → IsSound s
    → IsSound (store index (set_error reason r) s)
set_error-IsSound index reason r s at v =
    store-IsSound index (set_error reason r) s
      (set-IsRecordOf index (set_error reason r) r s.pc_seq s.runtime_pc
        (set_error-SameContext reason r) (set_error-IsHonest reason r) at)
      v

mark_read_error-IsSound :
    (indexes : List ℕ) (reason : String) (s : Recovery)
    → IsSound s
    → IsSound (mark_read_error indexes reason s)
unfolding mark_read_error
mark_read_error-IsSound [] reason s v = v
mark_read_error-IsSound (index ∷ indexes) reason s v = elim (Option-cases (get index s.records)) [
  | inl e ↦ rw (e, mark_read_error) (mark_read_error-IsSound indexes reason s v)
  | inr (r, e) ↦
      rw (e, mark_read_error)
        (mark_read_error-IsSound indexes reason _
          (set_error-IsSound index reason r s (record_context index r s e v) v))
]

-- A response is only taken for a request of the current program counter.
abbrev IsTaken : Taken → Recovery → Type 0
IsTaken (refused why) s = Unit
IsTaken (taken pending s') s =
    IsSound s' × (some pending.pc_seq ≡ s'.pc_seq) × (pending.runtime_pc ≡ s'.runtime_pc)

take_found-IsTaken :
    (request_id : String) (expected : RequestKind) (s : Recovery)
    → IsSound s
    → IsTaken (take_found (get request_id s.pending) request_id expected s) s
take_found-IsTaken request_id expected s v = elim (Option-cases (get request_id s.pending)) [
  | inl e ↦ rw e tt
  | inr (p, e) ↦ rw e (elim (Bool-cases (same_kind p.kind expected)) [
    | inr wrong ↦ rw wrong tt
    | inl right ↦
        let it =
          In-All (IsRequestOf s.pc_seq s.runtime_pc) s.pending v.pending_current (request_id, p)
            (In-get request_id p s.pending e) in
        rw right (
          record {
            bounded = v.bounded;
            records_current = v.records_current;
            pending_current =
                All-remove (IsRequestOf s.pc_seq s.runtime_pc) request_id s.pending
                  v.pending_current;
          },
          it.0,
          it.1,
        )
  ])
]

take_id-IsTaken :
    (request_id : Option String) (expected : RequestKind) (s : Recovery)
    → IsSound s
    → IsTaken (take_id request_id expected s) s
take_id-IsTaken none expected s v = tt
take_id-IsTaken (some request_id) expected s v = take_found-IsTaken request_id expected s v

take_at-IsTaken :
    (pc_seq : Option ℤ) (payload : Fields) (expected : RequestKind) (s : Recovery)
    → IsSound s
    → IsTaken (take_at pc_seq payload expected s) s
unfolding take_at
take_at-IsTaken none payload expected s v = tt
take_at-IsTaken (some pc_seq) payload expected s v =
    elim (Bool-cases (equals_int (get_field "pc_seq" payload) pc_seq)) [
      | inr old ↦ rw old tt
      | inl now ↦
          rw now
            (elim (Bool-cases (
              truthy (get_field "runtime_pc" payload)
              && not (equals_text (get_field "runtime_pc" payload) s.runtime_pc))) [
                | inl elsewhere ↦ rw elsewhere tt
                | inr here ↦ rw here (take_id-IsTaken _ expected s v)
              ])
    ]

take_pending-IsTaken :
    (payload : Fields) (expected : RequestKind) (s : Recovery)
    → IsSound s
    → IsTaken (take_pending payload expected s) s
unfolding take_pending
take_pending-IsTaken payload expected s v = take_at-IsTaken s.pc_seq payload expected s v

-- A sound state at the program counter of a request.
abbrev IsAtRequest : PendingRequest → Recovery → Type 0
IsAtRequest pending s =
    IsSound s × (some pending.pc_seq ≡ s.pc_seq) × (pending.runtime_pc ≡ s.runtime_pc)

module _ (repr : Value → String) (str_of : Value → String) where
  finish_value-IsAtRequest :
      (value : Result String) (label confidence : String) (pending : PendingRequest) (index : ℕ)
      (r : RecoveryRecord) (s : Recovery)
      → Fits r s
      → IsAtRequest pending s
      → IsAtRequest pending (finish_value repr str_of value label confidence index r s)
  unfolding finish_value mark_fresh remember prune_history store
  finish_value-IsAtRequest (raised e) label confidence pending index r s at v =
      (set_error-IsSound index _ r s at v.0, v.1, v.2)
  finish_value-IsAtRequest (ok value) label confidence pending index r s at v =
      (mark_fresh-IsSound index value confidence r s at v.0, v.1, v.2)

  request_memory-IsAtRequest :
      (pending : PendingRequest) (index : ℕ) (r : RecoveryRecord) (address : String) (s : Recovery)
      → IsRecordOf s.pc_seq s.runtime_pc (index, r)
      → IsAtRequest pending s
      → IsAtRequest pending (request_memory repr str_of pending index r address s).0
  unfolding request_memory store
  request_memory-IsAtRequest pending index r address s it v = (
    record {
      bounded = v.0.bounded;
      records_current =
          All-put (IsRecordOf s.pc_seq s.runtime_pc) index _ s.records v.0.records_current it;
      pending_current =
          All-put (IsRequestOf s.pc_seq s.runtime_pc) _ _ s.pending v.0.pending_current
            (v.1, v.2, refl);
    },
    v.1,
    v.2,
  )

  finish_address-IsAtRequest :
      (address : Result String) (pending : PendingRequest) (index : ℕ) (r : RecoveryRecord)
      (s : Recovery)
      → IsRecordOf s.pc_seq s.runtime_pc (index, r)
      → IsAtRequest pending s
      → IsAtRequest pending (finish_address repr str_of address pending index r s).0
  unfolding finish_address store
  finish_address-IsAtRequest (raised e) pending index r s it v =
      (set_error-IsSound index _ r s (it.0, it.1) v.0, v.1, v.2)
  finish_address-IsAtRequest (ok address) pending index r s it v =
      request_memory-IsAtRequest pending index r address s it v

  use_registers-IsAtRequest :
      (source : Source) (registers : Fields) (pending : PendingRequest) (index : ℕ)
      (r : RecoveryRecord) (s : Recovery)
      → IsRecordOf s.pc_seq s.runtime_pc (index, r)
      → IsAtRequest pending s
      → IsAtRequest pending (use_registers repr str_of source registers pending index r s).0
  unfolding use_registers
  use_registers-IsAtRequest (constant value) registers pending index r s it v = v
  use_registers-IsAtRequest unknown registers pending index r s it v = v
  use_registers-IsAtRequest (register spec) registers pending index r s it v =
      finish_value-IsAtRequest _ _ _ pending index r s (it.0, it.1) v
  use_registers-IsAtRequest (stack offset) registers pending index r s it v =
      finish_address-IsAtRequest _ pending index r s it v

  apply_index-IsAtRequest :
      (found : Option RecoveryRecord) (e : Option RecoveryEvidence) (registers : Fields)
      (pending : PendingRequest) (index : ℕ) (s : Recovery)
      → ((r : RecoveryRecord) → found ≡ some r → IsRecordOf s.pc_seq s.runtime_pc (index, r))
      → IsAtRequest pending s
      → IsAtRequest pending (apply_index repr str_of found e registers pending index s).0
  unfolding apply_index
  apply_index-IsAtRequest none e registers pending index s it v = v
  apply_index-IsAtRequest (some r) none registers pending index s it v = v
  apply_index-IsAtRequest (some r) (some e) registers pending index s it v =
      use_registers-IsAtRequest (runtime_source e) registers pending index r s (it r refl) v

  apply_registers-IsAtRequest :
      (indexes : List ℕ) (registers : Fields) (pending : PendingRequest) (s : Recovery)
      → IsAtRequest pending s
      → IsAtRequest pending (apply_registers repr str_of indexes registers pending s).0
  unfolding apply_registers
  apply_registers-IsAtRequest [] registers pending s v = v
  apply_registers-IsAtRequest (index ∷ indexes) registers pending s v =
      apply_registers-IsAtRequest indexes registers pending _ (
        apply_index-IsAtRequest (get index s.records) (get index s.evidence) registers pending index
          s
          (λ r e.
            In-All (IsRecordOf s.pc_seq s.runtime_pc) s.records v.0.records_current (index, r)
              (In-get index r s.records e))
          v)

  with_registers-IsSound :
      (registers : Value) (pending : PendingRequest) (s : Recovery)
      → IsAtRequest pending s
      → IsSound (with_registers repr str_of registers pending s).0
  with_registers-IsSound (Value.obj registers) pending s v =
      (apply_registers-IsAtRequest pending.lvar_indexes registers pending s v).0
  with_registers-IsSound Value.null pending s v = mark_read_error-IsSound _ _ s v.0
  with_registers-IsSound Value.special pending s v = mark_read_error-IsSound _ _ s v.0
  with_registers-IsSound (Value.bool b) pending s v = mark_read_error-IsSound _ _ s v.0
  with_registers-IsSound (Value.num z) pending s v = mark_read_error-IsSound _ _ s v.0
  with_registers-IsSound (Value.float z n) pending s v = mark_read_error-IsSound _ _ s v.0
  with_registers-IsSound (Value.str t) pending s v = mark_read_error-IsSound _ _ s v.0
  with_registers-IsSound (Value.arr vs) pending s v = mark_read_error-IsSound _ _ s v.0

  reg_taken-IsSound :
      (t : Taken) (payload : Fields) (s : Recovery)
      → IsTaken t s
      → IsSound s
      → IsSound (apply_reg_taken repr str_of t payload s).0
  unfolding apply_reg_taken
  reg_taken-IsSound (refused why) payload s it v = v
  reg_taken-IsSound (taken pending s') payload s it v =
      elim (Bool-cases (is_true (get_field "ok" payload))) [
        | inl good ↦ rw good (with_registers-IsSound _ pending s' it)
        | inr bad ↦ rw bad (mark_read_error-IsSound pending.lvar_indexes _ s' it.0)
      ]

  pub apply_reg_response-IsSound :
      (payload : Fields) (s : Recovery)
      → IsSound s
      → IsSound (apply_reg_response repr str_of payload s).0
  unfolding apply_reg_response
  apply_reg_response-IsSound payload s v =
      reg_taken-IsSound (take_pending payload reg s) payload s
        (take_pending-IsTaken payload reg s v) v

  fill_memory-IsSound :
      (value : Result String) (payload : Fields) (pending : PendingRequest) (index : ℕ)
      (r : RecoveryRecord) (s : Recovery)
      → Fits r s
      → IsSound s
      → IsSound (fill_memory repr str_of value payload pending index r s)
  unfolding fill_memory
  fill_memory-IsSound (raised e) payload pending index r s at v = set_error-IsSound index _ r s at v
  fill_memory-IsSound (ok value) payload pending index r s at v =
      let marked = mark_fresh index value "exact_stack_location" r s in
      let w = mark_fresh-IsSound index value "exact_stack_location" r s at v in
      elim (Option-cases (get index marked.records)) [
        | inl e ↦ rw (e, fill_memory) w
        | inr (fresh, e) ↦
            rw (e, fill_memory)
              (store-IsSound index _ marked
                (In-All (IsRecordOf marked.pc_seq marked.runtime_pc) marked.records
                  w.records_current (index, fresh) (In-get index fresh marked.records e))
                w)
      ]

  apply_memory-IsSound :
      (indexes : List ℕ) (payload : Fields) (pending : PendingRequest) (s : Recovery)
      → IsSound s
      → IsSound (apply_memory repr str_of indexes payload pending s)
  unfolding apply_memory
  apply_memory-IsSound [] payload pending s v = v
  apply_memory-IsSound (index ∷ indexes) payload pending s v =
      elim (Option-cases (get index s.records)) [
        | inl e ↦ rw (e, apply_memory) (apply_memory-IsSound indexes payload pending s v)
        | inr (r, e) ↦ elim (Bool-cases (is_true (get_field "ok" payload))) [
          | inl good ↦
              rw (e, good, apply_memory)
                (apply_memory-IsSound indexes payload pending _ (
                  fill_memory-IsSound _ payload pending index r s (record_context index r s e v) v))
          | inr bad ↦
              rw (e, bad, apply_memory)
                (apply_memory-IsSound indexes payload pending _
                  (set_error-IsSound index _ r s (record_context index r s e v) v))
        ]
      ]

  mem_taken-IsSound :
      (t : Taken) (payload : Fields) (s : Recovery)
      → IsTaken t s
      → IsSound s
      → IsSound (apply_mem_taken repr str_of t payload s).0
  unfolding apply_mem_taken
  mem_taken-IsSound (refused why) payload s it v = v
  mem_taken-IsSound (taken pending s') payload s it v =
      let back : IsSound (put_back repr str_of pending s') = record {
        bounded = it.0.bounded;
        records_current = it.0.records_current;
        pending_current =
            All-put (IsRequestOf s'.pc_seq s'.runtime_pc) pending.request_id pending s'.pending
              it.0.pending_current (it.1, it.2, refl);
      } in
      elim (Bool-cases (differs_text repr str_of (get_field "address" payload) pending.address)) [
        | inl other ↦ rw other back
        | inr same ↦
            elim (Bool-cases (differs_size repr str_of (get_field "size" payload) pending.size)) [
              | inl long ↦ rw (same, long) back
              | inr fits ↦
                  rw (same, fits)
                    (apply_memory-IsSound pending.lvar_indexes payload pending s' it.0)
            ]
      ]

  pub apply_mem_response-IsSound :
      (payload : Fields) (s : Recovery)
      → IsSound s
      → IsSound (apply_mem_response repr str_of payload s).0
  unfolding apply_mem_response
  apply_mem_response-IsSound payload s v =
      mem_taken-IsSound (take_pending payload mem s) payload s
        (take_pending-IsTaken payload mem s v) v
