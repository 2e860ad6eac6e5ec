-- ===== src/Recovery/Invariant/Steps.antt =====
-- The life of a `VVariableRecovery`: it is made, and its methods are called in any order.
use dynvar_sync.Base.{
  ℕ, ltb, true, false, List, [], ◌∷◌, Option, none, some, String, ◌<+>◌, ℤ, get, if◌then◌else◌,
  string_eq, nat_eq, ◌≡◌, ◌<◌, ◌^◌, pos, refl, arith, get-put_self,
}
use dynvar_sync.Value.{Value, Fields, get_field, is_true}
use dynvar_sync.Numbers.{format_hex}
use dynvar_sync.Registers.{supported}
use dynvar_sync.Registers.Memory.{bytes_text, to_little, decode-bytes_text}
use dynvar_sync.Recovery.{
  VariableRecord, RecoveryAnalysis, RecoveryRecord, Recovery, PendingRequest, mem,
}
use dynvar_sync.Recovery.Records.{mark_fresh, fresh_record, store}
use dynvar_sync.Recovery.Pending.{taken, take_pending, invalidate_pc, clear_runtime_state}
use dynvar_sync.Recovery.Begin.{begin_pc}
use dynvar_sync.Recovery.Responses.{
  apply_reg_response, apply_mem_response, apply_mem_taken, apply_memory, fill_memory, bytes_of,
  differs_text, differs_size,
}
use dynvar_sync.Recovery.Invariant.{IsSound}
use dynvar_sync.Recovery.Invariant.Planning.{
  begin_pc-IsSound, invalidate_pc-IsSound, clear_runtime_state-IsSound,
}
use dynvar_sync.Recovery.Invariant.Answers.{apply_reg_response-IsSound, apply_mem_response-IsSound}

-- VVariableRecovery(max_history=max_history)
unfoldable pub new_recovery : ℕ → Recovery
new_recovery max_history = record {
  max_history = if ltb max_history 1 then 1 else max_history;
  history = [];
  records = [];
  evidence = [];
  pending = [];
  pc_seq = none;
  runtime_pc = "";
  function_ea = 0;
  current_ea = pos 0;
  source_variables = [];
}

module _ (repr : Value → String) (str_of : Value → String) where
  pub data Reach (max_history : ℕ) : Recovery → Type 0 where
    made : Reach max_history (new_recovery max_history)
    begun :
        {s : Recovery} (provider : ℕ → ℤ → List VariableRecord → Option RecoveryAnalysis)
        (variables : List VariableRecord) (function_ea : ℕ) (current_ea : ℤ) (runtime_pc : String)
        (pc_seq : ℤ) (indexes : Option (List ℕ))
        → Reach max_history s
        → Reach max_history
            (begin_pc provider variables function_ea current_ea runtime_pc pc_seq indexes s).0
    invalidated :
        {s : Recovery} (pc_seq : ℤ) (runtime_pc : String)
        → Reach max_history s
        → Reach max_history (invalidate_pc pc_seq runtime_pc s)
    cleared : {s : Recovery} → Reach max_history s → Reach max_history (clear_runtime_state s)
    registers_read :
        {s : Recovery} (payload : Fields)
        → Reach max_history s
        → Reach max_history (apply_reg_response repr str_of payload s).0
    memory_read :
        {s : Recovery} (payload : Fields)
        → Reach max_history s
        → Reach max_history (apply_mem_response repr str_of payload s).0

  -- In every state that the methods reach from a new object, in any order and with any arguments,
  -- responses and analysis results: the history is no longer than its bound; every record and every
  -- pending request is of the current program counter; and a record shows either a fresh value,
  -- which is the last proven one and proven at this program counter, or a stale one, which is the
  -- last proven one and not empty, or no value.
  pub Reach-IsSound : (max_history : ℕ) (s : Recovery) → Reach max_history s → IsSound s
  unfolding new_recovery
  Reach-IsSound max_history s made = record {
    bounded = omega arith;
    records_current = tt;
    pending_current = tt;
  }
  Reach-IsSound max_history s
        (begun {s = before} provider variables function_ea current_ea runtime_pc pc_seq indexes r) =
      begin_pc-IsSound provider variables function_ea current_ea runtime_pc pc_seq indexes before
        (Reach-IsSound max_history before r)
  Reach-IsSound max_history s (invalidated {s = before} pc_seq runtime_pc r) =
      invalidate_pc-IsSound pc_seq runtime_pc before (Reach-IsSound max_history before r)
  Reach-IsSound max_history s (cleared {s = before} r) =
      clear_runtime_state-IsSound before (Reach-IsSound max_history before r)
  Reach-IsSound max_history s (registers_read {s = before} payload r) =
      apply_reg_response-IsSound repr str_of payload before (Reach-IsSound max_history before r)
  Reach-IsSound max_history s (memory_read {s = before} payload r) =
      apply_mem_response-IsSound repr str_of payload before (Reach-IsSound max_history before r)

  -- What the memory response that a variable waits for does to its record: if the request of the
  -- response waits for that one variable and a record of it is there, the response is good and names
  -- no other address and size, the size is 1, 2, 4 or 8, and the text of the bytes is that of a
  -- number which fits the size, then the record shows that number, as fresh, as proven at the program
  -- counter of the record, and at the address of the request.
  pub memory_shown :
      (payload : Fields) (s s' : Recovery) (pending : PendingRequest) (index n : ℕ)
      (r : RecoveryRecord)
      → take_pending payload mem s ≡ taken pending s'
      → pending.lvar_indexes ≡ index ∷ []
      → get index s'.records ≡ some r
      → differs_text repr str_of (get_field "address" payload) pending.address ≡ false
      → differs_size repr str_of (get_field "size" payload) pending.size ≡ false
      → is_true (get_field "ok" payload) ≡ true
      → bytes_of repr str_of payload ≡ bytes_text (to_little pending.size n)
      → supported pending.size ≡ true
      → n < 256 ^ pending.size
      → (q : RecoveryRecord) × (get index (apply_mem_response repr str_of payload s).0.records
          ≡ some q)
        × (q.recovery_status ≡ "fresh")
        × (q.value ≡ format_hex (pos n))
        × (q.last_successful_pc_seq ≡ some r.current_pc_seq)
        × (q.storage ≡ "stack:" <+> pending.address)
  unfolding apply_mem_response apply_mem_taken apply_memory fresh_record store
  memory_shown payload s s' pending index n r took one found same_address same_size good bytes wide
        fits =
      let fresh = fresh_record (format_hex (pos n)) "exact_stack_location" r in
      let marked = mark_fresh index (format_hex (pos n)) "exact_stack_location" r s' in
      let decoded = decode-bytes_text pending.size n wide fits in
      rw (took, same_address, same_size, one, found, apply_memory, good, bytes, decoded)
        (rw (get-put_self index fresh s'.records, fill_memory)
          (
            record fresh {
              storage = "stack:" <+> pending.address;
              reason = "exact stack memory read raw=" <+> bytes_of repr str_of payload;
            },
            get-put_self index _ marked.records,
            refl,
            refl,
            refl,
            refl,
          ))
