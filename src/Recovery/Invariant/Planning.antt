-- ===== src/Recovery/Invariant/Planning.antt =====
-- `begin_pc`, `invalidate_pc` and `clear_runtime_state` keep a state sound.
use dynvar_sync.Base.{
  ℕ, ltb, ◌||◌, not, Bool, true, false, List, [], ◌∷◌, Option, some, String, ℤ, pos, keep, nat_eq,
  string_eq, ◌≡◌, refl, inl, inr, Bool-cases, List-cases, All-put, sym, ◌∙◌, ap,
}
use dynvar_sync.Registers.{Result, ok, raised, supported}
use dynvar_sync.Recovery.{
  VariableRecord, RecoveryEvidence, RecoveryAnalysis, RecoveryRecord, Recovery,
}
use dynvar_sync.Recovery.Records.{
  new_record, set_waiting, set_unavailable, mark_fresh, remember, prune_history, store,
}
use dynvar_sync.Recovery.Pending.{start_context, invalidate_pc, clear_runtime_state}
use dynvar_sync.Recovery.Begin.{
  Planning, Source, constant, register, stack, unknown, choose_evidence, plan_constant,
  plan_unavailable, plan_read, plan_register, plan_stack, plan_source, plan_variable,
  plan_variables, in_selection, request_registers, sort_registers, begin_pc, begin_with,
  local_variables, analysis_or_failure,
}
use dynvar_sync.Recovery.Invariant.{
  IsSound, IsRequestOf, store-IsSound, set-IsRecordOf, set_waiting-IsHonest,
  set_waiting-SameContext, set_unavailable-IsHonest, set_unavailable-SameContext,
}
use dynvar_sync.Recovery.Invariant.History.{mark_fresh-IsSound}

start_context-IsSound :
    (function_ea : ℕ) (current_ea : ℤ) (runtime_pc : String) (pc_seq : ℤ) (s : Recovery)
    → IsSound s
    → IsSound (start_context function_ea current_ea runtime_pc pc_seq s)
unfolding start_context
start_context-IsSound function_ea current_ea runtime_pc pc_seq s v = record {
  bounded = v.bounded;
  records_current = tt;
  pending_current = tt;
}

pub invalidate_pc-IsSound :
    (pc_seq : ℤ) (runtime_pc : String) (s : Recovery)
    → IsSound s
    → IsSound (invalidate_pc pc_seq runtime_pc s)
unfolding invalidate_pc
invalidate_pc-IsSound pc_seq runtime_pc s v = start_context-IsSound 0 (pos 0) runtime_pc pc_seq s v

pub clear_runtime_state-IsSound : (s : Recovery) → IsSound s → IsSound (clear_runtime_state s)
unfolding clear_runtime_state
clear_runtime_state-IsSound s v = record {
  bounded = v.bounded;
  records_current = tt;
  pending_current = tt;
}

module _ (pc_seq : ℤ) (runtime_pc : String) where
  -- The state stays sound, and at its program counter.
  abbrev pub IsAt : Recovery → Type 0
  IsAt s = IsSound s × (s.pc_seq ≡ some pc_seq) × (s.runtime_pc ≡ runtime_pc)

  abbrev At : RecoveryRecord → Type 0
  At r = (r.current_pc_seq ≡ pc_seq) × (r.current_runtime_pc ≡ runtime_pc)

  context_of :
      (r : RecoveryRecord) (s : Recovery)
      → At r
      → IsAt s
      → (some r.current_pc_seq ≡ s.pc_seq) × (r.current_runtime_pc ≡ s.runtime_pc)
  context_of r s a v = (ap some a.0 ∙ sym v.1, a.1 ∙ sym v.2)

  plan_unavailable-IsAt :
      (b : Bool) (reason : String) (index : ℕ) (r : RecoveryRecord) (p : Planning)
      → At r
      → IsAt p.state
      → IsAt (plan_unavailable b reason index r p).state
  unfolding plan_unavailable store
  plan_unavailable-IsAt b reason index r p a v = (
    store-IsSound index (set_unavailable b reason r) p.state
        (set-IsRecordOf index (set_unavailable b reason r) r _ _
          (set_unavailable-SameContext b reason r) (set_unavailable-IsHonest b reason r)
          (context_of r p.state a v))
        v.0,
    v.1,
    v.2,
  )

  plan_read-IsAt :
      (needed reason : String) (index : ℕ) (r : RecoveryRecord) (p : Planning)
      → At r
      → IsAt p.state
      → IsAt (plan_read needed reason index r p).state
  unfolding plan_read store
  plan_read-IsAt needed reason index r p a v = (
    store-IsSound index (set_waiting reason r) p.state
        (set-IsRecordOf index (set_waiting reason r) r _ _ (set_waiting-SameContext reason r)
          (set_waiting-IsHonest reason r) (context_of r p.state a v))
        v.0,
    v.1,
    v.2,
  )

  plan_constant-IsAt :
      (value : Result String) (confidence : String) (index : ℕ) (r : RecoveryRecord) (p : Planning)
      → At r
      → IsAt p.state
      → IsAt (plan_constant value confidence index r p).state
  unfolding plan_constant plan_unavailable mark_fresh remember prune_history store
  plan_constant-IsAt (raised e) confidence index r p a v =
      plan_unavailable-IsAt true "unsupported_value_width" index r p a v
  plan_constant-IsAt (ok value) confidence index r p a v =
      (mark_fresh-IsSound index value confidence r p.state (context_of r p.state a v) v.0, v.1, v.2)

  plan_source-IsAt :
      (source : Source) (e : RecoveryEvidence) (variable : VariableRecord) (r : RecoveryRecord)
      (p : Planning)
      → At r
      → IsAt p.state
      → IsAt (plan_source source e variable r p).state
  unfolding plan_source plan_register plan_stack
  plan_source-IsAt (constant value) e variable r p a v =
      plan_constant-IsAt _ e.confidence variable.lvar_index r p a v
  plan_source-IsAt (register spec) e variable r p a v =
      elim (Bool-cases (not (supported variable.size) || ltb spec.width variable.size)) [
        | inl wide ↦ rw wide (plan_unavailable-IsAt true _ variable.lvar_index r p a v)
        | inr fits ↦ rw fits (plan_read-IsAt spec.full_register _ variable.lvar_index r p a v)
      ]
  plan_source-IsAt (stack offset) e variable r p a v =
      elim (Bool-cases (not (supported variable.size))) [
        | inl wide ↦ rw wide (plan_unavailable-IsAt true _ variable.lvar_index r p a v)
        | inr fits ↦ rw fits (plan_read-IsAt "rsp" _ variable.lvar_index r p a v)
      ]
  plan_source-IsAt unknown e variable r p a v =
      plan_unavailable-IsAt true e.reason variable.lvar_index r p a v

  plan_variables-IsAt :
      (analysis_ok : Bool) (selected : ℕ → Bool) (current_ea : ℤ) (variables : List VariableRecord)
      (p : Planning)
      → IsAt p.state
      → IsAt (plan_variables analysis_ok selected pc_seq runtime_pc current_ea variables p).state
  unfolding plan_variables plan_variable new_record
  plan_variables-IsAt analysis_ok selected current_ea [] p v = v
  plan_variables-IsAt true selected current_ea (variable ∷ variables) p v =
      let e =
        choose_evidence true (selected variable.lvar_index) p.state.evidence variable.lvar_index in
      let r = new_record variable e pc_seq runtime_pc current_ea p.state in
      plan_variables-IsAt true selected current_ea variables _
        (plan_source-IsAt _ e variable r p (refl, refl) v)
  plan_variables-IsAt false selected current_ea (variable ∷ variables) p v =
      let e =
        choose_evidence false (selected variable.lvar_index) p.state.evidence variable.lvar_index in
      let r = new_record variable e pc_seq runtime_pc current_ea p.state in
      plan_variables-IsAt false selected current_ea variables _
        (plan_unavailable-IsAt false _ variable.lvar_index r p (refl, refl) v)

  request_registers-IsAt :
      (p : Planning) → IsAt p.state → IsAt (request_registers pc_seq runtime_pc p).0
  unfolding request_registers
  request_registers-IsAt p v = elim (List-cases (sort_registers p.needed_registers)) [
    | inl e ↦ rw (e, request_registers) v
    | inr (r, rs, e) ↦
        rw (e, request_registers)
          (
            record {
              bounded = v.0.bounded;
              records_current = v.0.records_current;
              pending_current =
                  All-put (IsRequestOf p.state.pc_seq p.state.runtime_pc) _ _ p.state.pending
                    v.0.pending_current (sym v.1, sym v.2, refl);
            },
            v.1,
            v.2,
          )
  ]

  begin_with-IsAt :
      (analysis : RecoveryAnalysis) (selected : ℕ → Bool) (local : List VariableRecord)
      (current_ea : ℤ) (s : Recovery)
      → IsAt s
      → IsAt (begin_with analysis selected local pc_seq runtime_pc current_ea s).0
  unfolding begin_with
  begin_with-IsAt analysis selected local current_ea s v =
      let p : Planning = record {
        state = record s { evidence = analysis.evidence_by_index };
        needed_registers = [];
        runtime_indexes = [];
      } in
      request_registers-IsAt
        (plan_variables analysis.ok selected pc_seq runtime_pc current_ea local p)
        (plan_variables-IsAt analysis.ok selected current_ea local p (
          record {
            bounded = v.0.bounded;
            records_current = v.0.records_current;
            pending_current = v.0.pending_current;
          },
          v.1,
          v.2,
        ))

-- After `begin_pc` the recovery is at the program counter that it began.
pub begin_pc-IsAt :
    (provider : ℕ → ℤ → List VariableRecord → Option RecoveryAnalysis)
    (variables : List VariableRecord) (function_ea : ℕ) (current_ea : ℤ) (runtime_pc : String)
    (pc_seq : ℤ) (indexes : Option (List ℕ)) (s : Recovery)
    → IsSound s
    → IsAt pc_seq runtime_pc
        (begin_pc provider variables function_ea current_ea runtime_pc pc_seq indexes s).0
unfolding begin_pc start_context
begin_pc-IsAt provider variables function_ea current_ea runtime_pc pc_seq indexes s v =
    let local = local_variables variables in
    let selected = in_selection indexes local in
    let started : Recovery = record (start_context function_ea current_ea runtime_pc pc_seq s) {
      source_variables = local;
    } in
    let none_yet : IsSound started = record {
      bounded = v.bounded;
      records_current = tt;
      pending_current = tt;
    } in
    begin_with-IsAt pc_seq runtime_pc
      (analysis_or_failure
        (provider function_ea current_ea (keep (λ variable. selected variable.lvar_index) local)))
      selected local current_ea started (none_yet, refl, refl)

pub begin_pc-IsSound :
    (provider : ℕ → ℤ → List VariableRecord → Option RecoveryAnalysis)
    (variables : List VariableRecord) (function_ea : ℕ) (current_ea : ℤ) (runtime_pc : String)
    (pc_seq : ℤ) (indexes : Option (List ℕ)) (s : Recovery)
    → IsSound s
    → IsSound (begin_pc provider variables function_ea current_ea runtime_pc pc_seq indexes s).0
begin_pc-IsSound provider variables function_ea current_ea runtime_pc pc_seq indexes s v =
    (begin_pc-IsAt provider variables function_ea current_ea runtime_pc pc_seq indexes s v).0
