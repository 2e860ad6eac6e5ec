-- ===== src/Recovery/Begin.antt =====
-- `VVariableRecovery.begin_pc`: the records of the local variables at a new program counter, and
-- the one register request that they need.
use dynvar_sync.Base.{
  ℕ, suc, ltb, ◌==◌, ◌||◌, ◌&&◌, not, Bool, true, false, List, [], ◌∷◌, ◌++◌, Option, none, some,
  if◌then◌else◌, String, str_eq, ◌<+>◌, ℤ, keep, any_of, Dict, get, put, nat_eq, string_eq,
}
use Prim.Native.String
use Prim.Native.Nat.{Ordering}
use dynvar_sync.Value.{str, num, arr, Items, done, item, end, field, member}
use dynvar_sync.Numbers.{decimal_int}
use dynvar_sync.Registers.{RegisterSpec, Result, ok, raised, supported, format_constant}
use dynvar_sync.Recovery.{
  VariableRecord, RecoveryEvidence, RecoveryAnalysis, RecoveryRecord, Recovery, PendingRequest, reg,
  Message,
}
use dynvar_sync.Recovery.Records.{new_record, set_unavailable, set_waiting, mark_fresh, store}
use dynvar_sync.Recovery.Pending.{start_context}

abbrev pub full_register_order : List String
full_register_order =
    "rax" ∷ "rbx" ∷ "rcx" ∷ "rdx" ∷ "rsi" ∷ "rdi" ∷ "rbp" ∷ "rsp" ∷ "r8" ∷ "r9" ∷ "r10" ∷ "r11"
    ∷ "r12" ∷ "r13" ∷ "r14" ∷ "r15" ∷ []

-- order.get(name, len(order))
abbrev order_of : List String → String → ℕ
order_of [] name = 0
order_of (r ∷ rs) name = let rest = order_of rs name in if str_eq r name then 0 else suc rest

abbrev text_before : String → String → Bool
text_before s t = elim (String.compare s t) [ Ordering.lt ↦ true | _ ↦ false ]

abbrev register_before : String → String → Bool
register_before r s =
    let i = order_of full_register_order r in
    let j = order_of full_register_order s in ltb i j || ((i == j) && text_before r s)

unfoldable insert_register : String → List String → List String
insert_register r [] = r ∷ []
insert_register r (s ∷ rest) =
    let later = insert_register r rest in if register_before s r then s ∷ later else r ∷ s ∷ rest

-- _sort_registers
unfoldable pub sort_registers : List String → List String
unfolding insert_register
sort_registers [] = []
sort_registers (r ∷ rs) = insert_register r (sort_registers rs)

-- needed_registers.add(name)
unfoldable add_register : String → List String → List String
add_register r needed = if member r needed then needed else r ∷ needed

unfoldable pub items_of : List String → Items
items_of [] = done
items_of (s ∷ ss) = item (str s) (items_of ss)

-- The state with the local variables of `begin_pc`.
pub record Planning : Type 0 where
  pub state : Recovery
  pub needed_registers : List String
  pub runtime_indexes : List ℕ

-- RecoveryEvidence(index, reason=reason)
abbrev bare_evidence : ℕ → String → RecoveryEvidence
bare_evidence index reason = record {
  lvar_index = index;
  storage_kind = "unknown";
  storage = "";
  source_ea = none;
  confidence = "unknown";
  reason = reason;
  register = none;
  stack_pointer_offset = none;
  constant_value = none;
  width = 0;
}

abbrev evidence_or : Option RecoveryEvidence → ℕ → RecoveryEvidence
evidence_or none index = bare_evidence index "no_reaching_definition"
evidence_or (some evidence) index = evidence

unfoldable pub choose_evidence : Bool → Bool → Dict ℕ RecoveryEvidence → ℕ → RecoveryEvidence
choose_evidence false selected evidence index = bare_evidence index "microcode_unavailable"
choose_evidence true false evidence index = bare_evidence index "analysis_deferred"
choose_evidence true true evidence index = evidence_or (get index evidence) index

unfoldable pub plan_constant : Result String → String → ℕ → RecoveryRecord → Planning → Planning
unfolding mark_fresh store set_unavailable
plan_constant (raised e) confidence index r p = record p {
  state = store index (set_unavailable true "unsupported_value_width" r) p.state;
}
plan_constant (ok value) confidence index r p = record p {
  state = mark_fresh index value confidence r p.state;
}

unfoldable pub plan_unavailable : Bool → String → ℕ → RecoveryRecord → Planning → Planning
unfolding store set_unavailable
plan_unavailable preserve_stale reason index r p = record p {
  state = store index (set_unavailable preserve_stale reason r) p.state;
}

unfoldable pub plan_read : String → String → ℕ → RecoveryRecord → Planning → Planning
unfolding store set_waiting add_register
plan_read register reason index r p = record {
  state = store index (set_waiting reason r) p.state;
  needed_registers = add_register register p.needed_registers;
  runtime_indexes = p.runtime_indexes ++ (index ∷ []);
}

unfoldable pub plan_register : RegisterSpec → VariableRecord → RecoveryRecord → Planning → Planning
unfolding plan_unavailable plan_read
plan_register register variable r p =
    if not (supported variable.size) || ltb register.width variable.size
    then plan_unavailable true "unsupported_value_width" variable.lvar_index r p
    else plan_read register.full_register ("waiting for register " <+> register.full_register)
        variable.lvar_index r p

unfoldable pub plan_stack : VariableRecord → RecoveryRecord → Planning → Planning
unfolding plan_unavailable plan_read
plan_stack variable r p =
    if not (supported variable.size)
    then plan_unavailable true "unsupported_value_width" variable.lvar_index r p
    else plan_read "rsp" "waiting for rsp to resolve exact stack location" variable.lvar_index r p

-- The tests on the kind of the evidence, in the order of the source. A kind without its datum falls
-- through to the last branch.
pub data Source : Type 0 where
  constant : ℤ → Source
  register : RegisterSpec → Source
  stack : ℤ → Source
  unknown : Source

abbrev pub source_or {ℓ} : {A : Type ℓ} → Bool → (A → Source) → Option A → Source → Source
source_or is_kind f none next = next
source_or is_kind f (some a) next = if is_kind then f a else next

unfoldable source_of : RecoveryEvidence → Source
source_of e = source_or (str_eq e.storage_kind "constant") constant e.constant_value (
    source_or (str_eq e.storage_kind "register") register e.register
      (source_or (str_eq e.storage_kind "stack") stack e.stack_pointer_offset unknown))

unfoldable pub plan_source :
    Source → RecoveryEvidence → VariableRecord → RecoveryRecord → Planning → Planning
unfolding plan_constant plan_register plan_stack plan_unavailable format_constant
plan_source (constant value) e variable r p =
    plan_constant (format_constant value variable.size) e.confidence variable.lvar_index r p
plan_source (register spec) e variable r p = plan_register spec variable r p
plan_source (stack offset) e variable r p = plan_stack variable r p
plan_source unknown e variable r p = plan_unavailable true e.reason variable.lvar_index r p

-- One round of `for variable in local_variables`.
unfoldable pub plan_variable :
    Bool → (ℕ → Bool) → ℤ → String → ℤ → VariableRecord → Planning → Planning
unfolding choose_evidence new_record plan_source plan_unavailable source_of
plan_variable analysis_ok selected pc_seq runtime_pc current_ea variable p =
    let e =
      choose_evidence analysis_ok (selected variable.lvar_index) p.state.evidence
        variable.lvar_index in
    let r = new_record variable e pc_seq runtime_pc current_ea p.state in
    if analysis_ok
    then plan_source (source_of e) e variable r p
    else plan_unavailable false "microcode_unavailable" variable.lvar_index r p

unfoldable pub plan_variables :
    Bool → (ℕ → Bool) → ℤ → String → ℤ → List VariableRecord → Planning → Planning
unfolding plan_variable
plan_variables analysis_ok selected pc_seq runtime_pc current_ea [] p = p
plan_variables analysis_ok selected pc_seq runtime_pc current_ea (variable ∷ variables) p =
    plan_variables analysis_ok selected pc_seq runtime_pc current_ea variables
      (plan_variable analysis_ok selected pc_seq runtime_pc current_ea variable p)

abbrev pub in_selection : Option (List ℕ) → List VariableRecord → ℕ → Bool
in_selection none variables index = any_of (λ variable. variable.lvar_index == index) variables
in_selection (some indexes) variables index = any_of (λ i. i == index) indexes

-- The register request, if a register is needed.
unfoldable pub request_registers : ℤ → String → Planning → Recovery × Option Message
unfolding sort_registers decimal_int items_of
request_registers pc_seq runtime_pc p = elim (sort_registers p.needed_registers) [
  | [] ↦ (p.state, none)
  | r ∷ rs ↦
      let request_id = "v-reg-" <+> decimal_int pc_seq <+> "-runtime" in
      let pending : PendingRequest = record {
        kind = reg;
        pc_seq = pc_seq;
        request_id = request_id;
        runtime_pc = runtime_pc;
        lvar_indexes = p.runtime_indexes;
        registers = r ∷ rs;
        address = "";
        size = 0;
      } in
      (
        record p.state { pending = put request_id pending p.state.pending },
        some (record {
          message_type = "reg_request";
          payload = field "pc_seq" (num pc_seq) (
              field "request_id" (str request_id) (
                field "runtime_pc" (str runtime_pc) (
                  field "registers" (arr (items_of (r ∷ rs)))
                    (field "reason" (str "v_variable_recovery") end))));
        }),
      )
]

-- The rounds of the loop and the request after it.
unfoldable pub begin_with :
    RecoveryAnalysis
    → (ℕ → Bool)
    → List VariableRecord
    → ℤ
    → String
    → ℤ
    → Recovery
    → Recovery × Option Message
unfolding plan_variables request_registers
begin_with analysis selected local current_pc_seq runtime_pc current_ea started =
    request_registers current_pc_seq runtime_pc (
      plan_variables analysis.ok selected current_pc_seq runtime_pc current_ea local (record {
        state = record started { evidence = analysis.evidence_by_index };
        needed_registers = [];
        runtime_indexes = [];
      }))

abbrev pub analysis_or_failure : Option RecoveryAnalysis → RecoveryAnalysis
analysis_or_failure none = record { ok = false; evidence_by_index = [] }
analysis_or_failure (some analysis) = analysis

abbrev pub local_variables : List VariableRecord → List VariableRecord
local_variables = keep (λ variable. not variable.is_arg)

-- `provider` is `self._analysis_provider`: what the analysis says of a function, a current address
-- and variables, and none where it raises.
unfoldable pub begin_pc :
    (ℕ → ℤ → List VariableRecord → Option RecoveryAnalysis)
    → List VariableRecord
    → ℕ
    → ℤ
    → String
    → ℤ
    → Option (List ℕ)
    → Recovery
    → Recovery × Option Message
unfolding start_context begin_with
begin_pc provider variables function_ea current_ea runtime_pc pc_seq indexes s =
    let local = local_variables variables in
    let selected = in_selection indexes local in
    begin_with
      (analysis_or_failure
        (provider function_ea current_ea (keep (λ variable. selected variable.lvar_index) local)))
      selected local pc_seq runtime_pc current_ea
      (record (start_context function_ea current_ea runtime_pc pc_seq s) {
        source_variables = local;
      })
