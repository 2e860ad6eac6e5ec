-- ===== src/Core/Plan.antt =====
-- `DayVarCore.build_entry_plan`.
use dynvar_sync.Base.{
  ℕ, Bool, true, false, ◌&&◌, List, [], ◌∷◌, ◌++◌, Option, none, some, if◌then◌else◌, String, ◌<+>◌,
  ℤ, pos, str_eq, put, string_eq, get_elem?,
}
use dynvar_sync.Value.{Value, num, str, arr, end, field, nonempty, member}
use dynvar_sync.Numbers.{decimal_int, format_hex}
use dynvar_sync.Recovery.{VariableRecord, reg}
use dynvar_sync.Recovery.Records.{or_text}
use dynvar_sync.Recovery.Begin.{items_of}
use dynvar_sync.Core.{
  PcContext, PendingRequest, DayVarCore, envelope, start_pc_context, stack_arg_offset,
}

abbrev pub entry_registers : List String
entry_registers = "rcx" ∷ "rdx" ∷ "r8" ∷ "r9" ∷ []

-- previous_rows.get((function_ea, name)): of rows with one key, the last is kept.
unfoldable pub previous_row : String → String → List VariableRecord → Option VariableRecord
previous_row function_ea name [] = none
previous_row function_ea name (row ∷ rows) = elim (previous_row function_ea name rows) [
  | some later ↦ some later
  | none ↦ if str_eq row.function_ea function_ea && str_eq row.name name then some row else none
]

-- The rows that are planned and the registers that they need.
pub record Planned : Type 0 where
  pub rows : List VariableRecord
  pub needed_registers : List String
  pub reg_variables : List String
  pub needs_rsp : Bool

abbrev add_row : VariableRecord → Planned → Planned
add_row row p = record p { rows = p.rows ++ (row ∷ []) }

-- A row that is no argument.
unfoldable pub unsupported_row : VariableRecord → VariableRecord
unfolding or_text
unsupported_row row = record row {
  status = "unavailable";
  confidence = "unsupported_variable";
  location = or_text row.location "unsupported";
  reason = "variable does not have a reliable runtime location in v1";
}

abbrev inexact_row : VariableRecord → VariableRecord
inexact_row row = record row {
  status = "unavailable";
  confidence = "unknown";
  reason = "argument mapping is exact only at function entry";
}

-- A row of an argument away from the entry, with the row that stood for it before.
unfoldable pub away_row : Option VariableRecord → VariableRecord → VariableRecord
unfolding nonempty or_text
away_row none row = inexact_row row
away_row (some prior) row =
    if nonempty prior.value
    then record row {
      value = prior.value;
      last_pc = or_text prior.last_pc prior.current_pc;
      status = "stale";
      confidence = "stale_entry_value";
      location = prior.location;
      reason = "entry argument value is stale; current PC is not function entry";
    }
    else inexact_row row

unfoldable need : String → List String → List String
need register needed = if member register needed then needed else needed ++ (register ∷ [])

-- A row of an argument at the entry.
unfoldable plan_entry : Option String → ℕ → VariableRecord → Planned → Planned
unfolding need stack_arg_offset format_hex
plan_entry (some register) arg_index row p = record {
  rows =
      p.rows
      ++ (record row {
        location = register;
        status = "unavailable";
        confidence = "unknown";
        reason = "waiting for " <+> register <+> " at function entry";
      }
          ∷ []);
  needed_registers = need register p.needed_registers;
  reg_variables = p.reg_variables ++ (row.name ∷ []);
  needs_rsp = p.needs_rsp;
}
plan_entry none arg_index row p = record p {
  rows =
      p.rows
      ++ (record row {
        location = "[rsp + " <+> format_hex (pos (stack_arg_offset arg_index)) <+> "]";
        status = "unavailable";
        confidence = "unknown";
        reason = "waiting for rsp to request stack argument";
      }
          ∷ []);
  needs_rsp = true;
}

-- `not row.is_arg or row.arg_index is None`
abbrev pub argument_index : VariableRecord → Option ℕ
argument_index row = if row.is_arg then row.arg_index else none

unfoldable pub plan_row : Option ℕ → Bool → List VariableRecord → VariableRecord → Planned → Planned
unfolding unsupported_row away_row previous_row plan_entry
plan_row none at_function_entry before row p = add_row (unsupported_row row) p
plan_row (some arg_index) true before row p =
    plan_entry (get_elem? entry_registers arg_index) arg_index row p
plan_row (some arg_index) false before row p =
    add_row (away_row (previous_row row.function_ea row.name before) row) p

unfoldable pub plan_rows :
    Bool → String → List VariableRecord → List VariableRecord → Planned → Planned
unfolding plan_row
plan_rows at_function_entry runtime_pc before [] p = p
plan_rows at_function_entry runtime_pc before (variable ∷ variables) p =
    plan_rows at_function_entry runtime_pc before variables (
      plan_row (argument_index variable) at_function_entry before
        (record variable { current_pc = runtime_pc }) p)

abbrev all_needed : Planned → List String
unfolding need
all_needed p = if p.needs_rsp then need "rsp" p.needed_registers else p.needed_registers

-- The register request, if there is a register to read.
unfoldable pub request_entry :
    ℤ → String → List String → List String → DayVarCore → Option Value × DayVarCore
unfolding envelope decimal_int items_of
request_entry pc_seq runtime_pc [] names core = (none, core)
request_entry pc_seq runtime_pc (r ∷ rs) names core =
    let request_id = "reg-" <+> decimal_int pc_seq <+> "-entry" in
    let pending : PendingRequest = record {
      kind = reg;
      pc_seq = pc_seq;
      request_id = request_id;
      runtime_pc = runtime_pc;
      variable_names = names;
      registers = r ∷ rs;
      address = "";
      size = 0;
    } in
    let sent =
      envelope "reg_request"
        (field "pc_seq" (num pc_seq) (
          field "request_id" (str request_id) (
            field "runtime_pc" (str runtime_pc) (
              field "registers" (arr (items_of (r ∷ rs)))
                (field "reason" (str "auto_live_refresh") end)))))
        (record core { pending_requests = put request_id pending core.pending_requests }) in
    (some sent.0, sent.1)

unfoldable pub build_entry_plan :
    List VariableRecord → PcContext → DayVarCore → Option Value × DayVarCore
unfolding start_pc_context plan_rows request_entry
build_entry_plan variables context core =
    let p =
      plan_rows context.at_function_entry context.runtime_pc core.rows variables
        (record { rows = []; needed_registers = []; reg_variables = []; needs_rsp = false }) in
    request_entry context.pc_seq context.runtime_pc (all_needed p) p.reg_variables
      (record (start_pc_context context core) { rows = p.rows })
