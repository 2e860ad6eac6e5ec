-- ===== src/Core/Examples.antt =====
-- An argument away from the entry of its function and one on the stack at the entry, and the theorems
-- about them.
use dynvar_sync.Base.{pos, true, false, [], ◌∷◌, none, some, ◌≡◌, refl, String}
use dynvar_sync.Value.{Value, Fields, end, field, num, str, bool, obj}
use dynvar_sync.Recovery.{VariableRecord}
use dynvar_sync.Core.{PcContext, DayVarCore, new_core}
use dynvar_sync.Core.Plan.{build_entry_plan}
use dynvar_sync.Core.Responses.{apply_reg_response}
use dynvar_sync.Core.Ids.{IsNumbered, apply_reg_response-IsNumbered}
use dynvar_sync.Core.Away.{AreOld, away-IsOld}

-- The fifth argument.
abbrev argument : VariableRecord
argument = record {
  lvar_index = 4;
  name = "a5";
  hexrays_kind = "arg";
  type_string = "int";
  size = 4;
  is_arg = true;
  arg_index = some 4;
  location = "";
  function_ea = "0x1000";
  function_start_ea = 4096;
  value = "";
  status = "unavailable";
  confidence = "unknown";
  reason = "not evaluated";
  last_pc = "";
  current_pc = "";
  printed_location = "";
  current_ea = "";
  source_ea = "";
  storage_kind = "";
  storage = "";
  current_pc_seq = none;
  last_success_value = "";
  last_success_pc_seq = none;
  lvar_defea = "";
}

abbrev at_entry : PcContext
at_entry = record {
  pc_seq = pos 3;
  runtime_pc = "0x7000";
  ida_ea = "0x1000";
  function_ea = "0x1000";
  at_function_entry = true;
}

abbrev later : PcContext
later = record {
  pc_seq = pos 4;
  runtime_pc = "0x7008";
  ida_ea = "0x1008";
  function_ea = "0x1000";
  at_function_entry = false;
}

abbrev entered : DayVarCore
entered = (build_entry_plan (argument ∷ []) at_entry new_core).1

abbrev payload : Fields
payload = field "pc_seq" (num (pos 3)) (
    field "request_id" (str "reg-3-entry")
      (field "ok" (bool true) (field "registers" (obj (field "rsp" (str "0x100") end)) end)))

abbrev no_repr : Value → String
no_repr v = ""

apply_reg_response-IsNumbered_example :
    IsNumbered entered.next_message_id
      (apply_reg_response no_repr payload entered).0
      (apply_reg_response no_repr payload entered).1.next_message_id
apply_reg_response-IsNumbered_example = apply_reg_response-IsNumbered no_repr payload entered

away-IsOld_example :
    ((build_entry_plan (argument ∷ []) later entered).0 ≡ none)
    × ((build_entry_plan (argument ∷ []) later entered).1.pending_requests ≡ [])
    × AreOld entered.rows (argument ∷ []) (build_entry_plan (argument ∷ []) later entered).1.rows
away-IsOld_example = away-IsOld (argument ∷ []) later entered refl
