-- ===== src/View/Samples.antt =====
-- Rows of variables to run the view and the selection on.
use dynvar_sync.Base.{ℕ, String, false, none}
use dynvar_sync.Recovery.{VariableRecord}

-- A row with an index, a name, a status and a confidence.
abbrev pub sample : ℕ → String → String → String → VariableRecord
sample index name status confidence = record {
  lvar_index = index;
  name = name;
  hexrays_kind = "local";
  type_string = "int";
  size = 4;
  is_arg = false;
  arg_index = none;
  location = "eax";
  function_ea = "0x1000";
  function_start_ea = 4096;
  value = "";
  status = status;
  confidence = confidence;
  reason = "not evaluated";
  last_pc = "";
  current_pc = "";
  printed_location = "eax";
  current_ea = "";
  source_ea = "";
  storage_kind = "";
  storage = "";
  current_pc_seq = none;
  last_success_value = "";
  last_success_pc_seq = none;
  lvar_defea = "";
}

abbrev pub fresh_row : VariableRecord
fresh_row = sample 0 "count" "fresh" "exact_constant"

abbrev pub stale_row : VariableRecord
stale_row = sample 1 "total" "stale" "stale_runtime_value"

abbrev pub idle_row : VariableRecord
idle_row = sample 2 "v3" "unavailable" "unknown"
