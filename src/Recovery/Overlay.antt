-- ===== src/Recovery/Overlay.antt =====
-- `VVariableRecovery.overlay_rows`: the recovery state on the rows of the variables view.
use dynvar_sync.Base.{ℕ, pos, List, [], ◌∷◌, Option, none, some, String, get, nat_eq, if◌then◌else◌}
use dynvar_sync.Numbers.{format_hex}
use dynvar_sync.Recovery.{VariableRecord, RecoveryRecord, Recovery}

abbrev source_text : Option ℕ → String
source_text none = ""
source_text (some ea) = format_hex (pos ea)

-- replace(row, ...)
unfoldable pub overlay_row : VariableRecord → RecoveryRecord → VariableRecord
unfolding format_hex
overlay_row row r = record row {
  value = r.value;
  status = r.recovery_status;
  confidence = r.confidence;
  reason = r.reason;
  last_pc = r.last_update_pc;
  current_pc = r.current_runtime_pc;
  current_ea = format_hex r.current_ea;
  source_ea = source_text r.source_ea;
  storage_kind = r.candidate_storage_kind;
  storage = r.storage;
  current_pc_seq = some r.current_pc_seq;
  last_success_value = r.last_successful_value;
  last_success_pc_seq = r.last_successful_pc_seq;
}

abbrev overlay_found : Option RecoveryRecord → VariableRecord → VariableRecord
overlay_found none row = row
overlay_found (some r) row = overlay_row row r

unfoldable pub overlay_rows : List VariableRecord → Recovery → List VariableRecord
unfolding overlay_row
overlay_rows [] s = []
overlay_rows (row ∷ rows) s =
    (if row.is_arg then row else overlay_found (get row.lvar_index s.records) row)
    ∷ overlay_rows rows s
