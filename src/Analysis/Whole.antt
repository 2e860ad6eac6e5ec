-- ===== src/Analysis/Whole.antt =====
-- ida_plugin/v_variable_recovery.py: `analyze_v_variable_candidates`, without its debug lines.
pub mod Sound
use dynvar_sync.Base.{
  ℕ, zero, suc, ◌==◌, ℤ, pos, negsuc, Bool, true, false, ◌&&◌, ◌||◌, not, List, [], ◌∷◌, get_elem?,
  Option, none, some, ◌>>=◌, String, str_eq, Dict, put, nat_eq, option_beq, if◌then◌else◌,
}
use dynvar_sync.Recovery.{VariableRecord, RecoveryEvidence, RecoveryAnalysis}
use dynvar_sync.Analysis.Claims.{Claims, no_evidence, reject_duplicate_storage_claims}
use dynvar_sync.Analysis.Microcode.{Microcode, MicroBlocks, MicroBlockData, collect_micro_blocks}
use dynvar_sync.Analysis.Points.{Match, find_exact_microcode_point}
use dynvar_sync.Analysis.Native.{NativeInsn}
use dynvar_sync.Analysis.Graph.{FlowBlock, build_native_cfg_facts, native_block_bounds}
use dynvar_sync.Analysis.Variables.{Lvar, Frame, unavailable_location_evidence}
use dynvar_sync.Analysis.Candidate.{
  CtreeFact, Place, Candidate, proved, rejected, failed, analyze_one_lvar,
}

-- What IDA and Hex-Rays give for a current address: whether the modules and the names that are needed
-- are there, the start of the function, whether it is x64, the microcode at MMAT_LVARS with its
-- variables, and the rest. `none` is an exception or a missing object.
pub record Ida : Type 0 where
  pub has_apis : Bool
  pub func_start : Option ℕ
  pub is_x64 : Bool
  pub mba : Option Microcode
  pub lvars : List Lvar
  pub decode : ℕ → Option NativeInsn
  pub flowchart : Option (List FlowBlock)
  pub ctree_facts : List CtreeFact
  pub badaddr : ℕ
  pub frame : Frame

abbrev pub all_unavailable : String → List VariableRecord → Claims → Claims
unfolding put
all_unavailable reason [] claims = claims
all_unavailable reason (variable ∷ variables) claims =
    all_unavailable reason variables
      (put variable.lvar_index (no_evidence variable.lvar_index reason) claims)

abbrev pub display_name : String → String
display_name name = if str_eq name "<unnamed>" then "" else name

-- The evidence of a candidate, where the variable of Hex-Rays was found.
abbrev pub evidence_of : Lvar → ℕ → ℕ → Candidate → RecoveryEvidence
unfolding unavailable_location_evidence
evidence_of lvar index size (proved evidence) = evidence
evidence_of lvar index size (rejected reason) =
    unavailable_location_evidence (some lvar) index size reason
evidence_of lvar index size failed = no_evidence index "microcode_unavailable"

-- One round of `for variable in variables`.
unfoldable pub candidate_evidence : Place → VariableRecord → Option Lvar → RecoveryEvidence
unfolding evidence_of analyze_one_lvar unavailable_location_evidence
candidate_evidence place variable none =
    unavailable_location_evidence none variable.lvar_index variable.size "no_reaching_definition"
candidate_evidence place variable (some lvar) = evidence_of lvar variable.lvar_index variable.size (
    if not (str_eq lvar.lvar_name (display_name variable.name))
    then rejected "microcode_unavailable"
    else if not (lvar.lvar_width == variable.size)
    then rejected "unsupported_value_width"
    else analyze_one_lvar place lvar variable.lvar_index variable.size)

unfoldable pub evidence_each : Place → List Lvar → List VariableRecord → Claims → Claims
unfolding candidate_evidence put
evidence_each place lvars [] claims = claims
evidence_each place lvars (variable ∷ variables) claims = evidence_each place lvars variables (
    put variable.lvar_index
      (candidate_evidence place variable (get_elem? lvars variable.lvar_index)) claims)

-- The function and the current address are such that there can be an analysis.
unfoldable pub is_supported : Ida → ℕ → ℕ → Bool
is_supported ida function_ea current_ea =
    option_beq nat_eq ida.func_start (some function_ea)
    && ida.is_x64
    && elim (ida.decode current_ea) [ none ↦ false | some insn ↦ true ]

unfoldable pub micro_blocks_of : Ida → Option MicroBlocks
unfolding collect_micro_blocks
micro_blocks_of ida = ida.mba >>= collect_micro_blocks

-- The place, with the point of the microcode that was found.
abbrev pub place_at : Ida → ℕ → MicroBlocks → Match → Place
unfolding native_block_bounds build_native_cfg_facts
place_at ida current_ea micro_blocks (block, boundary) = record {
  micro_blocks = micro_blocks;
  block_id = block.block_id;
  boundary = boundary;
  current_ea = current_ea;
  native_bounds = native_block_bounds ida.flowchart current_ea;
  native_cfg = build_native_cfg_facts ida.decode ida.badaddr ida.flowchart;
  ctree_facts = ida.ctree_facts;
  badaddr = ida.badaddr;
  decode = ida.decode;
  frame = ida.frame;
}

-- The loop over the variables, and the end of the analysis.
unfoldable pub analyze_at : Ida → Place → List VariableRecord → RecoveryAnalysis
unfolding evidence_each reject_duplicate_storage_claims
analyze_at ida place variables = record {
  ok = true;
  evidence_by_index = reject_duplicate_storage_claims (evidence_each place ida.lvars variables []);
}

abbrev pub not_analyzed : Bool → String → List VariableRecord → RecoveryAnalysis
not_analyzed ok reason variables = record {
  ok = ok;
  evidence_by_index = all_unavailable reason variables [];
}

unfoldable pub analyze_point :
    Ida → ℕ → List VariableRecord → MicroBlocks → Option Match → RecoveryAnalysis
unfolding place_at analyze_at
analyze_point ida current_ea variables micro_blocks none =
    not_analyzed true "unresolved_native_program_point" variables
analyze_point ida current_ea variables micro_blocks (some found) =
    analyze_at ida (place_at ida current_ea micro_blocks found) variables

unfoldable pub analyze_blocks :
    Ida → ℕ → List VariableRecord → Option MicroBlocks → RecoveryAnalysis
unfolding analyze_point find_exact_microcode_point
analyze_blocks ida current_ea variables none = not_analyzed false "microcode_unavailable" variables
analyze_blocks ida current_ea variables (some micro_blocks) =
    analyze_point ida current_ea variables micro_blocks
      (find_exact_microcode_point current_ea micro_blocks)

-- analyze_v_variable_candidates
unfoldable pub analyze_v_variable_candidates : Ida → ℕ → ℕ → List VariableRecord → RecoveryAnalysis
unfolding is_supported micro_blocks_of analyze_blocks
analyze_v_variable_candidates ida function_ea current_ea variables =
    if not ida.has_apis || not (is_supported ida function_ea current_ea)
    then not_analyzed false "microcode_unavailable" variables
    else analyze_blocks ida current_ea variables (micro_blocks_of ida)
