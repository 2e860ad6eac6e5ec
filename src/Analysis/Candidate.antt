-- ===== src/Analysis/Candidate.antt =====
-- ida_plugin/v_variable_recovery.py: `_analyze_one_lvar`, without its debug lines.
pub mod Grounds
pub mod Proved
use dynvar_sync.Base.{
  ℕ, zero, suc, ◌==◌, leb, ltb, ℤ, pos, negsuc, Bool, true, false, ◌&&◌, ◌||◌, not, List, [], ◌∷◌,
  any_of, get_elem?, Option, none, some, is_some, String, str_eq, ◌<+>◌, Dict, get, nat_eq,
  option_beq, if◌then◌else◌,
}
use dynvar_sync.Registers.{RegisterSpec, Result, ok, raised, format_constant}
use dynvar_sync.Recovery.{RecoveryEvidence}
use dynvar_sync.Cfg.Facts.{
  Blocks, DefinitionSite, Reason, not_live_at_current_pc, ambiguous_register_location,
  unsupported_scattered_location, unresolved_stack_location, no_reaching_definition,
  microcode_unavailable, unsupported_value_width, ambiguous_reaching_definition,
  cross_block_liveness_unproven, storage_clobbered_before_current_pc,
  unresolved_native_program_point, analysis_deferred,
}
use dynvar_sync.Cfg.Reaching.{find_reaching_definitions, reaching_definition_rejection_reason}
use dynvar_sync.Cfg.Future.{find_future_uses, future_use_rejection_reason}
use dynvar_sync.Cfg.Storage.{NativeBlocks, StorageValidation, validate_register_storage_cfg}
use dynvar_sync.Analysis.Claims.{no_evidence}
use dynvar_sync.Analysis.Microcode.{Entry, MicroBlockData, MicroBlocks}
use dynvar_sync.Analysis.Points.{candidate_cfg_facts, direct_constant_definition, mask_value}
use dynvar_sync.Analysis.Native.{
  NativeInsn, native_definition_uses_immediate, stack_definition_remains_valid,
}
use dynvar_sync.Analysis.Variables.{
  Lvar, Frame, register_spec_from_lvar, current_rsp_location_for_lvar, signed_hex,
}

-- _CtreeFact
pub record CtreeFact : Type 0 where
  pub lvar_index : ℕ
  pub kind : String
  pub ea : Option ℕ
  pub constant_value : Option ℤ

-- The arguments that are the same for all variables.
pub record Place : Type 0 where
  pub micro_blocks : MicroBlocks
  pub block_id : ℕ
  pub boundary : ℕ
  pub current_ea : ℕ
  pub native_bounds : Option (ℕ × ℕ)
  pub native_cfg : Option NativeBlocks
  pub ctree_facts : List CtreeFact
  pub badaddr : ℕ
  pub decode : ℕ → Option NativeInsn
  pub frame : Frame

-- Evidence, the reason of a _CandidateRejected, or another exception.
pub data Candidate : Type 0 where
  proved : RecoveryEvidence → Candidate
  rejected : String → Candidate
  failed : Candidate

-- The texts of the REASON_… constants.
abbrev pub reason_text : Reason → String
reason_text not_live_at_current_pc = "not_live_at_current_pc"
reason_text ambiguous_register_location = "ambiguous_register_location"
reason_text unsupported_scattered_location = "unsupported_scattered_location"
reason_text unresolved_stack_location = "unresolved_stack_location"
reason_text no_reaching_definition = "no_reaching_definition"
reason_text microcode_unavailable = "microcode_unavailable"
reason_text unsupported_value_width = "unsupported_value_width"
reason_text ambiguous_reaching_definition = "ambiguous_reaching_definition"
reason_text cross_block_liveness_unproven = "cross_block_liveness_unproven"
reason_text storage_clobbered_before_current_pc = "storage_clobbered_before_current_pc"
reason_text unresolved_native_program_point = "unresolved_native_program_point"
reason_text analysis_deferred = "analysis_deferred"

abbrev pub reject : Reason → Candidate
reject reason = rejected (reason_text reason)

abbrev pub supported_width : ℕ → Bool
supported_width width = (width == 1) || (width == 2) || (width == 4) || (width == 8)

module _ (place : Place) (lvar : Lvar) (index width : ℕ) where
  abbrev pub evidence : String → String → ℕ → String → String → RecoveryEvidence
  evidence storage_kind storage source_ea confidence reason = record (no_evidence index reason) {
    storage_kind = storage_kind;
    storage = storage;
    source_ea = some source_ea;
    confidence = confidence;
    width = width;
  }

  -- The ctree gives the variable another number at the same address.
  abbrev pub contradicts : ℕ → ℤ → CtreeFact → Bool
  unfolding mask_value
  contradicts definition_ea constant fact =
      (fact.lvar_index == index)
      && str_eq fact.kind "constant_def"
      && option_beq nat_eq fact.ea (some definition_ea)
      && elim fact.constant_value [
        | none ↦ false
        | some value ↦ not (mask_value value width == mask_value constant width)
      ]

  abbrev pub constant_evidence : ℕ → ℤ → Result String → Candidate
  constant_evidence definition_ea constant (raised e) = failed
  constant_evidence definition_ea constant (ok text) =
      proved
        (record (evidence "constant" ("constant:" <+> text) definition_ea "exact_constant"
          "unique CFG reaching definition proves an exact live constant") {
            constant_value = some constant;
          })

  unfoldable pub by_constant : ℕ → ℤ → Candidate
  unfolding contradicts format_constant
  by_constant definition_ea constant =
      if any_of (contradicts definition_ea constant) place.ctree_facts
      then reject no_reaching_definition
      else constant_evidence definition_ea constant (format_constant constant width)

  unfoldable pub by_register : ℕ → RegisterSpec → Option NativeBlocks → Candidate
  unfolding validate_register_storage_cfg
  by_register definition_ea register none = reject unresolved_native_program_point
  by_register definition_ea register (some native_cfg) =
      let validation =
        validate_register_storage_cfg native_cfg definition_ea place.current_ea register width in
      if not validation.valid
      then rejected validation.reason
      else proved
          (record (evidence "register" register.alias definition_ea "exact_register_location"
            "unique CFG reaching definition and storage proof establish register liveness") {
              register = some register;
            })

  abbrev pub in_bounds : ℕ → Option (ℕ × ℕ) → Bool
  in_bounds ea none = false
  in_bounds ea (some (low, high)) = leb low ea && ltb ea high

  abbrev pub stack_evidence : ℕ → Option (ℤ × ℤ) → Candidate
  unfolding stack_definition_remains_valid signed_hex
  stack_evidence definition_ea none = reject unresolved_stack_location
  stack_evidence definition_ea (some (rsp_offset, ida_offset)) =
      if not (
        stack_definition_remains_valid place.badaddr place.decode place.current_ea ida_offset width
          definition_ea)
      then reject unresolved_stack_location
      else proved
          (record (evidence "stack" ("stack:rsp" <+> signed_hex rsp_offset) definition_ea
            "exact_stack_location"
            "unique reaching definition and future use prove exact stack slot") {
              stack_pointer_offset = some rsp_offset;
            })

  unfoldable pub by_stack : DefinitionSite → ℕ → Candidate
  unfolding stack_evidence current_rsp_location_for_lvar
  by_stack site definition_ea =
      if not (site.block_id == place.block_id)
        || not (in_bounds definition_ea place.native_bounds)
        || lvar.is_aliasable
      then reject unresolved_stack_location
      else stack_evidence definition_ea (current_rsp_location_for_lvar lvar place.frame)

  -- `constant is not None and (register is None or …)`
  abbrev pub prefer_constant : Option RegisterSpec → NativeInsn → Bool
  unfolding native_definition_uses_immediate
  prefer_constant register native =
      not (is_some register) || native_definition_uses_immediate native

  -- A variable without a preferred number.
  unfoldable pub by_storage : DefinitionSite → ℕ → Option RegisterSpec → Candidate
  unfolding by_register by_stack
  by_storage site definition_ea (some register) =
      by_register definition_ea register place.native_cfg
  by_storage site definition_ea none =
      if lvar.is_reg_var
      then reject ambiguous_register_location
      else if lvar.is_stk_var
      then by_stack site definition_ea
      else reject no_reaching_definition

  unfoldable pub by_value :
      DefinitionSite → ℕ → NativeInsn → Option RegisterSpec → Option ℤ → Candidate
  unfolding by_constant by_storage prefer_constant
  by_value site definition_ea native register none = by_storage site definition_ea register
  by_value site definition_ea native register (some constant) =
      if prefer_constant register native
      then by_constant definition_ea constant
      else by_storage site definition_ea register

  -- The variable is live.
  unfoldable pub if_live : DefinitionSite → ℕ → NativeInsn → Entry → Option Reason → Candidate
  unfolding by_value register_spec_from_lvar direct_constant_definition
  if_live site definition_ea native entry (some reason) = reject reason
  if_live site definition_ea native entry none =
      by_value site definition_ea native (register_spec_from_lvar lvar width)
        (direct_constant_definition entry.insn index width)

  abbrev pub cfg_facts : Blocks
  unfolding candidate_cfg_facts
  cfg_facts = candidate_cfg_facts lvar.has_common index width place.micro_blocks

  abbrev pub entry_at : Option MicroBlockData → ℕ → Option Entry
  entry_at none position = none
  entry_at (some block) position = get_elem? block.entries position

  unfoldable pub if_decoded : DefinitionSite → ℕ → Entry → Option NativeInsn → Candidate
  unfolding if_live cfg_facts find_future_uses future_use_rejection_reason
  if_decoded site definition_ea entry none = reject unresolved_native_program_point
  if_decoded site definition_ea entry (some native) =
      if_live site definition_ea native entry (
        future_use_rejection_reason (find_future_uses cfg_facts place.block_id place.boundary none))

  unfoldable pub if_placed : DefinitionSite → Option Entry → Option ℕ → Candidate
  unfolding if_decoded
  if_placed site none ea = reject no_reaching_definition
  if_placed site (some entry) none = reject no_reaching_definition
  if_placed site (some entry) (some definition_ea) =
      if_decoded site definition_ea entry (place.decode definition_ea)

  -- The one reaching definition; an accepted result has one.
  unfoldable pub if_defined : List DefinitionSite → Option Reason → Candidate
  unfolding if_placed get
  if_defined sites (some reason) = reject reason
  if_defined [] none = failed
  if_defined (site ∷ sites) none =
      if_placed site (entry_at (get site.block_id place.micro_blocks) site.instruction_index)
        site.ea

  -- _analyze_one_lvar
  unfoldable pub analyze_one_lvar : Candidate
  unfolding if_defined cfg_facts find_reaching_definitions reaching_definition_rejection_reason
  analyze_one_lvar =
      if not (supported_width width)
      then reject unsupported_value_width
      else if lvar.is_scattered || lvar.was_scattered_arg
      then reject unsupported_scattered_location
      else if lvar.is_shared || lvar.is_overlapped_var || lvar.is_used_byref
      then (if lvar.is_reg_var
          then reject ambiguous_register_location
          else reject unresolved_stack_location)
      else let reaching = find_reaching_definitions cfg_facts place.block_id place.boundary none in
        if_defined reaching.definitions (reaching_definition_rejection_reason reaching)
