-- ===== src/Analysis/Candidate/Proved.antt =====
-- The evidence of `_analyze_one_lvar` of ida_plugin/v_variable_recovery.py rests on the searches.
use dynvar_sync.Base.{
  ℕ, ℤ, true, ◌||◌, not, List, [], ◌∷◌, any_of, Option, none, some, String, get, nat_eq, ◌≡◌, inl,
  inr, refl, sym, ◌∙◌, subst, arith, ==_iff, Bool-cases, ◌==◌,
}
use dynvar_sync.Registers.{RegisterSpec, Result, ok, raised, format_constant}
use dynvar_sync.Recovery.{RecoveryEvidence}
use dynvar_sync.Cfg.Facts.{DefinitionSite, Reason}
use dynvar_sync.Cfg.Backward.{last_stop}
use dynvar_sync.Cfg.Reaching as Reaching
use dynvar_sync.Cfg.Reaching.{find_reaching_definitions, reaching_definition_rejection_reason}
use dynvar_sync.Cfg.Reaching.Sound as ReachingSound
use dynvar_sync.Cfg.Reaching.Sound.{one_definition}
use dynvar_sync.Cfg.Storage.{NativeBlocks, validate_register_storage_cfg}
use dynvar_sync.Cfg.Storage.Sound.{storage_survives}
use dynvar_sync.Cfg.Future.{find_future_uses, future_use_rejection_reason}
use dynvar_sync.Analysis.Microcode.{Entry}
use dynvar_sync.Analysis.Points.{direct_constant_definition}
use dynvar_sync.Analysis.Native.{NativeInsn, stack_definition_remains_valid}
use dynvar_sync.Analysis.Native.Slot.{slot_survives}
use dynvar_sync.Analysis.Variables.{Lvar, register_spec_from_lvar, current_rsp_location_for_lvar}
use dynvar_sync.Analysis.Candidate.{
  supported_width, Place, proved, by_constant, by_register, by_stack, by_storage, by_value, if_live,
  if_decoded, if_placed, if_defined, cfg_facts, entry_at, analyze_one_lvar, stack_evidence,
  prefer_constant, constant_evidence, in_bounds, contradicts,
}
use dynvar_sync.Analysis.Candidate.Grounds.{
  number, register, slot, Judged, passed, passed_either, first_same, true_of, same_evidence, Sound,
}

module _ (place : Place) (lvar : Lvar) (index width : ℕ) where
  from_register :
      (d : DefinitionSite) (ea : ℕ) (spec : RegisterSpec) (cfg : Option NativeBlocks)
      (e : RecoveryEvidence)
      → register_spec_from_lvar lvar width ≡ some spec
      → place.native_cfg ≡ cfg
      → by_register place lvar index width ea spec cfg ≡ proved e
      → Judged place lvar index width d ea e
  unfolding by_register
  from_register d ea spec none e named at h = cc
  from_register d ea spec (some blocks) e named at h =
      let (good, made) =
        passed (not (validate_register_storage_cfg blocks ea place.current_ea spec width).valid) _ _
          e h in
      let same = same_evidence _ e made in
      let valid : (validate_register_storage_cfg blocks ea place.current_ea spec width).valid
          ≡ true =
        true_of good in
      subst (Judged place lvar index width d ea) same (
        (refl, refl, refl),
        register spec blocks named refl at
            (storage_survives blocks ea place.current_ea spec width valid),
      )

  from_text :
      (d : DefinitionSite) (ea : ℕ) (entry : Entry) (constant : ℤ) (e : RecoveryEvidence)
      (text : Result String)
      → entry_at place lvar index width (get d.block_id place.micro_blocks) d.instruction_index
        ≡ some entry
      → direct_constant_definition entry.insn index width ≡ some constant
      → constant_evidence place lvar index width ea constant text ≡ proved e
      → Judged place lvar index width d ea e
  from_text d ea entry constant e (raised why) at value h = cc
  from_text d ea entry constant e (ok text) at value h =
      subst (Judged place lvar index width d ea) (same_evidence _ e h)
        ((refl, refl, refl), number entry constant at value refl)

  from_constant :
      (d : DefinitionSite) (ea : ℕ) (entry : Entry) (constant : ℤ) (e : RecoveryEvidence)
      → entry_at place lvar index width (get d.block_id place.micro_blocks) d.instruction_index
        ≡ some entry
      → direct_constant_definition entry.insn index width ≡ some constant
      → by_constant place lvar index width ea constant ≡ proved e
      → Judged place lvar index width d ea e
  unfolding by_constant
  from_constant d ea entry constant e at value h =
      let (good, made) =
        passed (any_of (contradicts place lvar index width ea constant) place.ctree_facts) _ _ e
          h in
      from_text d ea entry constant e (format_constant constant width) at value made

  at_slot :
      (d : DefinitionSite) (ea : ℕ) (e : RecoveryEvidence)
      → d.block_id ≡ place.block_id
      → (location : Option (ℤ × ℤ)) → current_rsp_location_for_lvar lvar place.frame ≡ location
      → stack_evidence place lvar index width ea location ≡ proved e
      → Judged place lvar index width d ea e
  unfolding stack_evidence
  at_slot d ea e here none there h = cc
  at_slot d ea e here (some (rsp_offset, ida_offset)) there h =
      let (good, made) =
        passed
          (not (
            stack_definition_remains_valid place.badaddr place.decode place.current_ea ida_offset
              width ea))
          _ _ e h in
      subst (Judged place lvar index width d ea) (same_evidence _ e made) (
        (refl, refl, refl),
        slot rsp_offset ida_offset there refl here (
            slot_survives place.badaddr place.decode place.current_ea ida_offset width ea
              (true_of good)),
      )

  from_stack :
      (d : DefinitionSite) (ea : ℕ) (e : RecoveryEvidence)
      → by_stack place lvar index width d ea ≡ proved e
      → Judged place lvar index width d ea e
  unfolding by_stack
  from_stack d ea e h =
      let (good, made) =
        passed
          (not (d.block_id == place.block_id)
            || not (in_bounds place lvar index width ea place.native_bounds)
            || lvar.is_aliasable)
          _ _ e h in
      let here : d.block_id ≡ place.block_id = ground (arith, ==_iff d.block_id place.block_id) in
      at_slot d ea e here (current_rsp_location_for_lvar lvar place.frame) refl made

  from_storage :
      (d : DefinitionSite) (ea : ℕ) (spec : Option RegisterSpec) (e : RecoveryEvidence)
      → register_spec_from_lvar lvar width ≡ spec
      → by_storage place lvar index width d ea spec ≡ proved e
      → Judged place lvar index width d ea e
  unfolding by_storage
  from_storage d ea (some spec) e named h = from_register d ea spec place.native_cfg e named refl h
  from_storage d ea none e named h =
      let (free, next) = passed lvar.is_reg_var _ _ e h in
      elim (Bool-cases lvar.is_stk_var) [
        | inl stacked ↦ from_stack d ea e (rw stacked at next)
        | inr other ↦ cc (rw other at next)
      ]

  from_value :
      (d : DefinitionSite) (ea : ℕ) (native : NativeInsn) (entry : Entry) (constant : Option ℤ)
      (e : RecoveryEvidence)
      → entry_at place lvar index width (get d.block_id place.micro_blocks) d.instruction_index
        ≡ some entry
      → direct_constant_definition entry.insn index width ≡ constant
      → by_value place lvar index width d ea native (register_spec_from_lvar lvar width) constant
        ≡ proved e
      → Judged place lvar index width d ea e
  unfolding by_value
  from_value d ea native entry none e at value h =
      from_storage d ea (register_spec_from_lvar lvar width) e refl h
  from_value d ea native entry (some constant) e at value h =
      elim (Bool-cases
        (prefer_constant place lvar index width (register_spec_from_lvar lvar width) native)) [
          | inl preferred ↦ from_constant d ea entry constant e at value (rw preferred at h)
          | inr other ↦
              from_storage d ea (register_spec_from_lvar lvar width) e refl (rw other at h)
        ]

  from_live :
      (d : DefinitionSite) (ea : ℕ) (native : NativeInsn) (entry : Entry) (reason : Option Reason)
      (e : RecoveryEvidence)
      → entry_at place lvar index width (get d.block_id place.micro_blocks) d.instruction_index
        ≡ some entry
      → if_live place lvar index width d ea native entry reason ≡ proved e
      → Judged place lvar index width d ea e
  unfolding if_live
  from_live d ea native entry (some reason) e at h = cc
  from_live d ea native entry none e at h =
      from_value d ea native entry (direct_constant_definition entry.insn index width) e at refl h

  from_decoded :
      (d : DefinitionSite) (ea : ℕ) (entry : Entry) (native : Option NativeInsn)
      (e : RecoveryEvidence)
      → entry_at place lvar index width (get d.block_id place.micro_blocks) d.instruction_index
        ≡ some entry
      → if_decoded place lvar index width d ea entry native ≡ proved e
      → Judged place lvar index width d ea e
  unfolding if_decoded
  from_decoded d ea entry none e at h = cc
  from_decoded d ea entry (some native) e at h =
      from_live d ea native entry
        (future_use_rejection_reason
          (find_future_uses (cfg_facts place lvar index width) place.block_id place.boundary none))
        e at h

  from_placed :
      (d : DefinitionSite) (entry : Option Entry) (ea : Option ℕ) (e : RecoveryEvidence)
      → entry_at place lvar index width (get d.block_id place.micro_blocks) d.instruction_index
        ≡ entry
      → d.ea ≡ ea
      → if_placed place lvar index width d entry ea ≡ proved e
      → (a : ℕ) × (d.ea ≡ some a) × Judged place lvar index width d a e
  unfolding if_placed
  from_placed d none ea e at same h = cc
  from_placed d (some entry) none e at same h = cc
  from_placed d (some entry) (some ea) e at same h =
      (ea, same, from_decoded d ea entry (place.decode ea) e at h)

  from_defined :
      (sites : List DefinitionSite) (reason : Option Reason) (e : RecoveryEvidence)
      → if_defined place lvar index width sites reason ≡ proved e
      → (reason ≡ none)
        × ((d : DefinitionSite) × (rest : List DefinitionSite) × (sites ≡ d ∷ rest)
            × ((ea : ℕ) × (d.ea ≡ some ea) × Judged place lvar index width d ea e))
  unfolding if_defined
  from_defined sites (some reason) e h = cc
  from_defined [] none e h = cc
  from_defined (d ∷ rest) none e h = (
    refl,
    (
      d,
      rest,
      refl,
      from_placed d
          (entry_at place lvar index width (get d.block_id place.micro_blocks) d.instruction_index)
          d.ea e refl refl h,
    ),
  )

  -- The tests before the searches were passed.
  searched :
      (e : RecoveryEvidence)
      → analyze_one_lvar place lvar index width ≡ proved e
      → if_defined place lvar index width
          (find_reaching_definitions
            (cfg_facts place lvar index width)
            place.block_id
            place.boundary
            none).definitions
          (reaching_definition_rejection_reason (
            find_reaching_definitions
              (cfg_facts place lvar index width)
              place.block_id
              place.boundary
              none))
        ≡ proved e
  unfolding analyze_one_lvar
  searched e h =
      let (wide, h1) = passed (not (supported_width width)) _ _ e h in
      let (whole, h2) = passed (lvar.is_scattered || lvar.was_scattered_arg) _ _ e h1 in
      (passed_either (lvar.is_shared || lvar.is_overlapped_var || lvar.is_used_byref)
        lvar.is_reg_var _ _ _ e h2).1

-- If a variable gets evidence, then one instruction defines it as a whole and is the last to touch it
-- on every execution from an entry block to the current point of the microcode; the evidence is for
-- the address of that definition; and it is a number that the definition assigns, or a register that
-- holds the value on every native execution to the current address, or a slot of the stack that
-- the definition writes as a whole and the instructions that follow it without a jump up to the
-- current address do not write.
pub evidence-Sound :
    (place : Place) (lvar : Lvar) (index width : ℕ) (e : RecoveryEvidence)
    → analyze_one_lvar place lvar index width ≡ proved e
    → Sound place lvar index width e
evidence-Sound place lvar index width e h =
    let facts = cfg_facts place lvar index width in
    let (accepted, (d, rest, all, (ea, at, judged))) =
      from_defined place lvar index width _ _ e (searched place lvar index width e h) in
    let (site, one, last) = one_definition facts place.block_id place.boundary none accepted in
    let same : site ≡ d = first_same site d [] rest (sym one ∙ all) in
    (
      d,
      ea,
      at,
      judged.0,
      judged.1,
      λ run.
          subst
            (λ (x : DefinitionSite).
              (last_stop (Reaching.size facts) (Reaching.preds facts) (Reaching.stops facts) run
                ≡ some (x.block_id, x.instruction_index))
              × ReachingSound.Defines facts x)
            same (last run),
    )
