-- ===== src/Analysis/Candidate/Grounds.antt =====
-- What the evidence of `_analyze_one_lvar` of ida_plugin/v_variable_recovery.py can rest on.
use dynvar_sync.Base.{
  ℕ, ◌<◌, ℤ, Bool, true, false, not, List, [], ◌∷◌, some, String, get, In, nat_eq, ◌≡◌, refl,
  if◌then◌else◌,
}
use dynvar_sync.Registers.{RegisterSpec}
use dynvar_sync.Recovery.{RecoveryEvidence}
use dynvar_sync.Cfg.Facts.{DefinitionSite}
use dynvar_sync.Cfg.Walk.{Point}
use dynvar_sync.Cfg.Backward.{Run, last_stop}
use dynvar_sync.Cfg.Reaching as Reaching
use dynvar_sync.Cfg.Reaching.{find_reaching_definitions, reaching_definition_rejection_reason}
use dynvar_sync.Cfg.Reaching.Sound as ReachingSound
use dynvar_sync.Cfg.Reaching.Sound.{one_definition}
use dynvar_sync.Cfg.Storage as Storage
use dynvar_sync.Cfg.Storage.{NativeBlocks, matches, validate_register_storage_cfg}
use dynvar_sync.Cfg.Storage.Sound as StorageSound
use dynvar_sync.Cfg.Storage.Sound.{storage_survives}
use dynvar_sync.Analysis.Microcode.{Entry}
use dynvar_sync.Analysis.Points.{direct_constant_definition}
use dynvar_sync.Analysis.Native.Slot.{Stream, Writes, Fills, Misses}
use dynvar_sync.Analysis.Variables.{Lvar, register_spec_from_lvar, current_rsp_location_for_lvar}
use dynvar_sync.Analysis.Candidate.{Place, Candidate, proved, rejected, cfg_facts, entry_at}

-- A test that rejects was passed.
pub passed :
    (b : Bool) (why : String) (c : Candidate) (e : RecoveryEvidence)
    → (if b then rejected why else c) ≡ proved e
    → (b ≡ false) × (c ≡ proved e)
passed true why c e h = cc
passed false why c e h = (refl, h)

pub passed_either :
    (b b' : Bool) (why why' : String) (c : Candidate) (e : RecoveryEvidence)
    → (if b then (if b' then rejected why else rejected why') else c) ≡ proved e
    → (b ≡ false) × (c ≡ proved e)
passed_either true true why why' c e h = cc
passed_either true false why why' c e h = cc
passed_either false b' why why' c e h = (refl, h)

pub first_same : {A : Type 0} (x y : A) (xs ys : List A) → (x ∷ xs) ≡ (y ∷ ys) → x ≡ y
first_same x y xs ys h = cc

pub true_of : {b : Bool} → not b ≡ false → b ≡ true
true_of {b = true} h = refl
true_of {b = false} h = cc

pub same_evidence : (a b : RecoveryEvidence) → proved a ≡ proved b → a ≡ b
same_evidence a b h = cc

-- At the current address, which stands at one place of the native graph, every execution from an
-- entry block has the definition as the last instruction that could change the register, with a
-- write that gives it its whole value.
abbrev pub Held : NativeBlocks → ℕ → ℕ → RegisterSpec → ℕ → Type 0
Held blocks definition_ea current_ea register width =
    (c : Point) × (matches current_ea blocks ≡ c ∷ [])
    × ((run : Run (Storage.size blocks definition_ea register width)
          (Storage.preds blocks definition_ea register width)
          (Storage.stops blocks definition_ea register width) c)
        → (p : Point) × (last_stop (Storage.size blocks definition_ea register width)
              (Storage.preds blocks definition_ea register width)
              (Storage.stops blocks definition_ea register width) run
            ≡ some p)
          × StorageSound.Defines blocks definition_ea register width p)

module _ (place : Place) (lvar : Lvar) (index width : ℕ) where
  -- From the definition up to the current address, without a jump, the first instruction writes every
  -- byte of the slot and no other writes one.
  abbrev pub SlotHeld : ℕ → ℤ → Type 0
  SlotHeld definition_ea start =
      (definition_ea < place.current_ea)
      × ((writes : List (ℕ × ℕ)) × Writes place.badaddr place.decode place.current_ea start width
            definition_ea writes
          × ((write : ℕ × ℕ) × In write writes × Fills start width write))
      × ((b : ℕ)
          → Stream place.badaddr place.decode place.current_ea start width definition_ea b
          → definition_ea < b
          → b < place.current_ea
          → (writes : List (ℕ × ℕ)) × Writes place.badaddr place.decode place.current_ea start width
              b writes
            × ((write : ℕ × ℕ) → In write writes → Misses start width write))

  -- Where the evidence places the value: a number that the definition assigns, a register that is
  -- held, or a slot of the stack that is held.
  pub data Ground : DefinitionSite → ℕ → RecoveryEvidence → Type 0 where
    number :
        {d : DefinitionSite} {ea : ℕ} {e : RecoveryEvidence} (entry : Entry) (constant : ℤ)
        → entry_at place lvar index width (get d.block_id place.micro_blocks) d.instruction_index
          ≡ some entry
        → direct_constant_definition entry.insn index width ≡ some constant
        → e.constant_value ≡ some constant
        → Ground d ea e
    register :
        {d : DefinitionSite} {ea : ℕ} {e : RecoveryEvidence} (spec : RegisterSpec)
        (blocks : NativeBlocks)
        → register_spec_from_lvar lvar width ≡ some spec
        → e.register ≡ some spec
        → place.native_cfg ≡ some blocks
        → Held blocks ea place.current_ea spec width
        → Ground d ea e
    slot :
        {d : DefinitionSite} {ea : ℕ} {e : RecoveryEvidence} (rsp_offset ida_offset : ℤ)
        → current_rsp_location_for_lvar lvar place.frame ≡ some (rsp_offset, ida_offset)
        → e.stack_pointer_offset ≡ some rsp_offset
        → d.block_id ≡ place.block_id
        → SlotHeld ea ida_offset
        → Ground d ea e

  -- The evidence is for the definition.
  abbrev pub Placed : ℕ → RecoveryEvidence → Type 0
  Placed ea e = (e.lvar_index ≡ index) × (e.width ≡ width) × (e.source_ea ≡ some ea)

  abbrev pub Judged : DefinitionSite → ℕ → RecoveryEvidence → Type 0
  Judged d ea e = Placed ea e × Ground d ea e

-- The evidence for a variable is the place of one definition, which every execution of the microcode
-- from an entry block to the current point has as the last instruction that touches the variable.
abbrev pub Sound : Place → Lvar → ℕ → ℕ → RecoveryEvidence → Type 0
Sound place lvar index width e =
    (d : DefinitionSite) × (ea : ℕ) × (d.ea ≡ some ea)
    × ((e.lvar_index ≡ index) × (e.width ≡ width) × (e.source_ea ≡ some ea))
    × Ground place lvar index width d ea e
    × ((run : Run (Reaching.size (cfg_facts place lvar index width))
          (Reaching.preds (cfg_facts place lvar index width))
          (Reaching.stops (cfg_facts place lvar index width)) (place.block_id, place.boundary))
        → (last_stop (Reaching.size (cfg_facts place lvar index width))
              (Reaching.preds (cfg_facts place lvar index width))
              (Reaching.stops (cfg_facts place lvar index width)) run
            ≡ some (d.block_id, d.instruction_index))
          × ReachingSound.Defines (cfg_facts place lvar index width) d)
