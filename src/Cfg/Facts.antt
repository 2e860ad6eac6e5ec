-- ===== src/Cfg/Facts.antt =====
-- The data of the graph searches in ida_plugin/v_variable_recovery.py. Positions and block ids are
-- counted from 0, so the tests for a negative position are left out.
use dynvar_sync.Base.{
  ℕ, ◌+◌, ◌*◌, ◌≤◌, ◌≡◌, arith, ltb, leb, Bool, List, [], ◌∷◌, zero, Option, none, some, Dict, get,
  nat_eq, length, if◌then◌else◌,
}

-- _CfgInstructionFact
pub record InstructionFact : Type 0 where
  pub ea : Option ℕ
  pub whole_definition : Bool
  pub overlapping_definition : Bool
  pub use_of : Bool

-- _CfgBlockFacts
pub record BlockFacts : Type 0 where
  pub block_id : ℕ
  pub instructions : List InstructionFact
  pub predecessors : List ℕ
  pub successors : List ℕ

abbrev pub Blocks : Type 0
Blocks = Dict ℕ BlockFacts

pub record DefinitionSite : Type 0 where
  pub block_id : ℕ
  pub instruction_index : ℕ
  pub ea : Option ℕ
  pub crossed_block : Bool

pub data Reason : Type 0 where
  not_live_at_current_pc ambiguous_register_location unsupported_scattered_location : Reason
  unresolved_stack_location no_reaching_definition microcode_unavailable : Reason
  unsupported_value_width ambiguous_reaching_definition cross_block_liveness_unproven : Reason
  storage_clobbered_before_current_pc unresolved_native_program_point analysis_deferred : Reason

-- `max_states if max_states is not None else max(64, len(blocks) * 4 + 4)`
abbrev pub budget_of : Option ℕ → ℕ → ℕ
budget_of (some n) blocks = n
budget_of none blocks = if leb (blocks * 4 + 4) 64 then 64 else blocks * 4 + 4

-- The largest number of neighbours of a block.
unfoldable pub degree_of : (BlockFacts → List ℕ) → Blocks → ℕ
degree_of next [] = zero
degree_of next ((b, block) ∷ blocks) =
    let rest = degree_of next blocks in
    if ltb rest (length (next block)) then length (next block) else rest

pub degree_of-get :
    (next : BlockFacts → List ℕ) (blocks : Blocks) (b : ℕ) (block : BlockFacts)
    → get b blocks ≡ some block
    → length (next block) ≤ degree_of next blocks
unfolding degree_of get
degree_of-get next [] b block h = cc
degree_of-get next ((a, x) ∷ blocks) b block h =
    ground (arith, degree_of-get next blocks b block, nat_eq.beq_iff a b)
