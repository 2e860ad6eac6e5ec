-- ===== src/Cfg/Storage.antt =====
-- ida_plugin/v_variable_recovery.py: `_RegisterWrite`, `_NativeInstructionFact`, `_NativeBlockFacts`,
-- `_StorageValidation` and `_validate_register_storage_cfg`.
pub mod Sound
use dynvar_sync.Base.{
  ℕ, zero, suc, ◌+◌, ◌*◌, ltb, leb, ◌==◌, Bool, true, false, ◌||◌, ◌&&◌, not, List, [], ◌∷◌, ◌++◌,
  Option, none, some, Dict, get, nat_eq, nat_pair_eq, length, get_elem?, if◌then◌else◌, is_some,
  any_of, String, str_eq, ◌≡◌, ◌≤◌, arith,
}
use dynvar_sync.Registers.{RegisterSpec}
use dynvar_sync.Cfg.Facts.{budget_of}
use dynvar_sync.Cfg.Walk.{Point, Search, loop, begin, enough}
use dynvar_sync.Cfg.Backward.{scan, back}
use dynvar_sync.Cfg.Cycle.{graph_has_cycle}

pub record RegisterWrite : Type 0 where
  pub full_register : String
  pub bit_offset : ℕ
  pub bit_size : ℕ

unfoldable covers : RegisterWrite → RegisterSpec → ℕ → Bool
covers write spec width =
    leb write.bit_offset spec.bit_offset
    && leb (spec.bit_offset + width * 8) (write.bit_offset + write.bit_size)

unfoldable overlaps : RegisterWrite → RegisterSpec → ℕ → Bool
overlaps write spec width =
    ltb write.bit_offset (spec.bit_offset + width * 8)
    && ltb spec.bit_offset (write.bit_offset + write.bit_size)

pub record NativeInstructionFact : Type 0 where
  pub ea : ℕ
  pub instruction_size : ℕ
  pub writes : List RegisterWrite
  pub is_call : Bool
  pub register_access_known : Bool

pub record NativeBlockFacts : Type 0 where
  pub block_id : ℕ
  pub start_ea : ℕ
  pub end_ea : ℕ
  pub instructions : List NativeInstructionFact
  pub predecessors : List ℕ
  pub successors : List ℕ

abbrev pub NativeBlocks : Type 0
NativeBlocks = Dict ℕ NativeBlockFacts

pub record StorageValidation : Type 0 where
  pub valid : Bool
  pub reason : String
  pub clobber_ea : Option ℕ
  pub visited_blocks : ℕ

abbrev pub size_of : Option NativeBlockFacts → Option ℕ
size_of none = none
size_of (some block) = some (length block.instructions)

abbrev pub preds_of : Option NativeBlockFacts → List ℕ
preds_of none = []
preds_of (some block) = block.predecessors

abbrev pub instruction_at : Option NativeBlockFacts → ℕ → Option NativeInstructionFact
instruction_at none position = none
instruction_at (some block) position = get_elem? block.instructions position

-- The positions of the instructions of a block, from a position on, that are at an address.
unfoldable positions_from : ℕ → ℕ → ℕ → List NativeInstructionFact → List Point
positions_from block_id ea position [] = []
positions_from block_id ea position (i ∷ is) =
    let rest = positions_from block_id ea (suc position) is in
    if i.ea == ea then (block_id, position) ∷ rest else rest

-- `definition_matches` and `current_matches`
unfoldable pub matches : ℕ → NativeBlocks → List Point
unfolding positions_from
matches ea [] = []
matches ea ((key, block) ∷ blocks) =
    positions_from block.block_id ea 0 block.instructions ++ matches ea blocks

pub record Found : Type 0 where
  pub reached_definition : Bool
  pub unresolved : Bool
  pub clobber_ea : Option ℕ

unfoldable pub degree_of : NativeBlocks → ℕ
degree_of [] = zero
degree_of ((key, block) ∷ blocks) =
    let rest = degree_of blocks in
    if ltb rest (length block.predecessors) then length block.predecessors else rest

pub degree_of-get :
    (blocks : NativeBlocks) (b : ℕ) (block : NativeBlockFacts)
    → get b blocks ≡ some block
    → length block.predecessors ≤ degree_of blocks
unfolding degree_of get
degree_of-get [] b block h = cc
degree_of-get ((a, x) ∷ blocks) b block h =
    ground (arith, degree_of-get blocks b block, nat_eq.beq_iff a b)

-- `len({block_id for block_id, _limit in visited})`
unfoldable count_blocks : List Point → ℕ
count_blocks [] = 0
count_blocks (p ∷ ps) =
    let rest = count_blocks ps in if any_of (λ q. q.0 == p.0) ps then rest else suc rest

abbrev pub refusal : String → StorageValidation
refusal reason = record { valid = false; reason = reason; clobber_ea = none; visited_blocks = 0 }

module _ (blocks : NativeBlocks) (definition_ea : ℕ) (register : RegisterSpec) (width : ℕ) where
  abbrev pub size : ℕ → Option ℕ
  size b = size_of (get b blocks)

  abbrev pub preds : ℕ → List ℕ
  preds b = preds_of (get b blocks)

  -- A write that gives the register its whole value.
  unfoldable pub writes_register : NativeInstructionFact → Bool
  unfolding covers
  writes_register i =
      any_of (λ w. str_eq w.full_register register.full_register && covers w register width)
        i.writes

  unfoldable clobbers : NativeInstructionFact → Bool
  unfolding overlaps
  clobbers i =
      i.is_call
      || any_of (λ w. str_eq w.full_register register.full_register && overlaps w register width)
          i.writes

  unfoldable pub stops_at : Option NativeInstructionFact → Bool
  unfolding clobbers
  stops_at none = false
  stops_at (some i) = (i.ea == definition_ea) || not i.register_access_known || clobbers i

  abbrev pub stops : ℕ → ℕ → Bool
  stops b position = stops_at (instruction_at (get b blocks) position)

  -- `not block.instructions`
  abbrev pub is_empty : Option ℕ → Bool
  is_empty (some zero) = true
  is_empty _ = false

  -- An empty block ends the search.
  unfoldable pub neighbours : Point → List Point
  unfolding back stops_at
  neighbours p = if is_empty (size p.0) then [] else back size preds stops p

  unfoldable pub record_stop : NativeInstructionFact → Found → Found
  unfolding writes_register
  record_stop i f =
      if i.ea == definition_ea
      then (if not i.register_access_known || not (writes_register i)
          then record f { clobber_ea = some i.ea }
          else record f { reached_definition = true })
      else if not i.register_access_known
      then record f { unresolved = true }
      else record f { clobber_ea = some i.ea }

  unfoldable pub record_start : List ℕ → Found → Found
  record_start [] f = record f { unresolved = true }
  record_start (b ∷ bs) f =
      if any_of (λ a. not (is_some (get a blocks))) (b ∷ bs)
      then record f { unresolved = true }
      else f

  unfoldable pub record_scan : NativeBlockFacts → Option ℕ → Found → Found
  unfolding record_stop record_start
  record_scan block none f = record_start block.predecessors f
  record_scan block (some position) f = elim (get_elem? block.instructions position) [
    | none ↦ f
    | some i ↦ record_stop i f
  ]

  unfoldable pub observe_at : Option NativeBlockFacts → Point → Found → Found
  unfolding record_scan scan stops_at
  observe_at none p f = record f { unresolved = true }
  observe_at (some block) (b, limit) f =
      if ltb (length block.instructions) limit || (length block.instructions == 0)
      then record f { unresolved = true }
      else record_scan block (scan size preds stops b limit) f

  unfoldable pub observe : Point → Found → Found
  unfolding observe_at
  observe p f = observe_at (get p.0 blocks) p f

  unfoldable pub search : Point → Search Found
  unfolding observe neighbours loop begin enough degree_of
  search start =
      let budget = budget_of none (length blocks) in
      loop budget neighbours observe (enough budget (degree_of blocks)) (
        begin budget neighbours observe start
          (record { reached_definition = false; unresolved = false; clobber_ea = none }))

  -- What the end of the search says.
  unfoldable pub verdict : Search Found → StorageValidation
  unfolding graph_has_cycle count_blocks
  verdict w =
      if is_some w.found.clobber_ea
      then record {
        valid = false;
        reason = "storage_clobbered_before_current_pc";
        clobber_ea = w.found.clobber_ea;
        visited_blocks = count_blocks w.visited;
      }
      else if not w.found.reached_definition
          || w.found.unresolved
          || w.exhausted
          || graph_has_cycle w.edges
      then record {
        valid = false;
        reason =
            if w.exhausted || graph_has_cycle w.edges
            then "cross_block_liveness_unproven"
            else "unresolved_native_program_point";
        clobber_ea = none;
        visited_blocks = count_blocks w.visited;
      }
      else record {
        valid = true;
        reason = "exact register storage survives to current PC";
        clobber_ea = none;
        visited_blocks = count_blocks w.visited;
      }

  -- The two addresses each stand at one place; in one block, the definition stands first.
  unfoldable pub validate_at : List Point → List Point → StorageValidation
  unfolding search verdict
  validate_at (d ∷ []) (c ∷ []) =
      if (d.0 == c.0) && leb c.1 d.1
      then refusal "unresolved_native_program_point"
      else verdict (search c)
  validate_at _ _ = refusal "unresolved_native_program_point"

unfoldable pub validate_register_storage_cfg :
    NativeBlocks → ℕ → ℕ → RegisterSpec → ℕ → StorageValidation
unfolding validate_at matches
validate_register_storage_cfg blocks definition_ea current_ea register width =
    validate_at blocks definition_ea register width (matches definition_ea blocks)
      (matches current_ea blocks)
