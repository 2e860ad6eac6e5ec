-- ===== src/Analysis/Points.antt =====
-- ida_plugin/v_variable_recovery.py: `_find_exact_microcode_point`, the facts about one variable that
-- the searches read (`_candidate_cfg_facts`), and the definitions by a number.
pub mod Exact
use dynvar_sync.Base.{
  ℕ, zero, suc, ◌+◌, ◌-◌, ◌*◌, ◌^◌, ◌%◌, ◌==◌, ltb, leb, ℤ, pos, negsuc, int_beq, Bool, true, false,
  ◌&&◌, ◌||◌, not, List, [], ◌∷◌, map, any_of, length, Option, none, some, nat_eq, list_beq,
  option_beq, if◌then◌else◌, Dict, default,
}
use dynvar_sync.Cfg.Facts.{InstructionFact, BlockFacts, Blocks}
use dynvar_sync.Analysis.Microcode.{
  Operand, local_part, number, other_operand, MicroInstruction, InsnAccess, Entry, MicroBlockData,
  MicroBlocks,
}

-- [position for position, ea in enumerate(block.eas) if ea == current_ea], from a position on
unfoldable pub positions_of : ℕ → ℕ → List Entry → List ℕ
positions_of current_ea position [] = []
positions_of current_ea position (entry ∷ entries) =
    let rest = positions_of current_ea (suc position) entries in
    if option_beq nat_eq entry.ea (some current_ea) then position ∷ rest else rest

-- The positions are all those from a position on up to the last.
unfoldable pub is_run : ℕ → List ℕ → Bool
is_run expected [] = true
is_run expected (position ∷ positions) = (position == expected) && is_run (suc expected) positions

abbrev pub Match : Type 0
Match = MicroBlockData × ℕ

-- What a block adds to `matches`: nothing, or itself and its first position. `none` is a block whose
-- positions are no run.
abbrev pub match_of : MicroBlockData → List ℕ → Option (List Match)
match_of block [] = some []
match_of block (first ∷ positions) =
    if is_run (suc first) positions then some ((block, first) ∷ []) else none

abbrev pub join {ℓ} : {A : Type ℓ} → Option (List A) → Option (List A) → Option (List A)
join none others = none
join (some []) others = others
join (some (a ∷ more)) none = none
join (some (a ∷ more)) (some bs) = some (a ∷ bs)

unfoldable pub matches_of : ℕ → MicroBlocks → Option (List Match)
unfolding positions_of is_run
matches_of current_ea [] = some []
matches_of current_ea ((block_id, block) ∷ blocks) =
    join (match_of block (positions_of current_ea 0 block.entries)) (matches_of current_ea blocks)

abbrev pub single {ℓ} : {A : Type ℓ} → Option (List A) → Option A
single (some (a ∷ [])) = some a
single _ = none

-- _find_exact_microcode_point
unfoldable pub find_exact_microcode_point : ℕ → MicroBlocks → Option Match
unfolding matches_of
find_exact_microcode_point current_ea blocks = single (matches_of current_ea blocks)

abbrev pub is_whole_part : ℕ → ℕ → Operand → Bool
is_whole_part index width (local_part i offset size) =
    int_beq i (pos index) && int_beq offset (pos 0) && int_beq size (pos width)
is_whole_part index width operand = false

-- _is_whole_lvar_definition
unfoldable pub is_whole_lvar_definition : MicroInstruction → ℕ → ℕ → Bool
is_whole_lvar_definition insn index width = insn.modifies_d && is_whole_part index width insn.d

abbrev pub number_of : ℕ → Operand → Option ℤ
number_of width (number size value) =
    if int_beq size (pos width) || int_beq size (pos 0) then value else none
number_of width operand = none

-- _direct_constant_definition
unfoldable pub direct_constant_definition : MicroInstruction → ℕ → ℕ → Option ℤ
unfolding is_whole_lvar_definition
direct_constant_definition insn index width =
    if is_whole_lvar_definition insn index width && insn.is_mov
    then number_of width insn.l
    else none

-- _mask_value
unfoldable pub mask_value : ℤ → ℕ → ℕ
mask_value (pos n) width = n % 2 ^ (width * 8)
mask_value (negsuc n) width = 2 ^ (width * 8) - 1 - n % 2 ^ (width * 8)

-- `has_common` is what Hex-Rays says of the variable and another one; `none` is an exception.
module _ (has_common : ℤ → Option Bool) (index width : ℕ) where
  abbrev pub target_overlaps : Bool → ℤ × ℤ × ℤ → Bool
  target_overlaps whole_definition (other, offset, size) =
      if int_beq other (pos index)
      then not (whole_definition && int_beq offset (pos 0) && int_beq size (pos width))
      else default true (has_common other)

  unfoldable pub fact_of : Entry → InstructionFact
  unfolding is_whole_lvar_definition
  fact_of entry =
      let whole_definition = is_whole_lvar_definition entry.insn index width in
      record {
        ea = entry.ea;
        whole_definition = whole_definition;
        overlapping_definition = any_of (target_overlaps whole_definition) entry.access.targets;
        use_of = any_of (λ i. int_beq i (pos index)) entry.access.uses;
      }

  unfoldable pub block_facts : MicroBlockData → BlockFacts
  unfolding fact_of
  block_facts block = record {
    block_id = block.block_id;
    instructions = map fact_of block.entries;
    predecessors = block.predecessors;
    successors = block.successors;
  }

  -- _candidate_cfg_facts
  unfoldable pub candidate_cfg_facts : MicroBlocks → Blocks
  unfolding block_facts
  candidate_cfg_facts [] = []
  candidate_cfg_facts ((block_id, block) ∷ blocks) =
      (block_id, block_facts block) ∷ candidate_cfg_facts blocks
