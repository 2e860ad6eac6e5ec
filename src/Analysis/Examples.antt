-- ===== src/Analysis/Examples.antt =====
-- The analysis on small inputs.
use dynvar_sync.Base.{
  ℕ, ◌≤◌, ◌<◌, ℤ, pos, true, false, List, [], ◌∷◌, length, get_elem?, Option, none, some, String,
  get, put, ◌==◌, if◌then◌else◌, In, nat_eq, ◌≡◌, ◌↔◌, refl, arith,
}
use dynvar_sync.Recovery.{VariableRecord, RecoveryEvidence}
use dynvar_sync.Cfg.Walk.{enter}
use dynvar_sync.Cfg.Storage.{NativeInstructionFact}
use dynvar_sync.Analysis.Claims.{Claims, reject_duplicate_storage_claims, no_evidence}
use dynvar_sync.Analysis.Claims.Disjoint.{Apart, claims_disjoint}
use dynvar_sync.Analysis.Microcode.{
  MicroBlocks, MicroBlockData, Entry, preds_of, succs_of, validate_cfg_reciprocity,
  top_instructions,
}
use dynvar_sync.Analysis.Microcode.Chain.{IsChain, IsFresh, top_instructions_iff}
use dynvar_sync.Analysis.Microcode.Edges.{edges_reciprocal}
use dynvar_sync.Analysis.Points.{Match, find_exact_microcode_point}
use dynvar_sync.Analysis.Points.Exact.{At, IsStart, exact_point}
use dynvar_sync.Analysis.Native.{NativeInsn, o_displ, stack_definition_remains_valid}
use dynvar_sync.Analysis.Native.Slot.{Stream, Writes, Fills, Misses, slot_survives}
use dynvar_sync.Analysis.Graph.{read_instructions}
use dynvar_sync.Analysis.Graph.Tiles.{Tiles, instructions-tile}
use dynvar_sync.Analysis.Variables.{Lvar}
use dynvar_sync.Analysis.Candidate.Grounds.{Sound}
use dynvar_sync.Analysis.Whole.{analyze_v_variable_candidates, micro_blocks_of, place_at}
use dynvar_sync.Analysis.Whole.Sound.{analysis-Sound}
use dynvar_sync.Analysis.Samples.{ida, variable, micro_block, decode_at, uses_both}

abbrev variables : List VariableRecord
variables = variable 0 "v0" ∷ variable 1 "v1" ∷ []

abbrev in_register : ℕ → String → ℕ → RecoveryEvidence
in_register index name ea =
    record (no_evidence index
      "unique CFG reaching definition and storage proof establish register liveness") {
        storage_kind = "register";
        storage = name;
        source_ea = some ea;
        confidence = "exact_register_location";
        register = some (record { alias = name; full_register = name; width = 8; bit_offset = 0 });
        width = 8;
      }

v0_found :
    get 0 (analyze_v_variable_candidates ida 16 24 variables).evidence_by_index
    ≡ some (in_register 0 "rax" 16)
unfolding analyze_v_variable_candidates get enter
v0_found = refl

analysis-Sound_example :
    (blocks : MicroBlocks) × (found : Match) × (micro_blocks_of ida ≡ some blocks)
    × (find_exact_microcode_point 24 blocks ≡ some found)
    × ((lvar : Lvar) × (get_elem? ida.lvars 0 ≡ some lvar)
        × ((width : ℕ) × Sound
              (place_at ida 24 blocks found)
              lvar
              0
              width
              (in_register 0 "rax" 16)))
analysis-Sound_example =
    analysis-Sound ida 16 24 variables 0 16 (in_register 0 "rax" 16) v0_found refl

-- Two variables in different registers and two in one.
abbrev claims : Claims
claims =
    (0, in_register 0 "rax" 16)
    ∷ (1, in_register 1 "rbx" 20)
    ∷ (2, in_register 2 "rcx" 20)
    ∷ (3, in_register 3 "rcx" 24)
    ∷ []

kept_two :
    (get 0 (reject_duplicate_storage_claims claims) ≡ some (in_register 0 "rax" 16))
    × (get 1 (reject_duplicate_storage_claims claims) ≡ some (in_register 1 "rbx" 20))
    × (get 2 (reject_duplicate_storage_claims claims)
        ≡ some (no_evidence 2 "ambiguous_register_location"))
unfolding reject_duplicate_storage_claims get put
kept_two = (refl, refl, refl)

claims_disjoint_example : Apart (in_register 0 "rax" 16) (in_register 1 "rbx" 20)
claims_disjoint_example =
    claims_disjoint claims 0 1 (in_register 0 "rax" 16) (in_register 1 "rbx" 20) (omega arith)
      kept_two.0 kept_two.1

abbrev entry : ℕ → Entry
entry ea = record { insn = uses_both; access = record { uses = []; targets = [] }; ea = some ea }

abbrev block_at : ℕ → List ℕ → List ℕ → List Entry → MicroBlockData
block_at id before after entries = record {
  block_id = id;
  entries = entries;
  predecessors = before;
  successors = after;
}

abbrev first_block : MicroBlockData
first_block = block_at 0 [] (1 ∷ []) (entry 16 ∷ entry 20 ∷ entry 20 ∷ [])

abbrev blocks : MicroBlocks
blocks = (0, first_block) ∷ (1, block_at 1 (0 ∷ []) [] (entry 24 ∷ [])) ∷ []

second_point : find_exact_microcode_point 20 blocks ≡ some (first_block, 1)
unfolding find_exact_microcode_point
second_point = refl

exact_point_example :
    ((id : ℕ) × In (id, first_block) blocks)
    × IsStart 20 first_block 1
    × ((id k : ℕ) (other : MicroBlockData)
        → In (id, other) blocks
        → At 20 other.entries k
        → other ≡ first_block)
exact_point_example = exact_point 20 blocks first_block 1 second_point

reciprocal_blocks : validate_cfg_reciprocity preds_of succs_of blocks blocks ≡ true
unfolding validate_cfg_reciprocity get
reciprocal_blocks = refl

first_there : get 0 blocks ≡ some first_block
unfolding get
first_there = refl

edges_reciprocal_example :
    (In 1 first_block.successors
      → (y : MicroBlockData) × (get 1 blocks ≡ some y) × In 0 y.predecessors)
    × (In 1 first_block.predecessors
        → (y : MicroBlockData) × (get 1 blocks ≡ some y) × In 0 y.successors)
edges_reciprocal_example =
    edges_reciprocal preds_of succs_of blocks reciprocal_blocks 0 1 first_block first_there

top_instructions_iff_example : (top_instructions micro_block ≡ some (1 ∷ 2 ∷ 3 ∷ [])) ↔ (
    (rest : List ℕ) × (1 ∷ 2 ∷ 3 ∷ [] ≡ 1 ∷ rest)
    × IsChain micro_block 3 (1 ∷ rest)
    × IsFresh micro_block 3 [] (1 ∷ rest)
    × (length {A = ℕ} (1 ∷ rest) ≤ 100000))
top_instructions_iff_example = top_instructions_iff micro_block 1 3 (1 ∷ 2 ∷ 3 ∷ []) refl refl

abbrev stores_at : ℤ → NativeInsn
stores_at offset = record {
  insn_size = 4;
  operands = some (
      (record {
        operand_type = o_displ;
        is_changed = true;
        is_used = false;
        frame_offset = some offset;
        dtype_size = pos 8;
      })
      ∷ []);
  accesses = some [];
  call_insn = some false;
}

-- The slot from 40 to 48 is written at 16, and its neighbour at 20.
abbrev stores : ℕ → Option NativeInsn
stores ea =
    if ea == 16
    then some (stores_at (pos 40))
    else if ea == 20
    then some (stores_at (pos 48))
    else none

slot_valid : stack_definition_remains_valid 18446744073709551615 stores 24 (pos 40) 8 16 ≡ true
unfolding stack_definition_remains_valid
slot_valid = refl

slot_survives_example :
    (16 < 24)
    × ((writes : List (ℕ × ℕ)) × Writes 18446744073709551615 stores 24 (pos 40) 8 16 writes
        × ((write : ℕ × ℕ) × In write writes × Fills (pos 40) 8 write))
    × ((b : ℕ)
        → Stream 18446744073709551615 stores 24 (pos 40) 8 16 b
        → 16 < b
        → b < 24
        → (writes : List (ℕ × ℕ)) × Writes 18446744073709551615 stores 24 (pos 40) 8 b writes
          × ((write : ℕ × ℕ) → In write writes → Misses (pos 40) 8 write))
slot_survives_example = slot_survives 18446744073709551615 stores 24 (pos 40) 8 16 slot_valid

instructions-tile_example :
    (facts : List NativeInstructionFact) × (read_instructions decode_at 100000 16 28 ≡ some facts)
    × Tiles 16 facts 28
instructions-tile_example = instructions-tile decode_at 100000 16 28 (omega arith) (omega arith)
