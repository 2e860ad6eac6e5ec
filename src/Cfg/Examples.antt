-- ===== src/Cfg/Examples.antt =====
-- The graph searches on a diamond of four blocks, and the theorems about them there.
use dynvar_sync.Base.{
  ℕ, true, false, List, [], ◌∷◌, none, some, get, put, ◌≡◌, refl, nat_eq, inl, inr, arith,
}
use dynvar_sync.Registers.{RegisterSpec}
use dynvar_sync.Cfg.Walk.{Point, enter}
use dynvar_sync.Cfg.Facts.{
  InstructionFact, BlockFacts, Blocks, DefinitionSite, not_live_at_current_pc,
}
use dynvar_sync.Cfg.Backward.{scan, back, entries, Run, starts, executes, jumps, last_stop}
use dynvar_sync.Cfg.Reaching
use dynvar_sync.Cfg.Reaching.{find_reaching_definitions, reaching_definition_rejection_reason}
use dynvar_sync.Cfg.Reaching.Sound as ReachingSound
use dynvar_sync.Cfg.Reaching.Sound.{one_definition}
use dynvar_sync.Cfg.Future.{
  find_future_uses, future_use_rejection_reason, next, walk, stopped, note,
}
use dynvar_sync.Cfg.Future.Sound.{not_live, here}
use dynvar_sync.Cfg.Storage
use dynvar_sync.Cfg.Storage.{
  RegisterWrite, NativeInstructionFact, NativeBlockFacts, NativeBlocks, matches,
  validate_register_storage_cfg,
}
use dynvar_sync.Cfg.Storage.Sound as StorageSound
use dynvar_sync.Cfg.Storage.Sound.{storage_survives}

abbrev plain : InstructionFact
plain = record {
  ea = some 32;
  whole_definition = false;
  overlapping_definition = false;
  use_of = true;
}

abbrev defines : InstructionFact
defines = record {
  ea = some 16;
  whole_definition = true;
  overlapping_definition = false;
  use_of = false;
}

abbrev block_of : ℕ → List InstructionFact → List ℕ → List ℕ → BlockFacts
block_of id instructions before after = record {
  block_id = id;
  instructions = instructions;
  predecessors = before;
  successors = after;
}

-- Block 0 defines the variable; blocks 1 and 2 lead to block 3.
abbrev diamond : Blocks
diamond =
    (0, block_of 0 (defines ∷ []) [] (1 ∷ 2 ∷ []))
    ∷ (1, block_of 1 (plain ∷ []) (0 ∷ []) (3 ∷ []))
    ∷ (2, block_of 2 [] (0 ∷ []) (3 ∷ []))
    ∷ (3, block_of 3 (plain ∷ []) (1 ∷ 2 ∷ []) [])
    ∷ []

one_site :
    (find_reaching_definitions diamond 3 0 none).definitions
    ≡ record { block_id = 0; instruction_index = 0; ea = some 16; crossed_block = false } ∷ []
unfolding find_reaching_definitions enter back get scan entries put
one_site = refl

one_site-accepted :
    reaching_definition_rejection_reason (find_reaching_definitions diamond 3 0 none) ≡ none
unfolding find_reaching_definitions reaching_definition_rejection_reason enter back get scan entries
    put
one_site-accepted = refl

one_definition_example :
    (d : DefinitionSite) × ((find_reaching_definitions diamond 3 0 none).definitions ≡ d ∷ [])
    × ((run : Run (Reaching.size diamond) (Reaching.preds diamond) (Reaching.stops diamond) (3, 0))
        → (last_stop (Reaching.size diamond) (Reaching.preds diamond) (Reaching.stops diamond) run
            ≡ some (d.block_id, d.instruction_index))
          × ReachingSound.Defines diamond d)
one_definition_example = one_definition diamond 3 0 none one_site-accepted

-- An execution through the empty block.
through_two : Run (Reaching.size diamond) (Reaching.preds diamond) (Reaching.stops diamond) (3, 0)
unfolding get
through_two =
    jumps 3 (jumps 2 (executes 1 (starts 0 1 refl refl) refl (omega arith)) refl (inl refl)) refl
      (inr (inl refl))

abbrev rax : RegisterSpec
rax = record { alias = "rax"; full_register = "rax"; width = 8; bit_offset = 0 }

abbrev instruction : ℕ → List RegisterWrite → NativeInstructionFact
instruction ea writes = record {
  ea = ea;
  instruction_size = 4;
  writes = writes;
  is_call = false;
  register_access_known = true;
}

abbrev native_block : ℕ → List NativeInstructionFact → List ℕ → NativeBlockFacts
native_block id instructions before = record {
  block_id = id;
  start_ea = 0;
  end_ea = 0;
  instructions = instructions;
  predecessors = before;
  successors = [];
}

-- `mov rax, ...` at 16, a write of rbx at 20, and the current instruction at 24 in the next block.
abbrev native : NativeBlocks
native =
    (
      0,
      native_block 0
          (instruction 16 (record { full_register = "rax"; bit_offset = 0; bit_size = 64 } ∷ [])
            ∷ instruction 20 (record { full_register = "rbx"; bit_offset = 0; bit_size = 64 } ∷ [])
            ∷ [])
          [],
    )
    ∷ (1, native_block 1 (instruction 24 [] ∷ []) (0 ∷ []))
    ∷ []

native_valid : (validate_register_storage_cfg native 16 24 rax 8).valid ≡ true
unfolding validate_register_storage_cfg enter back get scan entries put
native_valid = refl

storage_survives_example :
    (c : Point) × (matches 24 native ≡ c ∷ [])
    × ((run : Run
          (Storage.size native 16 rax 8)
          (Storage.preds native 16 rax 8)
          (Storage.stops native 16 rax 8)
          c)
        → (p : Point) × (last_stop
              (Storage.size native 16 rax 8)
              (Storage.preds native 16 rax 8)
              (Storage.stops native 16 rax 8)
              run
            ≡ some p)
          × StorageSound.Defines native 16 rax 8 p)
storage_survives_example = storage_survives native 16 24 rax 8 native_valid

abbrev silent : InstructionFact
silent = record {
  ea = some 36;
  whole_definition = false;
  overlapping_definition = false;
  use_of = false;
}

-- The variable is redefined at the end of a block whose successor uses it.
abbrev dead : Blocks
dead =
    (0, block_of 0 (silent ∷ defines ∷ []) [] (1 ∷ []))
    ∷ (1, block_of 1 (plain ∷ []) (0 ∷ []) [])
    ∷ []

block_zero : get 0 dead ≡ some (block_of 0 (silent ∷ defines ∷ []) [] (1 ∷ []))
unfolding get
block_zero = refl

dead_rejected :
    future_use_rejection_reason (find_future_uses dead 0 0 none) ≡ some not_live_at_current_pc
unfolding find_future_uses future_use_rejection_reason enter next get walk stopped note put
dead_rejected = refl

not_live_example : silent.use_of ≡ false
not_live_example =
    not_live dead 0 0 none dead_rejected 0 0 (block_of 0 (silent ∷ defines ∷ []) [] (1 ∷ [])) silent
      here block_zero refl
