-- ===== src/Analysis/Graph.antt =====
-- ida_plugin/v_variable_recovery.py: the graph of the native blocks of a function
-- (`_build_native_cfg_facts`, `_native_edge_ids`, `_native_block_bounds`). `none` stands for an
-- exception.
pub mod Tiles
use dynvar_sync.Base.{
  ℕ, zero, suc, ◌+◌, ◌-◌, ◌==◌, ltb, leb, Bool, true, false, ◌&&◌, ◌||◌, not, List, [], ◌∷◌, map,
  keep, all_of, any_of, Option, none, some, is_some, ◌>>=◌, Dict, get, nat_eq, default,
  if◌then◌else◌,
}
use dynvar_sync.Cfg.Storage.{RegisterWrite, NativeInstructionFact, NativeBlockFacts, NativeBlocks}
use dynvar_sync.Analysis.Microcode.{sorted_set, has_id, validate_cfg_reciprocity}
use dynvar_sync.Analysis.Native.{NativeInsn, register_writes}

-- A block of IDA's FlowChart; the ids at the ends of its edges are `none` where IDA raises.
pub record FlowBlock : Type 0 where
  pub id : ℕ
  pub start_ea : ℕ
  pub end_ea : ℕ
  pub preds : Option (List ℕ)
  pub succs : Option (List ℕ)

-- The rest of a block that cannot be decoded.
abbrev pub unknown_rest : ℕ → ℕ → NativeInstructionFact
unknown_rest ea end_ea = record {
  ea = ea;
  instruction_size = if leb (end_ea - ea) 1 then 1 else end_ea - ea;
  writes = [];
  is_call = false;
  register_access_known = false;
}

abbrev pub known_fact : ℕ → NativeInsn → NativeInstructionFact
unfolding register_writes
known_fact ea insn = record {
  ea = ea;
  instruction_size = insn.insn_size;
  writes = default [] (register_writes insn);
  is_call = default false insn.call_insn;
  register_access_known = is_some (register_writes insn) && is_some insn.call_insn;
}

module _ (decode : ℕ → Option NativeInsn) where
  -- What is at the address: an instruction that fits into the block, or nothing.
  abbrev pub fitting : ℕ → ℕ → Option NativeInsn → Option NativeInsn
  fitting ea end_ea none = none
  fitting ea end_ea (some insn) =
      if (insn.insn_size == 0) || ltb end_ea (ea + insn.insn_size) then none else some insn

  -- The loop over a block, with the number of instructions that the cap still allows.
  unfoldable pub read_instructions : ℕ → ℕ → ℕ → Option (List NativeInstructionFact)
  unfolding register_writes
  read_instructions zero ea end_ea = if ltb ea end_ea then none else some []
  read_instructions (suc room) ea end_ea = elim (ltb ea end_ea) [
    | false ↦ some []
    | true ↦ elim (fitting ea end_ea (decode ea)) [
      | none ↦ some (unknown_rest ea end_ea ∷ [])
      | some insn ↦ read_instructions room (ea + insn.insn_size) end_ea >>= λ rest.
          some (known_fact ea insn ∷ rest)
    ]
  ]

-- _native_edge_ids
unfoldable pub native_edge_ids : Option (List ℕ) → List ℕ → Option (List ℕ)
unfolding sorted_set
native_edge_ids none raw_ids = none
native_edge_ids (some edges) raw_ids =
    if all_of (λ n. has_id n raw_ids) edges then some (sorted_set edges) else none

abbrev pub bad_bounds : ℕ → FlowBlock → Bool
bad_bounds badaddr block =
    (block.start_ea == badaddr) || (block.end_ea == badaddr) || ltb block.end_ea block.start_ea

unfoldable pub read_native_block :
    (ℕ → Option NativeInsn) → ℕ → List ℕ → FlowBlock → Option NativeBlockFacts
unfolding native_edge_ids read_instructions
read_native_block decode badaddr raw_ids block =
    if bad_bounds badaddr block
    then none
    else native_edge_ids block.preds raw_ids >>= λ preds.
        native_edge_ids block.succs raw_ids >>= λ succs.
        read_instructions decode 100000 block.start_ea block.end_ea >>= λ instructions.
        some (record {
          block_id = block.id;
          start_ea = block.start_ea;
          end_ea = block.end_ea;
          instructions = instructions;
          predecessors = preds;
          successors = succs;
        })

unfoldable pub native_blocks :
    (ℕ → Option NativeInsn) → ℕ → List ℕ → List FlowBlock → Option NativeBlocks
unfolding read_native_block
native_blocks decode badaddr raw_ids [] = some []
native_blocks decode badaddr raw_ids (block ∷ blocks) =
    read_native_block decode badaddr raw_ids block >>= λ facts.
    native_blocks decode badaddr raw_ids blocks >>= λ rest. some ((block.id, facts) ∷ rest)

abbrev pub preds_of : NativeBlockFacts → List ℕ
preds_of block = block.predecessors

abbrev pub succs_of : NativeBlockFacts → List ℕ
succs_of block = block.successors

-- No two blocks have one id.
unfoldable pub distinct_ids : List ℕ → Bool
distinct_ids [] = true
distinct_ids (n ∷ ns) = not (has_id n ns) && distinct_ids ns

abbrev pub reciprocal : NativeBlocks → Option NativeBlocks
unfolding validate_cfg_reciprocity
reciprocal blocks =
    if validate_cfg_reciprocity preds_of succs_of blocks blocks then some blocks else none

abbrev pub block_ids : List FlowBlock → List ℕ
block_ids blocks = map (λ (block : FlowBlock). block.id) blocks

-- _build_native_cfg_facts; the FlowChart is `none` where IDA raises.
unfoldable pub build_native_cfg_facts :
    (ℕ → Option NativeInsn) → ℕ → Option (List FlowBlock) → Option NativeBlocks
unfolding distinct_ids native_blocks validate_cfg_reciprocity
build_native_cfg_facts decode badaddr none = none
build_native_cfg_facts decode badaddr (some []) = none
build_native_cfg_facts decode badaddr (some (block ∷ blocks)) =
    let raw_ids = block_ids (block ∷ blocks) in
    if distinct_ids raw_ids
    then (native_blocks decode badaddr raw_ids (block ∷ blocks) >>= reciprocal)
    else none

abbrev pub one_of {ℓ} : {A : Type ℓ} → List A → Option A
one_of (a ∷ []) = some a
one_of _ = none

-- _native_block_bounds
unfoldable pub native_block_bounds : Option (List FlowBlock) → ℕ → Option (ℕ × ℕ)
native_block_bounds none ea = none
native_block_bounds (some blocks) ea = one_of (
    map (λ (block : FlowBlock). (block.start_ea, block.end_ea))
      (keep (λ (block : FlowBlock). leb block.start_ea ea && ltb ea block.end_ea) blocks))
