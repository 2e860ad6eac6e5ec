-- ===== src/Analysis/Microcode.antt =====
-- ida_plugin/v_variable_recovery.py: what the analysis reads out of the microcode of a function, from
-- `_collect_micro_blocks` to `_direct_constant_definition`. `none` stands for a RuntimeError.
pub mod Chain
pub mod Edges
use dynvar_sync.Base.{
  ℕ, zero, suc, ◌+◌, ◌-◌, ◌*◌, ◌^◌, ◌%◌, ◌==◌, ltb, leb, ℤ, pos, negsuc, pos_part, int_beq, Bool,
  true, false, ◌&&◌, ◌||◌, not, List, [], ◌∷◌, map, keep, any_of, all_of, Option, none, some,
  is_some, ◌>>=◌, Dict, get, nat_eq, list_beq, option_beq, if◌then◌else◌,
}
use dynvar_sync.Cfg.Facts.{InstructionFact, BlockFacts, Blocks}

-- An operand: a local variable by its index, the offset of the part and the size of the part, or a
-- number by its size and its value if that can be read.
pub data Operand : Type 0 where
  local_part : ℤ → ℤ → ℤ → Operand
  number : ℤ → Option ℤ → Operand
  other_operand : Operand

-- An instruction of Hex-Rays. `visited` is what `for_all_ops` shows to a visitor, each operand with
-- `is_target`, and `visit_ended` says that it went to the end.
pub record MicroInstruction : Type 0 where
  pub raw_ea : Option ℕ
  pub modifies_d : Bool
  pub is_mov : Bool
  pub d : Operand
  pub l : Operand
  pub visited : List (Bool × Operand)
  pub visit_ended : Bool

-- The edges of a block in one direction: how many, and the number of the block at the end of each.
pub record EdgeList : Type 0 where
  pub count : ℤ
  pub edge : ℕ → ℤ

-- A block of Hex-Rays. Instructions are named by their identity; `next` is the link of the list.
pub record MicroBlock : Type 0 where
  pub serial : ℕ
  pub head : Option ℕ
  pub tail : Option ℕ
  pub next : ℕ → Option ℕ
  pub instruction : ℕ → MicroInstruction
  pub pred : Option EdgeList
  pub succ : Option EdgeList

-- `map_fict_ea` is `none` where Hex-Rays has none, and its result is `none` where it raises.
pub record Microcode : Type 0 where
  pub qty : ℕ
  pub get_mblock : ℕ → Option MicroBlock
  pub badaddr : ℕ
  pub map_fict_ea : Option (ℕ → Option ℕ)

-- _InsnAccess
pub record InsnAccess : Type 0 where
  pub uses : List ℤ
  pub targets : List (ℤ × ℤ × ℤ)

-- _MicroBlockData; one list holds the instructions, their accesses and their addresses.
pub record Entry : Type 0 where
  pub insn : MicroInstruction
  pub access : InsnAccess
  pub ea : Option ℕ

pub record MicroBlockData : Type 0 where
  pub block_id : ℕ
  pub entries : List Entry
  pub predecessors : List ℕ
  pub successors : List ℕ

-- sorted(set(numbers))
unfoldable pub insert_id : ℕ → List ℕ → List ℕ
insert_id n [] = n ∷ []
insert_id n (m ∷ ms) = if ltb n m then n ∷ m ∷ ms else if n == m then m ∷ ms else m ∷ insert_id n ms

unfoldable pub sorted_set : List ℕ → List ℕ
unfolding insert_id
sorted_set [] = []
sorted_set (n ∷ ns) = insert_id n (sorted_set ns)

abbrev pub id_below : ℕ → ℤ → Option ℕ
id_below qty (pos n) = if ltb n qty then some n else none
id_below qty (negsuc n) = none

-- `for edge_index in range(count)`, with the rounds that are left
unfoldable pub edges_from : EdgeList → ℕ → ℕ → ℕ → Option (List ℕ)
edges_from edges qty zero index = some []
edges_from edges qty (suc rounds) index = id_below qty (edges.edge index) >>= λ n.
    edges_from edges qty rounds (suc index) >>= λ ns. some (n ∷ ns)

abbrev pub edges_counted : EdgeList → ℕ → ℤ → Option (List ℕ)
unfolding edges_from
edges_counted edges qty (negsuc n) = none
edges_counted edges qty (pos n) = if ltb qty n then none else edges_from edges qty n 0

-- _micro_edge_ids
unfoldable pub micro_edge_ids : Option EdgeList → ℕ → Option (List ℕ)
unfolding edges_from sorted_set
micro_edge_ids none qty = none
micro_edge_ids (some edges) qty = edges_counted edges qty edges.count >>= λ ns. some (sorted_set ns)

abbrev pub has_id : ℕ → List ℕ → Bool
has_id n ns = any_of (λ m. m == n) ns

-- The loop of `_top_instructions`, with the number of instructions that the cap still allows.
unfoldable pub chain : MicroBlock → ℕ → ℕ → List ℕ → Option ℕ → Option (List ℕ)
chain block tail room seen none = none
chain block tail zero seen (some current) = none
chain block tail (suc room) seen (some current) = elim (has_id current seen) [
  | true ↦ none
  | false ↦ elim (current == tail) [
    | true ↦ some (current ∷ [])
    | false ↦ chain block tail room (current ∷ seen) (block.next current) >>= λ rest.
        some (current ∷ rest)
  ]
]

abbrev pub chain_between : MicroBlock → Option ℕ → Option ℕ → ℕ → Option (List ℕ)
unfolding chain
chain_between block none none room = some []
chain_between block (some head) none room = none
chain_between block none (some tail) room = none
chain_between block (some head) (some tail) room = chain block tail room [] (some head)

-- _top_instructions
unfoldable pub top_instructions : MicroBlock → Option (List ℕ)
unfolding chain
top_instructions block = chain_between block block.head block.tail 100000

-- Visitor.visit_mop
unfoldable pub visit_mop : Bool × Operand → InsnAccess → InsnAccess
visit_mop (true, local_part index offset size) access = record access {
  targets = (index, offset, size) ∷ access.targets;
}
visit_mop (false, local_part index offset size) access = record access {
  uses = index ∷ access.uses;
}
visit_mop (is_target, operand) access = access

unfoldable pub visit_each : List (Bool × Operand) → InsnAccess
unfolding visit_mop
visit_each [] = record { uses = []; targets = [] }
visit_each (operand ∷ operands) = visit_mop operand (visit_each operands)

-- _collect_lvar_accesses
unfoldable pub collect_lvar_accesses : MicroInstruction → Option InsnAccess
unfolding visit_each
collect_lvar_accesses insn = if insn.visit_ended then some (visit_each insn.visited) else none

abbrev pub mapped_or : ℕ → ℕ → Option ℕ → ℕ
mapped_or badaddr ea none = ea
mapped_or badaddr ea (some mapped) = if mapped == badaddr then ea else mapped

abbrev pub map_ea : ℕ → ℕ → Option (ℕ → Option ℕ) → ℕ
map_ea badaddr ea none = ea
map_ea badaddr ea (some mapper) = mapped_or badaddr ea (mapper ea)

-- _real_micro_ea
unfoldable pub real_micro_ea : Microcode → Option ℕ → Option ℕ
real_micro_ea mba none = none
real_micro_ea mba (some ea) =
    if ea == mba.badaddr then none else some (map_ea mba.badaddr ea mba.map_fict_ea)

unfoldable pub entries_of : Microcode → MicroBlock → List ℕ → Option (List Entry)
unfolding collect_lvar_accesses real_micro_ea
entries_of mba block [] = some []
entries_of mba block (i ∷ is) =
    let insn = block.instruction i in
    collect_lvar_accesses insn >>= λ access. entries_of mba block is >>= λ rest.
    some ((record { insn = insn; access = access; ea = real_micro_ea mba insn.raw_ea }) ∷ rest)

-- A block, with its accesses and edges.
unfoldable pub read_block : Microcode → ℕ → MicroBlock → Option MicroBlockData
unfolding top_instructions micro_edge_ids entries_of
read_block mba serial block =
    if block.serial == serial
    then (top_instructions block >>= λ is. micro_edge_ids block.pred mba.qty >>= λ preds.
        micro_edge_ids block.succ mba.qty >>= λ succs. entries_of mba block is >>= λ entries.
        some (record {
          block_id = serial;
          entries = entries;
          predecessors = preds;
          successors = succs;
        }))
    else none

abbrev pub MicroBlocks : Type 0
MicroBlocks = Dict ℕ MicroBlockData

-- `for serial in range(qty)`, with the rounds that are left
unfoldable pub read_blocks : Microcode → ℕ → ℕ → Option MicroBlocks
unfolding read_block
read_blocks mba zero serial = some []
read_blocks mba (suc rounds) serial = mba.get_mblock serial >>= read_block mba serial >>= λ block.
    read_blocks mba rounds (suc serial) >>= λ rest. some ((serial, block) ∷ rest)

-- `other` is a block, and `block_id` one of its edges.
unfoldable pub leads_back {ℓ} : {B : Type ℓ} → Dict ℕ B → (B → List ℕ) → ℕ → ℕ → Bool
unfolding get
leads_back blocks edges block_id other = elim (get other blocks) [
  | none ↦ false
  | some block ↦ has_id block_id (edges block)
]

-- The two directions of the edges of a graph agree.
module _ {B : Type 0} (preds succs : B → List ℕ) (blocks : Dict ℕ B) where
  -- _validate_cfg_reciprocity; `false` is its RuntimeError.
  unfoldable pub validate_cfg_reciprocity : Dict ℕ B → Bool
  unfolding leads_back
  validate_cfg_reciprocity [] = true
  validate_cfg_reciprocity ((block_id, block) ∷ rest) =
      all_of (leads_back blocks preds block_id) (succs block)
      && all_of (leads_back blocks succs block_id) (preds block)
      && validate_cfg_reciprocity rest

abbrev pub preds_of : MicroBlockData → List ℕ
preds_of block = block.predecessors

abbrev pub succs_of : MicroBlockData → List ℕ
succs_of block = block.successors

-- _collect_micro_blocks
unfoldable pub collect_micro_blocks : Microcode → Option MicroBlocks
unfolding read_blocks validate_cfg_reciprocity
collect_micro_blocks mba =
    if mba.qty == 0
    then none
    else read_blocks mba mba.qty 0 >>= λ blocks.
        if validate_cfg_reciprocity preds_of succs_of blocks blocks then some blocks else none
