-- ===== src/Analysis/Samples.antt =====
-- A function with one block, as IDA and Hex-Rays show it: at 16 the variable 0 is defined in rax, at
-- 20 the variable 1 in rbx, and at 24 both are used.
use dynvar_sync.Base.{
  ℕ, suc, ◌==◌, ℤ, pos, true, false, [], ◌∷◌, Option, none, some, String, if◌then◌else◌,
}
use dynvar_sync.Recovery.{VariableRecord}
use dynvar_sync.Analysis.Microcode.{
  Operand, local_part, other_operand, MicroInstruction, EdgeList, MicroBlock, Microcode,
}
use dynvar_sync.Analysis.Native.{NativeInsn}
use dynvar_sync.Analysis.Graph.{FlowBlock}
use dynvar_sync.Analysis.Variables.{Lvar, Frame}
use dynvar_sync.Analysis.Whole.{Ida}

abbrev whole : ℤ → Operand
whole index = local_part index (pos 0) (pos 8)

abbrev pub assigns : ℕ → ℤ → MicroInstruction
assigns ea index = record {
  raw_ea = some ea;
  modifies_d = true;
  is_mov = true;
  d = whole index;
  l = other_operand;
  visited = (true, whole index) ∷ [];
  visit_ended = true;
}

abbrev pub uses_both : MicroInstruction
uses_both = record {
  raw_ea = some 24;
  modifies_d = false;
  is_mov = false;
  d = other_operand;
  l = other_operand;
  visited = (false, whole (pos 0)) ∷ (false, whole (pos 1)) ∷ [];
  visit_ended = true;
}

abbrev pub instruction_at : ℕ → MicroInstruction
instruction_at i =
    if i == 1 then assigns 16 (pos 0) else if i == 2 then assigns 20 (pos 1) else uses_both

abbrev pub no_edges : Option EdgeList
no_edges = some (record { count = pos 0; edge = λ i. pos 0 })

abbrev pub micro_block : MicroBlock
micro_block = record {
  serial = 0;
  head = some 1;
  tail = some 3;
  next = λ i. if i == 3 then none else some (suc i);
  instruction = instruction_at;
  pred = no_edges;
  succ = no_edges;
}

abbrev pub microcode : Microcode
microcode = record {
  qty = 1;
  get_mblock = λ serial. some micro_block;
  badaddr = 18446744073709551615;
  map_fict_ea = none;
}

abbrev pub lvar_in : String → String → Lvar
lvar_in name register = record {
  lvar_name = name;
  lvar_width = 8;
  is_scattered = false;
  was_scattered_arg = false;
  is_shared = false;
  is_overlapped_var = false;
  is_used_byref = false;
  is_reg_var = true;
  is_stk_var = false;
  is_reg1 = true;
  is_reg2 = false;
  is_aliasable = false;
  has_reg1 = true;
  mreg_name = λ width. some register;
  processor_name = λ width. none;
  has_common = λ other. some false;
  get_stkoff = none;
  location_stkoff = none;
}

abbrev writes_to : String → NativeInsn
writes_to register = record {
  insn_size = 4;
  operands = some [];
  accesses =
      some
        ((record { is_write = true; bits = some (0, pos 64); reg_name = λ width. register }) ∷ []);
  call_insn = some false;
}

abbrev quiet : NativeInsn
quiet = record { insn_size = 4; operands = some []; accesses = some []; call_insn = some false }

abbrev pub decode_at : ℕ → Option NativeInsn
decode_at ea =
    if ea == 16
    then some (writes_to "rax")
    else if ea == 20
    then some (writes_to "rbx")
    else if ea == 24
    then some quiet
    else none

abbrev pub frame : Frame
frame = record {
  analyzed_sp = true;
  fuzzy_sp = false;
  stkoff_vd2ida = λ offset. some offset;
  stkoff_delta = none;
  spd = none;
  frame_off_retaddr = none;
}

abbrev pub flow_block : FlowBlock
flow_block = record { id = 0; start_ea = 16; end_ea = 28; preds = some []; succs = some [] }

abbrev pub ida : Ida
ida = record {
  has_apis = true;
  func_start = some 16;
  is_x64 = true;
  mba = some microcode;
  lvars = lvar_in "v0" "rax" ∷ lvar_in "v1" "rbx" ∷ [];
  decode = decode_at;
  flowchart = some (flow_block ∷ []);
  ctree_facts = [];
  badaddr = 18446744073709551615;
  frame = frame;
}

abbrev pub variable : ℕ → String → VariableRecord
variable index name = record {
  lvar_index = index;
  name = name;
  hexrays_kind = "local";
  type_string = "__int64";
  size = 8;
  is_arg = false;
  arg_index = none;
  location = "";
  function_ea = "0x10";
  function_start_ea = 16;
  value = "";
  status = "";
  confidence = "";
  reason = "";
  last_pc = "";
  current_pc = "";
  printed_location = "";
  current_ea = "";
  source_ea = "";
  storage_kind = "";
  storage = "";
  current_pc_seq = none;
  last_success_value = "";
  last_success_pc_seq = none;
  lvar_defea = "";
}
