-- ===== src/Analysis/Native.antt =====
-- ida_plugin/v_variable_recovery.py: what the analysis reads out of the native instructions, and the
-- check that a stack slot keeps its value (`_native_stack_writes`, `_stack_definition_remains_valid`,
-- `_register_writes`, `_native_definition_uses_immediate`).
pub mod Slot
use dynvar_sync.Base.{
  ℕ, zero, suc, ◌+◌, ◌/◌, ◌==◌, ltb, leb, ℤ, pos, negsuc, ◌+ℤ◌, int_beq, Bool, true, false, ◌&&◌,
  ◌||◌, not, List, [], ◌∷◌, any_of, keep, ◌++◌, Option, none, some, ◌>>=◌, String, str_eq,
  if◌then◌else◌,
}
use dynvar_sync.Registers.{RegisterSpec, normalize_register_alias}
use dynvar_sync.Value.{member}
use dynvar_sync.Recovery.Begin.{full_register_order}
use dynvar_sync.Cfg.Storage.{RegisterWrite}
use dynvar_sync.Analysis.Claims.{int_ltb}

pub data OperandType : Type 0 where
  o_void o_phrase o_displ o_imm o_other : OperandType

-- An operand of IDA, with what `has_cf_chg` and `has_cf_use` say of it; the offset in the frame is
-- `none` where IDA raises.
pub record NativeOperand : Type 0 where
  pub operand_type : OperandType
  pub is_changed : Bool
  pub is_used : Bool
  pub frame_offset : Option ℤ
  pub dtype_size : ℤ

-- An access of IDA's `reg_accesses_t`: the bits are `none` where it has no range, and the name is that
-- of the register at a width in bytes.
pub record RegisterAccess : Type 0 where
  pub is_write : Bool
  pub bits : Option (ℕ × ℤ)
  pub reg_name : ℕ → String

-- A decoded instruction; `none` is an exception or an answer that IDA does not have.
pub record NativeInsn : Type 0 where
  pub insn_size : ℕ
  pub operands : Option (List NativeOperand)
  pub accesses : Option (List RegisterAccess)
  pub call_insn : Option Bool

abbrev pub is_memory : OperandType → Bool
is_memory o_phrase = true
is_memory o_displ = true
is_memory kind = false

abbrev pub is_void : OperandType → Bool
is_void o_void = true
is_void kind = false

abbrev pub is_imm : OperandType → Bool
is_imm o_imm = true
is_imm kind = false

abbrev pub slot_of : ℕ → Option ℤ → ℤ → Option (ℕ × ℕ)
slot_of badaddr (some (pos offset)) (pos (suc size)) =
    if offset == badaddr then none else some (offset, suc size)
slot_of badaddr offset size = none

-- _native_stack_writes; `none` is `False, []`.
unfoldable pub stack_writes : ℕ → List NativeOperand → Option (List (ℕ × ℕ))
stack_writes badaddr [] = some []
stack_writes badaddr (operand ∷ operands) =
    let rest = stack_writes badaddr operands in
    if is_void operand.operand_type
    then some []
    else if not operand.is_changed || not (is_memory operand.operand_type)
    then rest
    else slot_of badaddr operand.frame_offset operand.dtype_size >>= λ write.
        rest >>= λ writes. some (write ∷ writes)

unfoldable pub native_stack_writes : ℕ → NativeInsn → Option (List (ℕ × ℕ))
unfolding stack_writes
native_stack_writes badaddr insn = insn.operands >>= stack_writes badaddr

-- _native_definition_uses_immediate
unfoldable pub uses_immediate : List NativeOperand → Bool
uses_immediate [] = false
uses_immediate (operand ∷ operands) =
    let rest = uses_immediate operands in
    if is_void operand.operand_type
    then false
    else (is_imm operand.operand_type && operand.is_used) || rest

unfoldable pub native_definition_uses_immediate : NativeInsn → Bool
unfolding uses_immediate
native_definition_uses_immediate insn = elim insn.operands [
  | none ↦ false
  | some operands ↦ uses_immediate operands
]

-- `offset < target_end and target_start < offset + size`
unfoldable pub slot_overlaps : ℤ → ℕ → ℕ × ℕ → Bool
unfolding ◌+ℤ◌
slot_overlaps start width (offset, size) =
    int_ltb (pos offset) (start +ℤ pos width) && int_ltb start (pos (offset + size))

-- `offset <= target_start and offset + size >= target_end`
unfoldable pub slot_covered : ℤ → ℕ → ℕ × ℕ → Bool
unfolding ◌+ℤ◌
slot_covered start width (offset, size) =
    not (int_ltb start (pos offset)) && not (int_ltb (pos (offset + size)) (start +ℤ pos width))

-- The writes of the instruction are as they have to be: the first writes the whole slot, the others
-- nothing of it.
unfoldable pub writes_good : ℤ → ℕ → Bool → List (ℕ × ℕ) → Bool
unfolding slot_overlaps slot_covered
writes_good start width true writes =
    any_of (slot_covered start width) (keep (slot_overlaps start width) writes)
writes_good start width false writes = not (any_of (slot_overlaps start width) writes)

module _ (badaddr : ℕ) (decode : ℕ → Option NativeInsn) (current_ea : ℕ) (start : ℤ)
    (width : ℕ) where
  abbrev pub checked : Bool → ℕ → Option (List (ℕ × ℕ)) → Option ℕ
  unfolding writes_good
  checked first size none = none
  checked first size (some writes) =
      if writes_good start width first writes then some size else none

  -- The instruction has a size, known writes, and they are as they have to be. The result is the size.
  abbrev pub step_of : Bool → Option NativeInsn → Option ℕ
  unfolding native_stack_writes writes_good
  step_of first none = none
  step_of first (some insn) =
      if insn.insn_size == 0
      then none
      else checked first insn.insn_size (native_stack_writes badaddr insn)

  -- The loop of `_stack_definition_remains_valid`, with the rounds that are left.
  unfoldable pub slot_kept : ℕ → ℕ → Bool → Bool
  unfolding native_stack_writes writes_good
  slot_kept zero ea first = false
  slot_kept (suc rounds) ea first = elim (leb current_ea ea) [
    | true ↦ not first
    | false ↦ elim (step_of first (decode ea)) [
      | none ↦ false
      | some size ↦ slot_kept rounds (ea + size) false
    ]
  ]

  -- _stack_definition_remains_valid
  unfoldable pub stack_definition_remains_valid : ℕ → Bool
  unfolding slot_kept
  stack_definition_remains_valid definition_ea = slot_kept 4096 definition_ea true

-- A range that starts at bit 0 is that of the register's own part, and a write of the low 32 bits
-- clears the others.
abbrev pub write_at : RegisterSpec → ℕ → ℕ → RegisterWrite
write_at spec bit_offset bit_size =
    let offset = if bit_offset == 0 then spec.bit_offset else bit_offset in
    record {
      full_register = spec.full_register;
      bit_offset = offset;
      bit_size =
          if (offset == 0) && (bit_size == 32) && member spec.full_register full_register_order
          then 64
          else bit_size;
    }

abbrev pub byte_width : ℕ → ℕ
byte_width bit_size = if leb ((bit_size + 7) / 8) 1 then 1 else (bit_size + 7) / 8

abbrev pub listed_write : Option RegisterSpec → ℕ → ℕ → List RegisterWrite
listed_write none bit_offset bit_size = []
listed_write (some spec) bit_offset bit_size = write_at spec bit_offset bit_size ∷ []

-- The write of one access: none of a register that is no general one. `none` is an unknown range.
unfoldable pub access_writes : RegisterAccess → Option (ℕ × ℤ) → Option (List RegisterWrite)
unfolding normalize_register_alias
access_writes access (some (bit_offset, pos (suc bits))) = some (
    listed_write (normalize_register_alias (access.reg_name (byte_width (suc bits)))) bit_offset
      (suc bits))
access_writes access bits = none

unfoldable pub each_write : List RegisterAccess → Option (List RegisterWrite)
unfolding access_writes
each_write [] = some []
each_write (access ∷ accesses) =
    let rest = each_write accesses in
    if access.is_write
    then (access_writes access access.bits >>= λ writes. rest >>= λ others. some (writes ++ others))
    else rest

-- _register_writes; `none` is `False, []`.
unfoldable pub register_writes : NativeInsn → Option (List RegisterWrite)
unfolding each_write
register_writes insn = insn.accesses >>= each_write
