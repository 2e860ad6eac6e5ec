-- ===== src/Analysis/Variables.antt =====
-- ida_plugin/v_variable_recovery.py: what the analysis asks of a local variable of Hex-Rays
-- (`_register_spec_from_lvar`, `_current_rsp_location_for_lvar`, `_unavailable_location_evidence`).
use dynvar_sync.Base.{
  or_else, ℕ, suc, leb, ltb, ℤ, pos, negsuc, pos_part, neg_part, ◌+ℤ◌, ◌-ℤ◌, ◌+◌, Bool, ◌||◌, not,
  List, [], ◌∷◌, ◌++◌, Option, none, some, ◌>>=◌, String, ◌<+>◌, if◌then◌else◌,
}
use dynvar_sync.Numbers.{format_hex}
use dynvar_sync.Registers.{RegisterSpec, normalize_register_alias}
use dynvar_sync.Recovery.{RecoveryEvidence}
use dynvar_sync.Analysis.Claims.{no_evidence}

-- A local variable (`lvar_t`). A test is `false` where IDA has none or raises, `is_aliasable` is `true`;
-- other answers are `none` there.
pub record Lvar : Type 0 where
  pub lvar_name : String
  pub lvar_width : ℕ
  pub is_scattered : Bool
  pub was_scattered_arg : Bool
  pub is_shared : Bool
  pub is_overlapped_var : Bool
  pub is_used_byref : Bool
  pub is_reg_var : Bool
  pub is_stk_var : Bool
  pub is_reg1 : Bool
  pub is_reg2 : Bool
  pub is_aliasable : Bool
  pub has_reg1 : Bool
  -- get_mreg_name(get_reg1(), width), and the name of the processor's register
  pub mreg_name : ℕ → Option String
  pub processor_name : ℕ → Option String
  pub has_common : ℤ → Option Bool
  pub get_stkoff : Option ℤ
  pub location_stkoff : Option ℤ

-- What IDA knows of the frame of the function at the current address.
pub record Frame : Type 0 where
  pub analyzed_sp : Bool
  pub fuzzy_sp : Bool
  pub stkoff_vd2ida : ℤ → Option ℤ
  pub stkoff_delta : Option ℤ
  pub spd : Option ℤ
  pub frame_off_retaddr : Option ℤ

unfoldable pub first_spec : ℕ → List String → Option RegisterSpec
unfolding normalize_register_alias
first_spec width [] = none
first_spec width (name ∷ names) =
    let rest = first_spec width names in
    elim (normalize_register_alias name) [
      | none ↦ rest
      | some spec ↦ if leb width spec.width then some spec else rest
    ]

abbrev pub names_of : Option String → List String
names_of none = []
names_of (some name) = name ∷ []

-- _register_spec_from_lvar
unfoldable pub register_spec_from_lvar : Lvar → ℕ → Option RegisterSpec
unfolding first_spec
register_spec_from_lvar lvar width =
    if not lvar.is_reg1 || lvar.is_reg2 || not lvar.has_reg1
    then none
    else first_spec width (names_of (lvar.mreg_name width) ++ names_of (lvar.processor_name width))

abbrev pub non_negative : ℤ → Option ℤ
non_negative (pos n) = some (pos n)
non_negative (negsuc n) = none

-- -sp_delta + ida_offset - return_offset, with the offset of IDA
unfoldable pub rsp_offset : Frame → ℤ → Option (ℤ × ℤ)
unfolding ◌+ℤ◌ ◌-ℤ◌
rsp_offset frame ida_offset = frame.spd >>= λ delta.
    frame.frame_off_retaddr >>= λ ret. some (((pos 0 -ℤ delta) +ℤ ida_offset) -ℤ ret, ida_offset)

unfoldable pub decompiler_offset : Lvar → Frame → Option (ℤ × ℤ)
unfolding rsp_offset
decompiler_offset lvar frame =
    lvar.get_stkoff >>= non_negative >>= frame.stkoff_vd2ida >>= rsp_offset frame

unfoldable pub location_offset : Lvar → Frame → Option (ℤ × ℤ)
unfolding rsp_offset ◌-ℤ◌
location_offset lvar frame =
    lvar.location_stkoff >>= λ raw. frame.stkoff_delta >>= λ delta. rsp_offset frame (raw -ℤ delta)

-- abs(offset) > 0x1000000
abbrev pub is_far : ℤ → Bool
is_far offset = ltb 16777216 (pos_part offset + neg_part offset)

abbrev pub near : ℤ × ℤ → Option (ℤ × ℤ)
near (rsp, ida_offset) = if is_far rsp then none else some (rsp, ida_offset)

-- _current_rsp_location_for_lvar; `none` is the rejection as an unresolved place on the stack.
unfoldable pub current_rsp_location_for_lvar : Lvar → Frame → Option (ℤ × ℤ)
unfolding decompiler_offset location_offset
current_rsp_location_for_lvar lvar frame =
    if not frame.analyzed_sp || frame.fuzzy_sp
    then none
    else or_else (decompiler_offset lvar frame) (location_offset lvar frame) >>= near

abbrev pub alias_or_ambiguous : Option RegisterSpec → String
alias_or_ambiguous none = "ambiguous"
alias_or_ambiguous (some spec) = spec.alias

abbrev pub evidence_at : ℕ → ℕ → String → String → String → RecoveryEvidence
evidence_at index width reason storage_kind storage = record (no_evidence index reason) {
  storage_kind = storage_kind;
  storage = storage;
  width = width;
}

-- _unavailable_location_evidence; the variable is `none` where its index is out of range.
unfoldable pub unavailable_location_evidence : Option Lvar → ℕ → ℕ → String → RecoveryEvidence
unfolding register_spec_from_lvar
unavailable_location_evidence none index width reason = evidence_at index width reason "unknown" ""
unavailable_location_evidence (some lvar) index width reason =
    if lvar.is_scattered || lvar.was_scattered_arg
    then evidence_at index width reason "scattered" "scattered"
    else if lvar.is_reg_var
    then evidence_at index width reason "register"
        (alias_or_ambiguous (register_spec_from_lvar lvar width))
    else if lvar.is_stk_var
    then evidence_at index width reason "stack" "stack:unresolved"
    else evidence_at index width reason "unknown" ""

-- f"{offset:+#x}"
unfoldable pub signed_hex : ℤ → String
unfolding format_hex
signed_hex (pos n) = "+" <+> format_hex (pos n)
signed_hex (negsuc n) = "-" <+> format_hex (pos (suc n))
