-- ===== src/Analysis/Claims.antt =====
-- ida_plugin/v_variable_recovery.py: `_reject_duplicate_storage_claims`.
pub mod Disjoint
use dynvar_sync.Base.{
  ℕ, ◌+◌, ◌*◌, ltb, ℤ, pos, pos_part, neg_part, ◌+ℤ◌, Bool, true, false, ◌&&◌, not, List, [], ◌∷◌,
  Option, none, some, String, str_eq, Dict, put, nat_eq, if◌then◌else◌,
}
use dynvar_sync.Registers.{RegisterSpec}
use dynvar_sync.Recovery.{RecoveryEvidence}

abbrev pub int_ltb : ℤ → ℤ → Bool
int_ltb a b = ltb (pos_part a + neg_part b) (pos_part b + neg_part a)

-- RecoveryEvidence(index, reason=reason)
abbrev pub no_evidence : ℕ → String → RecoveryEvidence
no_evidence index reason = record {
  lvar_index = index;
  storage_kind = "unknown";
  storage = "";
  source_ea = none;
  confidence = "unknown";
  reason = reason;
  register = none;
  stack_pointer_offset = none;
  constant_value = none;
  width = 0;
}

-- Both are parts of one full register.
unfoldable pub same_register : Option RegisterSpec → Option RegisterSpec → Bool
same_register (some left) (some right) = str_eq left.full_register right.full_register
same_register _ _ = false

abbrev pub bit_start : Option RegisterSpec → ℕ
bit_start none = 0
bit_start (some register) = register.bit_offset

-- `left_start < right_end and right_start < left_end`, of the bits of registers
unfoldable pub bits_overlap : RecoveryEvidence → RecoveryEvidence → Bool
bits_overlap left right =
    ltb (bit_start left.register) (bit_start right.register + right.width * 8)
    && ltb (bit_start right.register) (bit_start left.register + left.width * 8)

-- The same of two places on the stack.
unfoldable pub slots_overlap : Option ℤ → ℕ → Option ℤ → ℕ → Bool
unfolding ◌+ℤ◌
slots_overlap (some left) left_width (some right) right_width =
    int_ltb left (right +ℤ pos right_width) && int_ltb right (left +ℤ pos left_width)
slots_overlap _ _ _ _ = false

-- The reason to reject both claims.
unfoldable pub conflict : RecoveryEvidence → RecoveryEvidence → Option String
unfolding same_register bits_overlap slots_overlap
conflict left right =
    if not (str_eq left.storage_kind right.storage_kind)
    then none
    else if str_eq left.storage_kind "register" && same_register left.register right.register
    then (if bits_overlap left right then some "ambiguous_register_location" else none)
    else if str_eq left.storage_kind "stack"
        && slots_overlap left.stack_pointer_offset left.width right.stack_pointer_offset right.width
    then some "unresolved_stack_location"
    else none

abbrev pub Claims : Type 0
Claims = Dict ℕ RecoveryEvidence

unfoldable pub reject_both : Option String → ℕ → ℕ → Dict ℕ String → Dict ℕ String
reject_both none i j rejected = rejected
reject_both (some reason) i j rejected = put j reason (put i reason rejected)

-- One claim against those after it.
unfoldable pub reject_after : ℕ → RecoveryEvidence → Claims → Dict ℕ String → Dict ℕ String
unfolding reject_both conflict
reject_after i left [] rejected = rejected
reject_after i left ((j, right) ∷ claims) rejected =
    reject_after i left claims (reject_both (conflict left right) i j rejected)

unfoldable pub reject_pairs : Claims → Dict ℕ String → Dict ℕ String
unfolding reject_after
reject_pairs [] rejected = rejected
reject_pairs ((i, left) ∷ claims) rejected =
    reject_pairs claims (reject_after i left claims rejected)

unfoldable pub withdraw : Dict ℕ String → Claims → Claims
withdraw [] claims = claims
withdraw ((i, reason) ∷ rejected) claims = withdraw rejected (put i (no_evidence i reason) claims)

-- _reject_duplicate_storage_claims
unfoldable pub reject_duplicate_storage_claims : Claims → Claims
unfolding reject_pairs withdraw
reject_duplicate_storage_claims claims = withdraw (reject_pairs claims []) claims
