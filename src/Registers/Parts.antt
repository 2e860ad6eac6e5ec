-- ===== src/Registers/Parts.antt =====
-- The part of a register that a variable stands in (`extract_register_value` of
-- ida_plugin/v_variable_recovery.py).
use dynvar_sync.Base.{
  ℕ, zero, suc, ◌+◌, ◌*◌, ◌/◌, ◌%◌, ◌^◌, ◌<◌, ltb, true, false, some, pos, ◌≡◌, refl, sym, arith,
}
use dynvar_sync.Value.{Value}
use dynvar_sync.Numbers.{int_text, format_hex}
use dynvar_sync.Numbers.RoundTrip.{int_text-format_hex}
use dynvar_sync.Registers.{
  RegisterSpec, supported, shift_right, low_bits, extract_register_value, parse_runtime_int, ok,
}

positive_power : (k : ℕ) → 0 < 2 ^ k
positive_power zero = omega arith
positive_power (suc k) = let ih = positive_power k in omega arith

split_at : (v p : ℕ) → 0 < p → v ≡ v / p * p + v % p
split_at v p h = omega arith

below : (v p : ℕ) → 0 < p → v % p < p
below v p h = omega arith

reassembled : (v p q : ℕ) → 0 < p → 0 < q → v ≡ (v / p / q * q + v / p % q) * p + v % p
reassembled v p q hp hq = rw (sym (split_at (v / p) q hq)) (split_at v p hp)

-- A register that holds v is the bits above the variable's, the variable's own and those below it.
-- If the width is supported and at most that of the register's part, then the variable's own bits
-- are what is extracted, as a text that is read back as them.
pub register_part :
    (value : Value) (spec : RegisterSpec) (v width : ℕ)
    → parse_runtime_int value ≡ ok (pos v)
    → supported width ≡ true
    → ltb spec.width width ≡ false
    → (high : ℕ) × (own : ℕ) × (low : ℕ) × (v
        ≡ (high * 2 ^ (width * 8) + own) * 2 ^ spec.bit_offset + low)
      × (own < 2 ^ (width * 8))
      × (low < 2 ^ spec.bit_offset)
      × (extract_register_value value spec width ≡ ok (format_hex (pos own)))
      × (int_text (format_hex (pos own)) ≡ some (pos own))
unfolding extract_register_value shift_right low_bits
register_part value spec v width number wide inside =
    let upper = v / 2 ^ spec.bit_offset in
    let own = upper % 2 ^ (width * 8) in
    (
      upper / 2 ^ (width * 8),
      own,
      v % 2 ^ spec.bit_offset,
      reassembled v _ _ (positive_power spec.bit_offset) (positive_power (width * 8)),
      below upper _ (positive_power (width * 8)),
      below v _ (positive_power spec.bit_offset),
      rw wide (rw inside (rw number refl)),
      int_text-format_hex (pos own),
    )
