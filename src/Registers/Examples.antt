-- ===== src/Registers/Examples.antt =====
-- Reads of the register parts of ida_plugin/v_variable_recovery.py.
use dynvar_sync.Base.{ℕ, ◌+◌, ◌*◌, ◌^◌, ◌<◌, some, pos, ◌≡◌, refl}
use dynvar_sync.Value.{num}
use dynvar_sync.Numbers.{int_text, format_hex}
use dynvar_sync.Registers.{
  RegisterSpec, extract_register_value, parse_runtime_int, ok, shift_right, low_bits,
}
use dynvar_sync.Registers.Parts.{register_part}

abbrev second_byte : RegisterSpec
second_byte = record { alias = "ah"; full_register = "rax"; width = 1; bit_offset = 8 }

rax_read : parse_runtime_int (num (pos 4660)) ≡ ok (pos 4660)
unfolding parse_runtime_int
rax_read = refl

second_byte_read : extract_register_value (num (pos 4660)) second_byte 1 ≡ ok (format_hex (pos 18))
unfolding extract_register_value parse_runtime_int shift_right low_bits
second_byte_read = refl

register_part_example :
    (high : ℕ) × (own : ℕ) × (low : ℕ) × (4660 ≡ (high * 2 ^ 8 + own) * 2 ^ 8 + low)
    × (own < 2 ^ 8)
    × (low < 2 ^ 8)
    × (extract_register_value (num (pos 4660)) second_byte 1 ≡ ok (format_hex (pos own)))
    × (int_text (format_hex (pos own)) ≡ some (pos own))
register_part_example = register_part (num (pos 4660)) second_byte 4660 1 rax_read refl refl
