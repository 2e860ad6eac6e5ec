-- ===== src/AddressMapping.antt =====
-- ida_plugin/address_mapping.py. A call that raises ValueError or KeyError returns none.
use dynvar_sync.Base.{
  ◌>>=◌, ℤ, ◌+ℤ◌, ◌-ℤ◌, String, Option, none, some, ◌≡◌, arith, eq_of_parts, +ℤ_parts, -ℤ_parts,
}
use dynvar_sync.Value.{Value, str, Fields, as_int, as_str, find_field}
use dynvar_sync.Numbers.{int_text, format_hex}
use dynvar_sync.Numbers.RoundTrip.{readable, int_text-format_hex}

pub record PcMapping : Type 0 where
  pub pc_seq : ℤ
  pub runtime_pc : ℤ
  pub runtime_module_base : ℤ
  pub ida_imagebase : ℤ
  pub ida_ea : ℤ
  pub module_name : String

unfoldable parse_text : Option String → Option ℤ
unfolding int_text
parse_text none = none
parse_text (some s) = int_text s

unfoldable pub parse_int : Value → Option ℤ
unfolding as_int as_str parse_text
parse_int value = elim (as_int value) [ none ↦ parse_text (as_str value) | some z ↦ some z ]

-- payload[k], read by `parse_int`
unfoldable int_field : String → Fields → Option ℤ
unfolding find_field parse_int
int_field k payload = elim (find_field k payload) [ none ↦ none | some value ↦ parse_int value ]

unfoldable pub runtime_pc_to_ida_ea : ℤ → ℤ → ℤ → ℤ
unfolding ◌+ℤ◌ ◌-ℤ◌
runtime_pc_to_ida_ea runtime_pc runtime_module_base ida_imagebase =
    ida_imagebase +ℤ (runtime_pc -ℤ runtime_module_base)

-- `str_of` is Python's `str`, and `module_default` is `payload.get("module", "")`.
unfoldable pub map_pc_update : (Value → String) → Fields → ℤ → Option PcMapping
unfolding runtime_pc_to_ida_ea find_field int_field
map_pc_update str_of payload ida_imagebase = do
  pc_seq ← int_field "pc_seq" payload
  runtime_pc ← int_field "pc" payload
  runtime_module_base ← int_field "runtime_module_base" payload
  some (record {
    pc_seq = pc_seq;
    runtime_pc = runtime_pc;
    runtime_module_base = runtime_module_base;
    ida_imagebase = ida_imagebase;
    ida_ea = runtime_pc_to_ida_ea runtime_pc runtime_module_base ida_imagebase;
    module_name = elim (find_field "module" payload) [ none ↦ "" | some m ↦ str_of m ];
  })

-- An address text that the plugin writes is read back as the same address if it is not negative; the
-- text of a negative one is refused.
pub parse_int-format_hex : (z : ℤ) → parse_int (str (format_hex z)) ≡ readable z
unfolding parse_int parse_text as_int as_str
parse_int-format_hex z = int_text-format_hex z

-- The distance of an address from the base of its module is the same on both sides.
pub offset_kept :
    (runtime_pc base imagebase : ℤ)
    → runtime_pc_to_ida_ea runtime_pc base imagebase -ℤ imagebase ≡ runtime_pc -ℤ base
unfolding runtime_pc_to_ida_ea
offset_kept runtime_pc base imagebase =
    let d = runtime_pc -ℤ base in
    eq_of_parts _ _ (
      omega (
        arith,
        -ℤ_parts runtime_pc base,
        +ℤ_parts imagebase d,
        -ℤ_parts (imagebase +ℤ d) imagebase,
      ))
