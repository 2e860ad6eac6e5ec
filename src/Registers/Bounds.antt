-- ===== src/Registers/Bounds.antt =====
-- The bounds of the registers and of the stack addresses of ida_plugin/v_variable_recovery.py.
use dynvar_sync.Base.{
  both_true, ℕ, ◌+◌, ◌-◌, ◌*◌, ◌^◌, ◌≤◌, ◌<◌, ltb, leb, ◌&&◌, Bool, true, [], ◌∷◌, some, String, ℤ,
  pos, negsuc, ◌+ℤ◌, get, put, string_eq, all_of, ◌≡◌, ◌⊎◌, inl, inr, refl, arith, Bool-cases,
  str_eq, leb→le, subst,
}
use dynvar_sync.Value.{Value}
use dynvar_sync.Numbers.{int_text, format_hex, strip}
use dynvar_sync.Numbers.RoundTrip.{int_text-format_hex}
use dynvar_sync.Registers.{
  RegisterSpec, Specs, supported, build_register_specs, add_numbered, in_space,
  normalize_register_alias, parse_runtime_int, concrete_stack_address, Result, ok, raised,
  outside_space, lower_plain, add_range,
}

abbrev fits : RegisterSpec → Bool
fits spec = supported spec.width && leb (spec.bit_offset + spec.width * 8) 64

abbrev all_fit : Specs → Bool
all_fit = all_of (λ item. fits item.1)

get-fits :
    (name : String) (spec : RegisterSpec) (specs : Specs)
    → all_fit specs ≡ true
    → get name specs ≡ some spec
    → fits spec ≡ true
unfolding get
get-fits name spec [] h e = cc
get-fits name spec ((k, s) ∷ specs) h e = elim (Bool-cases (str_eq k name)) [
  | inl same ↦
      let one : s ≡ spec = cc (rw same at e) in subst (λ x. fits x ≡ true) one (both_true _ _ h).0
  | inr other ↦ get-fits name spec specs (both_true _ _ h).1 (rw other at e)
]

table_fits : all_fit build_register_specs ≡ true
unfolding build_register_specs add_range add_numbered put
table_fits = refl

-- Whatever spelling names a register, its part of the full register is 1, 2, 4 or 8 bytes wide and
-- lies within the 64 bits of the register.
pub alias-fits :
    (name : String) (spec : RegisterSpec)
    → normalize_register_alias name ≡ some spec
    → (supported spec.width ≡ true) × (spec.bit_offset + spec.width * 8 ≤ 64)
unfolding normalize_register_alias
alias-fits name spec h =
    let (wide, inside) =
      both_true _ _ (get-fits (lower_plain (strip name)) spec build_register_specs table_fits h) in
    (wide, leb→le _ _ inside)

-- What the sum of a stack pointer and an offset gives: an error below 0 and from 2^64 on, and
-- otherwise the text of the sum, which is read back as it.
abbrev pub IsPlaced : ℤ → Result String → Type 0
IsPlaced sum answer =
    ((m : ℕ) × (sum ≡ negsuc m) × (answer ≡ raised outside_space))
    ⊎ ((n : ℕ) × (sum ≡ pos n)
        × (((2 ^ 64 ≤ n) × (answer ≡ raised outside_space))
            ⊎ ((n < 2 ^ 64)
                × (answer ≡ ok (format_hex (pos n)))
                × (int_text (format_hex (pos n)) ≡ some (pos n)))))

in_space-IsPlaced : (z : ℤ) → IsPlaced z (in_space z)
unfolding in_space
in_space-IsPlaced (negsuc n) = inl (n, refl, refl)
in_space-IsPlaced (pos n) = elim (Bool-cases (ltb (2 ^ 64 - 1) n)) [
  | inl far ↦ inr (n, refl, inl (ground arith, rw far refl))
  | inr near ↦ inr (n, refl, inr (ground arith, rw near refl, int_text-format_hex (pos n)))
]

-- If the stack pointer is a number, then the address of a stack location is refused as outside the
-- address space exactly where the sum of the two is negative or is 2^64 or more, and is otherwise
-- the text of the sum, which is read back as it.
pub stack_address :
    (stack_pointer : Value) (sp offset : ℤ)
    → parse_runtime_int stack_pointer ≡ ok sp
    → IsPlaced (sp +ℤ offset) (concrete_stack_address stack_pointer offset)
unfolding concrete_stack_address
stack_address stack_pointer sp offset h = rw h (in_space-IsPlaced (sp +ℤ offset))
