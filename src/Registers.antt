-- ===== src/Registers.antt =====
-- The registers of ida_plugin/v_variable_recovery.py and the values that are cut out of them
-- (`RegisterSpec`, `REGISTER_SPECS`, `normalize_register_alias`, `extract_register_value`,
-- `decode_little_endian`, `concrete_stack_address`, `_format_constant`).
pub mod Memory
pub mod Bounds
pub mod Parts
pub mod Examples
use dynvar_sync.Base.{
  ℕ, zero, suc, ◌+◌, ◌-◌, ◌*◌, ◌/◌, ◌%◌, ◌^◌, ltb, leb, ◌==◌, ◌&&◌, ◌||◌, Bool, true, false, List,
  [], ◌∷◌, Option, none, some, if◌then◌else◌, String, ◌<+>◌, ℤ, pos, negsuc, length, ◌+ℤ◌, Dict,
  get, put, string_eq, any_of,
}
use Prim.Native.String
use Prim.Native.Char.{Char, code, char}
use dynvar_sync.Value.{Value, bool, num, str}
use dynvar_sync.Numbers.{decimal, format_hex, int_text, strip}

pub record RegisterSpec : Type 0 where
  pub alias : String
  pub full_register : String
  pub width : ℕ
  pub bit_offset : ℕ

-- The ValueErrors of this component. `str(exc)` becomes a part of a reason.
pub data Failure : Type 0 where
  unsupported_width too_wide boolean bad_bytes outside_space : Failure
  bad_literal : String → Failure
  not_integer : Value → Failure
  wrong_size : ℕ → ℕ → Failure

pub data Result {ℓ} (A : Type ℓ) : Type ℓ where
  ok : A → Result A
  raised : Failure → Result A

abbrev bind {ℓ κ} : {A : Type ℓ} {B : Type κ} → Result A → (A → Result B) → Result B
bind (ok a) f = f a
bind (raised e) f = raised e

-- str(exc), where `repr` is Python's `repr`.
unfoldable pub message : (Value → String) → Failure → String
unfolding decimal
message repr unsupported_width = "unsupported_value_width"
message repr too_wide = "variable width exceeds the proven register location"
message repr boolean = "boolean is not a runtime integer"
message repr bad_bytes = "invalid memory response bytes"
message repr outside_space = "resolved stack address is outside the x64 address space"
message repr (bad_literal s) = "invalid literal for int() with base 0: " <+> repr (str s)
message repr (not_integer v) = "expected an integer-compatible runtime value, got " <+> repr v
message repr (wrong_size expected actual) =
    "memory response size mismatch expected=" <+> decimal expected <+> " actual=" <+> decimal actual

-- width in SUPPORTED_WIDTHS
abbrev pub supported : ℕ → Bool
supported width = width == 1 || width == 2 || width == 4 || width == 8

abbrev Specs : Type 0
Specs = Dict String RegisterSpec

abbrev add_spec : String → String → ℕ → ℕ → Specs → Specs
add_spec alias full width bit_offset specs =
    put alias
      (record { alias = alias; full_register = full; width = width; bit_offset = bit_offset }) specs

abbrev add_legacy : String → String → String → String → String → Specs → Specs
add_legacy full dword word low high specs = add_spec high full 1 8 (
    add_spec low full 1 0
      (add_spec word full 2 0 (add_spec dword full 4 0 (add_spec full full 8 0 specs))))

abbrev add_pointer : String → String → String → String → Specs → Specs
add_pointer full dword word byte specs =
    add_spec byte full 1 0
      (add_spec word full 2 0 (add_spec dword full 4 0 (add_spec full full 8 0 specs)))

-- f"r{number}" and its parts
unfoldable pub add_numbered : ℕ → Specs → Specs
unfolding decimal
add_numbered number specs =
    let full = "r" <+> decimal number in
    add_pointer full (full <+> "d") (full <+> "w") (full <+> "b") specs

-- `for number in range(start, start + count)`
unfoldable pub add_range : ℕ → ℕ → Specs → Specs
add_range zero start specs = specs
add_range (suc count) start specs = add_range count (suc start) (add_numbered start specs)

unfoldable pub build_register_specs : Specs
unfolding put add_range add_numbered
build_register_specs = add_range 8 8 (
    add_pointer "rsp" "esp" "sp" "spl" (
      add_pointer "rbp" "ebp" "bp" "bpl" (
        add_pointer "rdi" "edi" "di" "dil" (
          add_pointer "rsi" "esi" "si" "sil" (
            add_legacy "rdx" "edx" "dx" "dl" "dh" (
              add_legacy "rcx" "ecx" "cx" "cl" "ch" (
                add_legacy "rbx" "ebx" "bx" "bl" "bh"
                  (add_legacy "rax" "eax" "ax" "al" "ah" []))))))))

-- One ASCII letter in lower case.
abbrev lower_of : List (ℕ × Char) → ℕ → Char → Char
lower_of [] n c = c
lower_of ((m, d) ∷ table) n c = if m == n then d else lower_of table n c

abbrev pub letters : List (ℕ × Char)
letters =
    (65, "a")
    ∷ (66, "b")
    ∷ (67, "c")
    ∷ (68, "d")
    ∷ (69, "e")
    ∷ (70, "f")
    ∷ (71, "g")
    ∷ (72, "h")
    ∷ (73, "i")
    ∷ (74, "j")
    ∷ (75, "k")
    ∷ (76, "l")
    ∷ (77, "m")
    ∷ (78, "n")
    ∷ (79, "o")
    ∷ (80, "p")
    ∷ (81, "q")
    ∷ (82, "r")
    ∷ (83, "s")
    ∷ (84, "t")
    ∷ (85, "u")
    ∷ (86, "v")
    ∷ (87, "w")
    ∷ (88, "x")
    ∷ (89, "y")
    ∷ (90, "z")
    ∷ []

-- `.lower().replace("`", "")`
unfoldable pub lower_plain : String → String
lower_plain String.[] = ""
lower_plain (String.◌∷◌ c s) =
    let rest = lower_plain s in
    if code c == b'`' then rest else String.◌∷◌ (lower_of letters (code c) c) rest

unfoldable pub normalize_register_alias : String → Option RegisterSpec
unfolding get lower_plain strip build_register_specs
normalize_register_alias name = get (lower_plain (strip name)) build_register_specs

unfoldable pub parse_runtime_int : Value → Result ℤ
unfolding int_text
parse_runtime_int (bool b) = raised boolean
parse_runtime_int (num z) = ok z
parse_runtime_int (str s) = elim (int_text s) [ none ↦ raised (bad_literal s) | some z ↦ ok z ]
parse_runtime_int value = raised (not_integer value)

-- z >> k
unfoldable pub shift_right : ℤ → ℕ → ℤ
shift_right (pos n) k = pos (n / 2 ^ k)
shift_right (negsuc n) k = negsuc (n / 2 ^ k)

-- z & ((1 << k) - 1)
unfoldable pub low_bits : ℤ → ℕ → ℕ
low_bits (pos n) k = n % 2 ^ k
low_bits (negsuc n) k = 2 ^ k - 1 - n % 2 ^ k

unfoldable pub extract_register_value : Value → RegisterSpec → ℕ → Result String
unfolding parse_runtime_int shift_right low_bits format_hex
extract_register_value value spec width =
    if supported width
    then (if ltb spec.width width
        then raised too_wide
        else bind (parse_runtime_int value) (λ number.
          ok (format_hex (pos (low_bits (shift_right number spec.bit_offset) (width * 8))))))
    else raised unsupported_width

-- An address of the 64-bit space.
unfoldable pub in_space : ℤ → Result String
unfolding format_hex
in_space (negsuc n) = raised outside_space
in_space (pos n) = if ltb (2 ^ 64 - 1) n then raised outside_space else ok (format_hex (pos n))

unfoldable pub concrete_stack_address : Value → ℤ → Result String
unfolding parse_runtime_int ◌+ℤ◌ in_space
concrete_stack_address stack_pointer stack_pointer_offset =
    bind (parse_runtime_int stack_pointer) (λ sp. in_space (sp +ℤ stack_pointer_offset))

unfoldable pub format_constant : ℤ → ℕ → Result String
unfolding low_bits format_hex
format_constant value width =
    if supported width
    then ok (format_hex (pos (low_bits value (width * 8))))
    else raised unsupported_width
