-- ===== src/Registers/Memory.antt =====
-- `decode_little_endian` of ida_plugin/v_variable_recovery.py: `bytes.fromhex` and
-- `int.from_bytes(data, "little")`.
use dynvar_sync.Base.{
  ℕ, zero, suc, ◌+◌, ◌*◌, ◌/◌, ◌%◌, ◌^◌, ◌<◌, ltb, ◌==◌, true, List, [], ◌∷◌, Option, none, some,
  if◌then◌else◌, String, pos, length, All, ◌≡◌, refl, arith, ap, ◌∙◌,
}
use native.Mathlib.Numerals.{unary_clauses}
use dynvar_sync.Numbers.{digit_char, digit_value, is_space, format_hex}
use dynvar_sync.Numbers.RoundTrip.{digit_char-nonspace, digit_value-digit_char}
use dynvar_sync.Registers.{Result, ok, raised, unsupported_width, bad_bytes, wrong_size, supported}

abbrev hex_value : Option ℕ → Option ℕ
hex_value none = none
hex_value (some d) = if ltb d 16 then some d else none

abbrev add_byte : ℕ → Option (List ℕ) → Option (List ℕ)
add_byte b none = none
add_byte b (some bs) = some (b ∷ bs)

-- bytes.fromhex(s): pairs of digits, with spaces between the pairs. `high` is the first digit of a
-- pair that has begun.
unfoldable pub read_bytes : Option ℕ → String → Option (List ℕ)
unfolding digit_value
read_bytes none String.[] = some []
read_bytes (some d) String.[] = none
read_bytes none (String.◌∷◌ c s) =
    let rest = read_bytes none s in
    let begun : Option (List ℕ) = elim (hex_value (digit_value c)) [
      | none ↦ none
      | some d ↦ read_bytes (some d) s
    ] in
    if is_space c then rest else begun
read_bytes (some h) (String.◌∷◌ c s) =
    let rest = read_bytes none s in
    elim (hex_value (digit_value c)) [ none ↦ none | some d ↦ add_byte (h * 16 + d) rest ]

-- int.from_bytes(data, "little")
unfoldable pub from_little : List ℕ → ℕ
from_little [] = 0
from_little (b ∷ bs) = b + 256 * from_little bs

abbrev decode_bytes : Option (List ℕ) → ℕ → Result String
unfolding from_little format_hex
decode_bytes none width = raised bad_bytes
decode_bytes (some bytes) width =
    if length bytes == width
    then ok (format_hex (pos (from_little bytes)))
    else raised (wrong_size width (length bytes))

unfoldable pub decode_little_endian : String → ℕ → Result String
unfolding read_bytes decode_bytes
decode_little_endian bytes_hex width =
    if supported width
    then decode_bytes (read_bytes none bytes_hex) width
    else raised unsupported_width

-- The bytes of a number, the low one first, and their text.
unfoldable pub to_little : ℕ → ℕ → List ℕ
to_little zero n = []
to_little (suc width) n = (n % 256) ∷ to_little width (n / 256)

unfoldable pub bytes_text : List ℕ → String
bytes_text [] = ""
bytes_text (b ∷ bs) =
    String.◌∷◌ (digit_char (b / 16)) (String.◌∷◌ (digit_char (b % 16)) (bytes_text bs))

==_self : (a : ℕ) → (a == a) ≡ true
==_self a = ground arith

from-to_little : (width n : ℕ) → n < 256 ^ width → from_little (to_little width n) ≡ n
unfolding from_little to_little
from-to_little zero n h = ground arith
from-to_little (suc width) n h =
    let smaller : n / 256 < 256 ^ width =
      let h' : n < 256 ^ suc width = h in omega (arith, (simp unary_clauses at h')) in
    omega (arith, from-to_little width (n / 256) smaller)

length-to_little : (width n : ℕ) → length (to_little width n) ≡ width
unfolding to_little
length-to_little zero n = refl
length-to_little (suc width) n = ap suc (length-to_little width (n / 256))

read_high :
    (d : ℕ) (s : String)
    → d < 16
    → read_bytes none (String.◌∷◌ (digit_char d) s) ≡ read_bytes (some d) s
unfolding read_bytes
read_high d s h =
    let small : ltb d 16 ≡ true = ground arith in
    rw (digit_char-nonspace d h) (rw (digit_value-digit_char d h) (rw small refl))

read_low :
    (high d : ℕ) (s : String)
    → d < 16
    → read_bytes (some high) (String.◌∷◌ (digit_char d) s)
      ≡ add_byte (high * 16 + d) (read_bytes none s)
unfolding read_bytes
read_low high d s h =
    let small : ltb d 16 ≡ true = ground arith in
    rw (digit_value-digit_char d h, read_bytes) (rw small refl)

read_byte :
    (b : ℕ) (s : String)
    → b < 256
    → read_bytes none (String.◌∷◌ (digit_char (b / 16)) (String.◌∷◌ (digit_char (b % 16)) s))
      ≡ add_byte b (read_bytes none s)
read_byte b s h =
    read_high (b / 16) _ (omega arith)
    ∙ (read_low (b / 16) (b % 16) s (omega arith)
        ∙ ap (λ k. add_byte k (read_bytes none s)) (omega arith))

read-bytes_text : (bs : List ℕ) → All (λ b. b < 256) bs → read_bytes none (bytes_text bs) ≡ some bs
unfolding bytes_text read_bytes
read-bytes_text [] h = refl
read-bytes_text (b ∷ bs) h =
    read_byte b (bytes_text bs) h.0 ∙ ap (add_byte b) (read-bytes_text bs h.1)

All-to_little : (width n : ℕ) → All (λ b. b < 256) (to_little width n)
unfolding to_little
All-to_little zero n = tt
All-to_little (suc width) n = (omega arith, All-to_little width (n / 256))

-- A value that a width of 1, 2, 4 or 8 bytes holds is decoded from its bytes in memory order.
pub decode-bytes_text :
    (width n : ℕ)
    → supported width ≡ true
    → n < 256 ^ width
    → decode_little_endian (bytes_text (to_little width n)) width ≡ ok (format_hex (pos n))
unfolding decode_little_endian decode_bytes
decode-bytes_text width n s h = rw s (
    rw (read-bytes_text (to_little width n) (All-to_little width n))
      (rw (length-to_little width n, ==_self width, from-to_little width n h) refl))
