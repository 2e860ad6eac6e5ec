-- ===== src/Numbers.antt =====
-- How ida_plugin/address_mapping.py, ida_plugin/dynvar_core.py and
-- ida_plugin/v_variable_recovery.py write and read numbers as texts: `f"0x{n:x}"`, `int(s, 0)`,
-- `bytes.fromhex` and `int.from_bytes`, on ASCII texts.
pub mod RoundTrip
use dynvar_sync.Base.{
  ℕ, zero, suc, ◌+◌, ◌-◌, ◌*◌, ◌/◌, ◌%◌, ◌^◌, ltb, leb, ◌==◌, ◌&&◌, ◌||◌, Bool, true, false, List,
  [], ◌∷◌, Option, none, some, if◌then◌else◌, String, ◌<+>◌, ℤ, pos, negsuc, length, get_or,
}
use Prim.Native.String
use Prim.Native.Char.{Char, code}

unfoldable pub digit_char : ℕ → Char
digit_char n =
    get_or
      ("0" ∷ "1" ∷ "2" ∷ "3" ∷ "4" ∷ "5" ∷ "6" ∷ "7" ∷ "8" ∷ "9" ∷ "a" ∷ "b" ∷ "c" ∷ "d" ∷ "e" ∷ "f"
        ∷ [])
      n "0"

-- What a digit is worth; `none` where the character is no digit of any base.
unfoldable pub digit_value : Char → Option ℕ
digit_value c =
    if leb 48 (code c) && leb (code c) 57
    then some (code c - 48)
    else if leb 97 (code c) && leb (code c) 122
    then some (code c - 87)
    else if leb 65 (code c) && leb (code c) 90
    then some (code c - 55)
    else none

-- The digits of a number, before a text. A number has fewer digits than the fuel `suc n`.
unfoldable pub hex_digits : ℕ → ℕ → String → String
unfolding digit_char
hex_digits zero n s = s
hex_digits (suc fuel) n s =
    let rest = hex_digits fuel (n / 16) (String.◌∷◌ (digit_char (n % 16)) s) in
    if ltb n 16 then String.◌∷◌ (digit_char n) s else rest

unfoldable decimal_digits : ℕ → ℕ → String → String
unfolding digit_char
decimal_digits zero n s = s
decimal_digits (suc fuel) n s =
    let rest = decimal_digits fuel (n / 10) (String.◌∷◌ (digit_char (n % 10)) s) in
    if ltb n 10 then String.◌∷◌ (digit_char n) s else rest

unfoldable pub decimal : ℕ → String
unfolding decimal_digits
decimal n = decimal_digits (suc n) n ""

-- f"{z}"
unfoldable pub decimal_int : ℤ → String
unfolding decimal
decimal_int (pos n) = decimal n
decimal_int (negsuc n) = String.◌∷◌ "-" (decimal (suc n))

-- f"{z:x}"
unfoldable pub hex : ℤ → String
unfolding hex_digits
hex (pos n) = hex_digits (suc n) n ""
hex (negsuc n) = String.◌∷◌ "-" (hex_digits (suc (suc n)) (suc n) "")

-- f"0x{value:x}"
unfoldable pub format_hex : ℤ → String
unfolding hex
format_hex value = String.◌∷◌ "0" (String.◌∷◌ "x" (hex value))

abbrev push_digit : ℕ → ℕ → Option ℕ → Option ℕ
push_digit base acc none = none
push_digit base acc (some d) = if ltb d base then some (acc * base + d) else none

-- Digits with single underscores between them. `wanted`: a digit must come next.
unfoldable pub read_digits : ℕ → Bool → ℕ → String → Option ℕ
unfolding digit_value
read_digits base wanted acc String.[] = if wanted then none else some acc
read_digits base wanted acc (String.◌∷◌ c s) =
    let after_underscore = read_digits base true acc s in
    let after_digit : Option ℕ = elim (push_digit base acc (digit_value c)) [
      | none ↦ none
      | some n ↦ read_digits base false n s
    ] in
    if code c == b'_' then (if wanted then none else after_underscore) else after_digit

-- The digits after a prefix such as `0x`, where an underscore may come first.
unfoldable pub read_prefixed : ℕ → String → Option ℕ
unfolding read_digits
read_prefixed base String.[] = none
read_prefixed base (String.◌∷◌ c s) =
    if code c == b'_' then read_digits base true 0 s else read_digits base true 0 (String.◌∷◌ c s)

-- A number that starts with 0 and has no prefix is 0.
abbrev only_zero : Option ℕ → Option ℕ
only_zero (some zero) = some zero
only_zero _ = none

-- x, X, o, O, b, B
abbrev base_of : Char → Option ℕ
base_of c =
    if code c == 120 || code c == 88
    then some 16
    else if code c == 111 || code c == 79
    then some 8
    else if code c == 98 || code c == 66
    then some 2
    else none

abbrev read_based : Option ℕ → String → String → Option ℕ
unfolding read_prefixed read_digits
read_based none s rest = only_zero (read_digits 10 true 0 s)
read_based (some base) s rest = read_prefixed base rest

-- The number after the sign.
unfoldable pub read_unsigned : String → Option ℕ
unfolding read_digits read_prefixed
read_unsigned (String.◌∷◌ c (String.◌∷◌ d s)) =
    if code c == b'0'
    then read_based (base_of d) (String.◌∷◌ c (String.◌∷◌ d s)) s
    else read_digits 10 true 0 (String.◌∷◌ c (String.◌∷◌ d s))
read_unsigned s = read_digits 10 true 0 s

abbrev pub is_space : Char → Bool
is_space c =
    code c == 32 || (leb 9 (code c) && leb (code c) 13) || (leb 28 (code c) && leb (code c) 31)

-- s.strip()
unfoldable pub skip_spaces : String → String
skip_spaces String.[] = ""
skip_spaces (String.◌∷◌ c s) =
    let rest = skip_spaces s in if is_space c then rest else String.◌∷◌ c s

unfoldable is_blank : String → Bool
is_blank String.[] = true
is_blank (String.◌∷◌ c s) = is_space c && is_blank s

unfoldable pub drop_spaces : String → String
unfolding is_blank
drop_spaces String.[] = ""
drop_spaces (String.◌∷◌ c s) =
    let rest = drop_spaces s in if is_space c && is_blank s then "" else String.◌∷◌ c rest

unfoldable pub strip : String → String
unfolding skip_spaces drop_spaces
strip s = drop_spaces (skip_spaces s)

unfoldable negate : Option ℕ → Option ℤ
negate none = none
negate (some zero) = some (pos 0)
negate (some (suc n)) = some (negsuc n)

unfoldable pub positive : Option ℕ → Option ℤ
positive none = none
positive (some n) = some (pos n)

unfoldable pub read_signed : String → Option ℤ
unfolding read_unsigned negate positive
read_signed String.[] = none
read_signed (String.◌∷◌ c s) =
    if code c == b'-'
    then negate (read_unsigned s)
    else if code c == b'+'
    then positive (read_unsigned s)
    else positive (read_unsigned (String.◌∷◌ c s))

-- int(s, 0); `none` is ValueError.
unfoldable pub int_text : String → Option ℤ
unfolding read_signed strip
int_text s = read_signed (strip s)

-- int(s) and int(s, 10); `none` is ValueError.
unfoldable read_decimal : String → Option ℤ
unfolding read_digits negate positive
read_decimal String.[] = none
read_decimal (String.◌∷◌ c s) =
    if code c == b'-'
    then negate (read_digits 10 true 0 s)
    else if code c == b'+'
    then positive (read_digits 10 true 0 s)
    else positive (read_digits 10 true 0 (String.◌∷◌ c s))

unfoldable pub decimal_text : String → Option ℤ
unfolding read_decimal strip
decimal_text s = read_decimal (strip s)
