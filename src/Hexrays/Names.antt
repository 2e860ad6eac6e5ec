-- ===== src/Hexrays/Names.antt =====
-- The tests of names in ida_plugin/hexrays_variables.py, on ASCII texts.
use dynvar_sync.Base.{Bool, true, false, ◌&&◌, ◌==◌, leb, String, if◌then◌else◌}
use Prim.Native.Char.{code, Char}

abbrev pub is_digit : Char → Bool
is_digit c = leb b'0' (code c) && leb (code c) b'9'

unfoldable pub all_digits : String → Bool
all_digits String.[] = true
all_digits (String.◌∷◌ c s) = is_digit c && all_digits s

-- s.isdigit()
unfoldable pub is_digits : String → Bool
unfolding all_digits
is_digits String.[] = false
is_digits (String.◌∷◌ c s) = is_digit c && all_digits s

unfoldable pub is_v_temporary_name : String → Bool
unfolding is_digits
is_v_temporary_name String.[] = false
is_v_temporary_name (String.◌∷◌ c s) = (code c == b'v') && is_digits s

-- _classify_lvar
unfoldable pub classify_lvar : String → Bool → String
unfolding is_v_temporary_name
classify_lvar name is_arg =
    if is_arg then "arg" else if is_v_temporary_name name then "temporary" else "local"
