-- ===== src/Hexrays/Arguments.antt =====
-- ida_plugin/hexrays_variables.py: which local variables are arguments (`_detect_arguments` and
-- `_detect_abi_location_arguments`), on ASCII texts. What Hex-Rays says of the variables, the order of
-- `cfunc.argidx` and the names of the prototype are parameters.
pub mod Kept
pub mod Rounds
mod Examples
use dynvar_sync.Base.{
  or_else, ℕ, zero, suc, ◌+◌, ◌-◌, ◌*◌, ◌/◌, ◌%◌, ◌==◌, ltb, leb, ℤ, pos, negsuc, Bool, true, false,
  ◌&&◌, ◌||◌, not, List, [], ◌∷◌, length, any_of, Option, none, some, is_some, String, str_eq,
  ◌<+>◌, Dict, get, put, nat_eq, string_eq, if◌then◌else◌,
}
use Prim.Native.String
use Prim.Native.Char.{Char, code}
use dynvar_sync.Numbers.{strip, digit_value}
use dynvar_sync.Registers.{lower_plain}
use dynvar_sync.Hexrays.Names.{is_v_temporary_name}

-- A local variable, with the text of `_safe_location_string`.
pub record LocalVariable : Type 0 where
  pub name : String
  pub is_arg_var : Bool
  pub location : String

-- ArgumentDetection; `is_arg` is always true.
pub record ArgumentDetection : Type 0 where
  pub arg_index : ℕ
  pub reason : String

abbrev pub Detections : Type 0
Detections = Dict ℕ ArgumentDetection

abbrev pub detection : ℕ → String → ArgumentDetection
detection arg_index reason = record { arg_index = arg_index; reason = reason }

-- \w
abbrev pub is_word : Char → Bool
is_word c =
    (leb b'0' (code c) && leb (code c) b'9')
    || (leb b'a' (code c) && leb (code c) b'z')
    || (leb b'A' (code c) && leb (code c) b'Z')
    || (code c == b'_')

abbrev pub starts_word : String → Bool
starts_word String.[] = false
starts_word (String.◌∷◌ c s) = is_word c

-- The word stands at the start of the text, and ends there.
unfoldable pub word_here : String → String → Bool
word_here String.[] s = not (starts_word s)
word_here (String.◌∷◌ c word) String.[] = false
word_here (String.◌∷◌ c word) (String.◌∷◌ d s) = (code c == code d) && word_here word s

-- re.search(rf"\b{word}\b", s), where `inside` says that a letter stands before the text.
unfoldable pub contains_word : Bool → String → String → Bool
unfolding word_here
contains_word inside word String.[] = false
contains_word inside word (String.◌∷◌ c s) =
    (not inside && word_here word (String.◌∷◌ c s)) || contains_word (is_word c) word s

abbrev pub hex_digit : Char → Option ℕ
unfolding digit_value
hex_digit c = elim (digit_value c) [ none ↦ none | some d ↦ if ltb d 16 then some d else none ]

-- int(digits, 16) of the hexadecimal digits at the start, after the number so far.
unfoldable pub hex_prefix : ℕ → String → ℕ
unfolding hex_digit
hex_prefix acc String.[] = acc
hex_prefix acc (String.◌∷◌ c s) = elim (hex_digit c) [
  | none ↦ acc
  | some d ↦ hex_prefix (acc * 16 + d) s
]

abbrev pub hex_start : String → Option ℕ
unfolding hex_digit hex_prefix
hex_start String.[] = none
hex_start (String.◌∷◌ c s) = elim (hex_digit c) [ none ↦ none | some d ↦ some (hex_prefix d s) ]

-- re.search(r"\^([0-9a-f]+)", s)
unfoldable pub caret_offset : String → Option ℕ
unfolding hex_start
caret_offset String.[] = none
caret_offset (String.◌∷◌ c s) =
    let rest = caret_offset s in if code c == b'^' then or_else (hex_start s) rest else rest

-- _normalize_location
unfoldable pub normalize_location : String → String
unfolding strip lower_plain
normalize_location location = lower_plain (strip location)

abbrev pub register_map : Dict String ℕ
register_map =
    ("rcx", 0)
    ∷ ("ecx", 0)
    ∷ ("cx", 0)
    ∷ ("cl", 0)
    ∷ ("rdx", 1)
    ∷ ("edx", 1)
    ∷ ("dx", 1)
    ∷ ("dl", 1)
    ∷ ("r8", 2)
    ∷ ("r8d", 2)
    ∷ ("r8w", 2)
    ∷ ("r8b", 2)
    ∷ ("r9", 3)
    ∷ ("r9d", 3)
    ∷ ("r9w", 3)
    ∷ ("r9b", 3)
    ∷ []

unfoldable pub named_register : Dict String ℕ → String → Option ℕ
unfolding contains_word
named_register [] s = none
named_register ((register, arg_index) ∷ registers) s =
    let rest = named_register registers s in
    if contains_word false register s then some arg_index else rest

abbrev pub stack_index : Option ℕ → Option ℕ
stack_index none = none
stack_index (some offset) =
    if leb 176 offset && ((offset - 176) % 8 == 0) then some (4 + (offset - 176) / 8) else none

-- abi_arg_index_from_location
unfoldable pub abi_arg_index_from_location : String → Option ℕ
unfolding normalize_location named_register caret_offset
abi_arg_index_from_location location =
    let normalized = normalize_location location in
    or_else (named_register register_map normalized) (stack_index (caret_offset normalized))

-- The largest argument index and one more, or 0.
unfoldable pub next_arg_index : Detections → ℕ
next_arg_index [] = 0
next_arg_index ((l, d) ∷ detections) =
    let rest = next_arg_index detections in if ltb d.arg_index rest then rest else suc d.arg_index

-- `for arg_index, lvar_index in enumerate(argidx)`, from an index on
unfoldable pub by_argidx : ℕ → ℕ → List ℤ → Detections → Detections
unfolding put
by_argidx count arg_index [] detections = detections
by_argidx count arg_index (negsuc n ∷ argidx) detections =
    by_argidx count (suc arg_index) argidx detections
by_argidx count arg_index (pos l ∷ argidx) detections =
    by_argidx count (suc arg_index) argidx
      (if ltb l count then put l (detection arg_index "cfunc.argidx") detections else detections)

-- `for lvar_index, lvar in enumerate(lvars)`, from an index on
unfoldable pub by_is_arg : ℕ → ℕ → List LocalVariable → Detections → Detections
unfolding get put
by_is_arg lvar_index next_index [] detections = detections
by_is_arg lvar_index next_index (lvar ∷ lvars) detections =
    let is_new = not (is_some (get lvar_index detections)) && lvar.is_arg_var in
    by_is_arg (suc lvar_index) (if is_new then suc next_index else next_index) lvars (
      if is_new
      then put lvar_index (detection next_index "lvar.is_arg_var()") detections
      else detections)

-- name_to_lvar_index: the last variable of a name counts.
unfoldable pub index_of_name : String → ℕ → List LocalVariable → Option ℕ
index_of_name name lvar_index [] = none
index_of_name name lvar_index (lvar ∷ lvars) =
    or_else (index_of_name name (suc lvar_index) lvars)
      (if str_eq lvar.name name then some lvar_index else none)

-- A variable that is not detected yet is.
unfoldable pub add_new : Option ℕ → ArgumentDetection → Detections → Detections
unfolding get put
add_new none d detections = detections
add_new (some l) d detections =
    if is_some (get l detections) then detections else put l d detections

unfoldable pub by_prototype : List LocalVariable → ℕ → List String → Detections → Detections
unfolding index_of_name add_new
by_prototype lvars proto_index [] detections = detections
by_prototype lvars proto_index (name ∷ names) detections =
    by_prototype lvars (suc proto_index) names
      (add_new (index_of_name name 0 lvars) (detection proto_index "function prototype") detections)

abbrev pub Placed : Type 0
Placed = Dict ℕ (ℕ × String)

-- by_arg_index: the variable with the smallest index counts, so later ones are put first.
unfoldable pub by_arg_index : ℕ → List LocalVariable → Placed
unfolding is_v_temporary_name abi_arg_index_from_location put
by_arg_index lvar_index [] = []
by_arg_index lvar_index (lvar ∷ lvars) =
    let rest = by_arg_index (suc lvar_index) lvars in
    if is_v_temporary_name lvar.name
    then rest
    else elim (abi_arg_index_from_location lvar.location) [
      | none ↦ rest
      | some arg_index ↦ put arg_index (lvar_index, lvar.location) rest
    ]

-- `while expected in by_arg_index`
unfoldable pub consecutive : Placed → ℕ → ℕ → Detections → Detections
unfolding get put
consecutive placed zero expected detections = detections
consecutive placed (suc rounds) expected detections = elim (get expected placed) [
  | none ↦ detections
  | some (l, location) ↦
      consecutive placed rounds (suc expected)
        (put l (detection expected ("ABI location " <+> location)) detections)
]

-- _detect_abi_location_arguments, with a round for each place and one more. Without a variable for
-- the first argument there is no round, and the result is empty.
unfoldable pub detect_abi_location_arguments : List LocalVariable → Detections
unfolding by_arg_index consecutive
detect_abi_location_arguments lvars =
    let placed = by_arg_index 0 lvars in consecutive placed (suc (length placed)) 0 []

-- The places fill the indexes that no other signal has used.
unfoldable pub fill_in : Detections → Detections → Detections → Detections
unfolding add_new
fill_in used [] detections = detections
fill_in used ((l, d) ∷ fallback) detections = fill_in used fallback (
    if any_of (λ item. item.1.arg_index == d.arg_index) used
    then detections
    else add_new (some l) d detections)

-- _detect_arguments
unfoldable pub detect_arguments : List ℤ → List String → List LocalVariable → Detections
unfolding by_argidx by_is_arg by_prototype next_arg_index fill_in detect_abi_location_arguments
detect_arguments argidx prototype_names lvars =
    let listed = by_argidx (length lvars) 0 argidx [] in
    let marked = by_is_arg 0 (next_arg_index listed) lvars listed in
    let named = by_prototype lvars 0 prototype_names marked in
    fill_in named (detect_abi_location_arguments lvars) named
