-- ===== src/Value.antt =====
-- The values that `json.loads` and the plugin's own dictionaries are made of (broker/protocol.py,
-- ida_plugin/dynvar_core.py, ida_plugin/v_variable_recovery.py: `dict[str, Any]`), and what Python's
-- `==`, `in`, `isinstance`, `bool` and `dict.get` do with them.
use dynvar_sync.Base.{
  ℕ, zero, suc, ℤ, pos, negsuc, sub_ℕ, int_beq, String, Bool, true, false, ◌&&◌, ◌==◌, List, Option,
  none, some, not, str_eq, any_of, if◌then◌else◌, ◌≡◌, str_eq_iff, arith, refl,
}

-- A finite float is its floor and its fraction in units of 2^-1074; `special` is NaN or an infinity.
mutual
  pub data Value : Type 0 where
    null special : Value
    bool : Bool → Value
    num : ℤ → Value
    float : ℤ → ℕ → Value
    str : String → Value
    arr : Items → Value
    obj : Fields → Value

  pub data Items : Type 0 where
    done : Items
    item : Value → Items → Items

  pub data Fields : Type 0 where
    end : Fields
    field : String → Value → Fields → Fields

-- The item of a key, if there is one.
unfoldable pub find_field : String → Fields → Option Value
find_field k end = none
find_field k (field j v d) = if str_eq j k then some v else find_field k d

abbrev pub or_default : Value → Option Value → Value
or_default v none = v
or_default v (some w) = w

-- d.get(k): a missing key reads as None.
unfoldable pub get_field : String → Fields → Value
unfolding find_field
get_field k d = or_default null (find_field k d)

-- d[k] = v
unfoldable set_field : String → Value → Fields → Fields
set_field k v end = field k v end
set_field k v (field j w d) =
    let rest = set_field k v d in if str_eq j k then field j v d else field j w rest

-- isinstance(v, int): a bool is an int.
unfoldable pub as_int : Value → Option ℤ
as_int (num z) = some z
as_int (bool true) = some (pos 1)
as_int (bool false) = some (pos 0)
as_int _ = none

-- int(v) of a number, towards zero; other values raise, and no caller has one.
unfoldable pub int_of : Value → ℤ
int_of (num z) = z
int_of (bool true) = pos 1
int_of (float (negsuc n) (suc frac)) = sub_ℕ 0 n
int_of (float a frac) = a
int_of _ = pos 0

-- v == z for an int z
unfoldable pub equals_int : Value → ℤ → Bool
equals_int (num a) z = int_beq a z
equals_int (bool true) z = int_beq (pos 1) z
equals_int (bool false) z = int_beq (pos 0) z
equals_int (float a frac) z = (frac == zero) && int_beq a z
equals_int _ z = false

-- isinstance(v, str)
unfoldable pub as_str : Value → Option String
as_str (str s) = some s
as_str _ = none

-- isinstance(v, dict)
unfoldable pub as_dict : Value → Option Fields
as_dict (obj d) = some d
as_dict _ = none

-- bool(s) for a text
unfoldable pub nonempty : String → Bool
nonempty s = not (str_eq s "")

-- bool(v)
unfoldable pub truthy : Value → Bool
unfolding nonempty
truthy null = false
truthy special = true
truthy (bool b) = b
truthy (num z) = not (int_beq z (pos 0))
truthy (float a frac) = not ((frac == zero) && int_beq a (pos 0))
truthy (str s) = nonempty s
truthy (arr done) = false
truthy (arr (item v vs)) = true
truthy (obj end) = false
truthy (obj (field k v d)) = true

-- v is True
unfoldable pub is_true : Value → Bool
is_true (bool b) = b
is_true _ = false

-- Lists and dicts have no hash: a set lookup of one raises TypeError.
unfoldable pub hashable : Value → Bool
hashable (arr vs) = false
hashable (obj d) = false
hashable _ = true

abbrev pub member : String → List String → Bool
member s = any_of (str_eq s)

-- v in {texts}, for a value that has a hash
unfoldable pub in_texts : Value → List String → Bool
in_texts (str s) set = member s set
in_texts _ set = false

find-set_field :
    (k j : String) (v : Value) (d : Fields)
    → find_field j (set_field k v d) ≡ (if str_eq k j then some v else find_field j d)
unfolding find_field set_field
find-set_field k j v end = refl
find-set_field k j v (field i w d) =
    ground (arith, str_eq_iff k j, str_eq_iff i k, str_eq_iff i j, find-set_field k j v d)
