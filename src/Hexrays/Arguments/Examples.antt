-- ===== src/Hexrays/Arguments/Examples.antt =====
-- The detection of arguments on small inputs.
use dynvar_sync.Base.{
  ℕ, suc, ◌+◌, ◌≤◌, pos, false, List, [], ◌∷◌, length, none, some, String, get, put, nat_eq, ◌≡◌,
  refl,
}
use dynvar_sync.Hexrays.Arguments.{
  LocalVariable, detect_abi_location_arguments, detection, by_argidx, by_arg_index, consecutive,
  abi_arg_index_from_location, detect_arguments,
}
use dynvar_sync.Hexrays.Arguments.Kept.{argidx_kept}
use dynvar_sync.Hexrays.Arguments.Rounds.{HasKeys, first_placed, detect_abi_location_arguments-ends}

abbrev variable : String → String → LocalVariable
variable name location = record { name = name; is_arg_var = false; location = location }

-- The decompiler lists the second variable, and the prototype names the first one.
abbrev variables : List LocalVariable
variables = variable "a" "`rcx`" ∷ variable "b" "EDX" ∷ variable "c" "^B8" ∷ []

second_listed : get 1 (by_argidx 3 0 (pos 1 ∷ []) []) ≡ some (detection 0 "cfunc.argidx")
unfolding by_argidx get put
second_listed = refl

argidx_kept_example :
    get 1 (detect_arguments (pos 1 ∷ []) ("a" ∷ []) variables) ≡ some (detection 0 "cfunc.argidx")
argidx_kept_example =
    argidx_kept (pos 1 ∷ []) ("a" ∷ []) variables 1 (detection 0 "cfunc.argidx") second_listed

-- Two variables are then argument 0.
also_first :
    get 0 (detect_arguments (pos 1 ∷ []) ("a" ∷ []) variables)
    ≡ some (detection 0 "function prototype")
unfolding detect_arguments get put
also_first = refl

stack_argument : abi_arg_index_from_location " ^b8 " ≡ some 5
unfolding abi_arg_index_from_location
stack_argument = refl

places_found : by_arg_index 0 variables ≡ (5, (2, "^B8")) ∷ (1, (1, "EDX")) ∷ (0, (0, "`rcx`")) ∷ []
unfolding by_arg_index put
places_found = refl

detect_abi_location_arguments-ends_example :
    let places = by_arg_index 0 variables in
    (m : ℕ) × (m ≤ length places)
    × HasKeys m places
    × (get m places ≡ none)
    × (detect_abi_location_arguments variables ≡ first_placed places m [])
    × (consecutive places (suc (length places) + 3) 0 [] ≡ detect_abi_location_arguments variables)
detect_abi_location_arguments-ends_example = detect_abi_location_arguments-ends variables 3
