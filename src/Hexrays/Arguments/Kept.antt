-- ===== src/Hexrays/Arguments/Kept.antt =====
-- The order of the signals in `_detect_arguments` of ida_plugin/hexrays_variables.py.
use dynvar_sync.Base.{
  ℕ, suc, ◌==◌, ==_iff, ℤ, false, ◌&&◌, not, List, [], ◌∷◌, length, any_of, Option, none, some,
  is_some, String, get, put, get-put, nat_eq, ◌≡◌, inl, inr, Bool-cases, arith,
}
use dynvar_sync.Hexrays.Arguments.{
  LocalVariable, ArgumentDetection, Detections, detection, by_argidx, by_is_arg, add_new,
  index_of_name, by_prototype, fill_in, next_arg_index, detect_abi_location_arguments,
  detect_arguments,
}

-- The detection of a variable.
Has : ℕ → ArgumentDetection → Detections → Type 0
Has l d detections = get l detections ≡ some d

put-Has :
    (l k : ℕ) (d e : ArgumentDetection) (detections : Detections)
    → Has l d detections
    → is_some (get k detections) ≡ false
    → Has l d (put k e detections)
unfolding Has
put-Has l k d e detections h new = grind (arith, get-put k l e detections, ==_iff k l)

add_new-Has :
    (l : ℕ) (k : Option ℕ) (d e : ArgumentDetection) (detections : Detections)
    → Has l d detections
    → Has l d (add_new k e detections)
unfolding add_new
add_new-Has l none d e detections h = h
add_new-Has l (some k) d e detections h = elim (Bool-cases (is_some (get k detections))) [
  | inl old ↦ rw old h
  | inr new ↦ rw new (put-Has l k d e detections h new)
]

is_arg-Has :
    (l : ℕ) (d : ArgumentDetection) (index next : ℕ) (lvars : List LocalVariable)
    (detections : Detections)
    → Has l d detections
    → Has l d (by_is_arg index next lvars detections)
unfolding by_is_arg
is_arg-Has l d index next [] detections h = h
is_arg-Has l d index next (lvar ∷ lvars) detections h =
    elim (Bool-cases (not (is_some (get index detections)) && lvar.is_arg_var)) [
      | inr old ↦ rw old (is_arg-Has l d (suc index) next lvars detections h)
      | inl new ↦
          let unseen : is_some (get index detections) ≡ false = ground arith in
          rw new (
            is_arg-Has l d (suc index) (suc next) lvars _
              (put-Has l index d (detection next "lvar.is_arg_var()") detections h unseen))
    ]

prototype-Has :
    (l : ℕ) (d : ArgumentDetection) (lvars : List LocalVariable) (index : ℕ) (names : List String)
    (detections : Detections)
    → Has l d detections
    → Has l d (by_prototype lvars index names detections)
unfolding by_prototype
prototype-Has l d lvars index [] detections h = h
prototype-Has l d lvars index (name ∷ names) detections h =
    prototype-Has l d lvars (suc index) names _ (
      add_new-Has l (index_of_name name 0 lvars) d (detection index "function prototype") detections
        h)

fill_in-Has :
    (l : ℕ) (d : ArgumentDetection) (used fallback detections : Detections)
    → Has l d detections
    → Has l d (fill_in used fallback detections)
unfolding fill_in
fill_in-Has l d used [] detections h = h
fill_in-Has l d used ((k, e) ∷ fallback) detections h =
    elim (Bool-cases
      (any_of (λ (item : ℕ × ArgumentDetection). item.1.arg_index == e.arg_index) used)) [
        | inl taken ↦ rw taken (fill_in-Has l d used fallback detections h)
        | inr free ↦
            rw free (fill_in-Has l d used fallback _ (add_new-Has l (some k) d e detections h))
      ]

-- What the list of the decompiler says of a variable stands, whatever the flags of the variables, the
-- names of the prototype and the places of the variables say.
pub argidx_kept :
    (argidx : List ℤ) (names : List String) (lvars : List LocalVariable) (l : ℕ)
    (d : ArgumentDetection)
    → get l (by_argidx (length lvars) 0 argidx []) ≡ some d
    → get l (detect_arguments argidx names lvars) ≡ some d
unfolding detect_arguments Has
argidx_kept argidx names lvars l d h =
    let listed = by_argidx (length lvars) 0 argidx [] in
    let marked = by_is_arg 0 (next_arg_index listed) lvars listed in
    let named = by_prototype lvars 0 names marked in
    fill_in-Has l d named (detect_abi_location_arguments lvars) named (
      prototype-Has l d lvars 0 names marked
        (is_arg-Has l d 0 (next_arg_index listed) lvars listed h))
