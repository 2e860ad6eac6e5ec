-- ===== src/Hexrays/Arguments/Rounds.antt =====
-- The loop `while expected in by_arg_index` of ida_plugin/hexrays_variables.py.
use dynvar_sync.Base.{
  ℕ, zero, suc, ◌+◌, ◌≤◌, ◌<◌, ◌==◌, ==_iff, false, List, [], ◌∷◌, length, none, some, String, get,
  put, remove, ◌⊎◌, get-remove, length-remove-le, nat_eq, ◌≡◌, ◌≢◌, inl, inr, refl, sym, ◌∙◌,
  Bool-cases, Option-cases, arith, ◌<+>◌,
}
use mathlib.Core.Option.{none-ne-some}
use dynvar_sync.Hexrays.Arguments.{
  LocalVariable, Placed, Detections, detection, by_arg_index, consecutive,
  detect_abi_location_arguments,
}

length-remove-lt :
    (k : ℕ) (v : ℕ × String) (placed : Placed)
    → get k placed ≡ some v
    → length (remove k placed) < length placed
unfolding get remove
length-remove-lt k v [] h = cc
length-remove-lt k v ((j, w) ∷ placed) h = elim (Bool-cases (j == k)) [
  | inl same ↦ rw same (let shorter = length-remove-le k placed in omega arith)
  | inr other ↦ rw other (let rest = length-remove-lt k v placed (rw other at h) in omega arith)
]

-- The first n numbers are keys.
abbrev pub HasKeys : ℕ → Placed → Type 0
HasKeys n placed = (k : ℕ) → k < n → (v : ℕ × String) × (get k placed ≡ some v)

-- A dictionary that has the first n numbers as keys has at least n items.
keys_fit : (n : ℕ) (placed : Placed) → HasKeys n placed → n ≤ length placed
keys_fit zero placed all = omega arith
keys_fit (suc n) placed all =
    let (v, last) = all n (omega arith) in
    let shorter = length-remove-lt n v placed last in
    let rest : n ≤ length (remove n placed) = keys_fit n (remove n placed) (λ k low.
      let (w, there) = all k (omega arith) in
      let other : (n == k) ≡ false = ground arith in (w, get-remove n k placed ∙ rw other there)) in
    omega arith

-- The first n numbers are keys, or there is a first one of them that is none.
keys_or_gap :
    (n : ℕ) (placed : Placed)
    → HasKeys n placed ⊎ ((m : ℕ) × (m < n) × HasKeys m placed × (get m placed ≡ none))
keys_or_gap zero placed = inl (λ k low. absurd (omega arith))
keys_or_gap (suc n) placed = elim (keys_or_gap n placed) [
  | inr (m, low, all, free) ↦ inr (m, omega arith, all, free)
  | inl all ↦ elim (Option-cases (get n placed)) [
    | inl free ↦ inr (n, omega arith, all, free)
    | inr (v, there) ↦ inl (λ k low. elim (Bool-cases (k == n)) [
      | inl same ↦ (v, rw ((==_iff k n).0 same) there)
      | inr other ↦ all k (ground arith)
    ])
  ]
]

-- The variables that are placed at the first n argument indexes, each detected with its own.
pub first_placed : Placed → ℕ → Detections → Detections
first_placed placed zero detections = detections
first_placed placed (suc n) detections =
    let before = first_placed placed n detections in
    elim (get n placed) [
      | none ↦ before
      | some (l, location) ↦ put l (detection n ("ABI location " <+> location)) before
    ]

stops_at_gap :
    (placed : Placed) (m rounds expected : ℕ) (detections : Detections)
    → get m placed ≡ none
    → HasKeys m placed
    → expected ≤ m
    → m < expected + rounds
    → consecutive placed rounds expected (first_placed placed expected detections)
      ≡ first_placed placed m detections
unfolding consecutive first_placed
stops_at_gap placed m zero expected detections free all low high = absurd (omega arith)
stops_at_gap placed m (suc rounds) expected detections free all low high =
    elim (Option-cases (get expected placed)) [
      | inl gap ↦
          let here : expected ≡ m = elim (Bool-cases (expected == m)) [
            | inl same ↦ (==_iff expected m).0 same
            | inr other ↦
                let (v, there) = all expected (ground arith) in
                absurd (none-ne-some v (sym gap ∙ there))
          ] in
          rw (consecutive, gap, here) refl
      | inr ((l, location), there) ↦
          let other : expected ≢ m = λ e. none-ne-some _ (sym (rw (sym e) at free) ∙ there) in
          let rest =
            stops_at_gap placed m rounds (suc expected) detections free all (omega arith)
              (omega arith) in
          rw (consecutive, there) (rw (first_placed, there) at rest)
    ]

-- The search of arguments by location ends, and more rounds than the model gives it change nothing:
-- the first argument index m that no variable is placed at is at most the number of places, and the
-- result is the variables placed at 0, …, m - 1, each detected with its own index.
pub detect_abi_location_arguments-ends :
    (lvars : List LocalVariable) (more : ℕ)
    → let placed = by_arg_index 0 lvars in
      (m : ℕ) × (m ≤ length placed)
      × HasKeys m placed
      × (get m placed ≡ none)
      × (detect_abi_location_arguments lvars ≡ first_placed placed m [])
      × (consecutive placed (suc (length placed) + more) 0 [] ≡ detect_abi_location_arguments lvars)
unfolding detect_abi_location_arguments first_placed
detect_abi_location_arguments-ends lvars more =
    let placed = by_arg_index 0 lvars in
    let enough = suc (length placed) in
    elim (keys_or_gap enough placed) [
      | inl all ↦ let bound = keys_fit enough placed all in absurd (omega arith)
      | inr (m, low, all, free) ↦
          let found = stops_at_gap placed m enough 0 [] free all (omega arith) (omega arith) in
          (
            m,
            omega arith,
            all,
            free,
            found,
            stops_at_gap placed m (enough + more) 0 [] free all (omega arith) (omega arith)
                ∙ sym found,
          )
    ]
