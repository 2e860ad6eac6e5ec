-- ===== src/Selection/Filled.antt =====
-- The selection of ida_plugin/dayvar_plugin.py fills its budget.
use dynvar_sync.Base.{
  ℕ, zero, suc, ◌+◌, ◌%◌, ◌≤◌, ◌<◌, leb, ◌==◌, true, false, ◌||◌, not, List, [], ◌∷◌, keep, get_or,
  length, is_some, Dict, get, nat_eq, All, ◌≡◌, refl, arith, Bool-cases, ◌⊎◌, inl, inr,
  if◌then◌else◌, ◌∙◌, sym, ℤ, pos_part, String,
}
use native.Mathlib.Nat.{mod-lt}
use dynvar_sync.Recovery.{VariableRecord}
use dynvar_sync.Selection.{
  has, sort_indexes, locals_of, keys, add, add_each, rotate, add_rotating, add_observed, observed,
  visible_of, remaining_of, add_first, select_from, select_recovery_candidate_indexes,
}
use dynvar_sync.Selection.Indexes.{
  Distinct, length-le_of_has, has-sort_indexes, has-keep, position_of, offset_of, get-keys,
  All-of_has, locals_of-Distinct,
}

module _ (budget : ℕ) (locals : Dict ℕ VariableRecord) where
  -- A part of the local variables within the budget, without repetitions.
  pub record IsPart (selected : List ℕ) : Type 0 where
    pub distinct : Distinct selected
    pub within : length selected ≤ budget
    pub local : All (λ i. has i (keys locals) ≡ true) selected

  pub add-IsPart : (i : ℕ) (s : List ℕ) → IsPart s → IsPart (add budget locals i s)
  unfolding add
  add-IsPart i s h = elim (Bool-cases (leb budget (length s))) [
    | inl full ↦ rw full h
    | inr room ↦ elim (Bool-cases (has i s)) [
      | inl old ↦ rw (room, old) h
      | inr new ↦ elim (Bool-cases (is_some (get i locals))) [
        | inl known ↦
            rw (room, new, known)
              (record {
                distinct = (new, h.distinct);
                within = ground arith;
                local = (sym (get-keys i locals) ∙ known, h.local);
              })
        | inr unknown ↦ rw (room, new, unknown) h
      ]
    ]
  ]

  add_each-IsPart : (is s : List ℕ) → IsPart s → IsPart (add_each budget locals is s)
  unfolding add_each
  add_each-IsPart [] s h = h
  add_each-IsPart (i ∷ is) s h = add_each-IsPart is (add budget locals i s) (add-IsPart i s h)

  rotate-IsPart :
      (is : List ℕ) (start left offset : ℕ) (s : List ℕ)
      → IsPart s
      → IsPart (rotate budget locals is start left offset s).1
  unfolding rotate
  rotate-IsPart is start zero offset s h = h
  rotate-IsPart is start (suc left) offset s h =
      let next = add budget locals (get_or is ((start + offset) % length is) 0) s in
      let h' = add-IsPart (get_or is ((start + offset) % length is) 0) s h in
      elim (Bool-cases (leb budget (length next))) [
        | inl full ↦ rw full h'
        | inr room ↦ rw room (rotate-IsPart is start left (suc offset) next h')
      ]

  add_rotating-IsPart :
      (is : List ℕ) (cursor : ℕ) (s : List ℕ)
      → IsPart s
      → IsPart (add_rotating budget locals is cursor s).1
  unfolding add_rotating
  add_rotating-IsPart is cursor s h = elim (Bool-cases (length is == 0 || leb budget (length s))) [
    | inl done ↦ rw done h
    | inr more ↦ rw more (rotate-IsPart is (cursor % length is) (length is) 0 s h)
  ]

  -- What is selected stays so.
  pub add-keeps : (j i : ℕ) (s : List ℕ) → has j s ≡ true → has j (add budget locals i s) ≡ true
  unfolding add
  add-keeps j i s h = ground arith

  pub add_each-keeps :
      (j : ℕ) (is s : List ℕ) → has j s ≡ true → has j (add_each budget locals is s) ≡ true
  unfolding add_each
  add_each-keeps j [] s h = h
  add_each-keeps j (i ∷ is) s h = add_each-keeps j is (add budget locals i s) (add-keeps j i s h)

  rotate-keeps :
      (j : ℕ) (is : List ℕ) (start left offset : ℕ) (s : List ℕ)
      → has j s ≡ true
      → has j (rotate budget locals is start left offset s).1 ≡ true
  unfolding rotate
  rotate-keeps j is start zero offset s h = h
  rotate-keeps j is start (suc left) offset s h =
      let next = add budget locals (get_or is ((start + offset) % length is) 0) s in
      let h' = add-keeps j (get_or is ((start + offset) % length is) 0) s h in
      elim (Bool-cases (leb budget (length next))) [
        | inl full ↦ rw full h'
        | inr room ↦ rw room (rotate-keeps j is start left (suc offset) next h')
      ]

  pub add_rotating-keeps :
      (j : ℕ) (is : List ℕ) (cursor : ℕ) (s : List ℕ)
      → has j s ≡ true
      → has j (add_rotating budget locals is cursor s).1 ≡ true
  unfolding add_rotating
  add_rotating-keeps j is cursor s h = elim (Bool-cases (length is == 0 || leb budget (length s))) [
    | inl done ↦ rw done h
    | inr more ↦ rw more (rotate-keeps j is (cursor % length is) (length is) 0 s h)
  ]

  -- A local variable that is added is selected, or the budget is used up.
  pub add-selects :
      (i : ℕ) (s : List ℕ)
      → has i (keys locals) ≡ true
      → (leb budget (length (add budget locals i s)) ≡ true)
        ⊎ (has i (add budget locals i s) ≡ true)
  unfolding add
  add-selects i s known = elim (Bool-cases (leb budget (length s))) [
    | inl full ↦ inl (rw full full)
    | inr room ↦ elim (Bool-cases (has i s)) [
      | inl old ↦ inr (rw (room, old) old)
      | inr new ↦ inr (rw (room, new, get-keys i locals ∙ known) (ground arith))
    ]
  ]

  rotate-selects :
      (is : List ℕ) (start left offset : ℕ) (s : List ℕ) (j i : ℕ)
      → j < left
      → get_or is ((start + (offset + j)) % length is) 0 ≡ i
      → has i (keys locals) ≡ true
      → (leb budget (length (rotate budget locals is start left offset s).1) ≡ true)
        ⊎ (has i (rotate budget locals is start left offset s).1 ≡ true)
  unfolding rotate
  rotate-selects is start zero offset s j i inside at known = absurd (omega arith)
  rotate-selects is start (suc left) offset s zero i inside at known =
      let first : get_or is ((start + offset) % length is) 0 ≡ i =
        (let e : start + offset ≡ start + (offset + 0) = omega arith in rw e at) in
      let next = add budget locals (get_or is ((start + offset) % length is) 0) s in
      elim (Bool-cases (leb budget (length next))) [
        | inl full ↦ inl (rw full full)
        | inr room ↦ elim (add-selects i s known) [
          | inl full ↦ cc
          | inr selected ↦
              inr (rw room (rotate-keeps i is start left (suc offset) next (rw first selected)))
        ]
      ]
  rotate-selects is start (suc left) offset s (suc j) i inside at known =
      let moved : get_or is ((start + (suc offset + j)) % length is) 0 ≡ i =
        (let e : start + (suc offset + j) ≡ start + (offset + suc j) = omega arith in rw e at) in
      let next = add budget locals (get_or is ((start + offset) % length is) 0) s in
      elim (Bool-cases (leb budget (length next))) [
        | inl full ↦ inl (rw full full)
        | inr room ↦
            rw room (rotate-selects is start left (suc offset) next j i (omega arith) moved known)
      ]

  -- A local variable of the list is selected, or the budget is used up.
  add_rotating-selects :
      (is : List ℕ) (cursor : ℕ) (s : List ℕ) (i : ℕ)
      → has i is ≡ true
      → has i (keys locals) ≡ true
      → (leb budget (length (add_rotating budget locals is cursor s).1) ≡ true)
        ⊎ (has i (add_rotating budget locals is cursor s).1 ≡ true)
  unfolding add_rotating
  add_rotating-selects is cursor s i listed known =
      let (p, inside, found) = position_of i is listed in
      let n = length is in
      let (j, below, place) = offset_of n (cursor % n) p (mod-lt cursor (omega arith)) inside in
      let at : get_or is ((cursor % n + (0 + j)) % n) 0 ≡ i =
        (let e : cursor % n + (0 + j) ≡ cursor % n + j = omega arith in rw (e, place) found) in
      let some_index : (n == 0) ≡ false = ground arith in
      elim (Bool-cases (leb budget (length s))) [
        | inl full ↦ inl (rw (some_index, full) full)
        | inr room ↦ rw (some_index, room) (rotate-selects is (cursor % n) n 0 s j i below at known)
      ]

  start-IsPart : IsPart []
  start-IsPart = record { distinct = tt; within = omega arith; local = tt }

  module _ (watched : List ℕ) (previous : Dict ℕ VariableRecord) (active_filter : String)
      (cursor : ℕ) where
    abbrev result : List ℕ
    result = (select_from budget locals watched previous active_filter cursor).1

    pub select_from-IsPart : IsPart result
    unfolding select_from add_first add_observed
    select_from-IsPart =
        let observed_indexes =
          keep (λ index. observed (get index previous)) (sort_indexes (keys locals)) in
        let watched_first = add_each budget locals (sort_indexes watched) [] in
        let first = add_each budget locals observed_indexes watched_first in
        let first-IsPart : IsPart first =
          add_each-IsPart observed_indexes watched_first
            (add_each-IsPart (sort_indexes watched) [] start-IsPart) in
        let visible = visible_of budget locals previous active_filter in
        let shown = add_rotating budget locals visible cursor first in
        add_rotating-IsPart (remaining_of budget locals shown.1) shown.0 shown.1
          (add_rotating-IsPart visible cursor first first-IsPart)

    -- Every local variable is selected, or the budget is used up.
    select_from-selects :
        (i : ℕ)
        → has i (keys locals) ≡ true
        → (leb budget (length result) ≡ true) ⊎ (has i result ≡ true)
    unfolding select_from remaining_of
    select_from-selects i known =
        let shown =
          add_rotating budget locals (visible_of budget locals previous active_filter) cursor
            (add_first budget locals watched previous) in
        elim (Bool-cases (has i shown.1)) [
          | inl old ↦ inr (add_rotating-keeps i _ _ _ old)
          | inr new ↦
              let sorted : has i (sort_indexes (keys locals)) ≡ true =
                has-sort_indexes i (keys locals) ∙ known in
              add_rotating-selects _ shown.0 shown.1 i
                (has-keep (λ index. not (has index shown.1)) i _ (rw new refl) sorted) known
        ]

    select_from-length :
        Distinct (keys locals)
        → length result
          ≡ (if leb budget (length (keys locals)) then budget else length (keys locals))
    select_from-length distinct =
        let part = select_from-IsPart in
        let below = length-le_of_has result (keys locals) part.distinct part.local in
        elim (Bool-cases (leb budget (length result))) [
          | inl full ↦ ground (arith, part.within)
          | inr room ↦
              let above = length-le_of_has (keys locals) result distinct (
                All-of_has (λ i. has i result ≡ true) (keys locals)
                  (λ i known. elim (select_from-selects i known) [
                    | inl full ↦ cc
                    | inr selected ↦ selected
                  ])) in
              ground (arith, part.within)
        ]

-- The selection has as many indexes as its budget and the local variables allow, each of them that
-- of a local variable and none of them twice: a negative number of candidates is none.
pub selection_fills :
    (variables previous_rows : List VariableRecord) (active_filter : String) (watched : List ℕ)
    (max_candidates : ℤ) (cursor : ℕ)
    → let selected =
        (select_recovery_candidate_indexes variables previous_rows active_filter watched
          max_candidates cursor).1 in
      let indexes = keys (locals_of [] variables) in
      (length selected ≡ (
        if leb (pos_part max_candidates) (length indexes)
        then pos_part max_candidates
        else length indexes))
      × Distinct selected
      × All (λ i. has i indexes ≡ true) selected
unfolding select_recovery_candidate_indexes
selection_fills variables previous_rows active_filter watched max_candidates cursor =
    let budget = pos_part max_candidates in
    let locals = locals_of [] variables in
    let previous = locals_of [] previous_rows in
    let part = select_from-IsPart budget locals watched previous active_filter cursor in
    (
      select_from-length budget locals watched previous active_filter cursor
          (locals_of-Distinct [] variables tt),
      part.distinct,
      part.local,
    )
