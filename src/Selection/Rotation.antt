-- ===== src/Selection/Rotation.antt =====
-- Which variables come first in the selection of ida_plugin/dayvar_plugin.py, and how its cursor
-- moves.
use dynvar_sync.Base.{
  ℕ, suc, ◌+◌, ◌%◌, ◌≤◌, ◌<◌, leb, ◌==◌, ==_iff, true, false, List, [], ◌∷◌, keep, length, Dict,
  get, nat_eq, ◌≡◌, refl, arith, Bool-cases, inl, inr, ◌∙◌, ℤ, pos_part, String,
}
use dynvar_sync.Recovery.{VariableRecord}
use dynvar_sync.Selection.{
  has, sort_indexes, locals_of, keys, add, add_each, rotate, add_rotating, add_observed, observed,
  visible_of, remaining_of, add_first, select_from, select_recovery_candidate_indexes,
}
use dynvar_sync.Selection.Indexes.{has-sort_indexes, length-sort_indexes, get-keys}
use dynvar_sync.Selection.Filled.{add_each-keeps, add_rotating-keeps}

module _ (budget : ℕ) (locals : Dict ℕ VariableRecord) where
  length-add-le : (i : ℕ) (s : List ℕ) → length (add budget locals i s) ≤ suc (length s)
  unfolding add
  length-add-le i s = ground arith

  -- There is room for the index.
  add-has :
      (i : ℕ) (s : List ℕ)
      → length s < budget
      → has i (keys locals) ≡ true
      → has i (add budget locals i s) ≡ true
  unfolding add
  add-has i s room known = elim (Bool-cases (has i s)) [
    | inl old ↦
        (let open_budget : leb budget (length s) ≡ false = ground arith in
          rw (open_budget, old) old)
    | inr new ↦
        (let open_budget : leb budget (length s) ≡ false = ground arith in
          rw (open_budget, new, get-keys i locals ∙ known) (ground arith))
  ]

  add_each-has :
      (is s : List ℕ) (i : ℕ)
      → length is + length s ≤ budget
      → has i is ≡ true
      → has i (keys locals) ≡ true
      → has i (add_each budget locals is s) ≡ true
  unfolding add_each
  add_each-has [] s i room listed known = cc
  add_each-has (j ∷ is) s i room listed known = elim (Bool-cases (j == i)) [
    | inl same ↦
        let e : j ≡ i = (==_iff j i).0 same in
        rw e (
          add_each-keeps budget locals i is (add budget locals i s)
            (add-has i s (omega arith) known))
    | inr other ↦
        add_each-has is (add budget locals j s) i (omega (arith, length-add-le j s))
          (rw other at listed) known
  ]

  watched-first :
      (watched : List ℕ) (previous : Dict ℕ VariableRecord) (active_filter : String) (cursor i : ℕ)
      → length watched ≤ budget
      → has i watched ≡ true
      → has i (keys locals) ≡ true
      → has i (select_from budget locals watched previous active_filter cursor).1 ≡ true
  unfolding select_from add_first add_observed
  watched-first watched previous active_filter cursor i room listed known =
      let observed_indexes =
        keep (λ index. observed (get index previous)) (sort_indexes (keys locals)) in
      let watched_first = add_each budget locals (sort_indexes watched) [] in
      let first = add_each budget locals observed_indexes watched_first in
      let visible = visible_of budget locals previous active_filter in
      let shown = add_rotating budget locals visible cursor first in
      add_rotating-keeps budget locals i (remaining_of budget locals shown.1) shown.0 shown.1 (
        add_rotating-keeps budget locals i visible cursor first (
          add_each-keeps budget locals i observed_indexes watched_first (
            add_each-has (sort_indexes watched) [] i (omega (arith, length-sort_indexes watched))
              (has-sort_indexes i watched ∙ listed) known)))

  -- Over a list of one index the cursor comes back to 0.
  rotating_one :
      (indexes : List ℕ) (s : List ℕ) (cursor other : ℕ)
      → length indexes ≡ 1
      → leb budget (length s) ≡ false
      → add_rotating budget locals indexes cursor s ≡ add_rotating budget locals indexes other s
  unfolding add_rotating rotate
  rotating_one [] s cursor other one room = absurd (omega arith)
  rotating_one (x ∷ []) s cursor other one room =
      let e : cursor % 1 ≡ 0 = omega arith in
      let f : other % 1 ≡ 0 = omega arith in rw (room, e, f) refl
  rotating_one (x ∷ y ∷ indexes) s cursor other one room = absurd (omega arith)

  -- With no room left nothing is added.
  rotating_full :
      (indexes s : List ℕ) (cursor : ℕ)
      → leb budget (length s) ≡ true
      → add_rotating budget locals indexes cursor s ≡ (cursor, s)
  unfolding add_rotating
  rotating_full indexes s cursor full = elim (Bool-cases (length indexes == 0)) [
    | inl none_left ↦ rw none_left refl
    | inr some_left ↦ rw (some_left, full) refl
  ]

  one_visible_from :
      (watched : List ℕ) (previous : Dict ℕ VariableRecord) (active_filter : String)
      (cursor other : ℕ)
      → length (visible_of budget locals previous active_filter) ≡ 1
      → (select_from budget locals watched previous active_filter cursor).1
        ≡ (select_from budget locals watched previous active_filter other).1
  unfolding select_from
  one_visible_from watched previous active_filter cursor other one =
      let first = add_first budget locals watched previous in
      let visible = visible_of budget locals previous active_filter in
      elim (Bool-cases (leb budget (length first))) [
        | inl full ↦
            rw (rotating_full visible first cursor full, rotating_full visible first other full)
              (rw
                (
                  rotating_full (remaining_of budget locals first) first cursor full,
                  rotating_full (remaining_of budget locals first) first other full,
                )
                refl)
        | inr room ↦ rw (rotating_one visible first cursor other one room) refl
      ]

-- If there are no more watched variables than candidates, then each watched local variable is
-- selected, whatever the filter, the rows and the cursor are.
pub watched_selected :
    (variables previous_rows : List VariableRecord) (active_filter : String) (watched : List ℕ)
    (max_candidates : ℤ) (cursor i : ℕ)
    → length watched ≤ pos_part max_candidates
    → has i watched ≡ true
    → has i (keys (locals_of [] variables)) ≡ true
    → has i
        (select_recovery_candidate_indexes variables previous_rows active_filter watched
          max_candidates cursor).1
      ≡ true
unfolding select_recovery_candidate_indexes
watched_selected variables previous_rows active_filter watched max_candidates cursor i =
    watched-first (pos_part max_candidates) (locals_of [] variables) watched
      (locals_of [] previous_rows) active_filter cursor i

-- Where the filter shows exactly one local variable, the selection is the same whatever the cursor
-- is: it does not rotate.
pub one_visible :
    (variables previous_rows : List VariableRecord) (active_filter : String) (watched : List ℕ)
    (max_candidates : ℤ) (cursor other : ℕ)
    → length (
        visible_of
          (pos_part max_candidates)
          (locals_of [] variables)
          (locals_of [] previous_rows)
          active_filter)
      ≡ 1
    → (select_recovery_candidate_indexes variables previous_rows active_filter watched
        max_candidates cursor).1
      ≡ (select_recovery_candidate_indexes variables previous_rows active_filter watched
          max_candidates other).1
unfolding select_recovery_candidate_indexes
one_visible variables previous_rows active_filter watched max_candidates =
    one_visible_from (pos_part max_candidates) (locals_of [] variables) watched
      (locals_of [] previous_rows) active_filter
