-- ===== src/Selection/Examples.antt =====
-- Selections of ida_plugin/dayvar_plugin.py among three local variables.
use dynvar_sync.Base.{
  ℕ, List, [], ◌∷◌, length, true, ◌≡◌, refl, pos, All, leb, if◌then◌else◌, arith, get, put, nat_eq,
}
use dynvar_sync.Recovery.{VariableRecord}
use dynvar_sync.View.{row_matches_filter}
use dynvar_sync.View.Samples.{fresh_row, stale_row, idle_row}
use dynvar_sync.Selection.{
  has, keys, locals_of, visible_of, visible_under, select_recovery_candidate_indexes, select_from,
  add_first, add_each, add, add_observed, add_rotating, rotate, remaining_of, sort_indexes,
  insert_index, Request, select, new_cache, key_of,
}
use dynvar_sync.Selection.Indexes.{Distinct}
use dynvar_sync.Selection.Filled.{selection_fills}
use dynvar_sync.Selection.Rotation.{watched_selected, one_visible}
use dynvar_sync.Selection.Cached.{select_again}

abbrev variables : List VariableRecord
variables = fresh_row ∷ stale_row ∷ idle_row ∷ []

-- The row that is fresh is the only one under its filter, and comes first.
abbrev before : List VariableRecord
before = fresh_row ∷ []

one_and_next :
    select_recovery_candidate_indexes variables before "Fresh" [] (pos 2) 0 ≡ (1, 1 ∷ 0 ∷ [])
unfolding select_recovery_candidate_indexes select_from locals_of add_first add_each add
    add_observed add_rotating rotate remaining_of visible_of visible_under sort_indexes insert_index
    row_matches_filter get put
one_and_next = refl

selection_fills_example :
    let selected = (select_recovery_candidate_indexes variables before "Fresh" [] (pos 2) 0).1 in
    let indexes = keys (locals_of [] variables) in
    (length selected ≡ (if leb 2 (length indexes) then 2 else length indexes))
    × Distinct selected
    × All (λ i. has i indexes ≡ true) selected
selection_fills_example = selection_fills variables before "Fresh" [] (pos 2) 0

idle_known : has 2 (keys (locals_of [] variables)) ≡ true
unfolding locals_of put
idle_known = refl

watched_selected_example :
    has 2 (select_recovery_candidate_indexes variables before "All" (2 ∷ []) (pos 1) 0).1 ≡ true
watched_selected_example =
    watched_selected variables before "All" (2 ∷ []) (pos 1) 0 2 (omega arith) refl idle_known

fresh_alone : length (visible_of 2 (locals_of [] variables) (locals_of [] before) "Fresh") ≡ 1
unfolding visible_of visible_under locals_of sort_indexes insert_index row_matches_filter get put
fresh_alone = refl

one_visible_example :
    (select_recovery_candidate_indexes variables before "Fresh" [] (pos 2) 0).1
    ≡ (select_recovery_candidate_indexes variables before "Fresh" [] (pos 2) 1).1
one_visible_example = one_visible variables before "Fresh" [] (pos 2) 0 1 fresh_alone

abbrev first_request : Request
first_request = record {
  pc_seq = pos 1;
  function_ea = 4096;
  current_ea = pos 4100;
  variables = variables;
  previous_rows = before;
  active_filter = "All";
  watched = [];
  max_candidates = pos 2;
}

same_key_again : key_of (record first_request { previous_rows = [] }) ≡ key_of first_request
unfolding key_of
same_key_again = refl

select_again_example :
    ((select (record first_request { previous_rows = [] }) (select first_request new_cache).1).1
      ≡ (select first_request new_cache).1)
    × ((i : ℕ)
        → has i
            (select
              (record first_request { previous_rows = [] })
              (select first_request new_cache).1).0
          ≡ has i (select first_request new_cache).0)
select_again_example =
    select_again first_request (record first_request { previous_rows = [] }) new_cache
      same_key_again
