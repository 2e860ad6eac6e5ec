-- ===== src/View/Examples.antt =====
-- Rows under the filters of ida_plugin/live_variables_view.py.
use dynvar_sync.Base.{List, [], ◌∷◌, some, true, false, ◌≡◌, refl, ◌↔◌, starts_with}
use dynvar_sync.Value.{nonempty}
use dynvar_sync.Recovery.{VariableRecord}
use dynvar_sync.Hexrays.Names.{is_v_temporary_name, is_digits, all_digits}
use dynvar_sync.View.{
  View, new_view, update_rows, set_filter, apply_filter, row_matches_filter, presented_status,
  is_named_local_row,
}
use dynvar_sync.View.Shown.{
  start, updated, filtered, IsFiltered, Reach-IsFiltered, set_all, all_restored, exact_label,
}
use dynvar_sync.View.Samples.{fresh_row, stale_row, idle_row}

abbrev three_rows : List VariableRecord
three_rows = fresh_row ∷ stale_row ∷ idle_row ∷ []

abbrev shown_rows : View
unfolding update_rows apply_filter row_matches_filter new_view
shown_rows = update_rows three_rows new_view

named_locals : row_matches_filter "Named locals" idle_row ≡ false
unfolding row_matches_filter is_named_local_row is_v_temporary_name is_digits all_digits nonempty
named_locals = refl

abbrev recoverable_view : View
recoverable_view = record {
  all_rows = three_rows;
  rows = stale_row ∷ [];
  active_filter = "Recoverable";
}

-- A row is shown as stale with a last value only.
abbrev fresh_view : View
fresh_view = record { all_rows = three_rows; rows = fresh_row ∷ []; active_filter = "Fresh" }

fresh_filtered : set_filter "Fresh" (update_rows three_rows new_view) ≡ some fresh_view
unfolding set_filter update_rows apply_filter row_matches_filter new_view
fresh_filtered = refl

abbrev all_view : View
all_view = record { all_rows = three_rows; rows = three_rows; active_filter = "All" }

all_filtered : set_filter "All" fresh_view ≡ some all_view
unfolding set_filter apply_filter row_matches_filter
all_filtered = refl

fresh_set : set_all ("Fresh" ∷ []) (update_rows three_rows new_view) ≡ some fresh_view
unfolding set_filter update_rows apply_filter row_matches_filter new_view
fresh_set = refl

Reach-IsFiltered_example : IsFiltered fresh_view
Reach-IsFiltered_example =
    Reach-IsFiltered (filtered "Fresh" (updated three_rows start) fresh_filtered)

all_restored_example : all_view.rows ≡ three_rows
all_restored_example =
    all_restored ("Fresh" ∷ []) three_rows new_view fresh_view all_view fresh_set all_filtered

exact_label_example :
    (presented_status fresh_row ≡ "exact")
    ↔ ((fresh_row.status ≡ "fresh") × (starts_with "exact_" fresh_row.confidence ≡ true))
exact_label_example = exact_label fresh_row refl
