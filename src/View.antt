-- ===== src/View.antt =====
-- ida_plugin/live_variables_view.py: the filters of the table of variables, the status that it shows
-- and the class `LiveVariablesView`, without the chooser of IDA and the log lines.
pub mod Shown
pub mod Samples
mod Examples
use dynvar_sync.Base.{
  ℕ, zero, pos, ◌==◌, Bool, true, false, ◌&&◌, ◌||◌, not, List, [], ◌∷◌, keep, Option, none, some,
  is_some, String, str_eq, starts_with, contains, if◌then◌else◌,
}
use dynvar_sync.Value.{member, nonempty}
use dynvar_sync.Numbers.{decimal}
use dynvar_sync.Recovery.{VariableRecord}
use dynvar_sync.Hexrays.Names.{is_v_temporary_name}

abbrev pub filters : List String
filters = "All" ∷ "Fresh" ∷ "Recoverable" ∷ "Arguments" ∷ "Named locals" ∷ "Unavailable" ∷ []

unfoldable pub is_exact_row : VariableRecord → Bool
unfolding starts_with
is_exact_row row = str_eq row.status "fresh" && starts_with "exact_" row.confidence

unfoldable pub is_recoverable_row : VariableRecord → Bool
unfolding nonempty
is_recoverable_row row =
    if str_eq row.status "fresh" && nonempty row.value
    then true
    else str_eq row.status "stale"
      && (nonempty row.value || nonempty row.last_success_value || is_some row.last_success_pc_seq)

unfoldable pub is_named_local_row : VariableRecord → Bool
unfolding nonempty is_v_temporary_name
is_named_local_row row =
    not row.is_arg
    && nonempty row.name
    && not (str_eq row.name "<unnamed>")
    && not (is_v_temporary_name row.name)

unfoldable pub row_matches_filter : String → VariableRecord → Bool
unfolding is_recoverable_row is_named_local_row
row_matches_filter filter_name row =
    if str_eq filter_name "All"
    then true
    else if str_eq filter_name "Fresh"
    then str_eq row.status "fresh"
    else if str_eq filter_name "Recoverable"
    then is_recoverable_row row
    else if str_eq filter_name "Arguments"
    then row.is_arg
    else if str_eq filter_name "Named locals"
    then is_named_local_row row
    else if str_eq filter_name "Unavailable"
    then str_eq row.status "unavailable"
    else true

abbrev pub ambiguous_reasons : List String
ambiguous_reasons =
    "ambiguous_register_location" ∷ "ambiguous_reaching_definition"
    ∷ "cross_block_liveness_unproven" ∷ []

abbrev pub unsupported_reasons : List String
unsupported_reasons = "unsupported_scattered_location" ∷ "unsupported_value_width" ∷ []

abbrev pub is_aliased : String → Bool
unfolding contains
is_aliased reason =
    contains "alias" reason
    || contains "byref" reason
    || (contains "address" reason && not (contains "match" reason))

-- The label of a row that is neither exact nor stale.
unfoldable pub other_status : VariableRecord → String
other_status row =
    if str_eq row.reason "no_reaching_definition"
    then "not yet defined"
    else if member row.reason ambiguous_reasons
    then "ambiguous"
    else if member row.reason unsupported_reasons
    then "unsupported storage"
    else if is_aliased row.reason
    then "address taken / alias unknown"
    else if str_eq row.confidence "unsupported_variable"
        && str_eq row.reason "variable does not have a reliable runtime location in v1"
    then "optimized away / not materialized"
    else if str_eq row.status "unavailable"
    then "unavailable"
    else row.status

unfoldable pub presented_status : VariableRecord → String
unfolding is_exact_row other_status
presented_status row =
    if is_exact_row row
    then "exact"
    else if str_eq row.status "stale"
    then "stale / last observed"
    else other_status row

abbrev index_text : Option ℕ → String
index_text none = ""
index_text (some n) = decimal n

unfoldable pub row_to_columns : VariableRecord → List String
unfolding presented_status decimal
row_to_columns row =
    row.name
    ∷ row.hexrays_kind
    ∷ index_text row.arg_index
    ∷ (if row.size == 0 then "" else decimal row.size)
    ∷ row.location
    ∷ row.value
    ∷ presented_status row
    ∷ row.confidence
    ∷ row.reason
    ∷ decimal row.lvar_index
    ∷ row.type_string
    ∷ row.source_ea
    ∷ row.storage
    ∷ row.last_pc
    ∷ []

-- LiveVariablesView
pub record View : Type 0 where
  pub all_rows : List VariableRecord
  pub rows : List VariableRecord
  pub active_filter : String

unfoldable pub new_view : View
new_view = record { all_rows = []; rows = []; active_filter = "All" }

unfoldable pub apply_filter : View → View
unfolding row_matches_filter
apply_filter view = record view {
  rows = keep (row_matches_filter view.active_filter) view.all_rows;
}

unfoldable pub update_rows : List VariableRecord → View → View
unfolding apply_filter
update_rows rows view = apply_filter (record view { all_rows = rows })

-- `none` is the ValueError of an unknown filter.
unfoldable pub set_filter : String → View → Option View
unfolding apply_filter
set_filter filter_name view =
    if member filter_name filters
    then some (apply_filter (record view { active_filter = filter_name }))
    else none
