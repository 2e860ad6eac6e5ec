-- ===== src/Selection.antt =====
-- ida_plugin/dayvar_plugin.py: which local variables are analysed at a program counter
-- (`select_recovery_candidate_indexes`), and the class `AnalysisSelectionCache`. A Python set of
-- indexes is a list without repetitions here; the lists `selected` and `selected_set` of the source
-- hold the same indexes and are one list, the newest first.
pub mod Indexes
pub mod Filled
pub mod Rotation
pub mod Cached
mod Examples
use dynvar_sync.Base.{
  ℕ, zero, suc, ◌+◌, ◌%◌, ltb, leb, ◌==◌, Bool, true, false, ◌||◌, not, List, [], ◌∷◌, map, keep,
  any_of, get_or, length, Option, none, some, is_some, default, Dict, get, put, nat_eq, ℤ, pos_part,
  String, str_eq, if◌then◌else◌, ◌&&◌, int_beq, bool_beq, option_beq, list_beq,
}
use dynvar_sync.Recovery.{VariableRecord}
use dynvar_sync.View.{row_matches_filter}

abbrev pub has : ℕ → List ℕ → Bool
has index = any_of (λ i. i == index)

-- sorted(indexes)
unfoldable pub insert_index : ℕ → List ℕ → List ℕ
insert_index i [] = i ∷ []
insert_index i (j ∷ js) = let later = insert_index i js in if leb i j then i ∷ j ∷ js else j ∷ later

unfoldable pub sort_indexes : List ℕ → List ℕ
unfolding insert_index
sort_indexes [] = []
sort_indexes (i ∷ is) = insert_index i (sort_indexes is)

-- {row.lvar_index: row for row in rows if not row.is_arg}
unfoldable pub locals_of : Dict ℕ VariableRecord → List VariableRecord → Dict ℕ VariableRecord
locals_of d [] = d
locals_of d (row ∷ rows) = locals_of (if row.is_arg then d else put row.lvar_index row d) rows

abbrev pub keys : Dict ℕ VariableRecord → List ℕ
keys = map (λ item. item.0)

abbrev pub observed : Option VariableRecord → Bool
observed none = false
observed (some previous) = str_eq previous.status "fresh" || str_eq previous.status "stale"

module _ (budget : ℕ) (locals : Dict ℕ VariableRecord) where
  -- The nested function `add`.
  unfoldable pub add : ℕ → List ℕ → List ℕ
  unfolding get
  add index selected =
      if leb budget (length selected) || has index selected || not (is_some (get index locals))
      then selected
      else index ∷ selected

  unfoldable pub add_each : List ℕ → List ℕ → List ℕ
  unfolding add
  add_each [] selected = selected
  add_each (index ∷ indexes) selected = add_each indexes (add index selected)

  -- `for offset in range(len(indexes))`, with the rounds that are left. The result is `added` and
  -- the indexes that are selected.
  unfoldable pub rotate : List ℕ → ℕ → ℕ → ℕ → List ℕ → ℕ × List ℕ
  unfolding add
  rotate indexes start zero offset selected = (offset, selected)
  rotate indexes start (suc left) offset selected =
      let next = add (get_or indexes ((start + offset) % length indexes) 0) selected in
      let rest = rotate indexes start left (suc offset) next in
      if leb budget (length next) then (suc offset, next) else rest

  unfoldable pub add_rotating : List ℕ → ℕ → List ℕ → ℕ × List ℕ
  unfolding rotate
  add_rotating indexes cursor selected =
      if length indexes == 0 || leb budget (length selected)
      then (cursor, selected)
      else let start = cursor % length indexes in
        let turned = rotate indexes start (length indexes) 0 selected in
        ((start + turned.0) % length indexes, turned.1)

  -- The local variables with an observation, in the order of their indexes.
  unfoldable pub add_observed : Dict ℕ VariableRecord → List ℕ → List ℕ
  unfolding add_each get sort_indexes
  add_observed previous selected =
      add_each (keep (λ index. observed (get index previous)) (sort_indexes (keys locals))) selected

  -- row_matches_filter(previous_by_index.get(index, variable), active_filter)
  unfoldable pub visible_under : Dict ℕ VariableRecord → String → ℕ → Bool
  unfolding get row_matches_filter
  visible_under previous active_filter index = elim (get index previous) [
    | some row ↦ row_matches_filter active_filter row
    | none ↦ elim (get index locals) [
      | some variable ↦ row_matches_filter active_filter variable
      | none ↦ false
    ]
  ]

  unfoldable pub visible_of : Dict ℕ VariableRecord → String → List ℕ
  unfolding visible_under sort_indexes
  visible_of previous active_filter =
      keep (visible_under previous active_filter) (sort_indexes (keys locals))

  unfoldable pub remaining_of : List ℕ → List ℕ
  unfolding sort_indexes
  remaining_of selected = keep (λ index. not (has index selected)) (sort_indexes (keys locals))

  -- The watched variables and those with an observation.
  unfoldable pub add_first : List ℕ → Dict ℕ VariableRecord → List ℕ
  unfolding add_each add_observed sort_indexes
  add_first watched previous = add_observed previous (add_each (sort_indexes watched) [])

  unfoldable pub select_from : List ℕ → Dict ℕ VariableRecord → String → ℕ → ℕ × List ℕ
  unfolding add_first add_rotating visible_of remaining_of
  select_from watched previous active_filter cursor =
      let shown =
        add_rotating (visible_of previous active_filter) cursor (add_first watched previous) in
      add_rotating (remaining_of shown.1) shown.0 shown.1

-- The next cursor and the selected indexes.
unfoldable pub select_recovery_candidate_indexes :
    List VariableRecord → List VariableRecord → String → List ℕ → ℤ → ℕ → ℕ × List ℕ
unfolding select_from locals_of
select_recovery_candidate_indexes variables previous_rows active_filter watched max_candidates
      fallback_cursor =
    select_from (pos_part max_candidates) (locals_of [] variables) watched
      (locals_of [] previous_rows) active_filter fallback_cursor

-- _variable_fingerprint
pub record Fingerprint : Type 0 where
  pub lvar_index : ℕ
  pub name : String
  pub type_string : String
  pub size : ℕ
  pub is_arg : Bool
  pub arg_index : Option ℕ
  pub lvar_defea : String

unfoldable pub fingerprint : VariableRecord → Fingerprint
fingerprint variable = record {
  lvar_index = variable.lvar_index;
  name = variable.name;
  type_string = variable.type_string;
  size = variable.size;
  is_arg = variable.is_arg;
  arg_index = variable.arg_index;
  lvar_defea = variable.lvar_defea;
}

pub record Key : Type 0 where
  pub pc_seq : ℤ
  pub function_ea : ℕ
  pub current_ea : ℤ
  pub active_filter : String
  pub watched : List ℕ
  pub variables : List Fingerprint

-- AnalysisSelectionCache
pub record Cache : Type 0 where
  pub key : Option Key
  pub indexes : List ℕ
  pub cursor_by_function : Dict ℕ ℕ

unfoldable pub new_cache : Cache
new_cache = record { key = none; indexes = []; cursor_by_function = [] }

unfoldable pub invalidate : Bool → Cache → Cache
invalidate clear_cursors cache = record cache {
  key = none;
  indexes = [];
  cursor_by_function = if clear_cursors then [] else cache.cursor_by_function;
}

abbrev same_fingerprint : Fingerprint → Fingerprint → Bool
same_fingerprint a b =
    (a.lvar_index == b.lvar_index)
    && str_eq a.name b.name
    && str_eq a.type_string b.type_string
    && (a.size == b.size)
    && bool_beq a.is_arg b.is_arg
    && option_beq nat_eq a.arg_index b.arg_index
    && str_eq a.lvar_defea b.lvar_defea

-- The comparison of the tuples of the source.
unfoldable pub same_key : Key → Key → Bool
same_key a b =
    int_beq a.pc_seq b.pc_seq
    && (a.function_ea == b.function_ea)
    && int_beq a.current_ea b.current_ea
    && str_eq a.active_filter b.active_filter
    && list_beq ◌==◌ a.watched b.watched
    && list_beq same_fingerprint a.variables b.variables

abbrev pub is_key : Key → Option Key → Bool
unfolding same_key
is_key key none = false
is_key key (some old) = same_key key old

-- The arguments of `select`.
pub record Request : Type 0 where
  pub pc_seq : ℤ
  pub function_ea : ℕ
  pub current_ea : ℤ
  pub variables : List VariableRecord
  pub previous_rows : List VariableRecord
  pub active_filter : String
  pub watched : List ℕ
  pub max_candidates : ℤ

unfoldable pub key_of : Request → Key
unfolding sort_indexes fingerprint
key_of r = record {
  pc_seq = r.pc_seq;
  function_ea = r.function_ea;
  current_ea = r.current_ea;
  active_filter = r.active_filter;
  watched = sort_indexes r.watched;
  variables = map fingerprint r.variables;
}

unfoldable pub select : Request → Cache → List ℕ × Cache
unfolding select_recovery_candidate_indexes sort_indexes key_of same_key get put
select r cache =
    if is_key (key_of r) cache.key
    then (cache.indexes, cache)
    else let (next_cursor, selected) =
        select_recovery_candidate_indexes r.variables r.previous_rows r.active_filter r.watched
          r.max_candidates (default 0 (get r.function_ea cache.cursor_by_function)) in
      (
        selected,
        record {
          key = some (key_of r);
          indexes = sort_indexes selected;
          cursor_by_function = put r.function_ea next_cursor cache.cursor_by_function;
        },
      )
