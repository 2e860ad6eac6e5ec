-- ===== src/View/Shown.antt =====
-- What the table of ida_plugin/live_variables_view.py shows.
use dynvar_sync.Base.{
  Bool, true, false, List, [], ◌∷◌, keep, Option, some, String, str_eq, ◌≡◌, refl, ◌↔◌, inl, inr,
  Bool-cases, if◌then◌else◌, str_eq_iff, ap, starts_with, ◌∙◌, ◌>>=◌, both_true, Option-cases,
}
use dynvar_sync.Value.{member}
use dynvar_sync.Recovery.{VariableRecord}
use dynvar_sync.View.{
  View, new_view, update_rows, set_filter, apply_filter, row_matches_filter, filters,
  presented_status, other_status, is_exact_row,
}

-- The states of a view: new rows and filters, in any order.
pub data Reach : View → Type 0 where
  start : Reach new_view
  updated : {view : View} (rows : List VariableRecord) → Reach view → Reach (update_rows rows view)
  filtered :
      {view next : View} (filter_name : String)
      → Reach view
      → set_filter filter_name view ≡ some next
      → Reach next

-- The rows of the table are those rows that match the filter, in their order, and the filter is one
-- of the six.
pub record IsFiltered (view : View) : Type 0 where
  pub matching : view.rows ≡ keep (row_matches_filter view.active_filter) view.all_rows
  pub known : member view.active_filter filters ≡ true

set_filter-some :
    (filter_name : String) (view next : View)
    → set_filter filter_name view ≡ some next
    → (member filter_name filters ≡ true)
      × (next.active_filter ≡ filter_name)
      × (next.all_rows ≡ view.all_rows)
      × (next.rows ≡ keep (row_matches_filter filter_name) view.all_rows)
unfolding set_filter apply_filter
set_filter-some filter_name view next h = elim (Bool-cases (member filter_name filters)) [
  | inl known ↦
      let e : some (apply_filter (record view { active_filter = filter_name })) ≡ some next =
        rw known at h in
      (known, cc, cc, cc)
  | inr unknown ↦ cc
]

pub update_rows-IsFiltered :
    (rows : List VariableRecord) (view : View)
    → IsFiltered view
    → IsFiltered (update_rows rows view)
unfolding update_rows apply_filter
update_rows-IsFiltered rows view h = record { matching = refl; known = h.known }

pub set_filter-IsFiltered :
    (filter_name : String) (view next : View)
    → set_filter filter_name view ≡ some next
    → IsFiltered next
set_filter-IsFiltered filter_name view next h =
    let (known, name, all, rows) = set_filter-some filter_name view next h in
    record { matching = rw (name, all) rows; known = rw name known }

pub new_view-IsFiltered : IsFiltered new_view
unfolding new_view
new_view-IsFiltered = record { matching = refl; known = refl }

-- In every state of the view the table holds exactly the rows that match the active filter, in
-- their order, and the active filter is one of the six that there are.
pub Reach-IsFiltered : {view : View} → Reach view → IsFiltered view
Reach-IsFiltered start = new_view-IsFiltered
Reach-IsFiltered (updated {view} rows r) = update_rows-IsFiltered rows view (Reach-IsFiltered r)
Reach-IsFiltered (filtered {view} {next} filter_name r h) =
    set_filter-IsFiltered filter_name view next h

-- The filters are set one after the other.
abbrev pub set_all : List String → View → Option View
set_all [] view = some view
set_all (filter_name ∷ filter_names) view = set_filter filter_name view >>= set_all filter_names

set_all-all_rows :
    (filter_names : List String) (view next : View)
    → set_all filter_names view ≡ some next
    → next.all_rows ≡ view.all_rows
set_all-all_rows [] view next h = let e : next ≡ view = cc in ap (λ v. v.all_rows) e
set_all-all_rows (filter_name ∷ filter_names) view next h =
    elim (Option-cases (set_filter filter_name view)) [
      | inl refused ↦ cc (rw refused at h)
      | inr (middle, e) ↦
          let (_, _, all, _) = set_filter-some filter_name view middle e in
          set_all-all_rows filter_names middle next (rw e at h) ∙ all
    ]

keep_all : (rows : List VariableRecord) → keep (row_matches_filter "All") rows ≡ rows
unfolding row_matches_filter
keep_all [] = refl
keep_all (row ∷ rows) = ap (◌∷◌ row) (keep_all rows)

-- Filters lose no row: whatever filters are set, one after the other, the filter for all rows then
-- shows what the last update brought.
pub all_restored :
    (filter_names : List String) (rows : List VariableRecord) (view next shown : View)
    → set_all filter_names (update_rows rows view) ≡ some next
    → set_filter "All" next ≡ some shown
    → shown.rows ≡ rows
unfolding update_rows apply_filter
all_restored filter_names rows view next shown h e =
    let (_, _, _, all) = set_filter-some "All" next shown e in
    let kept = set_all-all_rows filter_names (update_rows rows view) next h in
    all ∙ (keep_all next.all_rows ∙ kept)

abbrev pub statuses : List String
statuses = "fresh" ∷ "stale" ∷ "unavailable" ∷ "error" ∷ []

-- A label that differs from the one that is shown was not chosen.
skip : (b : Bool) (x y z : String) → str_eq x z ≡ false → (if b then x else y) ≡ z → y ≡ z
skip true x y z apart h = cc ((str_eq_iff x z).1 h)
skip false x y z apart h = h

other_status-exact : (row : VariableRecord) → other_status row ≡ "exact" → row.status ≡ "exact"
unfolding other_status
other_status-exact row h = skip _ "unavailable" _ _ refl (
    skip _ "optimized away / not materialized" _ _ refl (
      skip _ "address taken / alias unknown" _ _ refl (
        skip _ "unsupported storage" _ _ refl
          (skip _ "ambiguous" _ _ refl (skip _ "not yet defined" _ _ refl h)))))

-- A row whose status is one of the four that the plugin writes is labelled as exact if and only if
-- it is fresh with an exact confidence.
pub exact_label :
    (row : VariableRecord)
    → member row.status statuses ≡ true
    → (presented_status row ≡ "exact")
      ↔ ((row.status ≡ "fresh") × (starts_with "exact_" row.confidence ≡ true))
unfolding presented_status is_exact_row
exact_label row known = (
  λ h. elim (Bool-cases (is_exact_row row)) [
    | inl exact ↦
        let (fresh, confident) = both_true _ _ exact in
        ((str_eq_iff row.status "fresh").0 fresh, confident)
    | inr other ↦
        let status : row.status ≡ "exact" =
          other_status-exact row (skip _ "stale / last observed" _ _ refl (rw other at h)) in
        cc (rw status at known)
  ],
  λ h. rw ((str_eq_iff row.status "fresh").1 h.0, h.1) refl,
)
