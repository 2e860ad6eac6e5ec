-- ===== src/Recovery/Invariant/Shown.antt =====
-- What `VVariableRecovery.overlay_rows` (ida_plugin/v_variable_recovery.py) shows of a sound state.
use dynvar_sync.Base.{
  ℕ, zero, suc, true, false, List, [], ◌∷◌, none, some, get, get_elem?, nat_eq, ◌≡◌, refl, ◌⊎◌, inl,
  inr, Bool-cases, Option-cases, In-get, In-All, ◌∙◌, subst,
}
use dynvar_sync.Value.{nonempty}
use dynvar_sync.Recovery.{VariableRecord, RecoveryRecord, Recovery}
use dynvar_sync.Recovery.Overlay.{overlay_rows, overlay_row}
use dynvar_sync.Recovery.Invariant.{IsSound, IsRecordOf, IsHonest}

-- A value is shown as fresh if it was proven at the current program counter, as stale if it is the
-- last proven one, and otherwise no value is shown.
abbrev IsClaimed : Recovery → VariableRecord → Type 0
IsClaimed s shown =
    ((shown.status ≡ "fresh")
      × (shown.value ≡ shown.last_success_value)
      × (shown.last_success_pc_seq ≡ s.pc_seq)
      × (shown.last_pc ≡ s.runtime_pc))
    ⊎ (((shown.status ≡ "stale")
          × (shown.value ≡ shown.last_success_value)
          × (nonempty shown.value ≡ true))
        ⊎ (((shown.status ≡ "unavailable") ⊎ (shown.status ≡ "error")) × (shown.value ≡ "")))

-- The row of a variable with what a record knows of it.
pub record IsRowOf (s : Recovery) (q : RecoveryRecord) (row shown : VariableRecord) : Type 0 where
  pub same_index : shown.lvar_index ≡ row.lvar_index
  pub same_name : shown.name ≡ row.name
  pub its_value : shown.value ≡ q.value
  pub its_status : shown.status ≡ q.recovery_status
  pub its_confidence : shown.confidence ≡ q.confidence
  pub its_reason : shown.reason ≡ q.reason
  pub its_storage : shown.storage ≡ q.storage
  pub at_pc_seq : shown.current_pc_seq ≡ s.pc_seq
  pub at_pc : shown.current_pc ≡ s.runtime_pc
  pub claimed : IsClaimed s shown

abbrev pub IsShown : Recovery → VariableRecord → VariableRecord → Type 0
IsShown s row shown =
    ((row.is_arg ≡ true) × (shown ≡ row))
    ⊎ (((row.is_arg ≡ false) × (get row.lvar_index s.records ≡ none) × (shown ≡ row))
        ⊎ ((row.is_arg ≡ false)
            × ((q : RecoveryRecord) × (get row.lvar_index s.records ≡ some q)
                × IsRowOf s q row shown)))

claims :
    (s : Recovery) (row : VariableRecord) (q : RecoveryRecord)
    → IsRecordOf s.pc_seq s.runtime_pc (row.lvar_index, q)
    → IsHonest q
    → IsClaimed s (overlay_row row q)
unfolding overlay_row
claims s row q it (inl (fresh, last, proven, updated)) =
    inl (fresh, last, proven ∙ it.0, updated ∙ it.1)
claims s row q it (inr (inl stale)) = inr (inl stale)
claims s row q it (inr (inr empty)) = inr (inr empty)

overlay_row-IsRowOf :
    (s : Recovery) (row : VariableRecord) (q : RecoveryRecord)
    → IsRecordOf s.pc_seq s.runtime_pc (row.lvar_index, q)
    → IsRowOf s q row (overlay_row row q)
unfolding overlay_row
overlay_row-IsRowOf s row q it = record {
  same_index = refl;
  same_name = refl;
  its_value = refl;
  its_status = refl;
  its_confidence = refl;
  its_reason = refl;
  its_storage = refl;
  at_pc_seq = it.0;
  at_pc = it.1;
  claimed = claims s row q it it.2;
}

first-IsShown :
    (s : Recovery) (row : VariableRecord) (rows : List VariableRecord)
    → IsSound s
    → (shown : VariableRecord) × (get_elem? (overlay_rows (row ∷ rows) s) 0 ≡ some shown)
      × IsShown s row shown
unfolding overlay_rows
first-IsShown s row rows v = elim (Bool-cases row.is_arg) [
  | inl argument ↦ (row, rw argument refl, inl (argument, refl))
  | inr local ↦ elim (Option-cases (get row.lvar_index s.records)) [
    | inl unknown ↦ (row, rw (local, unknown) refl, inr (inl (local, unknown, refl)))
    | inr (q, found) ↦
        let it =
          In-All (IsRecordOf s.pc_seq s.runtime_pc) s.records v.records_current (row.lvar_index, q)
            (In-get row.lvar_index q s.records found) in
        (
          overlay_row row q,
          rw (local, found) refl,
          inr (inr (local, (q, found, overlay_row-IsRowOf s row q it))),
        )
  ]
]

-- Overlaying a sound recovery state on the rows of the view leaves an argument row as it is, and a
-- local variable without a record too. The row of a local variable with a record keeps its index and
-- its name, and shows the value, the status, the confidence, the reason and the storage of its own
-- record, at the current program counter: a value that is shown as fresh was proven there, one that
-- is shown as stale is the last that was proven, and otherwise the value is empty.
pub overlay-IsShown :
    (s : Recovery) (rows : List VariableRecord) (i : ℕ) (row : VariableRecord)
    → IsSound s
    → get_elem? rows i ≡ some row
    → (shown : VariableRecord) × (get_elem? (overlay_rows rows s) i ≡ some shown)
      × IsShown s row shown
unfolding overlay_rows
overlay-IsShown s [] i row v h = cc
overlay-IsShown s (r ∷ rows) (suc i) row v h = overlay-IsShown s rows i row v h
overlay-IsShown s (r ∷ rows) zero row v h =
    let same : r ≡ row = cc in
    subst
      (λ x.
        (shown : VariableRecord) × (get_elem? (overlay_rows (r ∷ rows) s) 0 ≡ some shown)
        × IsShown s x shown)
      same (first-IsShown s r rows v)
