-- ===== src/Core/Away.antt =====
-- What `DayVarCore.build_entry_plan` (ida_plugin/dynvar_core.py) does away from a function entry.
use dynvar_sync.Base.{
  ℕ, true, false, List, [], ◌∷◌, ◌++◌, append_assoc, append-nil, Option, none, some, String, ◌≡◌,
  refl, ◌⊎◌, inl, inr, Bool-cases, subst,
}
use dynvar_sync.Value.{nonempty}
use dynvar_sync.Recovery.{VariableRecord}
use dynvar_sync.Core.{PcContext, DayVarCore, start_pc_context}
use dynvar_sync.Core.Plan.{
  Planned, plan_rows, plan_row, argument_index, unsupported_row, away_row, previous_row,
  request_entry, build_entry_plan,
}

-- The last row that stood for a variable.
abbrev prior_of : List VariableRecord → VariableRecord → Option VariableRecord
prior_of before variable = previous_row variable.function_ea variable.name before

-- A variable that is an argument, and the row that stood for it before if that shows a value.
abbrev ShowedBefore : List VariableRecord → VariableRecord → VariableRecord → Type 0
ShowedBefore before variable prior =
    ((index : ℕ) × (argument_index variable ≡ some index))
    × (prior_of before variable ≡ some prior)
    × (nonempty prior.value ≡ true)

-- A variable that is no argument, that no row stood for before, or whose row showed no value.
abbrev HasNothing : List VariableRecord → VariableRecord → Type 0
HasNothing before variable =
    (argument_index variable ≡ none)
    ⊎ ((prior_of before variable ≡ none)
        ⊎ ((prior : VariableRecord) × (prior_of before variable ≡ some prior)
            × (nonempty prior.value ≡ false)))

-- The row of a variable: as stale the value that was shown before, where one was, and otherwise
-- unavailable, with the value that the variable was listed with.
abbrev IsOld : List VariableRecord → VariableRecord → VariableRecord → Type 0
IsOld before variable row =
    (row.lvar_index ≡ variable.lvar_index)
    × (row.name ≡ variable.name)
    × (((row.status ≡ "unavailable") × (row.value ≡ variable.value) × HasNothing before variable)
        ⊎ ((row.status ≡ "stale")
            × ((prior : VariableRecord) × ShowedBefore before variable prior
                × (row.value ≡ prior.value))))

-- One such row for each variable, in order.
pub AreOld : List VariableRecord → List VariableRecord → List VariableRecord → Type 0
AreOld before [] [] = Unit
AreOld before [] (row ∷ rows) = ⊥
AreOld before (variable ∷ variables) [] = ⊥
AreOld before (variable ∷ variables) (row ∷ rows) =
    IsOld before variable row × AreOld before variables rows

AreOld-append :
    (before variables rows : List VariableRecord) (variable row : VariableRecord)
    → AreOld before variables rows
    → IsOld before variable row
    → AreOld before (variables ++ variable ∷ []) (rows ++ row ∷ [])
unfolding AreOld
AreOld-append before [] [] variable row all one = (one, tt)
AreOld-append before [] (r ∷ rows) variable row all one = absurd all
AreOld-append before (v ∷ variables) [] variable row all one = absurd all
AreOld-append before (v ∷ variables) (r ∷ rows) variable row all one =
    (all.0, AreOld-append before variables rows variable row all.1 one)

module _ (runtime_pc : String) (before : List VariableRecord) where
  abbrev here : VariableRecord → VariableRecord
  here variable = record variable { current_pc = runtime_pc }

  away_row-IsOld :
      (prior : Option VariableRecord) (variable : VariableRecord) (index : ℕ)
      → argument_index variable ≡ some index
      → prior_of before variable ≡ prior
      → IsOld before variable (away_row prior (here variable))
  unfolding away_row
  away_row-IsOld none variable index is_argument e = (refl, refl, inl (refl, refl, inr (inl e)))
  away_row-IsOld (some prior) variable index is_argument e =
      elim (Bool-cases (nonempty prior.value)) [
        | inl shown ↦
            rw shown (refl, refl, inr (refl, (prior, ((index, is_argument), e, shown), refl)))
        | inr hidden ↦ rw hidden (refl, refl, inl (refl, refl, inr (inr (prior, e, hidden))))
      ]

  abbrev IsQuiet : List VariableRecord → Planned → Type 0
  IsQuiet planned p =
      (p.needed_registers ≡ []) × (p.needs_rsp ≡ false) × AreOld before planned p.rows

  plan_row-IsQuiet :
      (index : Option ℕ) (planned : List VariableRecord) (variable : VariableRecord) (p : Planned)
      → argument_index variable ≡ index
      → IsQuiet planned p
      → IsQuiet (planned ++ variable ∷ []) (plan_row index false before (here variable) p)
  unfolding plan_row unsupported_row
  plan_row-IsQuiet none planned variable p e q = (
    q.0,
    q.1,
    AreOld-append before planned p.rows variable _ q.2 (refl, refl, inl (refl, refl, inl e)),
  )
  plan_row-IsQuiet (some index) planned variable p e q = (
    q.0,
    q.1,
    AreOld-append before planned p.rows variable _ q.2
        (away_row-IsOld (prior_of before variable) variable index e refl),
  )

  plan_rows-IsQuiet :
      (planned variables : List VariableRecord) (p : Planned)
      → IsQuiet planned p
      → IsQuiet (planned ++ variables) (plan_rows false runtime_pc before variables p)
  unfolding plan_rows
  plan_rows-IsQuiet planned [] p q = rw append-nil q
  plan_rows-IsQuiet planned (variable ∷ variables) p q =
      subst (λ all. IsQuiet all (plan_rows false runtime_pc before (variable ∷ variables) p))
        (append_assoc planned (variable ∷ []) variables)
        (plan_rows-IsQuiet (planned ++ variable ∷ []) variables
          (plan_row (argument_index variable) false before (here variable) p)
          (plan_row-IsQuiet (argument_index variable) planned variable p refl q))

-- Away from a function entry, the plan sends no request and waits for none, and it has one row for
-- each variable, in order, none of which is fresh: the row of an argument whose last row showed a
-- value shows that value as stale, and every other row is unavailable and has the value that the
-- variable was listed with.
pub away-IsOld :
    (variables : List VariableRecord) (context : PcContext) (core : DayVarCore)
    → context.at_function_entry ≡ false
    → ((build_entry_plan variables context core).0 ≡ none)
      × ((build_entry_plan variables context core).1.pending_requests ≡ [])
      × AreOld core.rows variables (build_entry_plan variables context core).1.rows
unfolding build_entry_plan start_pc_context
away-IsOld variables context core away =
    let first : Planned = record {
      rows = [];
      needed_registers = [];
      reg_variables = [];
      needs_rsp = false;
    } in
    let p = plan_rows false context.runtime_pc core.rows variables first in
    let (nothing, no_rsp, old) =
      plan_rows-IsQuiet context.runtime_pc core.rows [] variables first
        (refl, refl, (unfold AreOld in tt)) in
    rw (away, no_rsp) (rw (nothing, request_entry) (refl, refl, old))
