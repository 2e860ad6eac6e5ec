-- ===== src/Recovery/Invariant.antt =====
-- What holds of every state of a `VVariableRecovery`: the form of a record, of a pending request and
-- of the history, and that the small operations keep it.
pub mod History
pub mod Planning
pub mod Answers
pub mod Contexts
pub mod Steps
pub mod Shown
use dynvar_sync.Base.{
  ℕ, zero, suc, ◌≤◌, ◌<◌, ◌&&◌, Bool, true, false, not, List, [], ◌∷◌, Option, none, some, String,
  str_eq, ℤ, length, All, In, Dict, get, put, remove, nat_eq, string_eq, nat_pair_eq, ◌≡◌, refl,
  ◌⊎◌, inl, inr, arith, Bool-cases, All-put, In-get, In-All, sym, ◌∙◌, ap,
}
use dynvar_sync.Value.{nonempty}
use dynvar_sync.Recovery.{
  RecoveryRecord, RecoveryEvidence, VariableRecord, Recovery, PendingRequest, HistoryValue,
}
use dynvar_sync.Recovery.Records.{
  stale_or_unavailable, set_waiting, set_unavailable, set_error, fresh_record, new_record, store,
}

-- A fresh value is the last proven one, and was proven for the program counter of the record.
abbrev IsFresh : RecoveryRecord → Type 0
IsFresh r =
    (r.recovery_status ≡ "fresh")
    × (r.value ≡ r.last_successful_value)
    × (r.last_successful_pc_seq ≡ some r.current_pc_seq)
    × (r.last_update_pc ≡ r.current_runtime_pc)

abbrev IsStale : RecoveryRecord → Type 0
IsStale r =
    (r.recovery_status ≡ "stale") × (r.value ≡ r.last_successful_value) × (nonempty r.value ≡ true)

abbrev IsEmpty : RecoveryRecord → Type 0
IsEmpty r = ((r.recovery_status ≡ "unavailable") ⊎ (r.recovery_status ≡ "error")) × (r.value ≡ "")

-- What a record shows: a value is shown only as fresh or as stale.
abbrev pub IsHonest : RecoveryRecord → Type 0
IsHonest r = IsFresh r ⊎ (IsStale r ⊎ IsEmpty r)

abbrev pub IsRecordOf : Option ℤ → String → ℕ × RecoveryRecord → Type 0
IsRecordOf pc_seq runtime_pc item =
    (some item.1.current_pc_seq ≡ pc_seq)
    × (item.1.current_runtime_pc ≡ runtime_pc)
    × IsHonest item.1

-- A request that is waited for was sent for the current program counter.
abbrev pub IsRequestOf : Option ℤ → String → String × PendingRequest → Type 0
IsRequestOf pc_seq runtime_pc item =
    (some item.1.pc_seq ≡ pc_seq) × (item.1.runtime_pc ≡ runtime_pc) × (item.1.request_id ≡ item.0)

pub record IsSound (s : Recovery) : Type 0 where
  pub bounded : length s.history ≤ s.max_history
  pub records_current : All (IsRecordOf s.pc_seq s.runtime_pc) s.records
  pub pending_current : All (IsRequestOf s.pc_seq s.runtime_pc) s.pending

pub set_error-IsHonest : (reason : String) (r : RecoveryRecord) → IsHonest (set_error reason r)
unfolding set_error
set_error-IsHonest reason r = inr (inr (inr refl, refl))

stale_or_unavailable-IsHonest :
    (b : Bool) (reason : String) (r : RecoveryRecord)
    → (b ≡ true → nonempty r.last_successful_value ≡ true)
    → IsHonest (stale_or_unavailable b reason r)
stale_or_unavailable-IsHonest true reason r h = inr (inl (refl, refl, h refl))
stale_or_unavailable-IsHonest false reason r h = inr (inr (inl refl, refl))

pub set_waiting-IsHonest : (reason : String) (r : RecoveryRecord) → IsHonest (set_waiting reason r)
unfolding set_waiting
set_waiting-IsHonest reason r = stale_or_unavailable-IsHonest _ reason r (λ e. e)

pub set_unavailable-IsHonest :
    (b : Bool) (reason : String) (r : RecoveryRecord) → IsHonest (set_unavailable b reason r)
unfolding set_unavailable
set_unavailable-IsHonest b reason r = stale_or_unavailable-IsHonest _ reason r (λ e. ground arith)

pub fresh_record-IsHonest :
    (value confidence : String) (r : RecoveryRecord) → IsHonest (fresh_record value confidence r)
unfolding fresh_record
fresh_record-IsHonest value confidence r = inl (refl, refl, refl, refl)

-- The setters leave a record at its program counter.
abbrev SameContext : RecoveryRecord → RecoveryRecord → Type 0
SameContext r q =
    (r.current_pc_seq ≡ q.current_pc_seq) × (r.current_runtime_pc ≡ q.current_runtime_pc)

pub set_error-SameContext :
    (reason : String) (r : RecoveryRecord) → SameContext (set_error reason r) r
unfolding set_error
set_error-SameContext reason r = (refl, refl)

stale_or_unavailable-SameContext :
    (b : Bool) (reason : String) (r : RecoveryRecord)
    → SameContext (stale_or_unavailable b reason r) r
stale_or_unavailable-SameContext true reason r = (refl, refl)
stale_or_unavailable-SameContext false reason r = (refl, refl)

pub set_waiting-SameContext :
    (reason : String) (r : RecoveryRecord) → SameContext (set_waiting reason r) r
unfolding set_waiting
set_waiting-SameContext reason r = stale_or_unavailable-SameContext _ reason r

pub set_unavailable-SameContext :
    (b : Bool) (reason : String) (r : RecoveryRecord) → SameContext (set_unavailable b reason r) r
unfolding set_unavailable
set_unavailable-SameContext b reason r = stale_or_unavailable-SameContext _ reason r

pub fresh_record-SameContext :
    (value confidence : String) (r : RecoveryRecord)
    → SameContext (fresh_record value confidence r) r
unfolding fresh_record
fresh_record-SameContext value confidence r = (refl, refl)

-- A record that is stored.
pub store-IsSound :
    (index : ℕ) (r : RecoveryRecord) (s : Recovery)
    → IsRecordOf s.pc_seq s.runtime_pc (index, r)
    → IsSound s
    → IsSound (store index r s)
unfolding store
store-IsSound index r s new v = record {
  bounded = v.bounded;
  records_current =
      All-put (IsRecordOf s.pc_seq s.runtime_pc) index r s.records v.records_current new;
  pending_current = v.pending_current;
}

-- A setter that keeps the context of a record, and leaves it honest, can be stored.
pub set-IsRecordOf :
    (index : ℕ) (q r : RecoveryRecord) (pc_seq : Option ℤ) (runtime_pc : String)
    → SameContext q r
    → IsHonest q
    → (some r.current_pc_seq ≡ pc_seq) × (r.current_runtime_pc ≡ runtime_pc)
    → IsRecordOf pc_seq runtime_pc (index, q)
set-IsRecordOf index q r pc_seq runtime_pc same honest h =
    (ap some same.0 ∙ h.0, same.1 ∙ h.1, honest)

-- The record of an index is one of the context.
pub record_context :
    (index : ℕ) (r : RecoveryRecord) (s : Recovery)
    → get index s.records ≡ some r
    → IsSound s
    → (some r.current_pc_seq ≡ s.pc_seq) × (r.current_runtime_pc ≡ s.runtime_pc)
record_context index r s found v =
    let it =
      In-All (IsRecordOf s.pc_seq s.runtime_pc) s.records v.records_current (index, r)
        (In-get index r s.records found) in
    (it.0, it.1)
