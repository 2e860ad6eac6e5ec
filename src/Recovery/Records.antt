-- ===== src/Recovery/Records.antt =====
-- What one record of a `VVariableRecovery` goes through: `_new_record`, `_matching_history`,
-- `_set_waiting`, `_set_unavailable`, `_set_error`, `_mark_fresh` and `_prune_history`.
use dynvar_sync.Base.{
  ℕ, ◌-◌, leb, ◌==◌, ◌&&◌, Bool, true, false, List, [], ◌∷◌, Option, none, some, if◌then◌else◌,
  String, str_eq, ℤ, pos, negsuc, length, take, Dict, get, put, remove, nat_eq, nat_pair_eq,
}
use dynvar_sync.Value.{nonempty}
use dynvar_sync.Recovery.{VariableRecord, RecoveryEvidence, RecoveryRecord, HistoryValue, Recovery}

-- x or y, for texts
unfoldable pub or_text : String → String → String
unfolding nonempty
or_text x y = if nonempty x then x else y

abbrev same_variable : HistoryValue → VariableRecord → Bool
same_variable history variable =
    str_eq history.name variable.name
    && history.width == variable.size
    && str_eq history.type_string variable.type_string
    && str_eq history.lvar_defea variable.lvar_defea

abbrev matching : Option HistoryValue → VariableRecord → Option HistoryValue
matching none variable = none
matching (some history) variable = if same_variable history variable then some history else none

unfoldable matching_history : VariableRecord → Recovery → Option HistoryValue
matching_history variable s =
    matching (get (variable.function_start_ea, variable.lvar_index) s.history) variable

abbrev history_text : (HistoryValue → String) → Option HistoryValue → String
history_text f none = ""
history_text f (some history) = f history

abbrev history_seq : Option HistoryValue → Option ℤ
history_seq none = none
history_seq (some history) = some history.pc_seq

unfoldable pub new_record :
    VariableRecord → RecoveryEvidence → ℤ → String → ℤ → Recovery → RecoveryRecord
unfolding matching_history or_text
new_record variable evidence pc_seq runtime_pc current_ea s =
    let history = matching_history variable s in
    record {
      lvar_index = variable.lvar_index;
      name = variable.name;
      type_string = variable.type_string;
      width = variable.size;
      printed_location = or_text variable.printed_location variable.location;
      function_ea = variable.function_start_ea;
      current_ea = current_ea;
      candidate_storage_kind = evidence.storage_kind;
      recovery_status = "unavailable";
      confidence = "unknown";
      reason = evidence.reason;
      storage = evidence.storage;
      source_ea = evidence.source_ea;
      value = "";
      current_runtime_pc = runtime_pc;
      current_pc_seq = pc_seq;
      last_successful_value = history_text (λ h. h.value) history;
      last_successful_pc_seq = history_seq history;
      last_update_pc = history_text (λ h. h.runtime_pc) history;
    }

abbrev pub stale_or_unavailable : Bool → String → RecoveryRecord → RecoveryRecord
stale_or_unavailable true reason r = record r {
  value = r.last_successful_value;
  recovery_status = "stale";
  confidence = "stale_runtime_value";
  reason = reason;
}
stale_or_unavailable false reason r = record r {
  value = "";
  recovery_status = "unavailable";
  confidence = "unknown";
  reason = reason;
}

unfoldable pub set_waiting : String → RecoveryRecord → RecoveryRecord
unfolding nonempty
set_waiting reason r = stale_or_unavailable (nonempty r.last_successful_value) reason r

unfoldable pub set_unavailable : Bool → String → RecoveryRecord → RecoveryRecord
unfolding nonempty
set_unavailable preserve_stale reason r =
    stale_or_unavailable (preserve_stale && nonempty r.last_successful_value) reason r

unfoldable pub set_error : String → RecoveryRecord → RecoveryRecord
set_error reason r = record r {
  value = "";
  recovery_status = "error";
  confidence = "read_failed";
  reason = reason;
}

unfoldable row_lvar_defea : ℕ → List VariableRecord → String
row_lvar_defea index [] = ""
row_lvar_defea index (row ∷ rows) =
    if row.lvar_index == index then row.lvar_defea else row_lvar_defea index rows

-- a <= b
abbrev pub int_leb : ℤ → ℤ → Bool
int_leb (pos a) (pos b) = leb a b
int_leb (pos a) (negsuc b) = false
int_leb (negsuc a) (pos b) = true
int_leb (negsuc a) (negsuc b) = leb b a

-- sorted(self._history, key=lambda key: self._history[key].pc_seq), which is stable
unfoldable pub insert_oldest :
    (ℕ × ℕ) × HistoryValue → Dict (ℕ × ℕ) HistoryValue → Dict (ℕ × ℕ) HistoryValue
insert_oldest item [] = item ∷ []
insert_oldest item (other ∷ rest) =
    let later = insert_oldest item rest in
    if int_leb item.1.pc_seq other.1.pc_seq then item ∷ other ∷ rest else other ∷ later

unfoldable pub by_age : Dict (ℕ × ℕ) HistoryValue → Dict (ℕ × ℕ) HistoryValue
unfolding insert_oldest
by_age [] = []
by_age (item ∷ items) = insert_oldest item (by_age items)

unfoldable pub remove_keys :
    Dict (ℕ × ℕ) HistoryValue → Dict (ℕ × ℕ) HistoryValue → Dict (ℕ × ℕ) HistoryValue
remove_keys [] history = history
remove_keys (item ∷ items) history = remove_keys items (remove item.0 history)

unfoldable pub prune_history : Recovery → Recovery
unfolding by_age remove_keys
prune_history s = record s {
  history = remove_keys (take (length s.history - s.max_history) (by_age s.history)) s.history;
}

abbrev fresh_reason : RecoveryRecord → String
fresh_reason r =
    if str_eq r.candidate_storage_kind "constant"
    then "current reaching definition is an exact constant"
    else if str_eq r.candidate_storage_kind "register"
    then "register location is proven live at current PC"
    else r.reason

-- What `_mark_fresh` makes of the record.
unfoldable pub fresh_record : String → String → RecoveryRecord → RecoveryRecord
fresh_record value confidence r = record r {
  value = value;
  recovery_status = "fresh";
  confidence = confidence;
  reason = fresh_reason r;
  last_successful_value = value;
  last_successful_pc_seq = some r.current_pc_seq;
  last_update_pc = r.current_runtime_pc;
}

-- What `_mark_fresh` makes of the history, for a record that it has marked.
unfoldable pub remember : RecoveryRecord → Recovery → Recovery
unfolding prune_history row_lvar_defea
remember r s = prune_history (record s {
  history =
      put (r.function_ea, r.lvar_index)
        (record {
          name = r.name;
          width = r.width;
          type_string = r.type_string;
          lvar_defea = row_lvar_defea r.lvar_index s.source_variables;
          value = r.value;
          pc_seq = r.current_pc_seq;
          runtime_pc = r.current_runtime_pc;
          source_ea = r.source_ea;
        })
        s.history;
})

-- `self._records[index] = record`
unfoldable pub store : ℕ → RecoveryRecord → Recovery → Recovery
store index r s = record s { records = put index r s.records }

-- `_mark_fresh`, on the record that stands at an index.
unfoldable pub mark_fresh : ℕ → String → String → RecoveryRecord → Recovery → Recovery
unfolding fresh_record remember store
mark_fresh index value confidence r s =
    let fresh = fresh_record value confidence r in remember fresh (store index fresh s)
