-- ===== src/Recovery/Pending.antt =====
-- `_take_pending`, `_start_context`, `invalidate_pc` and `clear_runtime_state` of
-- `VVariableRecovery`.
use dynvar_sync.Base.{
  ℕ, ℤ, pos, Bool, true, false, ◌&&◌, not, [], Option, none, some, if◌then◌else◌, String, str_eq,
  get, remove, string_eq,
}
use dynvar_sync.Value.{Value, str, Fields, get_field, equals_int, truthy, as_str}
use dynvar_sync.Recovery.{Recovery, PendingRequest, RequestKind, reg, mem}

-- Why a response is refused.
pub data Refusal : Type 0 where
  no_context wrong_runtime_pc missing_request_id wrong_address wrong_size : Refusal
  stale : Value → ℤ → Refusal
  unexpected_id wrong_kind : String → Refusal

pub data Taken : Type 0 where
  refused : Refusal → Taken
  taken : PendingRequest → Recovery → Taken

abbrev pub same_kind : RequestKind → RequestKind → Bool
same_kind reg reg = true
same_kind mem mem = true
same_kind reg mem = false
same_kind mem reg = false

-- v == s for a text s
abbrev pub equals_text : Value → String → Bool
equals_text (str t) s = str_eq t s
equals_text _ s = false

abbrev pub take_found : Option PendingRequest → String → RequestKind → Recovery → Taken
take_found none request_id expected s = refused (unexpected_id request_id)
take_found (some pending) request_id expected s =
    if same_kind pending.kind expected
    then taken pending (record s { pending = remove request_id s.pending })
    else refused (wrong_kind request_id)

abbrev pub take_id : Option String → RequestKind → Recovery → Taken
take_id none expected s = refused missing_request_id
take_id (some request_id) expected s = take_found (get request_id s.pending) request_id expected s

unfoldable pub take_at : Option ℤ → Fields → RequestKind → Recovery → Taken
unfolding get_field equals_int truthy as_str
take_at none payload expected s = refused no_context
take_at (some pc_seq) payload expected s =
    if equals_int (get_field "pc_seq" payload) pc_seq
    then (if truthy (get_field "runtime_pc" payload)
          && not (equals_text (get_field "runtime_pc" payload) s.runtime_pc)
        then refused wrong_runtime_pc
        else take_id (as_str (get_field "request_id" payload)) expected s)
    else refused (stale (get_field "pc_seq" payload) pc_seq)

unfoldable pub take_pending : Fields → RequestKind → Recovery → Taken
unfolding take_at
take_pending payload expected s = take_at s.pc_seq payload expected s

unfoldable pub start_context : ℕ → ℤ → String → ℤ → Recovery → Recovery
start_context function_ea current_ea runtime_pc pc_seq s = record s {
  function_ea = function_ea;
  current_ea = current_ea;
  runtime_pc = runtime_pc;
  pc_seq = some pc_seq;
  pending = [];
  records = [];
  evidence = [];
  source_variables = [];
}

unfoldable pub invalidate_pc : ℤ → String → Recovery → Recovery
unfolding start_context
invalidate_pc pc_seq runtime_pc s = start_context 0 (pos 0) runtime_pc pc_seq s

unfoldable pub clear_runtime_state : Recovery → Recovery
clear_runtime_state s = record s {
  pc_seq = none;
  runtime_pc = "";
  function_ea = 0;
  current_ea = pos 0;
  pending = [];
  records = [];
  evidence = [];
  source_variables = [];
}
