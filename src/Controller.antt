-- ===== src/Controller.antt =====
-- The class `DayVarController` of ida_plugin/dayvar_plugin.py, without its log lines, the connection
-- of its client and the forms of IDA. What IDA and the interpreter give is the record `Environment`.
pub mod Handlers
pub mod Kept
pub mod Late
pub mod Ready
pub mod Reachable
mod Examples
use dynvar_sync.Base.{
  ℕ, ℤ, pos, pos_part, Bool, true, false, not, List, [], ◌∷◌, ◌++◌, Option, none, some, String,
  str_eq, int_beq, if◌then◌else◌, ◌==◌,
}
use Prim.Native.String
use Prim.Native.Char.{Char, code}
use dynvar_sync.Numbers.{strip, decimal_text}
use dynvar_sync.Value.{Value, Fields}
use dynvar_sync.Recovery.{VariableRecord, RecoveryAnalysis, Recovery, Message}
use dynvar_sync.Recovery.Pending.{clear_runtime_state}
use dynvar_sync.Recovery.Overlay.{overlay_rows}
use dynvar_sync.Recovery.Invariant.Steps.{new_recovery}
use dynvar_sync.Core.{DayVarCore, new_core, envelope, make_hello}
use dynvar_sync.View.{View, new_view, update_rows, set_filter}
use dynvar_sync.Selection.{Cache, new_cache, invalidate}

-- VariableEnumerationResult
pub record Enumeration : Type 0 where
  pub ok : Bool
  pub function_start_ea : Option ℕ
  pub function_ea : String
  pub variables : List VariableRecord

pub record Environment : Type 0 where
  pub imagebase : ℤ
  pub enumerate_variables : ℤ → String → Enumeration
  -- `self._analysis_provider`; `none` where it raises.
  pub analyse : ℕ → ℤ → List VariableRecord → Option RecoveryAnalysis
  pub repr : Value → String
  pub str_of : Value → String
  -- The text of the exception that `map_pc_update` raises.
  pub mapping_error : Fields → String

-- `has_client` is `self.client is not None`, and `sent` the messages that were handed to it.
pub record Controller : Type 0 where
  pub core : DayVarCore
  pub recovery : Recovery
  pub view : View
  pub has_client : Bool
  pub sent : List Value
  pub max_recovery_candidates : ℤ
  pub watched : List ℕ
  pub cache : Cache
  pub active_pc_seq : Option ℤ
  pub active_function_ea : Option ℕ

-- DayVarController(max_recovery_candidates=…)
unfoldable pub new_controller : ℤ → Controller
unfolding new_core new_recovery new_view new_cache
new_controller max_recovery_candidates = record {
  core = new_core;
  recovery = new_recovery 256;
  view = new_view;
  has_client = false;
  sent = [];
  max_recovery_candidates = pos (pos_part max_recovery_candidates);
  watched = [];
  cache = new_cache;
  active_pc_seq = none;
  active_function_ea = none;
}

-- self._send(message)
unfoldable pub send : Value → Controller → Controller
send message c = if c.has_client then record c { sent = c.sent ++ message ∷ [] } else c

unfoldable pub send_optional : Option Value → Controller → Controller
unfolding send
send_optional none c = c
send_optional (some message) c = send message c

unfoldable pub send_each : List Value → Controller → Controller
unfolding send
send_each [] c = c
send_each (message ∷ messages) c = send_each messages (send message c)

unfoldable pub invalidate_cache : Bool → Controller → Controller
unfolding invalidate
invalidate_cache clear_cursors c = record c { cache = invalidate clear_cursors c.cache }

-- self._publish_rows()
unfoldable pub publish_rows : Controller → Controller
unfolding update_rows overlay_rows
publish_rows c = record c { view = update_rows (overlay_rows c.core.rows c.recovery) c.view }

-- The messages of the recovery get their numbers from the core.
unfoldable pub envelope_each : List Message → DayVarCore → List Value × DayVarCore
unfolding envelope
envelope_each [] core = ([], core)
envelope_each (m ∷ ms) core =
    let first = envelope m.message_type m.payload core in
    let rest = envelope_each ms first.1 in (first.0 ∷ rest.0, rest.1)

-- disconnect(), without the client's own part
unfoldable pub disconnect : Controller → Controller
unfolding clear_runtime_state invalidate_cache
disconnect c = invalidate_cache true (record c {
  core = record c.core { pending_requests = [] };
  recovery = clear_runtime_state c.recovery;
})

-- self._set_filter(filter_name); `none` is the ValueError of an unknown filter.
unfoldable pub change_filter : String → Controller → Option Controller
unfolding set_filter invalidate_cache
change_filter filter_name c = elim (set_filter filter_name c.view) [
  | none ↦ none
  | some view ↦ some (invalidate_cache false (record c { view = view }))
]

abbrev default_host : String
default_host = "127.0.0.1"

abbrev default_port : ℤ
default_port = pos 9100

abbrev before_colon : Char → Option (String × String) → String → Option (String × String)
before_colon c (some (host, port)) s = some (String.◌∷◌ c host, port)
before_colon c none s = if code c == b':' then some ("", s) else none

-- target.rsplit(":", 1); `none` where there is no colon.
unfoldable pub split_last_colon : String → Option (String × String)
split_last_colon String.[] = none
split_last_colon (String.◌∷◌ c s) = before_colon c (split_last_colon s) s

abbrev pub with_port : String → Option ℤ → Option (String × ℤ)
with_port host none = none
with_port host (some port) = some (host, port)

abbrev pub target_of : Option (String × String) → String → Option (String × ℤ)
unfolding strip decimal_text
target_of none target = some (target, default_port)
target_of (some (host, port)) target = with_port (strip host) (decimal_text port)

-- self._parse_target(target); `none` is ValueError.
unfoldable pub parse_target : String → Option (String × ℤ)
unfolding strip split_last_colon decimal_text
parse_target target =
    let stripped = strip target in
    if str_eq stripped ""
    then some (default_host, default_port)
    else target_of (split_last_colon stripped) stripped

abbrev pub greet : Option (String × ℤ) → Bool → String → Controller → Controller
unfolding make_hello
greet none connected ida_version c = c
greet (some target) true ida_version c = c
greet (some target) false ida_version c =
    let hello = make_hello ida_version c.core in
    record c { core = hello.1; has_client = true; sent = c.sent ++ hello.0 ∷ [] }

-- connect(target), where `connected` says whether there is a client that is connected. The new client
-- is handed the hello.
unfoldable pub connect : String → Bool → String → Controller → Controller
unfolding parse_target make_hello
connect target connected ida_version c = greet (parse_target target) connected ida_version c
