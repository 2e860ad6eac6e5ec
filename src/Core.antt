-- ===== src/Core.antt =====
-- The class `DayVarCore` of ida_plugin/dynvar_core.py: the rows of the arguments of a function at its
-- entry, the runtime reads that are under way for them, and the numbering of messages. Its log
-- lines are left out.
pub mod Plan
pub mod Responses
pub mod Ids
pub mod Away
pub mod Contexts
mod Examples
use dynvar_sync.Base.{
  ℕ, suc, ◌+◌, ◌*◌, ◌-◌, String, Bool, true, false, List, [], Option, none, some, Dict, ℤ, pos,
}
use dynvar_sync.Value.{Value, obj, num, str, Fields, end, field}
use dynvar_sync.Recovery.{VariableRecord, RequestKind}

pub record PcContext : Type 0 where
  pub pc_seq : ℤ
  pub runtime_pc : String
  pub ida_ea : String
  pub function_ea : String
  pub at_function_entry : Bool

pub record PendingRequest : Type 0 where
  pub kind : RequestKind
  pub pc_seq : ℤ
  pub request_id : String
  pub runtime_pc : String
  pub variable_names : List String
  pub registers : List String
  pub address : String
  pub size : ℕ

-- DayVarCore
pub record DayVarCore : Type 0 where
  pub next_message_id : ℕ
  pub current_pc : Option PcContext
  pub pending_requests : Dict String PendingRequest
  pub rows : List VariableRecord

-- DayVarCore()
unfoldable pub new_core : DayVarCore
new_core = record { next_message_id = 1; current_pc = none; pending_requests = []; rows = [] }

unfoldable pub take_message_id : DayVarCore → ℕ × DayVarCore
take_message_id core =
    (core.next_message_id, record core { next_message_id = suc core.next_message_id })

unfoldable pub envelope : String → Fields → DayVarCore → Value × DayVarCore
unfolding take_message_id
envelope message_type payload core =
    let taken = take_message_id core in
    (
      obj (
          field "protocol" (num (pos 1)) (
            field "id" (num (pos taken.0)) (
              field "type" (str message_type)
                (field "role" (str "ida") (field "payload" (obj payload) end))))),
      taken.1,
    )

unfoldable pub make_hello : String → DayVarCore → Value × DayVarCore
unfolding envelope
make_hello ida_version core =
    envelope "hello"
      (field "client_name" (str "dayvar-ida-plugin")
        (field "version" (str "0.1") (field "ida_version" (str ida_version) end)))
      core

abbrev optional_field : String → Option String → Fields → Fields
optional_field key none rest = rest
optional_field key (some text) rest = field key (str text) rest

unfoldable pub make_ida_pc_mapped :
    ℤ
    → String
    → Option String
    → String
    → String
    → Bool
    → Option String
    → DayVarCore
    → Value × DayVarCore
unfolding envelope
make_ida_pc_mapped pc_seq runtime_pc ida_ea module_name ida_imagebase ok error core =
    envelope "ida_pc_mapped"
      (field "pc_seq" (num pc_seq) (
        field "runtime_pc" (str runtime_pc) (
          field "module" (str module_name) (
            field "ida_imagebase" (str ida_imagebase) (
              field "ok" (Value.bool ok)
                (optional_field "ida_ea" ida_ea (optional_field "error" error end)))))))
      core

unfoldable pub start_pc_context : PcContext → DayVarCore → DayVarCore
start_pc_context context core = record core { current_pc = some context; pending_requests = [] }

-- For an argument index of 4 or more.
unfoldable pub stack_arg_offset : ℕ → ℕ
stack_arg_offset arg_index = 40 + 8 * (arg_index - 4)
