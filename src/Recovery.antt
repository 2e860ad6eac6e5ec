-- ===== src/Recovery.antt =====
-- The class `VVariableRecovery` of ida_plugin/v_variable_recovery.py: the records of the local
-- variables of one function, the history of proven values, and the runtime reads that are under
-- way. Its log lines are left out. Where the class builds a message with `envelope`, the model has
-- the type and the payload that `envelope` gets.
mod Examples
pub mod Records
pub mod Pending
pub mod Begin
pub mod Responses
pub mod Overlay
pub mod Invariant
use dynvar_sync.Base.{ℕ, ℤ, String, Bool, List, Option, Dict}
use dynvar_sync.Value.{Value, Fields}
use dynvar_sync.Registers.{RegisterSpec}

-- ida_plugin/hexrays_variables.py: VariableRecord
pub record VariableRecord : Type 0 where
  pub lvar_index : ℕ
  pub name : String
  pub hexrays_kind : String
  pub type_string : String
  pub size : ℕ
  pub is_arg : Bool
  pub arg_index : Option ℕ
  pub location : String
  pub function_ea : String
  pub function_start_ea : ℕ
  pub value : String
  pub status : String
  pub confidence : String
  pub reason : String
  pub last_pc : String
  pub current_pc : String
  pub printed_location : String
  pub current_ea : String
  pub source_ea : String
  pub storage_kind : String
  pub storage : String
  pub current_pc_seq : Option ℤ
  pub last_success_value : String
  pub last_success_pc_seq : Option ℤ
  pub lvar_defea : String

pub record RecoveryEvidence : Type 0 where
  pub lvar_index : ℕ
  pub storage_kind : String
  pub storage : String
  pub source_ea : Option ℕ
  pub confidence : String
  pub reason : String
  pub register : Option RegisterSpec
  pub stack_pointer_offset : Option ℤ
  pub constant_value : Option ℤ
  pub width : ℕ

pub record RecoveryAnalysis : Type 0 where
  pub ok : Bool
  pub evidence_by_index : Dict ℕ RecoveryEvidence

-- VVariableRecoveryRecord
pub record RecoveryRecord : Type 0 where
  pub lvar_index : ℕ
  pub name : String
  pub type_string : String
  pub width : ℕ
  pub printed_location : String
  pub function_ea : ℕ
  pub current_ea : ℤ
  pub candidate_storage_kind : String
  pub recovery_status : String
  pub confidence : String
  pub reason : String
  pub storage : String
  pub source_ea : Option ℕ
  pub value : String
  pub current_runtime_pc : String
  pub current_pc_seq : ℤ
  pub last_successful_value : String
  pub last_successful_pc_seq : Option ℤ
  pub last_update_pc : String

-- _HistoryValue
pub record HistoryValue : Type 0 where
  pub name : String
  pub width : ℕ
  pub type_string : String
  pub lvar_defea : String
  pub value : String
  pub pc_seq : ℤ
  pub runtime_pc : String
  pub source_ea : Option ℕ

pub data RequestKind : Type 0 where
  reg mem : RequestKind

-- _PendingVRequest
pub record PendingRequest : Type 0 where
  pub kind : RequestKind
  pub pc_seq : ℤ
  pub request_id : String
  pub runtime_pc : String
  pub lvar_indexes : List ℕ
  pub registers : List String
  pub address : String
  pub size : ℕ

-- The fields of a VVariableRecovery.
pub record Recovery : Type 0 where
  pub max_history : ℕ
  pub history : Dict (ℕ × ℕ) HistoryValue
  pub records : Dict ℕ RecoveryRecord
  pub evidence : Dict ℕ RecoveryEvidence
  pub pending : Dict String PendingRequest
  pub pc_seq : Option ℤ
  pub runtime_pc : String
  pub function_ea : ℕ
  pub current_ea : ℤ
  pub source_variables : List VariableRecord

-- The arguments of a call of `envelope`.
pub record Message : Type 0 where
  pub message_type : String
  pub payload : Fields
