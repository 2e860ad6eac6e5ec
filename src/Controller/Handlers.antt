-- ===== src/Controller/Handlers.antt =====
-- The handlers of `DayVarController` for the messages of the broker.
use dynvar_sync.Base.{
  ℕ, ℤ, pos, Bool, true, false, List, [], ◌∷◌, Option, none, some, String, starts_with, default,
  option_beq, int_eq, nat_eq, if◌then◌else◌,
}
use dynvar_sync.Value.{
  Value, null, special, str, arr, obj, Fields, end, get_field, find_field, truthy, int_of,
}
use dynvar_sync.Numbers.{format_hex, decimal_text}
use dynvar_sync.AddressMapping.{PcMapping, map_pc_update}
use dynvar_sync.Recovery.{VariableRecord, reg}
use dynvar_sync.Recovery.Pending.{equals_text, invalidate_pc}
use dynvar_sync.Recovery.Begin.{begin_pc}
use dynvar_sync.Recovery.Responses as Recovered
use dynvar_sync.Recovery.Responses.{Reply, accepted, read_failed, missing_registers, rejected}
use dynvar_sync.Core.{PcContext, start_pc_context, make_ida_pc_mapped}
use dynvar_sync.Core.Plan.{build_entry_plan}
use dynvar_sync.Core.Responses as Argument
use dynvar_sync.Core.Responses.{Answer, refused, taken, take_pending_response}
use dynvar_sync.View.{update_rows}
use dynvar_sync.Selection.{select}
use dynvar_sync.Controller.{
  Environment, Enumeration, Controller, send, send_optional, send_each, invalidate_cache,
  publish_rows, envelope_each,
}

-- int(payload.get("pc_seq", 0) or 0); `none` is an exception.
unfoldable pub seq_of : Value → Option ℤ
unfolding truthy decimal_text int_of
seq_of (str s) = if truthy (str s) then decimal_text s else some (pos 0)
seq_of special = none
seq_of (arr items) = if truthy (arr items) then none else some (pos 0)
seq_of (obj fields) = if truthy (obj fields) then none else some (pos 0)
seq_of null = some (pos 0)
seq_of value = some (int_of value)

-- VVariableRecovery.is_v_request_id
unfoldable pub is_v_request_id : Value → Bool
unfolding starts_with
is_v_request_id (str s) = starts_with "v-" s
is_v_request_id value = false

abbrev pub is_accepted : Reply → Bool
is_accepted (rejected why) = false
is_accepted reply = true

abbrev pub is_taken : Answer → Bool
is_taken (refused why) = false
is_taken (taken pending core) = true

-- `if self._active_pc_seq != pc_seq`
unfoldable pub renew_sequence : ℤ → Controller → Controller
unfolding invalidate_cache
renew_sequence pc_seq c =
    if option_beq int_eq c.active_pc_seq (some pc_seq)
    then c
    else record (invalidate_cache false c) { active_pc_seq = some pc_seq }

-- `if self._active_function_ea != enumeration.function_start_ea`
unfoldable pub renew_function : Option ℕ → Controller → Controller
unfolding invalidate_cache
renew_function function_start_ea c =
    if option_beq nat_eq c.active_function_ea function_start_ea
    then c
    else record (invalidate_cache false c) { active_function_ea = function_start_ea }

abbrev pub context_of : ℤ → String → String → String → Bool → PcContext
context_of pc_seq runtime_pc ida_ea function_ea at_function_entry = record {
  pc_seq = pc_seq;
  runtime_pc = runtime_pc;
  ida_ea = ida_ea;
  function_ea = function_ea;
  at_function_entry = at_function_entry;
}

-- Both parts leave the previous program counter.
unfoldable pub leave_context : PcContext → Controller → Controller
unfolding start_pc_context invalidate_pc
leave_context context c = record c {
  core = start_pc_context context c.core;
  recovery = invalidate_pc context.pc_seq context.runtime_pc c.recovery;
}

-- enumeration.function_start_ea == mapping.ida_ea
abbrev pub starts_at : Option ℕ → ℤ → Bool
starts_at none ea = false
starts_at (some start) ea = int_eq.beq (pos start) ea

abbrev pub list_of {ℓ} : {A : Type ℓ} → Option A → List A
list_of none = []
list_of (some a) = a ∷ []

-- `payload = message.get("payload", {})`; what is no object is ignored.
abbrev pub payload_of : Option Value → Option Fields
payload_of none = some end
payload_of (some (obj fields)) = some fields
payload_of (some value) = none

module _ (e : Environment) where
  -- payload.get(k, "") as a text
  unfoldable pub text_of : String → Fields → String
  unfolding find_field
  text_of k payload = elim (find_field k payload) [ none ↦ "" | some v ↦ e.str_of v ]

  unfoldable pub send_mapped :
      ℤ → String → Option String → String → Bool → Option String → Controller → Controller
  unfolding make_ida_pc_mapped send format_hex
  send_mapped pc_seq runtime_pc ida_ea module_name ok error c =
      let mapped =
        make_ida_pc_mapped pc_seq runtime_pc ida_ea module_name (format_hex e.imagebase) ok error
          c.core in
      send mapped.0 (record c { core = mapped.1 })

  -- The `except (KeyError, ValueError)` of the mapping.
  unfoldable pub fail_mapping : ℤ → Fields → Controller → Controller
  unfolding leave_context send_mapped text_of invalidate_cache
  fail_mapping pc_seq payload c =
      let runtime_pc = text_of "pc" payload in
      send_mapped pc_seq runtime_pc none (text_of "module" payload) false
        (some (e.mapping_error payload))
        (leave_context (context_of pc_seq runtime_pc "" "" false) (invalidate_cache false c))

  -- `if not enumeration.ok`
  unfoldable pub fail_enumeration : Enumeration → PcMapping → Controller → Controller
  unfolding leave_context invalidate_cache update_rows format_hex
  fail_enumeration enumeration mapping c =
      let left = invalidate_cache false (
        leave_context
          (context_of mapping.pc_seq (format_hex mapping.runtime_pc) (format_hex mapping.ida_ea)
            enumeration.function_ea false)
          c) in
      record left { view = update_rows [] left.view }

  -- The plan of the arguments is made, shown and sent.
  unfoldable pub plan_entry : Enumeration → PcMapping → Controller → Controller
  unfolding build_entry_plan publish_rows send_optional format_hex
  plan_entry enumeration mapping c =
      let plan =
        build_entry_plan enumeration.variables
          (context_of mapping.pc_seq (format_hex mapping.runtime_pc) (format_hex mapping.ida_ea)
            enumeration.function_ea (starts_at enumeration.function_start_ea mapping.ida_ea))
          c.core in
      send_optional plan.0 (publish_rows (record c { core = plan.1 }))

  -- The selection of the variables to analyse, and the plan of the recovery for them.
  unfoldable pub recover : List VariableRecord → Enumeration → PcMapping → Controller → Controller
  unfolding select begin_pc envelope_each publish_rows send_each format_hex
  recover previous_rows enumeration mapping c =
      let function_ea = default 0 enumeration.function_start_ea in
      let selection =
        select
          (record {
            pc_seq = mapping.pc_seq;
            function_ea = function_ea;
            current_ea = mapping.ida_ea;
            variables = enumeration.variables;
            previous_rows = previous_rows;
            active_filter = c.view.active_filter;
            watched = c.watched;
            max_candidates = c.max_recovery_candidates;
          })
          c.cache in
      let plan =
        begin_pc e.analyse enumeration.variables function_ea mapping.ida_ea
          (format_hex mapping.runtime_pc) mapping.pc_seq (some selection.0) c.recovery in
      let requests = envelope_each (list_of plan.1) c.core in
      send_each requests.0
        (publish_rows (record c { core = requests.1; recovery = plan.0; cache = selection.1 }))

  -- What follows a mapping.
  unfoldable pub follow_mapping : PcMapping → Controller → Controller
  unfolding send_mapped invalidate_pc fail_enumeration renew_function plan_entry recover format_hex
  follow_mapping mapping c =
      let runtime_pc = format_hex mapping.runtime_pc in
      let mapped =
        send_mapped mapping.pc_seq runtime_pc (some (format_hex mapping.ida_ea)) mapping.module_name
          true none c in
      let left = record mapped {
        recovery = invalidate_pc mapping.pc_seq runtime_pc mapped.recovery;
      } in
      let enumeration = e.enumerate_variables mapping.ida_ea runtime_pc in
      if enumeration.ok
      then recover left.view.all_rows enumeration mapping
          (plan_entry enumeration mapping (renew_function enumeration.function_start_ea left))
      else fail_enumeration enumeration mapping left

  -- The mapping and what follows it.
  unfoldable pub update_mapped : Option PcMapping → ℤ → Fields → Controller → Option Controller
  unfolding fail_mapping follow_mapping
  update_mapped none pc_seq payload c = some (fail_mapping pc_seq payload c)
  update_mapped (some mapping) pc_seq payload c = some (follow_mapping mapping c)

  unfoldable pub update_pc : Option ℤ → Fields → Controller → Option Controller
  unfolding renew_sequence map_pc_update update_mapped
  update_pc none payload c = none
  update_pc (some pc_seq) payload c =
      update_mapped (map_pc_update e.str_of payload e.imagebase) pc_seq payload
        (renew_sequence pc_seq c)

  -- _handle_pc_update; `none` is an exception that leaves the handler.
  unfoldable pub handle_pc_update : Fields → Controller → Option Controller
  unfolding truthy get_field seq_of update_pc
  handle_pc_update payload c =
      if truthy (get_field "auto_live" payload)
      then update_pc (seq_of (get_field "pc_seq" payload)) payload c
      else some c

  -- A response to a request of the recovery.
  unfoldable pub recovered_registers : Fields → Controller → Controller
  unfolding publish_rows send_each envelope_each
  recovered_registers payload c =
      let answer = Recovered.apply_reg_response e.repr e.str_of payload c.recovery in
      let requests = envelope_each answer.2 c.core in
      if is_accepted answer.1
      then send_each requests.0 (publish_rows (record c { core = requests.1; recovery = answer.0 }))
      else record c { recovery = answer.0 }

  -- A response to a request of the arguments.
  unfoldable pub argument_registers : Fields → Controller → Controller
  unfolding publish_rows send_each
  argument_registers payload c =
      let answer = Argument.apply_reg_response e.repr payload c.core in
      if is_taken (take_pending_response payload reg c.core)
      then send_each answer.0 (publish_rows (record c { core = answer.1 }))
      else record c { core = answer.1 }

  unfoldable pub handle_reg_response : Fields → Controller → Controller
  unfolding is_v_request_id get_field recovered_registers argument_registers
  handle_reg_response payload c =
      if is_v_request_id (get_field "request_id" payload)
      then recovered_registers payload c
      else argument_registers payload c

  unfoldable pub recovered_memory : Fields → Controller → Controller
  unfolding publish_rows
  recovered_memory payload c =
      let answer = Recovered.apply_mem_response e.repr e.str_of payload c.recovery in
      if is_accepted answer.1
      then publish_rows (record c { recovery = answer.0 })
      else record c { recovery = answer.0 }

  unfoldable pub argument_memory : Fields → Controller → Controller
  unfolding publish_rows
  argument_memory payload c =
      let answer = Argument.apply_mem_response e.str_of payload c.core in
      if answer.0 then publish_rows (record c { core = answer.1 }) else record c { core = answer.1 }

  unfoldable pub handle_mem_response : Fields → Controller → Controller
  unfolding is_v_request_id get_field recovered_memory argument_memory
  handle_mem_response payload c =
      if is_v_request_id (get_field "request_id" payload)
      then recovered_memory payload c
      else argument_memory payload c

  unfoldable pub dispatch : Value → Fields → Controller → Option Controller
  unfolding handle_pc_update handle_reg_response handle_mem_response
  dispatch message_type payload c =
      if equals_text message_type "pc_update"
      then handle_pc_update payload c
      else if equals_text message_type "reg_response"
      then some (handle_reg_response payload c)
      else if equals_text message_type "mem_response"
      then some (handle_mem_response payload c)
      else some c

  unfoldable pub dispatch_payload : Option Fields → Value → Controller → Option Controller
  unfolding dispatch
  dispatch_payload none message_type c = some c
  dispatch_payload (some payload) message_type c = dispatch message_type payload c

  -- _handle_message
  unfoldable pub handle_message : Fields → Controller → Option Controller
  unfolding dispatch_payload find_field get_field
  handle_message message c =
      dispatch_payload (payload_of (find_field "payload" message)) (get_field "type" message) c
