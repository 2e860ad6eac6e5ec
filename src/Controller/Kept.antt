-- ===== src/Controller/Kept.antt =====
-- The handlers of `DayVarController` keep its parts together.
use dynvar_sync.Base.{
  ℤ, Bool, true, false, List, [], Option, none, some, String, ◌≡◌, sym, ap, subst, inr, either,
  int_eq, nat_eq, default,
}
use dynvar_sync.Value.{Value, Fields, get_field, find_field, truthy}
use dynvar_sync.Core.Responses.{take_pending_response}
use dynvar_sync.Recovery.Pending.{equals_text}
use dynvar_sync.Numbers.{format_hex}
use dynvar_sync.AddressMapping.{PcMapping, map_pc_update}
use dynvar_sync.Recovery.{VariableRecord, reg}
use dynvar_sync.Recovery.Pending.{invalidate_pc}
use dynvar_sync.Recovery.Begin.{begin_pc}
use dynvar_sync.Recovery.Responses as Recovered
use dynvar_sync.Recovery.Overlay.{overlay_rows}
use dynvar_sync.Recovery.Invariant.Planning.{begin_pc-IsAt, invalidate_pc-IsSound}
use dynvar_sync.Recovery.Invariant.Answers.{apply_reg_response-IsSound, apply_mem_response-IsSound}
use dynvar_sync.Recovery.Invariant.Contexts.{apply_reg_response-SamePc, apply_mem_response-SamePc}
use dynvar_sync.Core.{envelope, make_ida_pc_mapped, take_message_id}
use dynvar_sync.Core.Plan.{build_entry_plan}
use dynvar_sync.Core.Responses as Argument
use dynvar_sync.Core.Contexts.{
  build_entry_plan-IsAt, apply_reg_response-IsAt, apply_mem_response-IsAt,
}
use dynvar_sync.View.Shown.{update_rows-IsFiltered}
use dynvar_sync.Selection.{select}
use dynvar_sync.Controller.{
  Controller, Environment, Enumeration, send_each, invalidate_cache, publish_rows, envelope_each,
}
use dynvar_sync.Controller.Handlers.{
  renew_sequence, renew_function, leave_context, send_mapped, fail_mapping, fail_enumeration,
  plan_entry, recover, follow_mapping, context_of, text_of, list_of, handle_pc_update, update_pc,
  update_mapped, seq_of, recovered_registers, recovered_memory, argument_registers, argument_memory,
  handle_reg_response, handle_mem_response, dispatch, dispatch_payload, payload_of, handle_message,
  is_accepted, is_taken, is_v_request_id,
}
use dynvar_sync.Controller.Ready.{
  IsBegun, IsReady, kept-Together, IsFit, fit, send-IsReady, send_each-IsReady,
  invalidate_cache-IsReady, publish_rows-IsReady, envelope_each-IsAt, renew_sequence-IsReady,
  renew_function-IsFit, leave_context-IsReady, send_optional-IsBegun, entered,
}

module _ (e : Environment) where
  send_mapped-IsReady :
      (pc_seq : ℤ) (runtime_pc : String) (ida_ea : Option String) (module_name : String) (ok : Bool)
      (error : Option String) (c : Controller)
      → IsReady c
      → IsReady (send_mapped e pc_seq runtime_pc ida_ea module_name ok error c)
  unfolding send_mapped make_ida_pc_mapped envelope take_message_id
  send_mapped-IsReady pc_seq runtime_pc ida_ea module_name ok error c h =
      let mapped =
        make_ida_pc_mapped pc_seq runtime_pc ida_ea module_name (format_hex e.imagebase) ok error
          c.core in
      send-IsReady mapped.0 (record c { core = mapped.1 })
        (record {
          sound = h.sound;
          filtered = h.filtered;
          current = h.current;
          arguments = record { here = h.arguments.here; waiting = h.arguments.waiting };
          together = h.together;
        })

  fail_mapping-IsReady :
      (pc_seq : ℤ) (payload : Fields) (c : Controller)
      → IsReady c
      → IsReady (fail_mapping e pc_seq payload c)
  unfolding fail_mapping
  fail_mapping-IsReady pc_seq payload c h =
      let runtime_pc = text_of e "pc" payload in
      let context = context_of pc_seq runtime_pc "" "" false in
      let left = leave_context context (invalidate_cache false c) in
      send_mapped-IsReady pc_seq runtime_pc none (text_of e "module" payload) false
        (some (e.mapping_error payload)) left
        (leave_context-IsReady context (invalidate_cache false c)
          (fit (invalidate_cache false c) (invalidate_cache-IsReady false c h)))

  fail_enumeration-IsReady :
      (enumeration : Enumeration) (mapping : PcMapping) (c : Controller)
      → IsFit c
      → IsReady (fail_enumeration e enumeration mapping c)
  unfolding fail_enumeration invalidate_cache
  fail_enumeration-IsReady enumeration mapping c h =
      let context =
        context_of mapping.pc_seq (format_hex mapping.runtime_pc) (format_hex mapping.ida_ea)
          enumeration.function_ea false in
      let left = leave_context-IsReady context c h in
      record {
        sound = left.sound;
        filtered = update_rows-IsFiltered [] (leave_context context c).view left.filtered;
        current = left.current;
        arguments = left.arguments;
        together = left.together;
      }

  planned-IsBegun :
      (enumeration : Enumeration) (mapping : PcMapping) (c : Controller)
      → IsFit c
      → IsBegun (entered enumeration mapping) (plan_entry e enumeration mapping c)
  unfolding plan_entry publish_rows
  planned-IsBegun enumeration mapping c h =
      let context = entered enumeration mapping in
      let plan = build_entry_plan enumeration.variables context c.core in
      let shown = publish_rows (record c { core = plan.1 }) in
      send_optional-IsBegun context plan.0 shown (record {
        sound = h.sound;
        filtered = update_rows-IsFiltered (overlay_rows plan.1.rows c.recovery) c.view h.filtered;
        arguments = build_entry_plan-IsAt enumeration.variables context c.core;
      })

  recover-IsReady :
      (rows : List VariableRecord) (enumeration : Enumeration) (mapping : PcMapping)
      (c : Controller)
      → IsBegun (entered enumeration mapping) c
      → IsReady (recover e rows enumeration mapping c)
  unfolding recover
  recover-IsReady rows enumeration mapping c h =
      let function_ea = default 0 enumeration.function_start_ea in
      let selection =
        select
          (record {
            pc_seq = mapping.pc_seq;
            function_ea = function_ea;
            current_ea = mapping.ida_ea;
            variables = enumeration.variables;
            previous_rows = rows;
            active_filter = c.view.active_filter;
            watched = c.watched;
            max_candidates = c.max_recovery_candidates;
          })
          c.cache in
      let plan =
        begin_pc e.analyse enumeration.variables function_ea mapping.ida_ea
          (format_hex mapping.runtime_pc) mapping.pc_seq (some selection.0) c.recovery in
      let requests = envelope_each (list_of plan.1) c.core in
      let begun =
        begin_pc-IsAt e.analyse enumeration.variables function_ea mapping.ida_ea
          (format_hex mapping.runtime_pc) mapping.pc_seq (some selection.0) c.recovery h.sound in
      let recovered = record c { core = requests.1; recovery = plan.0; cache = selection.1 } in
      send_each-IsReady requests.0 (publish_rows recovered) (
        publish_rows-IsReady recovered (record {
          sound = begun.0;
          filtered = h.filtered;
          current = some (entered enumeration mapping);
          arguments =
              envelope_each-IsAt (some (entered enumeration mapping)) (list_of plan.1) c.core
                h.arguments;
          together = inr (sym begun.1, ap some (sym begun.2));
        }))

  follow_mapping-IsReady :
      (mapping : PcMapping) (c : Controller) → IsReady c → IsReady (follow_mapping e mapping c)
  unfolding follow_mapping
  follow_mapping-IsReady mapping c h =
      let runtime_pc = format_hex mapping.runtime_pc in
      let ida_ea = some (format_hex mapping.ida_ea) in
      let mapped = send_mapped e mapping.pc_seq runtime_pc ida_ea mapping.module_name true none c in
      let sent =
        send_mapped-IsReady mapping.pc_seq runtime_pc ida_ea mapping.module_name true none c h in
      let left = record mapped {
        recovery = invalidate_pc mapping.pc_seq runtime_pc mapped.recovery;
      } in
      let left-IsFit : IsFit left = record {
        sound = invalidate_pc-IsSound mapping.pc_seq runtime_pc mapped.recovery sent.sound;
        filtered = sent.filtered;
      } in
      let enumeration = e.enumerate_variables mapping.ida_ea runtime_pc in
      let renewed = renew_function enumeration.function_start_ea left in
      let planned = plan_entry e enumeration mapping renewed in
      either IsReady enumeration.ok (recover e left.view.all_rows enumeration mapping planned)
        (fail_enumeration e enumeration mapping left)
        (recover-IsReady left.view.all_rows enumeration mapping planned (
          planned-IsBegun enumeration mapping renewed
            (renew_function-IsFit enumeration.function_start_ea left left-IsFit)))
        (fail_enumeration-IsReady enumeration mapping left left-IsFit)

  -- A handler that ends leaves a controller that is ready.
  abbrev Ready : Option Controller → Type 0
  Ready none = Unit
  Ready (some d) = IsReady d

  mapped-IsReady :
      (found : Option PcMapping) (pc_seq : ℤ) (payload : Fields) (c : Controller)
      → IsReady c
      → Ready (update_mapped e found pc_seq payload c)
  unfolding update_mapped
  mapped-IsReady none pc_seq payload c h = fail_mapping-IsReady pc_seq payload c h
  mapped-IsReady (some mapping) pc_seq payload c h = follow_mapping-IsReady mapping c h

  update_pc-IsReady :
      (pc_seq : Option ℤ) (payload : Fields) (c : Controller)
      → IsReady c
      → Ready (update_pc e pc_seq payload c)
  unfolding update_pc
  update_pc-IsReady none payload c h = tt
  update_pc-IsReady (some pc_seq) payload c h =
      mapped-IsReady (map_pc_update e.str_of payload e.imagebase) pc_seq payload
        (renew_sequence pc_seq c) (renew_sequence-IsReady pc_seq c h)

  handle_pc_update-IsReady :
      (payload : Fields) (c : Controller) → IsReady c → Ready (handle_pc_update e payload c)
  unfolding handle_pc_update
  handle_pc_update-IsReady payload c h =
      let pc_seq = seq_of (get_field "pc_seq" payload) in
      either Ready (truthy (get_field "auto_live" payload)) (update_pc e pc_seq payload c) (some c)
        (update_pc-IsReady pc_seq payload c h) h

  recovered_registers-IsReady :
      (payload : Fields) (c : Controller) → IsReady c → IsReady (recovered_registers e payload c)
  unfolding recovered_registers
  recovered_registers-IsReady payload c h =
      let answer = Recovered.apply_reg_response e.repr e.str_of payload c.recovery in
      let requests = envelope_each answer.2 c.core in
      let same = apply_reg_response-SamePc e.repr e.str_of payload c.recovery in
      let sound = apply_reg_response-IsSound e.repr e.str_of payload c.recovery h.sound in
      let together = kept-Together h.current c.recovery answer.0 same h.together in
      let answered = record c { core = requests.1; recovery = answer.0 } in
      either IsReady (is_accepted answer.1) (send_each requests.0 (publish_rows answered))
        (record c { recovery = answer.0 })
        (send_each-IsReady requests.0 (publish_rows answered) (
          publish_rows-IsReady answered (record {
            sound = sound;
            filtered = h.filtered;
            current = h.current;
            arguments = envelope_each-IsAt h.current answer.2 c.core h.arguments;
            together = together;
          })))
        (record {
          sound = sound;
          filtered = h.filtered;
          current = h.current;
          arguments = h.arguments;
          together = together;
        })

  recovered_memory-IsReady :
      (payload : Fields) (c : Controller) → IsReady c → IsReady (recovered_memory e payload c)
  unfolding recovered_memory
  recovered_memory-IsReady payload c h =
      let answer = Recovered.apply_mem_response e.repr e.str_of payload c.recovery in
      let same = apply_mem_response-SamePc e.repr e.str_of payload c.recovery in
      let answered = record c { recovery = answer.0 } in
      let ready : IsReady answered = record {
        sound = apply_mem_response-IsSound e.repr e.str_of payload c.recovery h.sound;
        filtered = h.filtered;
        current = h.current;
        arguments = h.arguments;
        together = kept-Together h.current c.recovery answer.0 same h.together;
      } in
      either IsReady (is_accepted answer.1) (publish_rows answered) answered
        (publish_rows-IsReady answered ready) ready

  argument_registers-IsReady :
      (payload : Fields) (c : Controller) → IsReady c → IsReady (argument_registers e payload c)
  unfolding argument_registers
  argument_registers-IsReady payload c h =
      let answer = Argument.apply_reg_response e.repr payload c.core in
      let answered = record c { core = answer.1 } in
      let ready : IsReady answered = record {
        sound = h.sound;
        filtered = h.filtered;
        current = h.current;
        arguments = apply_reg_response-IsAt e.repr e.str_of h.current payload c.core h.arguments;
        together = h.together;
      } in
      either IsReady (is_taken (take_pending_response payload reg c.core))
        (send_each answer.0 (publish_rows answered)) answered
        (send_each-IsReady answer.0 (publish_rows answered) (publish_rows-IsReady answered ready))
        ready

  argument_memory-IsReady :
      (payload : Fields) (c : Controller) → IsReady c → IsReady (argument_memory e payload c)
  unfolding argument_memory
  argument_memory-IsReady payload c h =
      let answer = Argument.apply_mem_response e.str_of payload c.core in
      let answered = record c { core = answer.1 } in
      let ready : IsReady answered = record {
        sound = h.sound;
        filtered = h.filtered;
        current = h.current;
        arguments = apply_mem_response-IsAt e.repr e.str_of h.current payload c.core h.arguments;
        together = h.together;
      } in
      either IsReady answer.0 (publish_rows answered) answered (publish_rows-IsReady answered ready)
        ready

  dispatch-IsReady :
      (message_type : Value) (payload : Fields) (c : Controller)
      → IsReady c
      → Ready (dispatch e message_type payload c)
  unfolding dispatch handle_reg_response handle_mem_response
  dispatch-IsReady message_type payload c h =
      let id = get_field "request_id" payload in
      either Ready (equals_text message_type "pc_update") _ _ (handle_pc_update-IsReady payload c h)
        (either Ready (equals_text message_type "reg_response") _ _
          (either IsReady (is_v_request_id id) (recovered_registers e payload c)
            (argument_registers e payload c) (recovered_registers-IsReady payload c h)
            (argument_registers-IsReady payload c h))
          (either Ready (equals_text message_type "mem_response") _ _
            (either IsReady (is_v_request_id id) (recovered_memory e payload c)
              (argument_memory e payload c) (recovered_memory-IsReady payload c h)
              (argument_memory-IsReady payload c h))
            h))

  message-IsReady :
      (payload : Option Fields) (message_type : Value) (c : Controller)
      → IsReady c
      → Ready (dispatch_payload e payload message_type c)
  unfolding dispatch_payload
  message-IsReady none message_type c h = h
  message-IsReady (some payload) message_type c h = dispatch-IsReady message_type payload c h

  pub handle_message-IsReady :
      (message : Fields) (c d : Controller)
      → handle_message e message c ≡ some d
      → IsReady c
      → IsReady d
  unfolding handle_message
  handle_message-IsReady message c d done h =
      subst Ready done
        (message-IsReady (payload_of (find_field "payload" message)) (get_field "type" message) c h)
