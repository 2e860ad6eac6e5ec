-- ===== src/Controller/Examples.antt =====
-- A controller outside IDA that gets messages.
use dynvar_sync.Base.{pos, true, false, [], none, some, String, In, ◌≡◌, refl}
use dynvar_sync.Value.{
  num, str, bool, obj, Fields, end, field, get_field, find_field, truthy, equals_int,
}
use dynvar_sync.AddressMapping.{map_pc_update}
use dynvar_sync.Recovery.{PendingRequest}
use dynvar_sync.Core as Arguments
use dynvar_sync.Core.{
  PcContext, start_pc_context, make_ida_pc_mapped, envelope, take_message_id, new_core,
}
use dynvar_sync.Core.Contexts.{IsFor, seq_at, runtime_at}
use dynvar_sync.Controller.{Controller, Environment, new_controller, send, invalidate_cache}
use dynvar_sync.Controller.Handlers.{
  handle_message, dispatch_payload, dispatch, handle_pc_update, update_pc, update_mapped, seq_of,
  renew_sequence, fail_mapping, leave_context, send_mapped, handle_reg_response,
  handle_mem_response,
}
use dynvar_sync.Controller.Reachable.{Reach, start, next, received, Reach-one_pc}
use dynvar_sync.Controller.Late.{IsLate, late_ignored}

-- No function of the database contains an address.
abbrev outside : Environment
outside = record {
  imagebase = pos 5368709120;
  enumerate_variables =
      λ ea pc. record { ok = false; function_start_ea = none; function_ea = ""; variables = [] };
  analyse = λ function_ea current_ea variables. none;
  repr = λ v. "";
  str_of = λ v. "";
  mapping_error = λ payload. "pc";
}

-- A program counter with a number and no address.
abbrev unmapped : Fields
unmapped =
    field "type" (str "pc_update")
      (field "payload" (obj (field "auto_live" (bool true) (field "pc_seq" (num (pos 7)) end))) end)

abbrev unmapped_payload : Fields
unmapped_payload = field "auto_live" (bool true) (field "pc_seq" (num (pos 7)) end)

abbrev begun : Controller
begun = renew_sequence (pos 7) (new_controller (pos 32))

abbrev left_alone : Controller
left_alone = fail_mapping outside (pos 7) unmapped_payload begun

handled_unmapped : handle_message outside unmapped (new_controller (pos 32)) ≡ some left_alone
unfolding handle_message dispatch_payload dispatch handle_pc_update update_pc update_mapped seq_of
    find_field get_field truthy map_pc_update
handled_unmapped = refl

reached : Reach left_alone
reached = next (start (pos 32)) (received outside unmapped handled_unmapped)

Reach-one_pc_example :
    ((id : String) (q : Arguments.PendingRequest)
      → In (id, q) left_alone.core.pending_requests
      → IsFor left_alone.core.current_pc q)
    × ((id : String) (p : PendingRequest)
        → In (id, p) left_alone.recovery.pending
        → (seq_at left_alone.core.current_pc ≡ some p.pc_seq)
          × (runtime_at left_alone.core.current_pc ≡ some p.runtime_pc))
Reach-one_pc_example = Reach-one_pc reached

abbrev late_response : Fields
late_response = field "pc_seq" (num (pos 6)) (field "request_id" (str "v-reg-6-runtime") end)

late : IsLate late_response left_alone.core.current_pc
unfolding fail_mapping leave_context send_mapped send start_pc_context make_ida_pc_mapped envelope
    take_message_id invalidate_cache renew_sequence new_controller new_core get_field find_field
    equals_int
late = refl

late_ignored_example :
    (handle_reg_response outside late_response left_alone ≡ left_alone)
    × (handle_mem_response outside late_response left_alone ≡ left_alone)
late_ignored_example = late_ignored outside late_response reached late

-- For the program counter that is not mapped.
abbrev early_response : Fields
early_response = field "pc_seq" (num (pos 7)) (field "request_id" (str "v-reg-7-runtime") end)
