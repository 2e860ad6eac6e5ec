-- ===== src/Controller/Ready.antt =====
-- When the parts of a `DayVarController` fit together, and the steps of its handlers that keep them so.
use dynvar_sync.Base.{
  ℕ, ℤ, Bool, false, List, [], ◌∷◌, ◌++◌, Option, none, some, ◌≡◌, refl, sym, ap, ◌∙◌, ◌⊎◌, inl,
  inr, either, option_beq, int_eq, nat_eq,
}
use dynvar_sync.Value.{Value}
use dynvar_sync.Numbers.{format_hex}
use dynvar_sync.AddressMapping.{PcMapping}
use dynvar_sync.Recovery.{Recovery, Message}
use dynvar_sync.Recovery.Pending.{invalidate_pc, start_context}
use dynvar_sync.Recovery.Overlay.{overlay_rows}
use dynvar_sync.Recovery.Invariant.{IsSound}
use dynvar_sync.Recovery.Invariant.Planning.{invalidate_pc-IsSound}
use dynvar_sync.Recovery.Invariant.Contexts.{SamePc}
use dynvar_sync.Core.{DayVarCore, PcContext, envelope}
use dynvar_sync.Core.Contexts.{IsAt, seq_at, runtime_at, envelope-IsAt, start-IsAt}
use dynvar_sync.View.Shown.{IsFiltered, update_rows-IsFiltered}
use dynvar_sync.Controller.{
  Controller, Enumeration, send, send_optional, send_each, invalidate_cache, publish_rows,
  envelope_each,
}
use dynvar_sync.Controller.Handlers.{
  renew_sequence, renew_function, leave_context, context_of, starts_at,
}

-- The recovery has no program counter, or that of the core.
abbrev pub Together : Option PcContext → Recovery → Type 0
Together current s =
    (s.pc_seq ≡ none) ⊎ ((seq_at current ≡ s.pc_seq) × (runtime_at current ≡ some s.runtime_pc))

-- The parts of a controller are well-formed, and its two lists of requests are for one program
-- counter.
pub record IsReady (c : Controller) : Type 0 where
  pub sound : IsSound c.recovery
  pub filtered : IsFiltered c.view
  pub current : Option PcContext
  pub arguments : IsAt current c.core
  pub together : Together current c.recovery

pub kept-Together :
    (current : Option PcContext) (s t : Recovery)
    → SamePc t s
    → Together current s
    → Together current t
kept-Together current s t same (inl none_yet) = inl (same.0 ∙ none_yet)
kept-Together current s t same (inr h) = inr (h.0 ∙ sym same.0, h.1 ∙ ap some (sym same.1))

-- What is left of it while the program counter changes.
pub record IsFit (c : Controller) : Type 0 where
  pub sound : IsSound c.recovery
  pub filtered : IsFiltered c.view

pub fit : (c : Controller) → IsReady c → IsFit c
fit c h = record { sound = h.sound; filtered = h.filtered }

-- A controller with the same parts.
same-IsReady :
    (c d : Controller)
    → d.core ≡ c.core
    → d.recovery ≡ c.recovery
    → d.view ≡ c.view
    → IsReady c
    → IsReady d
same-IsReady c d core recovery view h = record {
  sound = rw recovery h.sound;
  filtered = rw view h.filtered;
  current = h.current;
  arguments = rw core h.arguments;
  together = rw recovery h.together;
}

pub send-IsReady : (m : Value) (c : Controller) → IsReady c → IsReady (send m c)
unfolding send
send-IsReady m c h =
    let sent = record c { sent = c.sent ++ m ∷ [] } in
    either IsReady c.has_client sent c (same-IsReady c sent refl refl refl h) h

pub send_each-IsReady : (ms : List Value) (c : Controller) → IsReady c → IsReady (send_each ms c)
unfolding send_each
send_each-IsReady [] c h = h
send_each-IsReady (m ∷ ms) c h = send_each-IsReady ms (send m c) (send-IsReady m c h)

send_optional-IsReady :
    (m : Option Value) (c : Controller) → IsReady c → IsReady (send_optional m c)
unfolding send_optional
send_optional-IsReady none c h = h
send_optional-IsReady (some m) c h = send-IsReady m c h

pub invalidate_cache-IsReady :
    (b : Bool) (c : Controller) → IsReady c → IsReady (invalidate_cache b c)
unfolding invalidate_cache
invalidate_cache-IsReady b c h = same-IsReady c (invalidate_cache b c) refl refl refl h

pub publish_rows-IsReady : (c : Controller) → IsReady c → IsReady (publish_rows c)
unfolding publish_rows
publish_rows-IsReady c h = record {
  sound = h.sound;
  filtered = update_rows-IsFiltered (overlay_rows c.core.rows c.recovery) c.view h.filtered;
  current = h.current;
  arguments = h.arguments;
  together = h.together;
}

pub envelope_each-IsAt :
    (current : Option PcContext) (ms : List Message) (core : DayVarCore)
    → IsAt current core
    → IsAt current (envelope_each ms core).1
unfolding envelope_each
envelope_each-IsAt current [] core h = h
envelope_each-IsAt current (m ∷ ms) core h =
    envelope_each-IsAt current ms (envelope m.message_type m.payload core).1
      (envelope-IsAt current m.message_type m.payload core h)

pub renew_sequence-IsReady : (z : ℤ) (c : Controller) → IsReady c → IsReady (renew_sequence z c)
unfolding renew_sequence
renew_sequence-IsReady z c h =
    let left = invalidate_cache false c in
    let renewed = record left { active_pc_seq = some z } in
    either IsReady (option_beq int_eq c.active_pc_seq (some z)) c renewed h
      (same-IsReady left renewed refl refl refl (invalidate_cache-IsReady false c h))

pub renew_function-IsFit : (f : Option ℕ) (c : Controller) → IsFit c → IsFit (renew_function f c)
unfolding renew_function invalidate_cache
renew_function-IsFit f c h =
    let renewed = record (invalidate_cache false c) { active_function_ea = f } in
    either IsFit (option_beq nat_eq c.active_function_ea f) c renewed h
      (record { sound = h.sound; filtered = h.filtered })

pub leave_context-IsReady :
    (context : PcContext) (c : Controller) → IsFit c → IsReady (leave_context context c)
unfolding leave_context invalidate_pc start_context
leave_context-IsReady context c h = record {
  sound = invalidate_pc-IsSound context.pc_seq context.runtime_pc c.recovery h.sound;
  filtered = h.filtered;
  current = some context;
  arguments = start-IsAt context c.core;
  together = inr (refl, refl);
}

-- The arguments are at a program counter, whatever the recovery is at.
pub record IsBegun (context : PcContext) (c : Controller) : Type 0 where
  pub sound : IsSound c.recovery
  pub filtered : IsFiltered c.view
  pub arguments : IsAt (some context) c.core

pub send_optional-IsBegun :
    (context : PcContext) (m : Option Value) (c : Controller)
    → IsBegun context c
    → IsBegun context (send_optional m c)
unfolding send_optional send
send_optional-IsBegun context none c h = h
send_optional-IsBegun context (some m) c h =
    either (IsBegun context) c.has_client (record c { sent = c.sent ++ m ∷ [] }) c
      (record { sound = h.sound; filtered = h.filtered; arguments = h.arguments }) h

-- The program counter that an entry plan is made for.
abbrev pub entered : Enumeration → PcMapping → PcContext
unfolding format_hex
entered enumeration mapping =
    context_of mapping.pc_seq (format_hex mapping.runtime_pc) (format_hex mapping.ida_ea)
      enumeration.function_ea (starts_at enumeration.function_start_ea mapping.ida_ea)
