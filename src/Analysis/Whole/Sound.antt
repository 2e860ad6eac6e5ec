-- ===== src/Analysis/Whole/Sound.antt =====
-- What the evidence of `analyze_v_variable_candidates` of ida_plugin/v_variable_recovery.py rests on.
use dynvar_sync.Base.{
  ℕ, ◌==◌, Bool, true, false, ◌||◌, not, List, [], ◌∷◌, get_elem?, Option, none, some, String,
  str_eq, get, put, nat_eq, ◌≡◌, ◌⊎◌, inl, inr, refl, sym, ap, ◌∙◌, subst, Bool-cases, Option-cases,
  if◌then◌else◌,
}
use mathlib.Core.Option.{none-ne-some}
use dynvar_sync.Recovery.{VariableRecord, RecoveryEvidence}
use dynvar_sync.Analysis.Claims.{Claims, no_evidence, reject_pairs, reject_duplicate_storage_claims}
use dynvar_sync.Analysis.Claims.Disjoint.{withdraw-get, put-item}
use dynvar_sync.Analysis.Variables.{Lvar, unavailable_location_evidence}
use dynvar_sync.Analysis.Candidate.{Place, Candidate, proved, rejected, failed, analyze_one_lvar}
use dynvar_sync.Analysis.Candidate.Grounds.{Sound}
use dynvar_sync.Analysis.Candidate.Proved.{evidence-Sound}
use dynvar_sync.Analysis.Microcode.{MicroBlocks}
use dynvar_sync.Analysis.Points.{Match, find_exact_microcode_point}
use dynvar_sync.Analysis.Whole.{
  Ida, evidence_of, candidate_evidence, evidence_each, display_name, analyze_at, analyze_point,
  analyze_blocks, not_analyzed, all_unavailable, analyze_v_variable_candidates, is_supported,
  micro_blocks_of, place_at,
}

-- Without evidence there is no address of a definition.
unavailable_source :
    (lvar : Option Lvar) (index width : ℕ) (reason : String)
    → (unavailable_location_evidence lvar index width reason).source_ea ≡ none
unfolding unavailable_location_evidence
unavailable_source none index width reason = refl
unavailable_source (some lvar) index width reason =
    elim (Bool-cases (lvar.is_scattered || lvar.was_scattered_arg)) [
      | inl scattered ↦ rw scattered refl
      | inr whole ↦ elim (Bool-cases lvar.is_reg_var) [
        | inl register ↦ rw (whole, register) refl
        | inr other ↦ elim (Bool-cases lvar.is_stk_var) [
          | inl stack ↦ rw (whole, other, stack) refl
          | inr elsewhere ↦ rw (whole, other, elsewhere) refl
        ]
      ]
    ]

evidence_proved :
    (lvar : Lvar) (index size : ℕ) (c : Candidate) (ea : ℕ)
    → (evidence_of lvar index size c).source_ea ≡ some ea
    → c ≡ proved (evidence_of lvar index size c)
unfolding evidence_of
evidence_proved lvar index size (proved e) ea h = refl
evidence_proved lvar index size (rejected reason) ea h =
    absurd (none-ne-some ea (sym (unavailable_source (some lvar) index size reason) ∙ h))
evidence_proved lvar index size failed ea h = absurd (none-ne-some ea h)

not_rejected :
    (b : Bool) (why : String) (c : Candidate) (e : RecoveryEvidence)
    → (if b then rejected why else c) ≡ proved e
    → c ≡ proved e
not_rejected true why c e h = cc
not_rejected false why c e h = h

candidate_found :
    (place : Place) (variable : VariableRecord) (lvar : Option Lvar) (ea : ℕ)
    → (candidate_evidence place variable lvar).source_ea ≡ some ea
    → (l : Lvar) × (lvar ≡ some l)
      × (analyze_one_lvar place l variable.lvar_index variable.size
          ≡ proved (candidate_evidence place variable lvar))
unfolding candidate_evidence
candidate_found place variable none ea h = absurd (
    none-ne-some ea (
      sym (unavailable_source none variable.lvar_index variable.size "no_reaching_definition") ∙ h))
candidate_found place variable (some lvar) ea h = (
  lvar,
  refl,
  not_rejected (not (lvar.lvar_width == variable.size)) "unsupported_value_width" analysed _ (
      not_rejected (not (str_eq lvar.lvar_name (display_name variable.name)))
        "microcode_unavailable" _ _
        (evidence_proved lvar variable.lvar_index variable.size
          (if not (str_eq lvar.lvar_name (display_name variable.name))
            then rejected "microcode_unavailable"
            else if not (lvar.lvar_width == variable.size)
            then rejected "unsupported_value_width"
            else analysed)
          ea h)),
)
  where
    analysed : Candidate
    analysed = analyze_one_lvar place lvar variable.lvar_index variable.size

-- An item is evidence for one of the variables.
each-found :
    (place : Place) (lvars : List Lvar) (variables : List VariableRecord) (claims : Claims) (i : ℕ)
    (e : RecoveryEvidence)
    → get i (evidence_each place lvars variables claims) ≡ some e
    → (get i claims ≡ some e)
      ⊎ ((variable : VariableRecord) × (variable.lvar_index ≡ i)
          × (e ≡ candidate_evidence place variable (get_elem? lvars variable.lvar_index)))
unfolding evidence_each
each-found place lvars [] claims i e h = inl h
each-found place lvars (variable ∷ variables) claims i e h =
    let made = candidate_evidence place variable (get_elem? lvars variable.lvar_index) in
    elim (each-found place lvars variables (put variable.lvar_index made claims) i e h) [
      | inr found ↦ inr found
      | inl there ↦ elim (put-item variable.lvar_index i made e claims there) [
        | inl (same, is_made) ↦ inr (variable, same, is_made)
        | inr (other, before) ↦ inl before
      ]
    ]

none-found :
    (reason : String) (variables : List VariableRecord) (claims : Claims) (i : ℕ)
    (e : RecoveryEvidence)
    → get i (all_unavailable reason variables claims) ≡ some e
    → (get i claims ≡ some e) ⊎ (e.source_ea ≡ none)
unfolding all_unavailable
none-found reason [] claims i e h = inl h
none-found reason (variable ∷ variables) claims i e h =
    let made = no_evidence variable.lvar_index reason in
    elim (none-found reason variables (put variable.lvar_index made claims) i e h) [
      | inr empty ↦ inr empty
      | inl there ↦ elim (put-item variable.lvar_index i made e claims there) [
        | inl (same, is_made) ↦ inr (ap (λ (x : RecoveryEvidence). x.source_ea) is_made)
        | inr (other, before) ↦ inl before
      ]
    ]

-- An analysis that was not made has no evidence with a definition.
no_source :
    (ok : Bool) (reason : String) (variables : List VariableRecord) (i ea : ℕ)
    (e : RecoveryEvidence)
    → get i (not_analyzed ok reason variables).evidence_by_index ≡ some e
    → e.source_ea ≡ some ea
    → ⊥
unfolding get
no_source ok reason variables i ea e h source = elim (none-found reason variables [] i e h) [
  | inl there ↦ none-ne-some e there
  | inr empty ↦ none-ne-some ea (sym empty ∙ source)
]

module _ (ida : Ida) (place : Place) (variables : List VariableRecord) where
  found_at :
      (i ea : ℕ) (e : RecoveryEvidence)
      → get i (analyze_at ida place variables).evidence_by_index ≡ some e
      → e.source_ea ≡ some ea
      → (lvar : Lvar) × (get_elem? ida.lvars i ≡ some lvar)
        × ((width : ℕ) × Sound place lvar i width e)
  unfolding analyze_at reject_duplicate_storage_claims get
  found_at i ea e h source =
      let claims = evidence_each place ida.lvars variables [] in
      elim (withdraw-get (reject_pairs claims []) claims i e h) [
        | inl (why, gone) ↦
            absurd
              (none-ne-some ea (sym (ap (λ (x : RecoveryEvidence). x.source_ea) gone) ∙ source))
        | inr (there, kept) ↦ elim (each-found place ida.lvars variables [] i e there) [
          | inl nothing ↦ absurd (none-ne-some e nothing)
          | inr (variable, same, made) ↦
              let (lvar, listed, proof) =
                candidate_found place variable (get_elem? ida.lvars variable.lvar_index) ea
                  (sym (ap (λ (x : RecoveryEvidence). x.source_ea) made) ∙ source) in
              (
                lvar,
                subst (λ n. get_elem? ida.lvars n ≡ some lvar) same listed,
                (
                  variable.size,
                  subst (λ n. Sound place lvar n variable.size e) same
                      (evidence-Sound place lvar variable.lvar_index variable.size e
                        (proof ∙ ap proved (sym made))),
                ),
              )
        ]
      ]

-- If the analysis of a function at an address gives evidence with a definition for a variable, then
-- the microcode was read and has one point for the address, Hex-Rays has the variable, and the
-- evidence is sound at that point: its definition is the last instruction on every execution of the
-- microcode to the point that touches the variable, and it is a number that the definition assigns,
-- or a register that keeps the value on every execution of the native graph to the address, or a
-- stack slot that is written as a whole by the definition and not at all by the instructions that
-- follow it without a jump up to the address.
pub analysis-Sound :
    (ida : Ida) (function_ea current_ea : ℕ) (variables : List VariableRecord) (i ea : ℕ)
    (e : RecoveryEvidence)
    → get i (analyze_v_variable_candidates ida function_ea current_ea variables).evidence_by_index
      ≡ some e
    → e.source_ea ≡ some ea
    → (blocks : MicroBlocks) × (found : Match) × (micro_blocks_of ida ≡ some blocks)
      × (find_exact_microcode_point current_ea blocks ≡ some found)
      × ((lvar : Lvar) × (get_elem? ida.lvars i ≡ some lvar)
          × ((width : ℕ) × Sound (place_at ida current_ea blocks found) lvar i width e))
unfolding analyze_v_variable_candidates analyze_blocks analyze_point
analysis-Sound ida function_ea current_ea variables i ea e h source =
    elim (Bool-cases (not ida.has_apis || not (is_supported ida function_ea current_ea))) [
      | inl bad ↦
          absurd (no_source false "microcode_unavailable" variables i ea e (rw bad at h) source)
      | inr good ↦ elim (Option-cases (micro_blocks_of ida)) [
        | inl unread ↦ absurd (
            no_source false "microcode_unavailable" variables i ea e (rw (good, unread) at h)
              source)
        | inr (blocks, read) ↦ elim (Option-cases (find_exact_microcode_point current_ea blocks)) [
          | inl nowhere ↦ absurd (
              no_source true "unresolved_native_program_point" variables i ea e
                (rw (good, read, nowhere) at h) source)
          | inr (found, at) ↦ (
            blocks,
            found,
            read,
            at,
            found_at ida (place_at ida current_ea blocks found) variables i ea e
                (rw (good, read, at) at h) source,
          )
        ]
      ]
    ]
