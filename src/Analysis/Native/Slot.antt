-- ===== src/Analysis/Native/Slot.antt =====
-- What `_stack_definition_remains_valid` of ida_plugin/v_variable_recovery.py says of the stack.
use dynvar_sync.Base.{
  ℕ, zero, suc, ◌+◌, ◌≤◌, ◌<◌, ◌==◌, ==_iff, leb, ℤ, pos, pos_part, neg_part, +ℤ_parts, Bool, true,
  false, not, List, [], ◌∷◌, any_of, keep, Option, none, some, In, ◌≡◌, ◌⊎◌, inl, inr, refl, sym,
  subst, Bool-cases, Option-cases, arith,
}
use mathlib.Core.Option.{some-injective, none-ne-some}
use dynvar_sync.Analysis.Native.{
  NativeInsn, native_stack_writes, slot_overlaps, slot_covered, writes_good, step_of, slot_kept,
  stack_definition_remains_valid,
}

-- A byte of the frame, by its distance from the start of the slot: it is the byte of a write.
pub InWrite : ℤ → ℕ → ℕ × ℕ → Type 0
InWrite start k (offset, size) =
    (offset + neg_part start ≤ pos_part start + k)
    × (pos_part start + k < offset + size + neg_part start)

module _ (start : ℤ) (width : ℕ) where
  -- Every byte of the slot is written.
  pub Fills : ℕ × ℕ → Type 0
  Fills write = (k : ℕ) → k < width → InWrite start k write

  -- No byte of the slot is written.
  pub Misses : ℕ × ℕ → Type 0
  Misses write = (k : ℕ) → k < width → InWrite start k write → ⊥

  covered-Fills : (write : ℕ × ℕ) → slot_covered start width write ≡ true → Fills write
  unfolding slot_covered Fills InWrite
  covered-Fills (offset, size) h k low = ground (arith, +ℤ_parts start (pos width))

  apart-Misses : (write : ℕ × ℕ) → slot_overlaps start width write ≡ false → Misses write
  unfolding slot_overlaps Misses InWrite
  apart-Misses (offset, size) h k low (from, to) = ground (arith, +ℤ_parts start (pos width))

  any-Fills :
      (writes : List (ℕ × ℕ))
      → any_of (slot_covered start width) (keep (slot_overlaps start width) writes) ≡ true
      → (write : ℕ × ℕ) × In write writes × Fills write
  any-Fills [] h = cc
  any-Fills (write ∷ writes) h = elim (Bool-cases (slot_overlaps start width write)) [
    | inr miss ↦
        let (other, there, fills) = any-Fills writes (rw miss at h) in (other, inr there, fills)
    | inl meets ↦ elim (Bool-cases (slot_covered start width write)) [
      | inl whole ↦ (write, inl refl, covered-Fills write whole)
      | inr partial ↦
          let (other, there, fills) = any-Fills writes (rw (meets, partial) at h) in
          (other, inr there, fills)
    ]
  ]

  all-Misses :
      (writes : List (ℕ × ℕ))
      → any_of (slot_overlaps start width) writes ≡ false
      → (write : ℕ × ℕ) → In write writes
      → Misses write
  all-Misses [] h write m = absurd m
  all-Misses (first ∷ writes) h write m = elim (Bool-cases (slot_overlaps start width first)) [
    | inl meets ↦ cc (rw meets at h)
    | inr miss ↦ elim m [
      | inl e ↦ subst Misses (sym e) (apart-Misses first miss)
      | inr there ↦ all-Misses writes (rw miss at h) write there
    ]
  ]

opposite : {b : Bool} → not b ≡ true → b ≡ false
opposite {b = true} h = cc
opposite {b = false} h = refl

module _ (badaddr : ℕ) (decode : ℕ → Option NativeInsn) (current_ea : ℕ) (start : ℤ)
    (width : ℕ) where
  -- The addresses that a processor comes to from one on, without a jump, before the current one.
  pub data Stream : ℕ → ℕ → Type 0 where
    here : {a : ℕ} → Stream a a
    onward :
        {a b : ℕ} {insn : NativeInsn}
        → decode a ≡ some insn
        → a < current_ea
        → Stream (a + insn.insn_size) b
        → Stream a b

  -- The instruction at the address can be read, and so can its writes.
  pub Writes : ℕ → List (ℕ × ℕ) → Type 0
  Writes ea writes =
      (insn : NativeInsn) × (decode ea ≡ some insn)
      × (native_stack_writes badaddr insn ≡ some writes)

  Good : Bool → ℕ → ℕ → Type 0
  Good first ea size =
      (0 < size)
      × ((insn : NativeInsn) → decode ea ≡ some insn → insn.insn_size ≡ size)
      × ((writes : List (ℕ × ℕ)) × Writes ea writes × (writes_good start width first writes ≡ true))

  read_step :
      (first : Bool) (o : Option NativeInsn) (size : ℕ)
      → step_of badaddr decode current_ea start width first o ≡ some size
      → (0 < size)
        × ((insn : NativeInsn) × (o ≡ some insn)
            × (insn.insn_size ≡ size)
            × ((writes : List (ℕ × ℕ)) × (native_stack_writes badaddr insn ≡ some writes)
                × (writes_good start width first writes ≡ true)))
  unfolding step_of
  read_step first none size h = absurd (none-ne-some size h)
  read_step first (some insn) size h = elim (Bool-cases (insn.insn_size == 0)) [
    | inl empty ↦ absurd (none-ne-some size (rw empty at h))
    | inr long ↦ elim (Option-cases (native_stack_writes badaddr insn)) [
      | inl unknown ↦ absurd (none-ne-some size (rw (long, unknown) at h))
      | inr (writes, known) ↦ elim (Bool-cases (writes_good start width first writes)) [
        | inr bad ↦ absurd (none-ne-some size (rw (long, known, bad) at h))
        | inl good ↦
            let same : insn.insn_size ≡ size = some-injective _ _ (rw (long, known, good) at h) in
            (ground (arith, ==_iff insn.insn_size 0), (insn, refl, same, (writes, known, good)))
      ]
    ]
  ]

  read_kept :
      (rounds ea : ℕ) (first : Bool)
      → slot_kept badaddr decode current_ea start width (suc rounds) ea first ≡ true
      → ea < current_ea
      → (size : ℕ) × Good first ea size
        × (slot_kept badaddr decode current_ea start width rounds (ea + size) false ≡ true)
  unfolding slot_kept Good Writes
  read_kept rounds ea first h low =
      let before : leb current_ea ea ≡ false = ground arith in
      elim (Option-cases (step_of badaddr decode current_ea start width first (decode ea))) [
        | inl stuck ↦ cc (rw (slot_kept, before, stuck) at h)
        | inr (size, goes) ↦
            let (large, (insn, read, same, (writes, known, good))) =
              read_step first (decode ea) size goes in
            (
              size,
              (large, λ other at. cc, (writes, (insn, read, known), good)),
              rw (slot_kept, before, goes) at h,
            )
      ]

  kept-Good :
      (rounds ea : ℕ) (first : Bool) (b : ℕ)
      → slot_kept badaddr decode current_ea start width rounds ea first ≡ true
      → Stream ea b
      → b < current_ea
      → ((b ≡ ea) × ((size : ℕ) × Good first ea size))
        ⊎ ((ea < b) × ((size : ℕ) × Good false b size))
  unfolding slot_kept
  kept-Good zero ea first b h s low = cc
  kept-Good (suc rounds) ea first b h here low =
      let (size, good, rest) = read_kept rounds ea first h low in inl (refl, (size, good))
  kept-Good (suc rounds) ea first b h (onward {insn = insn} read before s) low =
      let (size, good, rest) = read_kept rounds ea first h before in
      let same : insn.insn_size ≡ size = unfold Good in good.1 insn read in
      let large : 0 < size = unfold Good in good.0 in
      elim (kept-Good rounds (ea + size) false b rest (subst (λ n. Stream (ea + n) b) same s) low) [
        | inl (e, (other, later)) ↦
            inr (omega arith, (other, subst (λ n. Good false n other) (sym e) later))
        | inr (after, later) ↦ inr (omega arith, later)
      ]

  starts_before :
      (rounds ea : ℕ)
      → slot_kept badaddr decode current_ea start width rounds ea true ≡ true
      → ea < current_ea
  unfolding slot_kept
  starts_before zero ea h = cc
  starts_before (suc rounds) ea h = elim (Bool-cases (leb current_ea ea)) [
    | inl late ↦ cc (rw (slot_kept, late) at h)
    | inr early ↦ ground arith
  ]

-- If the check of a stack slot succeeds, then the definition stands before the current address and is
-- an instruction with known writes, one of which writes every byte of the slot; and every instruction
-- that the processor comes to after it without a jump, before the current address, has known writes,
-- none of which writes a byte of the slot.
pub slot_survives :
    (badaddr : ℕ) (decode : ℕ → Option NativeInsn) (current_ea : ℕ) (start : ℤ)
    (width definition_ea : ℕ)
    → stack_definition_remains_valid badaddr decode current_ea start width definition_ea ≡ true
    → (definition_ea < current_ea)
      × ((writes : List (ℕ × ℕ)) × Writes badaddr decode current_ea start width definition_ea writes
          × ((write : ℕ × ℕ) × In write writes × Fills start width write))
      × ((b : ℕ)
          → Stream badaddr decode current_ea start width definition_ea b
          → definition_ea < b
          → b < current_ea
          → (writes : List (ℕ × ℕ)) × Writes badaddr decode current_ea start width b writes
            × ((write : ℕ × ℕ) → In write writes → Misses start width write))
unfolding stack_definition_remains_valid writes_good Good
slot_survives badaddr decode current_ea start width definition_ea h =
    let early = starts_before badaddr decode current_ea start width 4096 definition_ea h in
    let at_start =
      kept-Good badaddr decode current_ea start width 4096 definition_ea true definition_ea h here
        early in
    (
      early,
      elim at_start [
        | inl (e, (size, (large, sized, (writes, known, good)))) ↦
            (writes, known, any-Fills start width writes good)
        | inr (wrong, later) ↦ absurd (omega arith)
      ],
      λ b s after low.
          elim (kept-Good badaddr decode current_ea start width 4096 definition_ea true b h s low) [
            | inl (e, later) ↦ absurd (omega arith)
            | inr (more, (size, (large, sized, (writes, known, good)))) ↦
                (writes, known, λ write m. all-Misses start width writes (opposite good) write m)
          ],
    )
