-- ===== src/Analysis/Graph/Tiles.antt =====
-- The instructions of a native block in ida_plugin/v_variable_recovery.py.
use dynvar_sync.Base.{
  ℕ, zero, suc, ◌+◌, ◌≤◌, ◌<◌, ◌==◌, ==_iff, ltb, true, false, ◌||◌, List, [], ◌∷◌, Option, none,
  some, ◌>>=◌, ◌≡◌, inl, inr, refl, ◌∙◌, subst, Bool-cases, Option-cases, arith,
}
use mathlib.Core.Option.{some-injective, none-ne-some}
use dynvar_sync.Cfg.Storage.{NativeInstructionFact}
use dynvar_sync.Analysis.Native.{NativeInsn}
use dynvar_sync.Analysis.Graph.{fitting, known_fact, unknown_rest, read_instructions}

-- The instructions follow each other without a gap from one address to another.
pub Tiles : ℕ → List NativeInstructionFact → ℕ → Type 0
Tiles ea [] end_ea = ea ≡ end_ea
Tiles ea (fact ∷ facts) end_ea =
    (fact.ea ≡ ea) × (0 < fact.instruction_size) × Tiles (ea + fact.instruction_size) facts end_ea

module _ (decode : ℕ → Option NativeInsn) where
  fitting_size :
      (ea end_ea : ℕ) (o : Option NativeInsn) (insn : NativeInsn)
      → fitting decode ea end_ea o ≡ some insn
      → (o ≡ some insn) × (0 < insn.insn_size) × (ea + insn.insn_size ≤ end_ea)
  fitting_size ea end_ea none insn h = absurd (none-ne-some insn h)
  fitting_size ea end_ea (some other) insn h =
      elim (Bool-cases ((other.insn_size == 0) || ltb end_ea (ea + other.insn_size))) [
        | inl bad ↦ absurd (none-ne-some insn (rw bad at h))
        | inr good ↦
            let one : other ≡ insn = some-injective _ _ (rw good at h) in
            subst (λ x. (some other ≡ some x) × (0 < x.insn_size) × (ea + x.insn_size ≤ end_ea)) one
              (refl, ground (arith, ==_iff other.insn_size 0), ground arith)
      ]

  at_end : (room ea end_ea : ℕ) → ea ≡ end_ea → read_instructions decode room ea end_ea ≡ some []
  unfolding read_instructions
  at_end zero ea end_ea e = let late : ltb ea end_ea ≡ false = ground arith in rw late refl
  at_end (suc room) ea end_ea e =
      let late : ltb ea end_ea ≡ false = ground arith in rw (read_instructions, late) refl

  unknown_read :
      (room ea end_ea : ℕ)
      → ea < end_ea
      → fitting decode ea end_ea (decode ea) ≡ none
      → read_instructions decode (suc room) ea end_ea ≡ some (unknown_rest ea end_ea ∷ [])
  unfolding read_instructions
  unknown_read room ea end_ea low nothing =
      let early : ltb ea end_ea ≡ true = ground arith in rw (read_instructions, early, nothing) refl

  known_read :
      (room ea end_ea : ℕ) (insn : NativeInsn)
      → ea < end_ea
      → fitting decode ea end_ea (decode ea) ≡ some insn
      → read_instructions decode (suc room) ea end_ea ≡ (
          read_instructions decode room (ea + insn.insn_size) end_ea >>= λ rest.
          some (known_fact ea insn ∷ rest))
  unfolding read_instructions
  known_read room ea end_ea insn low fits =
      let early : ltb ea end_ea ≡ true = ground arith in rw (read_instructions, early, fits) refl

-- A block that is not longer than the number of instructions that are allowed is read to its end, and
-- the instructions follow each other without a gap from its start to its end.
pub instructions-tile :
    (decode : ℕ → Option NativeInsn) (room ea end_ea : ℕ)
    → ea ≤ end_ea
    → end_ea ≤ ea + room
    → (facts : List NativeInstructionFact) × (read_instructions decode room ea end_ea ≡ some facts)
      × Tiles ea facts end_ea
unfolding Tiles known_fact
instructions-tile decode zero ea end_ea low high =
    ([], at_end decode zero ea end_ea (omega arith), omega arith)
instructions-tile decode (suc room) ea end_ea low high = elim (Bool-cases (ltb ea end_ea)) [
  | inr late ↦
      let done : ea ≡ end_ea = ground arith in ([], at_end decode (suc room) ea end_ea done, done)
  | inl early ↦
      let before : ea < end_ea = ground arith in
      elim (Option-cases (fitting decode ea end_ea (decode ea))) [
        | inl nothing ↦ (
          unknown_rest ea end_ea ∷ [],
          unknown_read decode room ea end_ea before nothing,
          (refl, ground arith, ground arith),
        )
        | inr (insn, fits) ↦
            let (read, large, inside) = fitting_size decode ea end_ea (decode ea) insn fits in
            let (facts, rest, tiles) =
              instructions-tile decode room (ea + insn.insn_size) end_ea inside (omega arith) in
            (
              known_fact ea insn ∷ facts,
              known_read decode room ea end_ea insn before fits ∙ rw rest refl,
              (refl, large, tiles),
            )
      ]
]
