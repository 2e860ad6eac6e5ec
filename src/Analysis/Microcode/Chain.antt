-- ===== src/Analysis/Microcode/Chain.antt =====
-- `_top_instructions` of ida_plugin/v_variable_recovery.py against the list of instructions of a block.
use dynvar_sync.Base.{
  ℕ, zero, suc, ◌≤◌, ◌==◌, ==_iff, true, false, List, [], ◌∷◌, length, Option, none, some, ◌>>=◌,
  ◌≡◌, ◌≢◌, ◌↔◌, inl, inr, refl, sym, ap, ◌∙◌, Bool-cases, Option-cases, arith,
}
use mathlib.Core.Option.{some-injective, none-ne-some}
use dynvar_sync.Analysis.Microcode.{MicroBlock, has_id, chain, top_instructions}

module _ (block : MicroBlock) (tail : ℕ) where
  -- Each instruction links to the next, and the last one alone is the tail.
  pub IsChain : List ℕ → Type 0
  IsChain [] = ⊥
  IsChain (a ∷ []) = a ≡ tail
  IsChain (a ∷ b ∷ rest) = (a ≢ tail) × (block.next a ≡ some b) × IsChain (b ∷ rest)

  -- No instruction stands twice, or is one of those seen.
  pub IsFresh : List ℕ → List ℕ → Type 0
  IsFresh seen [] = Unit
  IsFresh seen (a ∷ rest) = (has_id a seen ≡ false) × IsFresh (a ∷ seen) rest

  Good : ℕ → List ℕ → ℕ → List ℕ → Type 0
  Good room seen a ns =
      (rest : List ℕ) × (ns ≡ a ∷ rest)
      × IsChain (a ∷ rest)
      × IsFresh seen (a ∷ rest)
      × (length (a ∷ rest) ≤ room)

  stops_seen :
      (room : ℕ) (seen : List ℕ) (a : ℕ)
      → has_id a seen ≡ true
      → chain block tail (suc room) seen (some a) ≡ none
  unfolding chain
  stops_seen room seen a repeated = rw (chain, repeated) refl

  stops_last :
      (room : ℕ) (seen : List ℕ) (a : ℕ)
      → has_id a seen ≡ false
      → (a == tail) ≡ true
      → chain block tail (suc room) seen (some a) ≡ some (a ∷ [])
  unfolding chain
  stops_last room seen a new last = rw (chain, new, last) refl

  goes_on :
      (room : ℕ) (seen : List ℕ) (a : ℕ)
      → has_id a seen ≡ false
      → (a == tail) ≡ false
      → chain block tail (suc room) seen (some a)
        ≡ (chain block tail room (a ∷ seen) (block.next a) >>= λ rest. some (a ∷ rest))
  unfolding chain
  goes_on room seen a new before = rw (chain, new, before) refl

  linked_on :
      (o : Option (List ℕ)) (a : ℕ) (ns : List ℕ)
      → (o >>= λ rest. some (a ∷ rest)) ≡ some ns
      → (rest : List ℕ) × (o ≡ some rest) × (ns ≡ a ∷ rest)
  linked_on none a ns h = absurd (none-ne-some ns h)
  linked_on (some rest) a ns h = (rest, refl, sym (some-injective _ _ h))

  no_next : (room : ℕ) (seen : List ℕ) (ns : List ℕ) → chain block tail room seen none ≡ some ns → ⊥
  unfolding chain
  no_next zero seen ns h = none-ne-some ns h
  no_next (suc room) seen ns h = none-ne-some ns h

  sound :
      (room : ℕ) (seen : List ℕ) (a : ℕ) (ns : List ℕ)
      → chain block tail room seen (some a) ≡ some ns
      → Good room seen a ns
  unfolding Good IsChain IsFresh
  sound zero seen a ns h = absurd (unfold chain in none-ne-some ns h)
  sound (suc room) seen a ns h = elim (Bool-cases (has_id a seen)) [
    | inl repeated ↦ absurd (none-ne-some ns (sym (stops_seen room seen a repeated) ∙ h))
    | inr new ↦ elim (Bool-cases (a == tail)) [
      | inl last ↦ (
        [],
        sym (some-injective _ _ (sym (stops_last room seen a new last) ∙ h)),
        (==_iff a tail).0 last,
        (new, tt),
        omega arith,
      )
      | inr before ↦
          let (rest, found, same) =
            linked_on (chain block tail room (a ∷ seen) (block.next a)) a ns
              (sym (goes_on room seen a new before) ∙ h) in
          let earlier : a ≢ tail = λ e. cc ((==_iff a tail).1 e) in
          elim (Option-cases (block.next a)) [
            | inl out ↦ absurd (no_next room (a ∷ seen) rest (rw out at found))
            | inr (b, next) ↦
                let (more, same', linked, fresh, fits) =
                  sound room (a ∷ seen) b rest (rw next at found) in
                (
                  b ∷ more,
                  same ∙ ap (λ (x : List ℕ). a ∷ x) same',
                  (earlier, next, linked),
                  (new, fresh),
                  omega arith,
                )
          ]
    ]
  ]

  complete :
      (room : ℕ) (seen : List ℕ) (a : ℕ) (rest : List ℕ)
      → IsChain (a ∷ rest)
      → IsFresh seen (a ∷ rest)
      → length (a ∷ rest) ≤ room
      → chain block tail room seen (some a) ≡ some (a ∷ rest)
  unfolding IsChain IsFresh
  complete zero seen a rest linked fresh fits = absurd (omega arith)
  complete (suc room) seen a [] linked fresh fits =
      stops_last room seen a fresh.0 ((==_iff a tail).1 linked)
  complete (suc room) seen a (b ∷ rest) (earlier, next, linked) (new, fresh) fits =
      let before : (a == tail) ≡ false = elim (Bool-cases (a == tail)) [
        | inl last ↦ absurd (earlier ((==_iff a tail).0 last))
        | inr other ↦ other
      ] in
      goes_on room seen a new before
      ∙ rw next (rw (complete room (a ∷ seen) b rest linked fresh (omega arith)) refl)

-- A block that has a head and a tail gives a list of instructions if and only if the list starts with
-- the head, each instruction links to the next, the last and no other is the tail, none stands twice,
-- and there are at most 100000 of them. In every other case there is no list, not even an empty one,
-- but an error: the loop ends in any case.
pub top_instructions_iff :
    (block : MicroBlock) (head tail : ℕ) (ns : List ℕ)
    → block.head ≡ some head
    → block.tail ≡ some tail
    → (top_instructions block ≡ some ns) ↔ (
        (rest : List ℕ) × (ns ≡ head ∷ rest)
        × IsChain block tail (head ∷ rest)
        × IsFresh block tail [] (head ∷ rest)
        × (length (head ∷ rest) ≤ 100000))
unfolding top_instructions Good
top_instructions_iff block head tail ns first last = (
  λ h. sound block tail 100000 [] head ns (rw (first, last) at h),
  λ (rest, same, linked, fresh, fits).
      rw (first, last, same) (complete block tail 100000 [] head rest linked fresh fits),
)
