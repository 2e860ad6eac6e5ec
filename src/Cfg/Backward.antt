-- ===== src/Cfg/Backward.antt =====
-- Searches that go backward from a point of a control flow graph, as `_find_reaching_definitions`
-- and `_validate_register_storage_cfg` of ida_plugin/v_variable_recovery.py do, and the executions
-- that they speak of. A graph is the number of instructions of each block and its predecessors; an
-- instruction stops the search, or the search goes past it.
use dynvar_sync.Base.{
  ℕ, zero, suc, ◌≤◌, ◌<◌, ltb, Bool, true, false, List, [], ◌∷◌, Option, none, some, if◌then◌else◌,
  length, In, ◌≡◌, ◌≢◌, ◌∙◌, arith, inl, inr, subst, ap, Bool-cases, Option-cases,
}
use native.Mathlib.Decide.{dec_lt}
use dynvar_sync.Cfg.Walk.{Point, Route, onward}

-- `limit > len(block.instructions)` for a block of the graph
abbrev pub within : Option ℕ → ℕ → Bool
within none limit = false
within (some n) limit = if ltb n limit then false else true

module _ (size : ℕ → Option ℕ) (preds : ℕ → List ℕ) (stops : ℕ → ℕ → Bool) where
  -- `for position in range(limit - 1, -1, -1)`: the first position that stops the search.
  unfoldable pub scan : ℕ → ℕ → Option ℕ
  scan block zero = none
  scan block (suc position) =
      let rest = scan block position in if stops block position then some position else rest

  -- The ends of the predecessors that are blocks of the graph.
  unfoldable pub entries : List ℕ → List Point
  entries [] = []
  entries (b ∷ bs) = elim (size b) [ none ↦ entries bs | some n ↦ (b, n) ∷ entries bs ]

  unfoldable after_scan : ℕ → Option ℕ → List Point
  after_scan block none = entries (preds block)
  after_scan block (some position) = []

  -- The points that `pending` gets after a point: none where the point is not in the graph, or where
  -- an instruction stopped the search.
  unfoldable pub back : Point → List Point
  unfolding after_scan
  back (block, limit) =
      if within (size block) limit then after_scan block (scan block limit) else []

  -- An execution from the start of an entry block, one without predecessors, to a point.
  pub data Run : Point → Type 0 where
    starts : (b n : ℕ) → size b ≡ some n → preds b ≡ [] → Run (b, zero)
    executes : {b p : ℕ} (n : ℕ) → Run (b, p) → size b ≡ some n → p < n → Run (b, suc p)
    jumps : {a n : ℕ} (b : ℕ) → Run (a, n) → size a ≡ some n → In a (preds b) → Run (b, zero)

  -- The last stopping instruction that an execution has executed.
  pub last_stop : {q : Point} → Run q → Option Point
  last_stop (starts b n e f) = none
  last_stop (executes {b} {p} n run e h) =
      let before = last_stop run in if stops b p then some (b, p) else before
  last_stop (jumps b run e m) = last_stop run

  In-entries : (a n : ℕ) (bs : List ℕ) → size a ≡ some n → In a bs → In (a, n) (entries bs)
  unfolding entries
  In-entries a n [] e m = absurd m
  In-entries a n (b ∷ bs) e (inl same) =
      let at_b : size b ≡ some n = subst (λ x. size x ≡ some n) same e in
      rw (at_b, entries) (inl (ap (λ (x : ℕ). (x, n)) same))
  In-entries a n (b ∷ bs) e (inr m) = elim (Option-cases (size b)) [
    | inl out ↦ rw (out, entries) (In-entries a n bs e m)
    | inr (k, found) ↦ rw (found, entries) (inr (In-entries a n bs e m))
  ]

  -- The instructions from `low` up to `high` do not stop the search.
  abbrev Passes : ℕ → ℕ → ℕ → Type 0
  Passes block low high = (j : ℕ) → low ≤ j → j < high → stops block j ≡ false

  scan-Passes :
      (block low high : ℕ) → low ≤ high → Passes block low high → scan block high ≡ scan block low
  unfolding scan
  scan-Passes block low zero h pass = let same : zero ≡ low = omega arith in rw (← same)
  scan-Passes block low (suc high) h pass = elim (dec_lt low (suc high)) [
    | yes below ↦
        rw (pass high (omega arith) (omega arith))
          (scan-Passes block low high (omega arith) (λ j a b. pass j a (omega arith)))
    | no above ↦ let same : suc high ≡ low = omega arith in rw (← same)
  ]

  pub scan-stops :
      (block limit position : ℕ) → scan block limit ≡ some position → stops block position ≡ true
  unfolding scan
  scan-stops block zero position h = cc
  scan-stops block (suc limit) position h = ground (arith, scan-stops block limit position)

  length-entries : (bs : List ℕ) → length (entries bs) ≤ length bs
  unfolding entries
  length-entries [] = omega arith
  length-entries (b ∷ bs) = ground (arith, length-entries bs)

  pub length-back : (p : Point) → length (back p) ≤ length (preds p.0)
  unfolding back after_scan
  length-back (b, limit) = ground (arith, length-entries (preds b))

  Passes-suc :
      (block p high : ℕ) → stops block p ≡ false → Passes block (suc p) high → Passes block p high
  Passes-suc block p high past pass j low below = elim (dec_lt p j) [
    | yes above ↦ pass j (omega arith) below
    | no same ↦ let at : j ≡ p = omega arith in rw at past
  ]

  stop_at : (block p : ℕ) → stops block p ≡ true → scan block (suc p) ≡ some p
  unfolding scan
  stop_at block p stop = rw stop

  back-entries :
      (block limit : ℕ)
      → within (size block) limit ≡ true
      → scan block limit ≡ none
      → back (block, limit) ≡ entries (preds block)
  unfolding back
  back-entries block limit inside clear = rw (inside, clear)

  -- What a search leaves behind at a point: the point is in the graph; an instruction that stopped
  -- the search there is as wanted; and where none did, the block has predecessors.
  pub record IsSettled {ℓ} (Good : Point → Type ℓ) (q : Point) : Type ℓ where
    pub inside : within (size q.0) q.1 ≡ true
    pub stopped : (position : ℕ) → scan q.0 q.1 ≡ some position → Good (q.0, position)
    pub entered : scan q.0 q.1 ≡ none → preds q.0 ≢ []

  module _ {ℓ} (Good : Point → Type ℓ) (start : Point)
      (settled : (q : Point) → Route back start q → IsSettled Good q) where
    pub settles :
        {b k : ℕ} (run : Run (b, k)) (limit : ℕ)
        → Route back start (b, limit)
        → k ≤ limit
        → Passes b k limit
        → (d : Point) × (last_stop run ≡ some d) × Good d
    unfolding last_stop
    settles (starts b n e none_before) limit r h pass =
        let clear = scan-Passes b zero limit h pass in
        absurd ((settled (b, limit) r).entered (unfold scan in clear) none_before)
    settles (executes {b} {p} n run e at) limit r h pass = elim (Bool-cases (stops b p)) [
      | inl stop ↦
          let found = scan-Passes b (suc p) limit h pass in
          ((b, p), rw stop, (settled (b, limit) r).stopped p (found ∙ stop_at b p stop))
      | inr past ↦ rw past (settles run limit r (omega arith) (Passes-suc b p limit past pass))
    ]
    settles (jumps {a} {n} b run e m) limit r h pass =
        let clear = scan-Passes b zero limit h pass in
        settles run n
          (onward (a, n) r
            (rw (back-entries b limit (settled (b, limit) r).inside (unfold scan in clear))
              (In-entries a n (preds b) e m)))
          (omega arith) (λ j low high. absurd (omega arith))
