-- ===== src/Analysis/Points/Exact.antt =====
-- What `_find_exact_microcode_point` of ida_plugin/v_variable_recovery.py finds.
use dynvar_sync.Base.{
  ℕ, zero, suc, ◌+◌, ◌≤◌, ◌==◌, ==_iff, true, false, List, [], ◌∷◌, Option, none, some, get_elem?,
  option_beq, nat_eq, In, ◌≡◌, ◌≢◌, ◌⊎◌, inl, inr, refl, sym, ap, ◌∙◌, subst, both_true, Bool-cases,
  List-cases, arith,
}
use mathlib.Core.Option.{some-injective, none-ne-some}
use dynvar_sync.Analysis.Microcode.{Entry, MicroBlockData, MicroBlocks}
use dynvar_sync.Analysis.Points.{
  positions_of, is_run, Match, match_of, join, matches_of, single, find_exact_microcode_point,
}

-- The entry at the position is for the address.
pub At : ℕ → List Entry → ℕ → Type 0
At ea entries k = (entry : Entry) × (get_elem? entries k ≡ some entry) × (entry.ea ≡ some ea)

option_beq_eq : (a : Option ℕ) (b : ℕ) → option_beq nat_eq a (some b) ≡ true → a ≡ some b
option_beq_eq none b h = cc
option_beq_eq (some a) b h = ap some ((nat_eq.beq_iff a b).0 h)

option_eq_beq : (a : Option ℕ) (b : ℕ) → a ≡ some b → option_beq nat_eq a (some b) ≡ true
option_eq_beq none b h = cc
option_eq_beq (some a) b h = (nat_eq.beq_iff a b).1 (some-injective a b h)

module _ (ea : ℕ) where
  listed :
      (entries : List Entry) (position k : ℕ)
      → At ea entries k
      → In (position + k) (positions_of ea position entries)
  unfolding positions_of At
  listed [] position k (entry, there, at) = cc
  listed (first ∷ entries) position zero (entry, there, at) =
      let one : first ≡ entry = some-injective _ _ there in
      let hit : option_beq nat_eq first.ea (some ea) ≡ true =
        option_eq_beq first.ea ea (ap (λ (e : Entry). e.ea) one ∙ at) in
      rw hit (inl (omega arith))
  listed (first ∷ entries) position (suc k) (entry, there, at) =
      let rest = listed entries (suc position) k (entry, there, at) in
      let same : suc position + k ≡ position + suc k = omega arith in
      elim (Bool-cases (option_beq nat_eq first.ea (some ea))) [
        | inl hit ↦
            rw hit (inr (subst (λ n. In n (positions_of ea (suc position) entries)) same rest))
        | inr miss ↦ rw miss (subst (λ n. In n (positions_of ea (suc position) entries)) same rest)
      ]

  found :
      (entries : List Entry) (position n : ℕ)
      → In n (positions_of ea position entries)
      → (k : ℕ) × (n ≡ position + k) × At ea entries k
  unfolding positions_of At
  found [] position n m = absurd m
  found (first ∷ entries) position n m =
      let later : In n (positions_of ea (suc position) entries)
          → (k : ℕ) × (n ≡ position + k) × At ea (first ∷ entries) k =
        λ there.
          let (k, same, at) = found entries (suc position) n there in (suc k, omega arith, at) in
      elim (Bool-cases (option_beq nat_eq first.ea (some ea))) [
        | inl hit ↦ elim (rw hit at m) [
          | inl here ↦ (zero, omega arith, (first, refl, option_beq_eq first.ea ea hit))
          | inr there ↦ later there
        ]
        | inr miss ↦ later (rw miss at m)
      ]

apart : {m start : ℕ} → (m == start) ≡ false → m ≢ start
apart {m} {start} h e = cc ((==_iff m start).1 e)

above : {m start : ℕ} → (m == start) ≡ false → start ≤ m → suc start ≤ m
above {m} {start} h low = let other = apart h in omega arith

-- A run has every position from its start to each of its own.
run_from :
    (start : ℕ) (ns : List ℕ) (n m : ℕ)
    → is_run start ns ≡ true
    → In n ns
    → start ≤ m
    → m ≤ n
    → In m ns
unfolding is_run
run_from start [] n m h there low high = absurd there
run_from start (first ∷ ns) n m h there low high =
    let (starts, rest) = both_true (first == start) (is_run (suc start) ns) h in
    let first_is = (==_iff first start).0 starts in
    elim (Bool-cases (m == start)) [
      | inl same ↦ inl ((==_iff m start).0 same ∙ sym first_is)
      | inr other ↦ elim there [
        | inl e ↦ absurd (apart other (omega arith))
        | inr later ↦ inr (run_from (suc start) ns n m rest later (above other low) high)
      ]
    ]

run_low : (start : ℕ) (ns : List ℕ) (n : ℕ) → is_run start ns ≡ true → In n ns → start ≤ n
unfolding is_run
run_low start [] n h there = absurd there
run_low start (first ∷ ns) n h (inl e) =
    let first_is = (==_iff first start).0 (both_true _ (is_run (suc start) ns) h).0 in omega arith
run_low start (first ∷ ns) n h (inr there) =
    let rest = run_low (suc start) ns n (both_true _ (is_run (suc start) ns) h).1 there in
    omega arith

-- The position is the first of the instructions for the address in the block, and these stand one
-- after the other.
pub IsStart : ℕ → MicroBlockData → ℕ → Type 0
IsStart ea block p =
    At ea block.entries p
    × ((k : ℕ)
        → At ea block.entries k
        → (p ≤ k) × ((m : ℕ) → p ≤ m → m ≤ k → At ea block.entries m))

join_none :
    {A : Type 0} (one others : Option (List A))
    → join one others ≡ some []
    → (one ≡ some []) × (others ≡ some [])
join_none none others h = absurd (none-ne-some [] h)
join_none (some []) others h = (refl, h)
join_none (some (a ∷ more)) none h = absurd (none-ne-some [] h)
join_none (some (a ∷ more)) (some bs) h = cc

join_one :
    {A : Type 0} (one others : Option (List A)) (x : A)
    → join one others ≡ some (x ∷ [])
    → ((one ≡ some []) × (others ≡ some (x ∷ [])))
      ⊎ ((more : List A) × (one ≡ some (x ∷ more)) × (others ≡ some []))
join_one none others x h = absurd (none-ne-some _ h)
join_one (some []) others x h = inl (refl, h)
join_one (some (a ∷ more)) none x h = absurd (none-ne-some _ h)
join_one (some (a ∷ more)) (some bs) x h = inr (more, cc, cc)

single_of : {A : Type 0} (o : Option (List A)) (x : A) → single o ≡ some x → o ≡ some (x ∷ [])
single_of none x h = absurd (none-ne-some x h)
single_of (some []) x h = absurd (none-ne-some x h)
single_of (some (a ∷ [])) x h = cc
single_of (some (a ∷ b ∷ more)) x h = absurd (none-ne-some x h)

module _ (ea : ℕ) where
  back_at : (entries : List Entry) (k : ℕ) → In k (positions_of ea 0 entries) → At ea entries k
  back_at entries k m =
      let (j, same, at) = found ea entries 0 k m in
      let one : j ≡ k = omega arith in subst (At ea entries) one at

  listed_at : (entries : List Entry) (k : ℕ) → At ea entries k → In k (positions_of ea 0 entries)
  listed_at entries k at =
      let same : 0 + k ≡ k = omega arith in
      subst (λ n. In n (positions_of ea 0 entries)) same (listed ea entries 0 k at)

  started :
      (block : MicroBlockData) (first : ℕ) (ns : List ℕ)
      → positions_of ea 0 block.entries ≡ first ∷ ns
      → is_run (suc first) ns ≡ true
      → IsStart ea block first
  unfolding IsStart is_run
  started block first ns same run =
      let whole : is_run first (first ∷ ns) ≡ true = ground (arith, ==_iff first first) in
      let here : (k : ℕ) → In k (first ∷ ns) → At ea block.entries k =
        λ k m. back_at block.entries k (subst (In k) (sym same) m) in
      (
        here first (inl refl),
        λ k at.
            let m = subst (In k) same (listed_at block.entries k at) in
            (
              run_low first (first ∷ ns) k whole m,
              λ n low high. here n (run_from first (first ∷ ns) k n whole m low high),
            ),
      )

  -- What one block adds, and what it says of the block.
  match_cases :
      (block : MicroBlockData) (ms : List Match)
      → match_of block (positions_of ea 0 block.entries) ≡ some ms
      → ((ms ≡ []) × ((k : ℕ) → At ea block.entries k → ⊥))
        ⊎ ((p : ℕ) × (ms ≡ (block, p) ∷ []) × IsStart ea block p)
  match_cases block ms h = elim (List-cases (positions_of ea 0 block.entries)) [
    | inl nothing ↦ inl (
      sym (some-injective _ _ (rw nothing at h)),
      λ k at. subst (In k) nothing (listed_at block.entries k at),
    )
    | inr (first, ns, same) ↦ elim (Bool-cases (is_run (suc first) ns)) [
      | inl run ↦
          inr
            (first, sym (some-injective _ _ (rw (same, run) at h)), started block first ns same run)
      | inr broken ↦ absurd (none-ne-some ms (rw (same, broken) at h))
    ]
  ]

  nowhere :
      (blocks : MicroBlocks)
      → matches_of ea blocks ≡ some []
      → (id k : ℕ) (block : MicroBlockData) → In (id, block) blocks
      → At ea block.entries k
      → ⊥
  unfolding matches_of
  nowhere [] h id k block m at = m
  nowhere ((id', first) ∷ blocks) h id k block m at =
      let (here, rest) =
        join_none (match_of first (positions_of ea 0 first.entries)) (matches_of ea blocks) h in
      elim (match_cases first [] here) [
        | inr (p, wrong, start) ↦ cc
        | inl (empty, free) ↦ elim m [
          | inl e ↦ free k (subst (λ (item : ℕ × MicroBlockData). At ea item.1.entries k) e at)
          | inr later ↦ nowhere blocks rest id k block later at
        ]
      ]

  one_match :
      (blocks : MicroBlocks) (match_found : Match)
      → matches_of ea blocks ≡ some (match_found ∷ [])
      → ((id : ℕ) × In (id, match_found.0) blocks)
        × IsStart ea match_found.0 match_found.1
        × ((id k : ℕ) (block : MicroBlockData)
            → In (id, block) blocks
            → At ea block.entries k
            → block ≡ match_found.0)
  unfolding matches_of
  one_match [] match_found h = cc
  one_match ((id', first) ∷ blocks) match_found h =
      elim (join_one (match_of first (positions_of ea 0 first.entries)) (matches_of ea blocks)
        match_found h) [
          | inl (here, rest) ↦ elim (match_cases first [] here) [
            | inr (p, wrong, start) ↦ cc
            | inl (empty, free) ↦
                let ((id, there), start, only) = one_match blocks match_found rest in
                (
                  (id, inr there),
                  start,
                  λ id k block m at. elim m [
                    | inl e ↦ absurd (
                        free k (subst (λ (item : ℕ × MicroBlockData). At ea item.1.entries k) e at))
                    | inr later ↦ only id k block later at
                  ],
                )
          ]
          | inr (more, here, rest) ↦ elim (match_cases first (match_found ∷ more) here) [
            | inl (wrong, free) ↦ cc
            | inr (p, same, start) ↦
                let one : match_found ≡ (first, p) = cc in
                subst
                  (λ (x : Match).
                    ((id : ℕ) × In (id, x.0) ((id', first) ∷ blocks))
                    × IsStart ea x.0 x.1
                    × ((id k : ℕ) (block : MicroBlockData)
                        → In (id, block) ((id', first) ∷ blocks)
                        → At ea block.entries k
                        → block ≡ x.0))
                  (sym one)
                  (
                    (id', inl refl),
                    start,
                    λ id k block m at. elim m [
                      | inl e ↦ ap (λ (item : ℕ × MicroBlockData). item.1) e
                      | inr later ↦ absurd (nowhere blocks rest id k block later at)
                    ],
                  )
          ]
        ]

-- A point that is found is the first instruction for the address in a block of the graph, where all the
-- instructions for that address stand one after the other, and no other block has one.
pub exact_point :
    (ea : ℕ) (blocks : MicroBlocks) (block : MicroBlockData) (p : ℕ)
    → find_exact_microcode_point ea blocks ≡ some (block, p)
    → ((id : ℕ) × In (id, block) blocks)
      × IsStart ea block p
      × ((id k : ℕ) (other : MicroBlockData)
          → In (id, other) blocks
          → At ea other.entries k
          → other ≡ block)
unfolding find_exact_microcode_point
exact_point ea blocks block p h =
    one_match ea blocks (block, p) (single_of (matches_of ea blocks) (block, p) h)
