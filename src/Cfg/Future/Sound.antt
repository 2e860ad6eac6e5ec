-- ===== src/Cfg/Future/Sound.antt =====
-- `_find_future_uses` and `_future_use_rejection_reason` against the executions from a point on.
use dynvar_sync.Base.{
  ℕ, zero, suc, ◌≤◌, ltb, ◌==◌, Bool, true, false, ◌||◌, ◌&&◌, not, List, [], ◌∷◌, map, Option,
  some, Dict, get, put, nat_eq, nat_pair_eq, length, drop, get_elem?, is_some, any_of, In,
  Bool-cases, Option-cases, ◌≡◌, ◌≢◌, refl, ap, subst, ◌∙◌, inl, inr, arith,
}
use dynvar_sync.Cfg.Facts.{
  InstructionFact, BlockFacts, Blocks, DefinitionSite, budget_of, degree_of, degree_of-get,
  not_live_at_current_pc, cross_block_liveness_unproven,
}
use dynvar_sync.Cfg.Walk.{Point, Route, origin, onward}
use dynvar_sync.Cfg.Walk.Closure.{search_covers, search_found, flag_clear, observe_all}
use dynvar_sync.Cfg.Reaching.{sort_sites, insert_site}
use dynvar_sync.Cfg.Future.{
  Found, FutureUseResult, redefines, known_use, note, stopped, walk, starts_of, next_at, next,
  leaves_graph, observe_at, observe, search, result_of, find_future_uses, has_use,
  future_use_rejection_reason,
}

abbrev used : Found → Bool
used f = not (length f.use_sites == 0)

abbrev doubtful : Found → Bool
doubtful f = f.unresolved_use || f.left_graph

-- No instruction uses the variable up to the first one that redefines it.
Unused : List InstructionFact → Type 0
Unused [] = Unit
Unused (fact ∷ facts) = (fact.use_of ≡ false) × (redefines fact ≡ false → Unused facts)

Unused-cons :
    (fact : InstructionFact) (facts : List InstructionFact)
    → Unused (fact ∷ facts)
    → (fact.use_of ≡ false) × (redefines fact ≡ false → Unused facts)
unfolding Unused
Unused-cons fact facts h = h

put_used :
    (p : Point) (d : DefinitionSite) (sites : Dict Point DefinitionSite)
    → (length (put p d sites) == 0) ≡ false
unfolding put
put_used p d [] = refl
put_used p d ((q, e) ∷ sites) = ground arith

used-note : (fact : InstructionFact) (f : Found) → used (note fact f) ≡ used f
unfolding note
used-note fact f = ground arith

walk-used :
    (crossed : Bool) (b k : ℕ) (facts : List InstructionFact) (f : Found)
    → used f ≡ true
    → used (walk crossed b k facts f) ≡ true
unfolding walk
walk-used crossed b k [] f h = h
walk-used crossed b k (fact ∷ facts) f h = elim (Bool-cases (known_use fact)) [
  | inl known ↦ rw known (ap not (put_used (b, k) _ f.use_sites))
  | inr unknown ↦ elim (Bool-cases (redefines fact)) [
    | inl ends ↦ rw (unknown, ends) (used-note fact f ∙ h)
    | inr passes ↦
        rw (unknown, passes)
          (walk-used crossed b (suc k) facts (note fact f) (used-note fact f ∙ h))
  ]
]

walk_unresolved :
    (crossed : Bool) (b k : ℕ) (facts : List InstructionFact) (f : Found)
    → f.unresolved_use ≡ true
    → (walk crossed b k facts f).unresolved_use ≡ true
unfolding walk
walk_unresolved crossed b k [] f h = h
walk_unresolved crossed b k (fact ∷ facts) f h =
    let noted : (note fact f).unresolved_use ≡ true = unfold note in ground arith in
    elim (Bool-cases (known_use fact)) [
      | inl known ↦ rw known h
      | inr unknown ↦ elim (Bool-cases (redefines fact)) [
        | inl ends ↦ rw (unknown, ends) noted
        | inr passes ↦
            rw (unknown, passes) (walk_unresolved crossed b (suc k) facts (note fact f) noted)
      ]
    ]

walk_left :
    (crossed : Bool) (b k : ℕ) (facts : List InstructionFact) (f : Found)
    → (walk crossed b k facts f).left_graph ≡ f.left_graph
unfolding walk
walk_left crossed b k [] f = refl
walk_left crossed b k (fact ∷ facts) f =
    let noted : (note fact f).left_graph ≡ f.left_graph = unfold note in ground arith in
    elim (Bool-cases (known_use fact)) [
      | inl known ↦ rw known refl
      | inr unknown ↦ elim (Bool-cases (redefines fact)) [
        | inl ends ↦ rw (unknown, ends) noted
        | inr passes ↦
            rw (unknown, passes) (walk_left crossed b (suc k) facts (note fact f) ∙ noted)
      ]
    ]

walk-Unused :
    (crossed : Bool) (b k : ℕ) (facts : List InstructionFact) (f g : Found)
    → used (walk crossed b k facts f) ≡ false
    → (walk crossed b k facts g).unresolved_use ≡ false
    → Unused facts
unfolding walk Unused
walk-Unused crossed b k [] f g h e = tt
walk-Unused crossed b k (fact ∷ facts) f g h e = elim (Bool-cases (known_use fact)) [
  | inl known ↦ cc (
    rw known at h,
    ap not (
        put_used (b, k)
          (record { block_id = b; instruction_index = k; ea = fact.ea; crossed_block = crossed })
          f.use_sites),
  )
  | inr unknown ↦
      let kept : (note fact g).unresolved_use ≡ false =
        elim (Bool-cases (note fact g).unresolved_use) [
          | inr clear ↦ clear
          | inl set ↦ elim (Bool-cases (redefines fact)) [
            | inl ends ↦ cc (rw (unknown, ends) at e)
            | inr passes ↦ cc (
              rw (unknown, passes) at e,
              walk_unresolved crossed b (suc k) facts (note fact g) set,
            )
          ]
        ] in
      (
        unfold note in ground arith,
        λ passes.
            walk-Unused crossed b (suc k) facts (note fact f) (note fact g)
              (rw (unknown, passes) at h) (rw (unknown, passes) at e),
      )
]

drop-get :
    (facts : List InstructionFact) (k : ℕ) (fact : InstructionFact)
    → get_elem? facts k ≡ some fact
    → drop k facts ≡ fact ∷ drop (suc k) facts
drop-get [] k fact h = cc
drop-get (x ∷ facts) zero fact h = let same : x ≡ fact = cc in ap (λ y. y ∷ facts) same
drop-get (x ∷ facts) (suc k) fact h = drop-get facts k fact h

drop-length : (facts : List InstructionFact) → drop (length facts) facts ≡ []
drop-length [] = refl
drop-length (x ∷ facts) = drop-length facts

length-insert_site :
    (d : DefinitionSite) (ds : List DefinitionSite) → length (insert_site d ds) ≡ suc (length ds)
unfolding insert_site
length-insert_site d [] = refl
length-insert_site d (e ∷ es) = ground (arith, length-insert_site d es)

length-sort_sites : (ds : List DefinitionSite) → length (sort_sites ds) ≡ length ds
unfolding sort_sites
length-sort_sites [] = refl
length-sort_sites (d ∷ ds) =
    omega (arith, length-insert_site d (sort_sites ds), length-sort_sites ds)

length-sites :
    (sites : Dict Point DefinitionSite)
    → length (map (λ (item : Point × DefinitionSite). item.1) sites) ≡ length sites
length-sites [] = refl
length-sites (x ∷ sites) = ap suc (length-sites sites)

-- What the reason "not live" says of a result.
judged :
    (r : FutureUseResult)
    → future_use_rejection_reason r ≡ some not_live_at_current_pc
    → (has_use r ≡ false) × (r.unresolved_use ≡ false) × (r.traversal_exhausted ≡ false)
unfolding future_use_rejection_reason
judged r h = elim (Bool-cases (has_use r)) [
  | inl uses ↦ cc (rw uses at h)
  | inr idle ↦ elim (Bool-cases (r.unresolved_use || (r.loop_detected || r.traversal_exhausted))) [
    | inl open_end ↦ absurd (other (rw (idle, open_end) at h))
    | inr sure ↦ (idle, ground arith, ground arith)
  ]
]
  where
    other : some cross_block_liveness_unproven ≢ some not_live_at_current_pc
    other e = cc

-- An instruction that neither uses nor redefines the variable does not stop a search.
step :
    (fact : InstructionFact) (facts : List InstructionFact)
    → fact.use_of ≡ false
    → redefines fact ≡ false
    → stopped (fact ∷ facts) ≡ stopped facts
unfolding stopped
step fact facts idle clear = rw idle (rw clear refl)

module _ (blocks : Blocks) where
  next_here :
      (b s : ℕ) (block : BlockFacts)
      → get b blocks ≡ some block
      → ltb (length block.instructions) s ≡ false
      → stopped (drop s block.instructions) ≡ false
      → next blocks (b, s) ≡ starts_of blocks block.successors
  unfolding next next_at
  next_here b s block found near free = rw found (rw (near, free) refl)

  -- An execution from a point on, through instructions that do not redefine the variable.
  pub data Flow (start : Point) : Point → Type 0 where
    here : Flow start start
    passes :
        {b k : ℕ} (block : BlockFacts) (fact : InstructionFact)
        → Flow start (b, k)
        → get b blocks ≡ some block
        → get_elem? block.instructions k ≡ some fact
        → redefines fact ≡ false
        → Flow start (b, suc k)
    jumps :
        {b : ℕ} (block : BlockFacts) (b' : ℕ)
        → Flow start (b, length block.instructions)
        → get b blocks ≡ some block
        → In b' block.successors
        → Flow start (b', zero)

  module _ (start : Point) where
    see-kept :
        (flag : Found → Bool)
        → ((crossed : Bool) (b k : ℕ) (facts : List InstructionFact) (f : Found)
            → flag f ≡ true
            → flag (walk crossed b k facts f) ≡ true)
        → ((f : Found) → flag f ≡ true → flag (record f { left_graph = true }) ≡ true)
        → (p : Point) (f : Found) → flag f ≡ true
        → flag (observe blocks start p f) ≡ true
    unfolding observe observe_at
    see-kept flag walks leaves (b, k) f h = elim (Option-cases (get b blocks)) [
      | inl out ↦ rw out (leaves f h)
      | inr (block, found) ↦ rw found (elim (Bool-cases (ltb (length block.instructions) k)) [
        | inl far ↦ rw far (leaves f h)
        | inr near ↦
            rw near
              (elim (Bool-cases
                (not (stopped (drop k block.instructions)) && leaves_graph blocks block)) [
                  | inl out ↦ rw out (leaves _ (walks _ b k (drop k block.instructions) f h))
                  | inr inside ↦ rw inside (walks _ b k (drop k block.instructions) f h)
                ])
      ])
    ]

    -- What the search left at a point that it has visited.
    see-block :
        (p : Point) (f g d : Found)
        → used (observe blocks start p f) ≡ false
        → (observe blocks start p g).unresolved_use ≡ false
        → (observe blocks start p d).left_graph ≡ false
        → (block : BlockFacts) × (get p.0 blocks ≡ some block)
          × (ltb (length block.instructions) p.1 ≡ false)
          × Unused (drop p.1 block.instructions)
          × ((not (stopped (drop p.1 block.instructions)) && leaves_graph blocks block) ≡ false)
    unfolding observe observe_at
    see-block (b, k) f g d h e l = elim (Option-cases (get b blocks)) [
      | inl out ↦ cc (rw out at l)
      | inr (block, found) ↦ elim (Bool-cases (ltb (length block.instructions) k)) [
        | inl far ↦ cc (rw (found, far) at l)
        | inr near ↦
            elim (Bool-cases
              (not (stopped (drop k block.instructions)) && leaves_graph blocks block)) [
                | inl out ↦ cc (rw (found, near, out) at l)
                | inr inside ↦ (
                  block,
                  found,
                  near,
                  walk-Unused _ b k (drop k block.instructions) f g (rw (found, near, inside) at h)
                      (rw (found, near, inside) at e),
                  inside,
                )
              ]
      ]
    ]

    In-starts_of :
        (bs : List ℕ) (b : ℕ)
        → any_of (λ a. not (is_some (get a blocks))) bs ≡ false
        → In b bs
        → In (b, zero) (starts_of blocks bs)
    unfolding starts_of
    In-starts_of [] b h m = absurd m
    In-starts_of (a ∷ bs) b h (inl e) =
        let there : is_some (get a blocks) ≡ true = ground arith in
        rw there (inl (ap (λ (x : ℕ). (x, zero)) e))
    In-starts_of (a ∷ bs) b h (inr m) =
        let there : is_some (get a blocks) ≡ true = ground arith in
        let rest : any_of (λ a. not (is_some (get a blocks))) bs ≡ false = ground arith in
        rw there (inr (In-starts_of bs b rest m))

    length-starts_of : (bs : List ℕ) → length (starts_of blocks bs) ≤ length bs
    unfolding starts_of
    length-starts_of [] = omega arith
    length-starts_of (b ∷ bs) = ground (arith, length-starts_of bs)

    few : (p : Point) → length (next blocks p) ≤ degree_of (λ block. block.successors) blocks
    unfolding next next_at
    few p = elim (Option-cases (get p.0 blocks)) [
      | inl out ↦ rw out (omega arith)
      | inr (block, found) ↦ rw found (
          ground (
            arith,
            length-starts_of block.successors,
            degree_of-get (λ block. block.successors) blocks p.0 block found,
          ))
    ]

    abbrev empty : Found
    empty = record {
      use_sites = [];
      redefinition_paths = 0;
      unresolved_use = false;
      left_graph = false;
    }

    module _ (max_states : Option ℕ) (whole : (search blocks start max_states).exhausted ≡ false)
        (idle : used (search blocks start max_states).found ≡ false)
        (sure : (search blocks start max_states).found.unresolved_use ≡ false)
        (inside : (search blocks start max_states).found.left_graph ≡ false) where
      abbrev budget : ℕ
      budget = budget_of max_states (length blocks)

      all_found :
          (search blocks start max_states).found
          ≡ observe_all budget
              (next blocks)
              (observe blocks start)
              start
              empty
              (search blocks start max_states).visited
      unfolding search
      all_found = search_found budget (next blocks) (observe blocks start) start empty _

      -- The block of a point that the search can come to, and what its instructions do.
      block_at :
          (p : Point)
          → Route (next blocks) start p
          → (block : BlockFacts) × (get p.0 blocks ≡ some block)
            × (ltb (length block.instructions) p.1 ≡ false)
            × Unused (drop p.1 block.instructions)
            × ((not (stopped (drop p.1 block.instructions)) && leaves_graph blocks block) ≡ false)
      unfolding search
      block_at p r =
          let m =
            search_covers budget (next blocks) (observe blocks start) start empty _ few whole p r in
          let (f, f_clear) =
            flag_clear budget (next blocks) (observe blocks start) start empty used
              (see-kept used walk-used (λ f h. h)) _ (rw all_found at idle) p m in
          let (g, g_clear) =
            flag_clear budget (next blocks) (observe blocks start) start empty
              (λ f. f.unresolved_use) (see-kept (λ f. f.unresolved_use) walk_unresolved (λ f h. h))
              _ (rw all_found at sure) p m in
          let (d, d_clear) =
            flag_clear budget (next blocks) (observe blocks start) start empty (λ f. f.left_graph)
              (see-kept (λ f. f.left_graph)
                (λ crossed b k facts f h. walk_left crossed b k facts f ∙ h) (λ f h. refl))
              _ (rw all_found at inside) p m in
          see-block p f g d f_clear g_clear d_clear

      -- What is known of a point of an execution.
      abbrev Known : Point → Type 0
      Known q =
          (block : BlockFacts) × (get q.0 blocks ≡ some block)
          × (s : ℕ) × Route (next blocks) start (q.0, s)
          × Unused (drop q.1 block.instructions)
          × (stopped (drop s block.instructions) ≡ stopped (drop q.1 block.instructions))

      Flow-Known : (q : Point) → Flow start q → Known q
      unfolding stopped
      Flow-Known q here =
          let (block, found, near, unused, stays) = block_at start origin in
          (block, found, start.1, origin, unused, refl)
      Flow-Known q (passes {b} {k} block fact flow at_b at_k clear) =
          let (block', found, s, r, unused, same) = Flow-Known (b, k) flow in
          let one : block' ≡ block = cc in
          let split = drop-get block.instructions k fact at_k in
          let (idle_here, later) =
            Unused-cons _ _
              (subst Unused split (subst (λ x. Unused (drop k x.instructions)) one unused)) in
          (
            block,
            at_b,
            s,
            r,
            later clear,
            subst (λ x. stopped (drop s x.instructions) ≡ stopped (drop k x.instructions)) one same
                ∙ (ap stopped split ∙ step fact (drop (suc k) block.instructions) idle_here clear),
          )
      Flow-Known q (jumps {b} block b' flow at_b m) =
          let (block', found, s, r, unused, same) =
            Flow-Known (b, length block.instructions) flow in
          let one : block' ≡ block = cc in
          let free : stopped (drop s block.instructions) ≡ false =
            subst
              (λ x.
                stopped (drop s x.instructions)
                ≡ stopped (drop (length block.instructions) x.instructions))
              one same
            ∙ ap stopped (drop-length block.instructions) in
          let (at_s, found_s, near, unused_s, stays) = block_at (b, s) r in
          let two : at_s ≡ block = cc in
          let near_b : ltb (length block.instructions) s ≡ false =
            subst (λ x. ltb (length x.instructions) s ≡ false) two near in
          let stays_b : leaves_graph blocks block ≡ false = rw free at (
            subst (λ x. (not (stopped (drop s x.instructions)) && leaves_graph blocks x) ≡ false)
              two stays) in
          let r' =
            onward (b', zero) r
              (rw (next_here b s block at_b near_b free)
                (In-starts_of block.successors b' stays_b m)) in
          let (next_block, there, near', unused', stays') = block_at (b', zero) r' in
          (next_block, there, zero, r', unused', refl)

      no_use :
          (b k : ℕ) (block : BlockFacts) (fact : InstructionFact)
          → Flow start (b, k)
          → get b blocks ≡ some block
          → get_elem? block.instructions k ≡ some fact
          → fact.use_of ≡ false
      no_use b k block fact flow at_b at_k =
          let (block', found, s, r, unused, same) = Flow-Known (b, k) flow in
          let one : block' ≡ block = cc in
          (Unused-cons _ _ (
            subst Unused (drop-get block.instructions k fact at_k)
              (subst (λ x. Unused (drop k x.instructions)) one unused))).0

-- If the search for future uses says that the variable is not live, then no execution from the point
-- of the search on, through instructions that do not redefine the variable, comes to an instruction
-- of the graph that uses it.
pub not_live :
    (blocks : Blocks) (block position : ℕ) (max_states : Option ℕ)
    → future_use_rejection_reason (find_future_uses blocks block position max_states)
      ≡ some not_live_at_current_pc
    → (b k : ℕ) (facts : BlockFacts) (fact : InstructionFact) → Flow blocks (block, position) (b, k)
    → get b blocks ≡ some facts
    → get_elem? facts.instructions k ≡ some fact
    → fact.use_of ≡ false
unfolding find_future_uses result_of
not_live blocks block position max_states h b k facts fact flow at_b at_k =
    let (idle, sure, bounded) = judged (find_future_uses blocks block position max_states) h in
    let w = search blocks (block, position) max_states in
    let same : length
          (sort_sites (map (λ (item : Point × DefinitionSite). item.1) w.found.use_sites))
        ≡ length w.found.use_sites =
      length-sort_sites _ ∙ length-sites w.found.use_sites in
    let idle_found : used w.found ≡ false = rw (← same) idle in
    let left : w.found.left_graph ≡ false = ground arith in
    let whole : w.exhausted ≡ false = ground arith in
    no_use blocks (block, position) max_states whole idle_found sure left b k facts fact flow at_b
      at_k
