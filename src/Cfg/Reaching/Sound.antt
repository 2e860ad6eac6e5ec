-- ===== src/Cfg/Reaching/Sound.antt =====
-- `_find_reaching_definitions` and `_reaching_definition_rejection_reason` against the executions of
-- the graph.
use dynvar_sync.Base.{
  ℕ, ◌≤◌, ltb, leb, ◌==◌, Bool, true, false, ◌||◌, ◌&&◌, List, [], ◌∷◌, map, Option, none, some,
  get, nat_eq, nat_pair_eq, length, get_elem?, is_some, In, All, In-get, In-All, In-map, All-put,
  Bool-cases, Option-cases, List-cases, ◌≡◌, ◌≢◌, ◌⊎◌, refl, ap, subst, ◌∙◌, inl, inr, arith,
  get-put, get-put_self, any_of, not,
}
use dynvar_sync.Cfg.Facts.{
  InstructionFact, BlockFacts, Blocks, DefinitionSite, budget_of, degree_of, degree_of-get,
}
use dynvar_sync.Cfg.Walk.{Point, Route, origin}
use dynvar_sync.Cfg.Walk.Closure.{
  search_covers, search_found, flag_clear, flag_set, invariant_holds, observe_all,
}
use dynvar_sync.Cfg.Backward.{
  scan, back, scan-stops, length-back, within, Run, last_stop, IsSettled, settles,
}
use dynvar_sync.Cfg.Reaching.{
  Found, ReachingDefinitionResult, size, preds, preds_of, stops, fact_at, site_of, record_stop,
  record_start, record_scan, observe_at, observe, search, result_of, find_reaching_definitions,
  reaching_definition_rejection_reason, insert_site, sort_sites,
}

In-insert_site :
    (x d : DefinitionSite) (ds : List DefinitionSite) → (x ≡ d) ⊎ In x ds → In x (insert_site d ds)
unfolding insert_site
In-insert_site x d [] m = m
In-insert_site x d (e ∷ es) m =
    elim (Bool-cases (
      ltb d.block_id e.block_id
      || (d.block_id == e.block_id && leb d.instruction_index e.instruction_index))) [
        | inl before ↦ rw before m
        | inr after ↦ rw after (elim m [
          | inl same ↦ inr (In-insert_site x d es (inl same))
          | inr (inl same) ↦ inl same
          | inr (inr later) ↦ inr (In-insert_site x d es (inr later))
        ])
      ]

In-sort_sites : (x : DefinitionSite) (ds : List DefinitionSite) → In x ds → In x (sort_sites ds)
unfolding sort_sites
In-sort_sites x [] m = m
In-sort_sites x (d ∷ ds) (inl same) = In-insert_site x d (sort_sites ds) (inl same)
In-sort_sites x (d ∷ ds) (inr m) = In-insert_site x d (sort_sites ds) (inr (In-sort_sites x ds m))

-- What the rejection reason `none` says of a result.
accepted :
    (r : ReachingDefinitionResult)
    → reaching_definition_rejection_reason r ≡ none
    → (d : DefinitionSite) × (r.definitions ≡ d ∷ [])
      × (r.unresolved_path ≡ false)
      × (r.overlapping_definition ≡ false)
      × (r.loop_detected ≡ false)
      × (r.traversal_exhausted ≡ false)
unfolding reaching_definition_rejection_reason
accepted r h = elim (List-cases r.definitions) [
  | inl e ↦ absurd (ground (arith, ap length e))
  | inr (d, [], e) ↦ (d, e, ground arith, ground arith, ground arith, ground arith)
  | inr (d, x ∷ xs, e) ↦ absurd (ground (arith, ap length e))
]

module _ (blocks : Blocks) where
  -- A whole definition of the variable that overlaps nothing.
  abbrev IsExact : Point → InstructionFact → Type 0
  IsExact p fact =
      (fact_at (get p.0 blocks) p.1 ≡ some fact)
      × (fact.whole_definition ≡ true)
      × (fact.overlapping_definition ≡ false)

  abbrev overlap : Found → Bool
  overlap f = f.overlapping_definition

  abbrev unresolved : Found → Bool
  unresolved f = f.unresolved_path

  abbrev has : Point → Found → Bool
  has p f = is_some (get p f.definitions)

  abbrev IsSite : Point × DefinitionSite → Type 0
  IsSite item =
      (fact : InstructionFact) × (fact_at (get item.0.0 blocks) item.0.1 ≡ some fact)
      × (item.1 ≡ site_of blocks item.0 fact)

  -- What an observation keeps, from what its parts keep.
  module _ {κ} (P : Found → Type κ)
      (leaves : (f : Found) → P f → P (record f { unresolved_path = true }))
      (stopping : (p : Point) (fact : InstructionFact) (f : Found)
        → fact_at (get p.0 blocks) p.1 ≡ some fact
        → P f
        → P (record_stop blocks p fact f)) where
    keeps_start : (bs : List ℕ) (f : Found) → P f → P (record_start blocks bs f)
    unfolding record_start
    keeps_start [] f h = leaves f h
    keeps_start (b ∷ bs) f h =
        elim (Bool-cases (any_of (λ a. not (is_some (get a blocks))) (b ∷ bs))) [
          | inl out ↦ rw out (leaves f h)
          | inr inside ↦ rw inside h
        ]

    keeps_scan :
        (block : BlockFacts) (b : ℕ) (s : Option ℕ) (f : Found)
        → get b blocks ≡ some block
        → P f
        → P (record_scan blocks block b s f)
    unfolding record_scan
    keeps_scan block b none f e h = keeps_start block.predecessors f h
    keeps_scan block b (some position) f e h =
        elim (Option-cases (get_elem? block.instructions position)) [
          | inl out ↦ rw (out, record_scan) h
          | inr (fact, found) ↦
              rw (found, record_scan) (stopping (b, position) fact f (rw e found) h)
        ]

    keeps : (p : Point) (f : Found) → P f → P (observe blocks p f)
    unfolding observe observe_at
    keeps (b, limit) f h = elim (Option-cases (get b blocks)) [
      | inl out ↦ rw out (leaves f h)
      | inr (block, found) ↦ rw found (elim (Bool-cases (ltb (length block.instructions) limit)) [
        | inl far ↦ rw far (leaves f h)
        | inr near ↦ rw near (keeps_scan block b _ f found h)
      ])
    ]

  overlap_kept : (p : Point) (f : Found) → overlap f ≡ true → overlap (observe blocks p f) ≡ true
  overlap_kept =
      keeps (λ f. overlap f ≡ true) (λ f h. h) (λ p fact f e h. unfold record_stop in ground arith)

  unresolved_kept :
      (p : Point) (f : Found) → unresolved f ≡ true → unresolved (observe blocks p f) ≡ true
  unresolved_kept =
      keeps (λ f. unresolved f ≡ true) (λ f h. refl)
        (λ p fact f e h. unfold record_stop in ground arith)

  has_kept : (q p : Point) (f : Found) → has q f ≡ true → has q (observe blocks p f) ≡ true
  has_kept q =
      keeps (λ f. has q f ≡ true) (λ f h. h)
        (λ p fact f e h.
          unfold record_stop in ground (arith, get-put p q (site_of blocks p fact) f.definitions))

  stop-sites :
      (p : Point) (fact : InstructionFact) (f : Found)
      → fact_at (get p.0 blocks) p.1 ≡ some fact
      → All IsSite f.definitions
      → All IsSite (record_stop blocks p fact f).definitions
  unfolding record_stop
  stop-sites p fact f e h = elim (Bool-cases fact.whole_definition) [
    | inl whole ↦
        rw whole (All-put IsSite p (site_of blocks p fact) f.definitions h (fact, e, refl))
    | inr part ↦ rw part h
  ]

  sites_kept :
      (p : Point) (f : Found)
      → All IsSite f.definitions
      → All IsSite (observe blocks p f).definitions
  sites_kept = keeps (λ f. All IsSite f.definitions) (λ f h. h) stop-sites

  abbrev Exact : Point → Type 0
  Exact p = (fact : InstructionFact) × IsExact p fact

  abbrev scan_at : Point → Option ℕ
  scan_at q = scan (size blocks) (preds blocks) (stops blocks) q.0 q.1

  -- A point that leaves no path unresolved is in the graph.
  observe-block :
      (q : Point) (f : Found)
      → unresolved (observe blocks q f) ≡ false
      → (block : BlockFacts) × (get q.0 blocks ≡ some block)
        × (within (size blocks q.0) q.1 ≡ true)
        × ((g : Found) → observe blocks q g ≡ record_scan blocks block q.0 (scan_at q) g)
  unfolding observe observe_at
  observe-block (b, limit) f h = elim (Option-cases (get b blocks)) [
    | inl out ↦ cc (ap (λ o. unresolved (observe_at blocks o (b, limit) f)) out)
    | inr (block, found) ↦ elim (Bool-cases (ltb (length block.instructions) limit)) [
      | inl far ↦ cc (rw (found, far) at h)
      | inr near ↦ (block, found, rw found (rw near refl), λ g. rw found (rw near refl))
    ]
  ]

  observe-entered :
      (q : Point) (f : Found)
      → unresolved (observe blocks q f) ≡ false
      → scan_at q ≡ none
      → preds blocks q.0 ≢ []
  unfolding record_scan record_start
  observe-entered q f h clear e =
      let (block, found, inside, run) = observe-block q f h in
      let none_before : block.predecessors ≡ [] = rw found at e in
      cc (rw (run f, clear, none_before) at h)

  stop-IsExact :
      (p : Point) (fact : InstructionFact) (f : Found)
      → fact_at (get p.0 blocks) p.1 ≡ some fact
      → stops blocks p.0 p.1 ≡ true
      → overlap (record_stop blocks p fact f) ≡ false
      → IsExact p fact × ((g : Found) → has p (record_stop blocks p fact g) ≡ true)
  unfolding record_stop
  stop-IsExact p fact f e stop g = elim (Bool-cases fact.whole_definition) [
    | inl whole ↦ (
      (e, whole, ground arith),
      λ g. rw whole (rw (get-put_self p (site_of blocks p fact) g.definitions) refl),
    )
    | inr part ↦ cc (rw part at g)
  ]

  observe-stopped :
      (q : Point) (f g : Found) (position : ℕ)
      → unresolved (observe blocks q f) ≡ false
      → overlap (observe blocks q g) ≡ false
      → scan_at q ≡ some position
      → Exact (q.0, position) × ((g : Found) → has (q.0, position) (observe blocks q g) ≡ true)
  unfolding record_scan
  observe-stopped q f g position h clear e =
      let (block, found, inside, run) = observe-block q f h in
      let stop = scan-stops (size blocks) (preds blocks) (stops blocks) q.0 q.1 position e in
      elim (Option-cases (get_elem? block.instructions position)) [
        | inl out ↦ cc (rw (found, out) at stop)
        | inr (fact, at) ↦
            let (exact, set) =
              stop-IsExact (q.0, position) fact g (rw found at) stop
                (rw (run g, e, at, record_scan) at clear) in
            ((fact, exact), λ k. rw (run k, e, at, record_scan) (set k))
      ]

  few :
      (p : Point)
      → length (back (size blocks) (preds blocks) (stops blocks) p)
        ≤ degree_of (λ block. block.predecessors) blocks
  few p =
      let at_p = length-back (size blocks) (preds blocks) (stops blocks) p in
      elim (Option-cases (get p.0 blocks)) [
        | inl out ↦ omega (arith, at_p, ap (λ o. length (preds_of o)) out)
        | inr (block, found) ↦ omega (
          arith,
          at_p,
          ap (λ o. length (preds_of o)) found,
          degree_of-get (λ block. block.predecessors) blocks p.0 block found,
        )
      ]

  abbrev empty : Found
  empty = record { definitions = []; unresolved_path = false; overlapping_definition = false }

  module _ (start : Point) (max_states : Option ℕ)
      (whole_search : (search blocks start max_states).exhausted ≡ false)
      (clear : unresolved (search blocks start max_states).found ≡ false)
      (disjoint : overlap (search blocks start max_states).found ≡ false) where
    abbrev budget : ℕ
    budget = budget_of max_states (length blocks)

    abbrev next : Point → List Point
    next = back (size blocks) (preds blocks) (stops blocks)

    abbrev Recorded : Point → Type 0
    Recorded p = Exact p × (has p (search blocks start max_states).found ≡ true)

    all_found :
        (search blocks start max_states).found
        ≡ observe_all budget next
            (observe blocks)
            start
            empty
            (search blocks start max_states).visited
    unfolding search
    all_found = search_found budget next (observe blocks) start empty _

    settled :
        (q : Point)
        → Route next start q
        → IsSettled (size blocks) (preds blocks) (stops blocks) Recorded q
    unfolding search
    settled q r =
        let m = search_covers budget next (observe blocks) start empty _ few whole_search q r in
        let (f, f_clear) =
          flag_clear budget next (observe blocks) start empty unresolved unresolved_kept _
            (rw all_found at clear) q m in
        let (g, g_clear) =
          flag_clear budget next (observe blocks) start empty overlap overlap_kept _
            (rw all_found at disjoint) q m in
        record {
          inside = (observe-block q f f_clear).2;
          stopped = λ position e.
              let (exact, set) = observe-stopped q f g position f_clear g_clear e in
              (
                exact,
                rw all_found (
                    flag_set budget next (observe blocks) start empty (has (q.0, position))
                      (has_kept (q.0, position)) _ q m set),
              );
          entered = λ e. observe-entered q f f_clear e;
        }

    definitions_hold : All IsSite (search blocks start max_states).found.definitions
    definitions_hold = rw all_found (
        invariant_holds budget next (observe blocks) start empty (λ f. All IsSite f.definitions) tt
          sites_kept _)

    site_exists :
        (p : Point)
        → Recorded p
        → (fact : InstructionFact) × IsExact p fact
          × In
              (site_of blocks p fact)
              (map (λ item. item.1) (search blocks start max_states).found.definitions)
    site_exists p ((fact, exact), there) =
        elim (Option-cases (get p (search blocks start max_states).found.definitions)) [
          | inl out ↦ cc (rw out at there)
          | inr (site, found) ↦
              let item = In-get p site _ found in
              let (other, at, same) = In-All IsSite _ definitions_hold (p, site) item in
              let one : other ≡ fact = cc in
              (
                fact,
                exact,
                subst
                    (λ x. In x (
                      map (λ (item : Point × DefinitionSite). item.1)
                        (search blocks start max_states).found.definitions))
                    (same ∙ ap (site_of blocks p) one)
                    (In-map (λ (item : Point × DefinitionSite). item.1) (p, site) _ item),
              )
        ]

-- The instruction of a definition site, as the graph has it.
abbrev pub Defines : Blocks → DefinitionSite → Type 0
Defines blocks d =
    (fact : InstructionFact) × IsExact blocks (d.block_id, d.instruction_index) fact
    × (fact.ea ≡ d.ea)

only : (x d : DefinitionSite) → In x (d ∷ []) → x ≡ d
only x d (inl e) = e
only x d (inr m) = absurd m

-- If no reason rejects the result of the search for reaching definitions, then it has one
-- definition, and every execution from an entry block to the point of the search has that
-- instruction as the last one that it executed and that defines or overlaps the variable; the
-- instruction defines the whole variable, overlaps no other, and has the address of the site.
pub one_definition :
    (blocks : Blocks) (block position : ℕ) (max_states : Option ℕ)
    → reaching_definition_rejection_reason
        (find_reaching_definitions blocks block position max_states)
      ≡ none
    → (d : DefinitionSite) × ((find_reaching_definitions blocks block position
          max_states).definitions
        ≡ d ∷ [])
      × ((run : Run (size blocks) (preds blocks) (stops blocks) (block, position))
          → (last_stop (size blocks) (preds blocks) (stops blocks) run
              ≡ some (d.block_id, d.instruction_index))
            × Defines blocks d)
unfolding find_reaching_definitions result_of
one_definition blocks block position max_states h =
    let (d, one, clear, disjoint, acyclic, whole) = accepted _ h in
    (
      d,
      one,
      λ run.
          let start : Point = (block, position) in
          let (p, last, good) =
            settles (size blocks) (preds blocks) (stops blocks)
              (Recorded blocks start max_states whole clear disjoint) start
              (settled blocks start max_states whole clear disjoint) run position origin
              (omega arith) (λ j low high. absurd (omega arith)) in
          let (fact, exact, there) =
            site_exists blocks start max_states whole clear disjoint p good in
          let site : site_of blocks p fact ≡ d =
            only _ d (subst (In (site_of blocks p fact)) one (In-sort_sites _ _ there)) in
          (
            last ∙ ap (λ (x : DefinitionSite). some (x.block_id, x.instruction_index)) site,
            subst (Defines blocks) site (fact, exact, refl),
          ),
    )
