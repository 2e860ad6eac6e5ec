-- ===== src/Cfg/Storage/Sound.antt =====
-- `_validate_register_storage_cfg` against the executions of the native graph.
use dynvar_sync.Base.{
  ℕ, ◌≤◌, ltb, leb, ◌==◌, Bool, true, false, ◌||◌, ◌&&◌, not, List, [], ◌∷◌, Option, none, some,
  get, nat_eq, nat_pair_eq, length, get_elem?, is_some, any_of, Bool-cases, Option-cases,
  List-cases, ◌≡◌, ◌≢◌, refl, ap, inl, inr, arith, ==_iff,
}
use dynvar_sync.Registers.{RegisterSpec}
use dynvar_sync.Cfg.Facts.{budget_of}
use dynvar_sync.Cfg.Walk.{Point, Search, Route, origin, onward}
use dynvar_sync.Cfg.Walk.Closure.{search_covers, search_found, flag_clear, observe_all}
use dynvar_sync.Cfg.Backward.{
  scan, back, scan-stops, length-back, within, Run, last_stop, IsSettled, settles,
}
use dynvar_sync.Cfg.Cycle.{graph_has_cycle}
use dynvar_sync.Cfg.Storage.{
  degree_of-get, NativeInstructionFact, NativeBlockFacts, NativeBlocks, Found, size, preds,
  preds_of, stops, stops_at, instruction_at, writes_register, is_empty, neighbours, record_stop,
  record_start, record_scan, observe_at, observe, search, verdict, validate_at, matches, degree_of,
  validate_register_storage_cfg,
}

module _ (blocks : NativeBlocks) (definition_ea : ℕ) (register : RegisterSpec) (width : ℕ) where
  abbrev sizes : ℕ → Option ℕ
  sizes = size blocks definition_ea register width

  abbrev predecessors : ℕ → List ℕ
  predecessors = preds blocks definition_ea register width

  abbrev stopping : ℕ → ℕ → Bool
  stopping = stops blocks definition_ea register width

  abbrev next : Point → List Point
  next = neighbours blocks definition_ea register width

  abbrev see : Point → Found → Found
  see = observe blocks definition_ea register width

  abbrev unresolved : Found → Bool
  unresolved f = f.unresolved

  abbrev clobbered : Found → Bool
  clobbered f = is_some f.clobber_ea

  -- The instruction at the address of the definition, which writes the register.
  abbrev pub Defines : Point → Type 0
  Defines p =
      (i : NativeInstructionFact) × (instruction_at (get p.0 blocks) p.1 ≡ some i)
      × (i.ea ≡ definition_ea)
      × (i.register_access_known ≡ true)
      × (writes_register blocks definition_ea register width i ≡ true)

  module _ (P : Found → Type 0) (leaves : (f : Found) → P f → P (record f { unresolved = true }))
      (stopped : (i : NativeInstructionFact) (f : Found)
        → P f
        → P (record_stop blocks definition_ea register width i f)) where
    keeps_start :
        (bs : List ℕ) (f : Found) → P f → P (record_start blocks definition_ea register width bs f)
    unfolding record_start
    keeps_start [] f h = leaves f h
    keeps_start (b ∷ bs) f h =
        elim (Bool-cases (any_of (λ a. not (is_some (get a blocks))) (b ∷ bs))) [
          | inl out ↦ rw out (leaves f h)
          | inr inside ↦ rw inside h
        ]

    keeps_scan :
        (block : NativeBlockFacts) (s : Option ℕ) (f : Found)
        → P f
        → P (record_scan blocks definition_ea register width block s f)
    unfolding record_scan
    keeps_scan block none f h = keeps_start block.predecessors f h
    keeps_scan block (some position) f h =
        elim (Option-cases (get_elem? block.instructions position)) [
          | inl out ↦ rw (out, record_scan) h
          | inr (i, found) ↦ rw (found, record_scan) (stopped i f h)
        ]

    keeps : (p : Point) (f : Found) → P f → P (see p f)
    unfolding observe observe_at
    keeps (b, limit) f h = elim (Option-cases (get b blocks)) [
      | inl out ↦ rw out (leaves f h)
      | inr (block, found) ↦
          rw found
            (elim (Bool-cases
              (ltb (length block.instructions) limit || (length block.instructions == 0))) [
                | inl far ↦ rw far (leaves f h)
                | inr near ↦ rw near (keeps_scan block _ f h)
              ])
    ]

  unresolved_kept : (p : Point) (f : Found) → unresolved f ≡ true → unresolved (see p f) ≡ true
  unresolved_kept =
      keeps (λ f. unresolved f ≡ true) (λ f h. refl) (λ i f h. unfold record_stop in ground arith)

  clobbered_kept : (p : Point) (f : Found) → clobbered f ≡ true → clobbered (see p f) ≡ true
  clobbered_kept =
      keeps (λ f. clobbered f ≡ true) (λ f h. h) (λ i f h. unfold record_stop in ground arith)

  abbrev scan_at : Point → Option ℕ
  scan_at q = scan sizes predecessors stopping q.0 q.1

  see-block :
      (q : Point) (f : Found)
      → unresolved (see q f) ≡ false
      → (block : NativeBlockFacts) × (get q.0 blocks ≡ some block)
        × (within (sizes q.0) q.1 ≡ true)
        × (is_empty blocks definition_ea register width (sizes q.0) ≡ false)
        × ((g : Found)
            → see q g ≡ record_scan blocks definition_ea register width block (scan_at q) g)
  unfolding observe observe_at
  see-block (b, limit) f h = elim (Option-cases (get b blocks)) [
    | inl out ↦
        cc
          (ap (λ o. unresolved (observe_at blocks definition_ea register width o (b, limit) f)) out)
    | inr (block, found) ↦
        elim (Bool-cases
          (ltb (length block.instructions) limit || (length block.instructions == 0))) [
            | inl far ↦ cc (rw (found, far) at h)
            | inr near ↦
                let close : ltb (length block.instructions) limit ≡ false = ground arith in
                (
                  block,
                  found,
                  rw found (rw close refl),
                  rw found (filled block near),
                  λ g. rw found (rw near refl),
                )
          ]
  ]
    where
      filled :
          (block : NativeBlockFacts)
          → (ltb (length block.instructions) limit || (length block.instructions == 0)) ≡ false
          → is_empty blocks definition_ea register width (some (length block.instructions)) ≡ false
      filled block near = elim (List-cases block.instructions) [
        | inl none_there ↦ absurd (ground (arith, ap length none_there))
        | inr (i, rest, e) ↦ rw e refl
      ]

  see-entered :
      (q : Point) (f : Found)
      → unresolved (see q f) ≡ false
      → scan_at q ≡ none
      → predecessors q.0 ≢ []
  unfolding record_scan record_start
  see-entered q f h clear e =
      let (block, found, inside, filled, run) = see-block q f h in
      let none_before : block.predecessors ≡ [] = rw found at e in
      cc (rw (run f, clear, none_before) at h)

  stop-Defines :
      (p : Point) (i : NativeInstructionFact) (f g : Found)
      → instruction_at (get p.0 blocks) p.1 ≡ some i
      → unresolved (record_stop blocks definition_ea register width i f) ≡ false
      → clobbered (record_stop blocks definition_ea register width i g) ≡ false
      → Defines p
  unfolding record_stop
  stop-Defines p i f g e clear kept = elim (Bool-cases (i.ea == definition_ea)) [
    | inr other ↦ elim (Bool-cases i.register_access_known) [
      | inl known ↦ cc (rw (other, known) at kept)
      | inr unknown ↦ cc (rw (other, unknown) at clear)
    ]
    | inl same ↦
        elim (Bool-cases (
          not i.register_access_known
          || not (writes_register blocks definition_ea register width i))) [
            | inl partial ↦ cc (rw (same, partial) at kept)
            | inr whole ↦ (i, e, (==_iff i.ea definition_ea).0 same, ground arith, ground arith)
          ]
  ]

  see-stopped :
      (q : Point) (f g : Found) (position : ℕ)
      → unresolved (see q f) ≡ false
      → clobbered (see q g) ≡ false
      → scan_at q ≡ some position
      → Defines (q.0, position)
  unfolding record_scan stops_at
  see-stopped q f g position clear kept e =
      let (block, found, inside, filled, run) = see-block q f clear in
      let stop = scan-stops sizes predecessors stopping q.0 q.1 position e in
      elim (Option-cases (get_elem? block.instructions position)) [
        | inl out ↦ cc (rw (found, out) at stop)
        | inr (i, at) ↦
            stop-Defines (q.0, position) i f g (rw found at)
              (rw (run f, e, at, record_scan) at clear) (rw (run g, e, at, record_scan) at kept)
      ]

  few : (p : Point) → length (next p) ≤ degree_of blocks
  unfolding neighbours
  few p =
      let at_p = length-back sizes predecessors stopping p in
      elim (Option-cases (get p.0 blocks)) [
        | inl out ↦ ground (arith, at_p, ap (λ o. length (preds_of o)) out)
        | inr (block, found) ↦
            ground (
              arith,
              at_p,
              ap (λ o. length (preds_of o)) found,
              degree_of-get blocks p.0 block found,
            )
      ]

  abbrev empty : Found
  empty = record { reached_definition = false; unresolved = false; clobber_ea = none }

  module _ (start : Point)
      (whole_search : (search blocks definition_ea register width start).exhausted ≡ false)
      (clear : unresolved (search blocks definition_ea register width start).found ≡ false)
      (kept : clobbered (search blocks definition_ea register width start).found ≡ false) where
    abbrev budget : ℕ
    budget = budget_of none (length blocks)

    all_found :
        (search blocks definition_ea register width start).found
        ≡ observe_all budget next see start empty
            (search blocks definition_ea register width start).visited
    unfolding search
    all_found = search_found budget next see start empty _

    -- What the search left at a point that it can come to.
    left_at :
        (q : Point)
        → Route next start q
        → (f : Found) × (g : Found) × (unresolved (see q f) ≡ false) × (clobbered (see q g) ≡ false)
    unfolding search
    left_at q r =
        let m = search_covers budget next see start empty _ few whole_search q r in
        let (f, f_clear) =
          flag_clear budget next see start empty unresolved unresolved_kept _
            (rw all_found at clear) q m in
        let (g, g_clear) =
          flag_clear budget next see start empty clobbered clobbered_kept _ (rw all_found at kept) q
            m in
        (f, g, f_clear, g_clear)

    -- No visited block is empty, so the search goes wherever the graph does.
    routed : (q : Point) → Route (back sizes predecessors stopping) start q → Route next start q
    unfolding neighbours
    routed q origin = origin
    routed q (onward {p = p} q' r m) =
        let before = routed p r in
        let (f, g, f_clear, g_clear) = left_at p before in
        let (block, found, inside, filled, run) = see-block p f f_clear in
        onward q' before (rw filled m)

    settled :
        (q : Point)
        → Route (back sizes predecessors stopping) start q
        → IsSettled sizes predecessors stopping Defines q
    settled q r =
        let (f, g, f_clear, g_clear) = left_at q (routed q r) in
        record {
          inside = (see-block q f f_clear).2;
          stopped = λ position e. see-stopped q f g position f_clear g_clear e;
          entered = λ e. see-entered q f f_clear e;
        }

  abbrev Runs : Point → Type 0
  Runs = Run sizes predecessors stopping

  verdict_valid :
      (w : Search Found)
      → (verdict blocks definition_ea register width w).valid ≡ true
      → (w.exhausted ≡ false) × (unresolved w.found ≡ false) × (clobbered w.found ≡ false)
  unfolding verdict
  verdict_valid w h = elim (Bool-cases (clobbered w.found)) [
    | inl lost ↦ cc (rw lost at h)
    | inr held ↦
        elim (Bool-cases (
          not w.found.reached_definition
          || w.found.unresolved
          || w.exhausted
          || graph_has_cycle w.edges)) [
            | inl failed ↦ cc (rw (held, failed) at h)
            | inr good ↦ (ground arith, ground arith, held)
          ]
  ]

  valid_at :
      (ds cs : List Point)
      → (validate_at blocks definition_ea register width ds cs).valid ≡ true
      → (c : Point) × (cs ≡ c ∷ [])
        × ((run : Runs c)
            → (p : Point) × (last_stop sizes predecessors stopping run ≡ some p) × Defines p)
  unfolding validate_at
  valid_at [] cs h = cc
  valid_at (d ∷ []) [] h = cc
  valid_at (d ∷ []) (c ∷ c' ∷ cs) h = cc
  valid_at (d ∷ d' ∷ ds) cs h = cc
  valid_at (d ∷ []) (c ∷ []) h = elim (Bool-cases ((d.0 == c.0) && leb c.1 d.1)) [
    | inl late ↦ cc (rw late at h)
    | inr early ↦
        let (whole, clear, kept) =
          verdict_valid (search blocks definition_ea register width c) (rw early at h) in
        (
          c,
          refl,
          λ run.
              settles sizes predecessors stopping Defines c (settled c whole clear kept) run c.1
                origin (omega arith) (λ j low high. absurd (omega arith)),
        )
  ]

-- If the check says that the storage is valid, then the current address stands at one place of the
-- graph, and every execution from an entry block to that place has executed a stopping instruction,
-- the last of which is the definition, with known register accesses and a write that covers the
-- register. So after the definition no call, no instruction with unknown accesses and no overlapping
-- write of the register was executed.
pub storage_survives :
    (blocks : NativeBlocks) (definition_ea current_ea : ℕ) (register : RegisterSpec) (width : ℕ)
    → (validate_register_storage_cfg blocks definition_ea current_ea register width).valid ≡ true
    → (c : Point) × (matches current_ea blocks ≡ c ∷ [])
      × ((run : Run
            (size blocks definition_ea register width)
            (preds blocks definition_ea register width)
            (stops blocks definition_ea register width)
            c)
          → (p : Point) × (last_stop
                (size blocks definition_ea register width)
                (preds blocks definition_ea register width)
                (stops blocks definition_ea register width)
                run
              ≡ some p)
            × Defines blocks definition_ea register width p)
unfolding validate_register_storage_cfg
storage_survives blocks definition_ea current_ea register width h =
    valid_at blocks definition_ea register width (matches definition_ea blocks)
      (matches current_ea blocks) h
