-- ===== src/Cfg/Reaching.antt =====
-- ida_plugin/v_variable_recovery.py: `_find_reaching_definitions` and
-- `_reaching_definition_rejection_reason`.
pub mod Sound
use dynvar_sync.Base.{
  ℕ, zero, suc, ◌+◌, ltb, Bool, true, false, ◌||◌, ◌&&◌, not, List, [], ◌∷◌, map, Option, none,
  some, Dict, get, put, nat_eq, nat_pair_eq, length, get_elem?, if◌then◌else◌, is_some, any_of, leb,
  ◌==◌,
}
use dynvar_sync.Cfg.Facts.{
  InstructionFact, BlockFacts, Blocks, DefinitionSite, Reason, ambiguous_reaching_definition,
  no_reaching_definition, budget_of, degree_of,
}
use dynvar_sync.Cfg.Walk.{Point, Search, loop, begin, enough}
use dynvar_sync.Cfg.Backward.{scan, back}
use dynvar_sync.Cfg.Cycle.{graph_has_cycle}

abbrev pub size_of : Option BlockFacts → Option ℕ
size_of none = none
size_of (some block) = some (length block.instructions)

abbrev pub preds_of : Option BlockFacts → List ℕ
preds_of none = []
preds_of (some block) = block.predecessors

abbrev stops_search : Option InstructionFact → Bool
stops_search none = false
stops_search (some fact) = fact.whole_definition || fact.overlapping_definition

abbrev pub fact_at : Option BlockFacts → ℕ → Option InstructionFact
fact_at none position = none
fact_at (some block) position = get_elem? block.instructions position

-- What the loop has gathered.
pub record Found : Type 0 where
  pub definitions : Dict Point DefinitionSite
  pub unresolved_path : Bool
  pub overlapping_definition : Bool

pub record ReachingDefinitionResult : Type 0 where
  pub definitions : List DefinitionSite
  pub unresolved_path : Bool
  pub overlapping_definition : Bool
  pub loop_detected : Bool
  pub traversal_exhausted : Bool
  pub visited_states : ℕ

-- sorted(definitions, key=lambda site: (site.block_id, site.instruction_index))
unfoldable pub insert_site : DefinitionSite → List DefinitionSite → List DefinitionSite
insert_site d [] = d ∷ []
insert_site d (e ∷ es) =
    if ltb d.block_id e.block_id
      || (d.block_id == e.block_id && leb d.instruction_index e.instruction_index)
    then d ∷ e ∷ es
    else e ∷ insert_site d es

unfoldable pub sort_sites : List DefinitionSite → List DefinitionSite
unfolding insert_site
sort_sites [] = []
sort_sites (d ∷ ds) = insert_site d (sort_sites ds)

module _ (blocks : Blocks) where
  abbrev pub size : ℕ → Option ℕ
  size b = size_of (get b blocks)

  abbrev pub preds : ℕ → List ℕ
  preds b = preds_of (get b blocks)

  abbrev pub stops : ℕ → ℕ → Bool
  stops b position = stops_search (fact_at (get b blocks) position)

  abbrev pub site_of : Point → InstructionFact → DefinitionSite
  site_of p fact = record {
    block_id = p.0;
    instruction_index = p.1;
    ea = fact.ea;
    crossed_block = false;
  }

  -- An instruction that defines or overlaps the variable ended the backward scan of a block.
  unfoldable pub record_stop : Point → InstructionFact → Found → Found
  record_stop p fact f =
      if fact.whole_definition
      then record f {
        definitions = put p (site_of p fact) f.definitions;
        overlapping_definition = f.overlapping_definition || fact.overlapping_definition;
      }
      else record f { overlapping_definition = true }

  -- The scan went past the start of the block.
  unfoldable pub record_start : List ℕ → Found → Found
  record_start [] f = record f { unresolved_path = true }
  record_start (b ∷ bs) f =
      if any_of (λ a. not (is_some (get a blocks))) (b ∷ bs)
      then record f { unresolved_path = true }
      else f

  unfoldable pub record_scan : BlockFacts → ℕ → Option ℕ → Found → Found
  unfolding record_stop record_start
  record_scan block b none f = record_start block.predecessors f
  record_scan block b (some position) f = elim (get_elem? block.instructions position) [
    | none ↦ f
    | some fact ↦ record_stop (b, position) fact f
  ]

  unfoldable pub observe_at : Option BlockFacts → Point → Found → Found
  unfolding record_scan
  observe_at none p f = record f { unresolved_path = true }
  observe_at (some block) (b, limit) f =
      if ltb (length block.instructions) limit
      then record f { unresolved_path = true }
      else record_scan block b (scan size preds stops b limit) f

  -- What a visited point adds to the result.
  unfoldable pub observe : Point → Found → Found
  unfolding observe_at
  observe p f = observe_at (get p.0 blocks) p f

  unfoldable pub search : Point → Option ℕ → Search Found
  unfolding observe loop begin enough degree_of
  search start max_states =
      let budget = budget_of max_states (length blocks) in
      loop budget (back size preds stops) observe
        (enough budget (degree_of (λ block. block.predecessors) blocks))
        (begin budget (back size preds stops) observe start
          (record { definitions = []; unresolved_path = false; overlapping_definition = false }))

unfoldable pub result_of : Search Found → ReachingDefinitionResult
unfolding sort_sites graph_has_cycle
result_of w = record {
  definitions = sort_sites (map (λ item. item.1) w.found.definitions);
  unresolved_path = w.found.unresolved_path;
  overlapping_definition = w.found.overlapping_definition;
  loop_detected = graph_has_cycle w.edges;
  traversal_exhausted = w.exhausted;
  visited_states = length w.visited;
}

unfoldable pub find_reaching_definitions : Blocks → ℕ → ℕ → Option ℕ → ReachingDefinitionResult
unfolding search result_of
find_reaching_definitions blocks current_block_id current_instruction max_states =
    result_of (search blocks (current_block_id, current_instruction) max_states)

unfoldable pub reaching_definition_rejection_reason : ReachingDefinitionResult → Option Reason
reaching_definition_rejection_reason result =
    if result.overlapping_definition
    then some ambiguous_reaching_definition
    else if length result.definitions == 0
    then some no_reaching_definition
    else if ltb 1 (length result.definitions)
    then some ambiguous_reaching_definition
    else if result.unresolved_path
    then some no_reaching_definition
    else if result.loop_detected || result.traversal_exhausted
    then some ambiguous_reaching_definition
    else none
