-- ===== src/Cfg/Future.antt =====
-- ida_plugin/v_variable_recovery.py: `_FutureUseResult`, `_find_future_uses` and
-- `_future_use_rejection_reason`.
pub mod Sound
use dynvar_sync.Base.{
  ℕ, zero, suc, ◌+◌, ltb, ◌==◌, Bool, true, false, ◌||◌, ◌&&◌, not, List, [], ◌∷◌, map, Option,
  none, some, Dict, get, put, nat_eq, nat_pair_eq, length, drop, if◌then◌else◌, is_some, any_of,
  ◌=?◌,
}
use dynvar_sync.Cfg.Facts.{
  InstructionFact, BlockFacts, Blocks, DefinitionSite, Reason, budget_of, degree_of,
  cross_block_liveness_unproven, not_live_at_current_pc,
}
use dynvar_sync.Cfg.Walk.{Point, Search, loop, begin, enough}
use dynvar_sync.Cfg.Reaching.{sort_sites}
use dynvar_sync.Cfg.Cycle.{graph_has_cycle}

pub record Found : Type 0 where
  pub use_sites : Dict Point DefinitionSite
  pub redefinition_paths : ℕ
  pub unresolved_use : Bool
  pub left_graph : Bool

pub record FutureUseResult : Type 0 where
  pub use_sites : List DefinitionSite
  pub redefinition_paths : ℕ
  pub unresolved_use : Bool
  pub loop_detected : Bool
  pub traversal_exhausted : Bool
  pub visited_states : ℕ

abbrev pub redefines : InstructionFact → Bool
redefines fact = fact.whole_definition || fact.overlapping_definition

-- A use at a known address.
abbrev pub known_use : InstructionFact → Bool
known_use fact = fact.use_of && is_some fact.ea

-- `for position in range(start, len(block.instructions))`, on the instructions from `start` on:
-- whether an instruction stopped the search.
unfoldable pub stopped : List InstructionFact → Bool
stopped [] = false
stopped (fact ∷ facts) = known_use fact || (redefines fact || stopped facts)

-- A use at no known address.
unfoldable pub note : InstructionFact → Found → Found
note fact f = if fact.use_of && not (is_some fact.ea) then record f { unresolved_use = true } else f

-- What the same instructions add to the result.
unfoldable pub walk : Bool → ℕ → ℕ → List InstructionFact → Found → Found
unfolding note
walk crossed block position [] f = f
walk crossed block position (fact ∷ facts) f =
    let noted = note fact f in
    let rest = walk crossed block (suc position) facts noted in
    if known_use fact
    then record f {
      use_sites =
          put (block, position)
            (record {
              block_id = block;
              instruction_index = position;
              ea = fact.ea;
              crossed_block = crossed;
            })
            f.use_sites;
    }
    else if redefines fact
    then record noted { redefinition_paths = suc noted.redefinition_paths }
    else rest

module _ (blocks : Blocks) where
  -- The starts of the successors that are blocks of the graph.
  unfoldable pub starts_of : List ℕ → List Point
  starts_of [] = []
  starts_of (b ∷ bs) =
      let rest = starts_of bs in if is_some (get b blocks) then (b, zero) ∷ rest else rest

  unfoldable pub next_at : Option BlockFacts → ℕ → List Point
  unfolding stopped starts_of
  next_at none start = []
  next_at (some block) start =
      if ltb (length block.instructions) start || stopped (drop start block.instructions)
      then []
      else starts_of block.successors

  unfoldable pub next : Point → List Point
  unfolding next_at
  next p = next_at (get p.0 blocks) p.1

  -- A successor that is no block of the graph.
  abbrev pub leaves_graph : BlockFacts → Bool
  leaves_graph block = any_of (λ b. not (is_some (get b blocks))) block.successors

  unfoldable pub observe_at : Option BlockFacts → Point → Point → Found → Found
  unfolding walk stopped
  observe_at none start p f = record f { left_graph = true }
  observe_at (some block) start p f =
      if ltb (length block.instructions) p.1
      then record f { left_graph = true }
      else let walked = walk (not (p =? start)) p.0 p.1 (drop p.1 block.instructions) f in
        if not (stopped (drop p.1 block.instructions)) && leaves_graph block
        then record walked { left_graph = true }
        else walked

  unfoldable pub observe : Point → Point → Found → Found
  unfolding observe_at
  observe start p f = observe_at (get p.0 blocks) start p f

  unfoldable pub search : Point → Option ℕ → Search Found
  unfolding observe next loop begin enough degree_of
  search start max_states =
      let budget = budget_of max_states (length blocks) in
      loop budget next (observe start)
        (enough budget (degree_of (λ block. block.successors) blocks))
        (begin budget next (observe start) start (record {
          use_sites = [];
          redefinition_paths = 0;
          unresolved_use = false;
          left_graph = false;
        }))

unfoldable pub result_of : Search Found → FutureUseResult
unfolding sort_sites graph_has_cycle
result_of w = record {
  use_sites = sort_sites (map (λ item. item.1) w.found.use_sites);
  redefinition_paths = w.found.redefinition_paths;
  unresolved_use = w.found.unresolved_use;
  loop_detected = graph_has_cycle w.edges;
  traversal_exhausted = w.found.left_graph || w.exhausted;
  visited_states = length w.visited;
}

unfoldable pub find_future_uses : Blocks → ℕ → ℕ → Option ℕ → FutureUseResult
unfolding search result_of
find_future_uses blocks current_block_id current_instruction max_states =
    result_of (search blocks (current_block_id, current_instruction) max_states)

abbrev pub has_use : FutureUseResult → Bool
has_use result = not (length result.use_sites == 0)

unfoldable pub future_use_rejection_reason : FutureUseResult → Option Reason
future_use_rejection_reason result =
    if has_use result
    then none
    else if result.unresolved_use || (result.loop_detected || result.traversal_exhausted)
    then some cross_block_liveness_unproven
    else some not_live_at_current_pc
