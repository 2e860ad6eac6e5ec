-- ===== src/Cfg/Cycle.antt =====
-- ida_plugin/v_variable_recovery.py: `_graph_has_cycle`, which takes away nodes without incoming
-- edges until none is left.
use dynvar_sync.Base.{
  ℕ, zero, suc, ◌-◌, ◌==◌, Bool, not, List, [], ◌∷◌, Dict, get, put, nat_pair_eq, length, default,
  if◌then◌else◌,
}
use dynvar_sync.Cfg.Walk.{Point, Edges, add_point}

unfoldable add_all : List Point → List Point → List Point
unfolding add_point
add_all [] s = s
add_all (q ∷ qs) s = add_all qs (add_point q s)

-- `set(edges)` and the updates with the destinations
unfoldable nodes_of : Edges → List Point
unfolding add_all add_point
nodes_of [] = []
nodes_of ((p, qs) ∷ edges) = add_all qs (add_point p (nodes_of edges))

unfoldable zero_degrees : List Point → Dict Point ℕ
zero_degrees [] = []
zero_degrees (p ∷ ps) = (p, zero) ∷ zero_degrees ps

-- `indegree[destination] += 1` for each destination
unfoldable count_destinations : List Point → Dict Point ℕ → Dict Point ℕ
count_destinations [] degrees = degrees
count_destinations (q ∷ qs) degrees =
    count_destinations qs (put q (suc (default zero (get q degrees))) degrees)

unfoldable count_edges : Edges → Dict Point ℕ → Dict Point ℕ
unfolding count_destinations
count_edges [] degrees = degrees
count_edges ((p, qs) ∷ edges) degrees = count_edges edges (count_destinations qs degrees)

unfoldable without_incoming : Dict Point ℕ → List Point
without_incoming [] = []
without_incoming ((p, zero) ∷ degrees) = p ∷ without_incoming degrees
without_incoming ((p, suc n) ∷ degrees) = without_incoming degrees

-- The edges of a node are taken away; a destination that has none left is ready.
unfoldable release : List Point → Dict Point ℕ × List Point → Dict Point ℕ × List Point
release [] (degrees, ready) = (degrees, ready)
release (q ∷ qs) (degrees, ready) =
    let left = default zero (get q degrees) - 1 in
    release qs (put q left degrees, if left == 0 then q ∷ ready else ready)

-- `while ready`, with the number of nodes that were taken away.
unfoldable peel : ℕ → Edges → Dict Point ℕ × List Point → ℕ → ℕ
unfolding release
peel zero edges state removed = removed
peel (suc fuel) edges (degrees, []) removed = removed
peel (suc fuel) edges (degrees, p ∷ ready) removed =
    peel fuel edges (release (default [] (get p edges)) (degrees, ready)) (suc removed)

unfoldable pub graph_has_cycle : Edges → Bool
unfolding nodes_of zero_degrees count_edges without_incoming peel
graph_has_cycle edges =
    let nodes = nodes_of edges in
    let degrees = count_edges edges (zero_degrees nodes) in
    not (peel (suc (length nodes)) edges (degrees, without_incoming degrees) zero == length nodes)
