-- ===== src/Cfg/Walk.antt =====
-- The worklist loop that `_find_reaching_definitions`, `_find_future_uses` and
-- `_validate_register_storage_cfg` of ida_plugin/v_variable_recovery.py share: a stack of points, a
-- set of visited points, a budget of visited points, and the edges that were followed. A point is a
-- block with a position in it. What differs is what a point adds to the result (`observe`) and where
-- the search goes from it (`neighbours`).
pub mod Closure
use dynvar_sync.Base.{
  ℕ, zero, suc, ◌+◌, ◌*◌, ◌≤◌, ◌<◌, leb, Bool, true, false, List, [], ◌∷◌, Option, none, some,
  if◌then◌else◌, ◌=?◌, nat_pair_eq, any_of, length, Dict, get, put, In,
}

abbrev pub Point : Type 0
Point = ℕ × ℕ

abbrev pub seen : Point → List Point → Bool
seen p = any_of (λ q. q =? p)

-- s.add(p)
unfoldable pub add_point : Point → List Point → List Point
add_point p s = if seen p s then s else p ∷ s

abbrev pub Edges : Type 0
Edges = Dict Point (List Point)

-- edges.setdefault(p, set())
unfoldable add_node : Point → Edges → Edges
add_node p edges = elim (get p edges) [ none ↦ put p [] edges | some s ↦ edges ]

abbrev or_empty : Option (List Point) → List Point
or_empty none = []
or_empty (some s) = s

-- `edges[p].add(q)` and `edges.setdefault(q, set())` for each neighbour
unfoldable add_edges : Point → List Point → Edges → Edges
unfolding add_point add_node
add_edges p [] edges = edges
add_edges p (q ∷ qs) edges =
    add_edges p qs (add_node q (put p (add_point q (or_empty (get p edges))) edges))

-- `pending.append(q)` for each neighbour that is not visited. The top of the stack is the head.
unfoldable pub push : List Point → List Point → List Point → List Point
push visited [] pending = pending
push visited (q ∷ qs) pending = push visited qs (if seen q visited then pending else q ∷ pending)

pub record Search {ℓ} (A : Type ℓ) : Type ℓ where
  pub pending : List Point
  pub visited : List Point
  pub edges : Edges
  pub found : A
  pub exhausted : Bool

module _ {ℓ} {A : Type ℓ} (budget : ℕ) (neighbours : Point → List Point)
    (observe : Point → A → A) where
  -- One point leaves the stack for the visited set.
  unfoldable pub enter : Point → List Point → Search A → Search A
  unfolding push add_edges add_node
  enter p rest w = record {
    pending = push (p ∷ w.visited) (neighbours p) rest;
    visited = p ∷ w.visited;
    edges = add_edges p (neighbours p) (add_node p w.edges);
    found = observe p w.found;
    exhausted = w.exhausted;
  }

  -- `while pending`. The `break` on an exhausted budget ends the loop.
  unfoldable pub loop : ℕ → Search A → Search A
  loop zero w = w
  loop (suc fuel) w = elim w.pending [
    | [] ↦ w
    | p ∷ rest ↦ elim (seen p w.visited) [
      | true ↦ loop fuel (record w { pending = rest })
      | false ↦ elim (leb budget (length w.visited)) [
        | true ↦ record w { exhausted = true }
        | false ↦ loop fuel (enter p rest w)
      ]
    ]
  ]

  unfoldable pub begin : Point → A → Search A
  begin p found = record {
    pending = p ∷ [];
    visited = [];
    edges = [];
    found = found;
    exhausted = false;
  }

-- No point is pushed more often than it is a neighbour of a visited point, and no more than `budget`
-- points are visited.
unfoldable pub enough : ℕ → ℕ → ℕ
enough budget degree = suc (budget * suc degree + 1)

-- The points that a search can come to from a point.
pub data Route (neighbours : Point → List Point) (start : Point) : Point → Type 0 where
  origin : Route neighbours start start
  onward :
      {p : Point} (q : Point)
      → Route neighbours start p
      → In q (neighbours p)
      → Route neighbours start q
