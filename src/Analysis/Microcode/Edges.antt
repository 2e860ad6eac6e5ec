-- ===== src/Analysis/Microcode/Edges.antt =====
-- The edges of the graphs of ida_plugin/v_variable_recovery.py: `_validate_cfg_reciprocity` and
-- `_micro_edge_ids`.
use dynvar_sync.Base.{
  ℕ, ◌==◌, ==_iff, Bool, true, List, [], ◌∷◌, some, Dict, get, In, In-get, all_of, ◌≡◌, inl, inr,
  sym, ap, ◌∙◌, subst, both_true, Bool-cases, Option-cases, nat_eq,
}
use dynvar_sync.Analysis.Microcode.{has_id, leads_back, validate_cfg_reciprocity}

pub all_of-In :
    {A : Type 0} (p : A → Bool) (xs : List A) (a : A) → all_of p xs ≡ true → In a xs → p a ≡ true
all_of-In p [] a h m = absurd m
all_of-In p (x ∷ xs) a h (inl e) = ap p e ∙ (both_true (p x) (all_of p xs) h).0
all_of-In p (x ∷ xs) a h (inr m) = all_of-In p xs a (both_true (p x) (all_of p xs) h).1 m

pub has_id-In : (n : ℕ) (ns : List ℕ) → has_id n ns ≡ true → In n ns
has_id-In n [] h = cc
has_id-In n (m ∷ ms) h = elim (Bool-cases (m == n)) [
  | inl same ↦ inl (sym ((==_iff m n).0 same))
  | inr other ↦ inr (has_id-In n ms (rw other at h))
]

module _ {B : Type 0} (preds succs : B → List ℕ) (blocks : Dict ℕ B) where
  -- The edge comes back.
  back_edge :
      (edges : B → List ℕ) (a b : ℕ)
      → leads_back blocks edges a b ≡ true
      → (y : B) × (get b blocks ≡ some y) × In a (edges y)
  unfolding leads_back
  back_edge edges a b h = elim (Option-cases (get b blocks)) [
    | inl out ↦ cc (rw (leads_back, out) at h)
    | inr (y, found) ↦ (y, found, has_id-In a (edges y) (rw (leads_back, found) at h))
  ]

  validated :
      (rest : Dict ℕ B) (a : ℕ) (x : B)
      → validate_cfg_reciprocity preds succs blocks rest ≡ true
      → In (a, x) rest
      → (all_of (leads_back blocks preds a) (succs x) ≡ true)
        × (all_of (leads_back blocks succs a) (preds x) ≡ true)
  unfolding validate_cfg_reciprocity
  validated [] a x h m = absurd m
  validated ((k, block) ∷ rest) a x h m =
      let (now, later) = both_true _ (validate_cfg_reciprocity preds succs blocks rest) h in
      elim m [
        | inl e ↦
            subst
              (λ (item : ℕ × B).
                (all_of (leads_back blocks preds item.0) (succs item.1) ≡ true)
                × (all_of (leads_back blocks succs item.0) (preds item.1) ≡ true))
              (sym e)
              (both_true (all_of (leads_back blocks preds k) (succs block))
                (all_of (leads_back blocks succs k) (preds block)) now)
        | inr there ↦ validated rest a x later there
      ]

  -- If the check of a graph succeeds, then every edge leads to a block of the graph and comes back
  -- there: a successor has the block among its predecessors, and a predecessor has it among its
  -- successors.
  pub edges_reciprocal :
      validate_cfg_reciprocity preds succs blocks blocks ≡ true
      → (a b : ℕ) (x : B) → get a blocks ≡ some x
      → (In b (succs x) → (y : B) × (get b blocks ≡ some y) × In a (preds y))
        × (In b (preds x) → (y : B) × (get b blocks ≡ some y) × In a (succs y))
  edges_reciprocal h a b x at =
      let (forth, back) = validated blocks a x h (In-get a x blocks at) in
      (
        λ m. back_edge preds a b (all_of-In _ (succs x) b forth m),
        λ m. back_edge succs a b (all_of-In _ (preds x) b back m),
      )
