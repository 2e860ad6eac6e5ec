-- ===== src/Cfg/Walk/Closure.antt =====
-- What the worklist loop has visited when it ends.
use dynvar_sync.Base.{
  ℕ, zero, suc, ◌+◌, ◌*◌, ◌-◌, ◌≤◌, ◌<◌, leb, Bool, true, false, List, [], ◌∷◌, if◌then◌else◌, ◌=?◌,
  nat_pair_eq, length, In, ◌≡◌, refl, arith, ◌⊎◌, inl, inr, Bool-cases, List-cases, nat_eq, sym,
  subst, ⊎_elim, ap,
}
use dynvar_sync.Cfg.Walk.{
  Point, seen, push, Search, enter, loop, begin, enough, Route, origin, onward,
}

seen-In : (p : Point) (s : List Point) → seen p s ≡ true → In p s
seen-In p [] h = cc
seen-In p (q ∷ s) h = elim (Bool-cases (q =? p)) [
  | inl e ↦ inl (sym ((nat_pair_eq.beq_iff q p).0 e))
  | inr e ↦ inr (seen-In p s (rw e at h))
]

In-seen : (p : Point) (s : List Point) → In p s → seen p s ≡ true
In-seen p (q ∷ s) (inl e) = ground (arith, nat_pair_eq.beq_iff q p, nat_pair_eq.beq_iff p q)
In-seen p (q ∷ s) (inr m) = ground (arith, In-seen p s m)
In-seen p [] m = absurd m

-- What is pushed was on the stack, or is a neighbour that is not visited; nothing is lost.
In-push_rest :
    (p : Point) (visited qs pending : List Point) → In p pending → In p (push visited qs pending)
unfolding push
In-push_rest p visited [] pending m = m
In-push_rest p visited (q ∷ qs) pending m = elim (Bool-cases (seen q visited)) [
  | inl old ↦ rw old (In-push_rest p visited qs pending m)
  | inr new ↦ rw new (In-push_rest p visited qs (q ∷ pending) (inr m))
]

In-push_new :
    (p : Point) (visited qs pending : List Point)
    → In p qs
    → In p visited ⊎ In p (push visited qs pending)
unfolding push
In-push_new p visited [] pending m = absurd m
In-push_new p visited (q ∷ qs) pending (inr m) = In-push_new p visited qs _ m
In-push_new p visited (q ∷ qs) pending (inl e) = elim (Bool-cases (seen q visited)) [
  | inl old ↦ inl (subst (λ x. In x visited) (sym e) (seen-In q visited old))
  | inr new ↦ inr (rw new (In-push_rest p visited qs (q ∷ pending) (inl e)))
]

In-push :
    (p : Point) (visited qs pending : List Point)
    → In p (push visited qs pending)
    → In p qs ⊎ In p pending
unfolding push
In-push p visited [] pending m = inr m
In-push p visited (q ∷ qs) pending m = elim (Bool-cases (seen q visited)) [
  | inl old ↦ elim (In-push p visited qs pending (rw old at m)) [
    | inl later ↦ inl (inr later)
    | inr rest ↦ inr rest
  ]
  | inr new ↦ elim (In-push p visited qs (q ∷ pending) (rw new at m)) [
    | inl later ↦ inl (inr later)
    | inr (inl e) ↦ inl (inl e)
    | inr (inr rest) ↦ inr rest
  ]
]

length-push :
    (visited qs pending : List Point)
    → length (push visited qs pending) ≤ length qs + length pending
unfolding push
length-push visited [] pending = omega arith
length-push visited (q ∷ qs) pending =
    ground (arith, length-push visited qs (if seen q visited then pending else q ∷ pending))

module _ {ℓ} {A : Type ℓ} (budget : ℕ) (neighbours : Point → List Point) (observe : Point → A → A)
    (start : Point) (init : A) where
  abbrev Routed : Point → Type 0
  Routed = Route neighbours start

  pub observe_all : List Point → A
  observe_all [] = init
  observe_all (p ∷ ps) = observe p (observe_all ps)

  pub record Inv (w : Search A) : Type ℓ where
    pub visited_route : (p : Point) → In p w.visited → Routed p
    pub pending_route : (p : Point) → In p w.pending → Routed p
    pub closed :
        (p q : Point) → In p w.visited → In q (neighbours p) → In q w.visited ⊎ In q w.pending
    pub started : In start w.visited ⊎ In start w.pending
    pub found_is : w.found ≡ observe_all w.visited

  begin-Inv : Inv (begin budget neighbours observe start init)
  unfolding begin observe_all
  begin-Inv = record {
    visited_route = λ p m. absurd m;
    pending_route =
        λ p m. ⊎_elim (λ e. subst Routed (sym e) origin) (λ none_left. absurd none_left) m;
    closed = λ p q m n. absurd m;
    started = inr (inl refl);
    found_is = refl;
  }

  -- A point that was visited before leaves the stack.
  skip-Inv :
      (w : Search A) (p : Point) (rest : List Point)
      → w.pending ≡ p ∷ rest
      → seen p w.visited ≡ true
      → Inv w
      → Inv (record w { pending = rest })
  skip-Inv w p rest e old v = record {
    visited_route = v.visited_route;
    pending_route = λ q m. v.pending_route q (rw e (inr m));
    closed = λ a b m n. settle b (v.closed a b m n);
    started = settle start v.started;
    found_is = v.found_is;
  }
    where
      settle : (b : Point) → In b w.visited ⊎ In b w.pending → In b w.visited ⊎ In b rest
      settle b (inl m) = inl m
      settle b (inr m) =
          ⊎_elim (λ same. inl (subst (λ x. In x w.visited) (sym same) (seen-In p w.visited old)))
            inr (rw e at m)

  enter-Inv :
      (w : Search A) (p : Point) (rest : List Point)
      → w.pending ≡ p ∷ rest
      → Inv w
      → Inv (enter budget neighbours observe p rest w)
  unfolding enter observe_all
  enter-Inv w p rest e v = record {
    visited_route = λ q m. ⊎_elim (λ same. subst Routed (sym same) route) (v.visited_route q) m;
    pending_route = λ q m.
        ⊎_elim (λ new. onward q route new) (λ old. v.pending_route q (rw e (inr old)))
          (In-push q (p ∷ w.visited) (neighbours p) rest m);
    closed = λ a b m n.
        ⊎_elim
          (λ same.
            In-push_new b (p ∷ w.visited) (neighbours p) rest
              (subst (λ x. In b (neighbours x)) same n))
          (λ old. settle b (v.closed a b old n)) m;
    started = settle start v.started;
    found_is = ap (observe p) v.found_is;
  }
    where
      route : Routed p
      route = v.pending_route p (rw e (inl refl))

      settle :
          (b : Point)
          → In b w.visited ⊎ In b w.pending
          → ((b ≡ p) ⊎ In b w.visited) ⊎ In b (push (p ∷ w.visited) (neighbours p) rest)
      settle b (inl m) = inl (inr m)
      settle b (inr m) =
          ⊎_elim (λ same. inl (inl same))
            (λ old. inr (In-push_rest b (p ∷ w.visited) (neighbours p) rest old)) (rw e at m)

  abbrev run : ℕ → Search A → Search A
  run = loop budget neighbours observe

  loop-nil : (fuel : ℕ) (w : Search A) → w.pending ≡ [] → run (suc fuel) w ≡ w
  unfolding loop
  loop-nil fuel w e = ground arith

  loop-old :
      (fuel : ℕ) (w : Search A) (p : Point) (rest : List Point)
      → w.pending ≡ p ∷ rest
      → seen p w.visited ≡ true
      → run (suc fuel) w ≡ run fuel (record w { pending = rest })
  unfolding loop
  loop-old fuel w p rest e old = ground arith

  loop-full :
      (fuel : ℕ) (w : Search A) (p : Point) (rest : List Point)
      → w.pending ≡ p ∷ rest
      → seen p w.visited ≡ false
      → leb budget (length w.visited) ≡ true
      → run (suc fuel) w ≡ record w { exhausted = true }
  unfolding loop
  loop-full fuel w p rest e new full = ground arith

  loop-new :
      (fuel : ℕ) (w : Search A) (p : Point) (rest : List Point)
      → w.pending ≡ p ∷ rest
      → seen p w.visited ≡ false
      → leb budget (length w.visited) ≡ false
      → run (suc fuel) w ≡ run fuel (enter budget neighbours observe p rest w)
  unfolding loop
  loop-new fuel w p rest e new room = ground arith

  exhaust-Inv : (w : Search A) → Inv w → Inv (record w { exhausted = true })
  exhaust-Inv w v = record {
    visited_route = v.visited_route;
    pending_route = v.pending_route;
    closed = v.closed;
    started = v.started;
    found_is = v.found_is;
  }

  loop-Inv : (fuel : ℕ) (w : Search A) → Inv w → Inv (run fuel w)
  loop-Inv zero w v = unfold loop in v
  loop-Inv (suc fuel) w v = elim (List-cases w.pending) [
    | inl e ↦ rw (loop-nil fuel w e) v
    | inr (p, rest, e) ↦ elim (Bool-cases (seen p w.visited)) [
      | inl old ↦ rw (loop-old fuel w p rest e old) (loop-Inv fuel _ (skip-Inv w p rest e old v))
      | inr new ↦ elim (Bool-cases (leb budget (length w.visited))) [
        | inl full ↦ rw (loop-full fuel w p rest e new full) (exhaust-Inv w v)
        | inr room ↦
            rw (loop-new fuel w p rest e new room) (loop-Inv fuel _ (enter-Inv w p rest e v))
      ]
    ]
  ]

  -- Each round takes one point from the stack, and one that is new adds to the visited points.
  abbrev work : ℕ → Search A → ℕ
  work degree w = (budget - length w.visited) * suc degree + length w.pending

  enter-work :
      (degree : ℕ) (w : Search A) (p : Point) (rest : List Point)
      → length (neighbours p) ≤ degree
      → w.pending ≡ p ∷ rest
      → leb budget (length w.visited) ≡ false
      → work degree (enter budget neighbours observe p rest w) < work degree w
  unfolding enter
  enter-work degree w p rest few e room =
      let k = budget - suc (length w.visited) in
      let left : budget - length w.visited ≡ suc k = ground arith in
      rw left (omega (arith, length-push (p ∷ w.visited) (neighbours p) rest, ap length e))

  loop_ends :
      (degree : ℕ)
      → ((p : Point) → length (neighbours p) ≤ degree)
      → (fuel : ℕ) (w : Search A) → work degree w < fuel
      → (run fuel w).exhausted ≡ false
      → (run fuel w).pending ≡ []
  loop_ends degree few zero w h = absurd (omega arith)
  loop_ends degree few (suc fuel) w h = elim (List-cases w.pending) [
    | inl e ↦ rw (loop-nil fuel w e) (λ _. e)
    | inr (p, rest, e) ↦ elim (Bool-cases (seen p w.visited)) [
      | inl old ↦
          rw (loop-old fuel w p rest e old)
            (loop_ends degree few fuel _ (omega (arith, ap length e)))
      | inr new ↦ elim (Bool-cases (leb budget (length w.visited))) [
        | inl full ↦ rw (loop-full fuel w p rest e new full) (λ h. cc)
        | inr room ↦
            rw (loop-new fuel w p rest e new room) (
              loop_ends degree few fuel _
                (omega (arith, enter-work degree w p rest (few p) e room)))
      ]
    ]
  ]

  -- The whole search, on enough fuel.
  abbrev search_from : ℕ → Search A
  search_from degree = run (enough budget degree) (begin budget neighbours observe start init)

  search_work :
      (degree : ℕ) → work degree (begin budget neighbours observe start init) < enough budget degree
  unfolding begin enough
  search_work degree = let all : budget - 0 ≡ budget = omega arith in rw all (omega arith)

  final : (degree : ℕ) → Inv (search_from degree)
  final degree = loop-Inv (enough budget degree) _ begin-Inv

  -- A search that is not exhausted has visited every point that it can come to.
  pub search_covers :
      (degree : ℕ)
      → ((p : Point) → length (neighbours p) ≤ degree)
      → (search_from degree).exhausted ≡ false
      → (p : Point) → Routed p
      → In p (search_from degree).visited
  search_covers degree few h p origin =
      ⊎_elim (λ m. m)
        (λ m. absurd (
          subst (λ x. In start x)
            (loop_ends degree few (enough budget degree) _ (search_work degree) h) m))
        (final degree).started
  search_covers degree few h p (onward {p = q} p' r n) =
      ⊎_elim (λ m. m)
        (λ m. absurd (
          subst (λ x. In p' x)
            (loop_ends degree few (enough budget degree) _ (search_work degree) h) m))
        ((final degree).closed q p' (search_covers degree few h q r) n)

  search_sound : (degree : ℕ) (p : Point) → In p (search_from degree).visited → Routed p
  search_sound degree p m = (final degree).visited_route p m

  pub search_found :
      (degree : ℕ) → (search_from degree).found ≡ observe_all (search_from degree).visited
  search_found degree = (final degree).found_is

  -- A flag that no observation clears is clear at the end only if every visited point left it so.
  pub flag_clear :
      (flag : A → Bool)
      → ((p : Point) (f : A) → flag f ≡ true → flag (observe p f) ≡ true)
      → (ps : List Point) → flag (observe_all ps) ≡ false
      → (p : Point) → In p ps
      → (f : A) × (flag (observe p f) ≡ false)
  unfolding observe_all
  flag_clear flag keeps [] h p m = absurd m
  flag_clear flag keeps (q ∷ ps) h p (inl e) = (observe_all ps, rw e h)
  flag_clear flag keeps (q ∷ ps) h p (inr m) =
      flag_clear flag keeps ps
        (elim (Bool-cases (flag (observe_all ps))) [
          | inl set ↦ cc (keeps q (observe_all ps) set)
          | inr clear ↦ clear
        ])
        p m

  -- A flag that a point sets, and that no observation clears, is set at the end.
  pub flag_set :
      (flag : A → Bool)
      → ((p : Point) (f : A) → flag f ≡ true → flag (observe p f) ≡ true)
      → (ps : List Point) (p : Point) → In p ps
      → ((f : A) → flag (observe p f) ≡ true)
      → flag (observe_all ps) ≡ true
  unfolding observe_all
  flag_set flag keeps [] p m sets = absurd m
  flag_set flag keeps (q ∷ ps) p (inl e) sets = rw e at sets (observe_all ps)
  flag_set flag keeps (q ∷ ps) p (inr m) sets =
      keeps q (observe_all ps) (flag_set flag keeps ps p m sets)

  -- What every observation keeps holds at the end.
  pub invariant_holds {κ} :
      (P : A → Type κ)
      → P init
      → ((p : Point) (f : A) → P f → P (observe p f))
      → (ps : List Point) → P (observe_all ps)
  unfolding observe_all
  invariant_holds P first keeps [] = first
  invariant_holds P first keeps (q ∷ ps) =
      keeps q (observe_all ps) (invariant_holds P first keeps ps)
