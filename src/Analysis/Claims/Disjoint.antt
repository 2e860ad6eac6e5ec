-- ===== src/Analysis/Claims/Disjoint.antt =====
-- What `_reject_duplicate_storage_claims` leaves: claims on places that do not overlap.
use dynvar_sync.Base.{
  ℕ, ◌+◌, ◌*◌, ◌≤◌, ℤ, pos, negsuc, ltb, ⊎_elim, ◌+ℤ◌, Bool, true, false, ◌&&◌, if◌then◌else◌, [],
  ◌∷◌, Option, none, some, String, str_eq_iff, Dict, get, put, get-put, nat_eq, In, In-get, ◌≡◌,
  ◌≢◌, ◌⊎◌, inl, inr, refl, sym, Bool-cases, ap, subst, ◌∙◌, ◌==◌, ==_iff, arith,
}
use mathlib.Core.Option.{some-injective, none-ne-some}
use dynvar_sync.Registers.{RegisterSpec}
use dynvar_sync.Recovery.Records.{int_leb}
use dynvar_sync.Recovery.{RecoveryEvidence}
use dynvar_sync.Analysis.Claims.{
  Claims, conflict, reject_both, reject_after, reject_pairs, withdraw,
  reject_duplicate_storage_claims, no_evidence, same_register, bits_overlap, slots_overlap, int_ltb,
}

-- A reason is only added.
both-kept :
    (why : Option String) (i j k : ℕ) (rejected : Dict ℕ String)
    → get k (reject_both why i j rejected) ≡ none
    → get k rejected ≡ none
unfolding reject_both
both-kept none i j k rejected h = h
both-kept (some reason) i j k rejected h =
    ground (arith, get-put j k reason (put i reason rejected), get-put i k reason rejected)

after-kept :
    (i : ℕ) (left : RecoveryEvidence) (claims : Claims) (k : ℕ) (rejected : Dict ℕ String)
    → get k (reject_after i left claims rejected) ≡ none
    → get k rejected ≡ none
unfolding reject_after
after-kept i left [] k rejected h = h
after-kept i left ((j, right) ∷ claims) k rejected h =
    both-kept (conflict left right) i j k rejected (after-kept i left claims k _ h)

pairs-kept :
    (claims : Claims) (k : ℕ) (rejected : Dict ℕ String)
    → get k (reject_pairs claims rejected) ≡ none
    → get k rejected ≡ none
unfolding reject_pairs
pairs-kept [] k rejected h = h
pairs-kept ((i, left) ∷ claims) k rejected h =
    after-kept i left claims k rejected (pairs-kept claims k _ h)

both-none :
    (why : Option String) (i j k : ℕ) (rejected : Dict ℕ String)
    → (k ≡ i) ⊎ (k ≡ j)
    → get k (reject_both why i j rejected) ≡ none
    → why ≡ none
unfolding reject_both
both-none none i j k rejected at h = refl
both-none (some reason) i j k rejected at h = ground (
  arith,
  get-put j k reason (put i reason rejected),
  get-put i k reason rejected,
  nat_eq.beq_iff i k,
  nat_eq.beq_iff j k,
)

-- A claim that is not rejected has no conflict with those after it.
after-clear :
    (i : ℕ) (left : RecoveryEvidence) (claims : Claims) (rejected : Dict ℕ String) (j : ℕ)
    (right : RecoveryEvidence) (k : ℕ)
    → In (j, right) claims
    → (k ≡ i) ⊎ (k ≡ j)
    → get k (reject_after i left claims rejected) ≡ none
    → conflict left right ≡ none
unfolding reject_after
after-clear i left [] rejected j right k m at h = absurd m
after-clear i left ((j', other) ∷ claims) rejected j right k (inl e) at h =
    let kept = after-kept i left claims k _ h in
    let j'_is : j ≡ j' = ap (λ (item : ℕ × RecoveryEvidence). item.0) e in
    let clear : conflict left other ≡ none =
      both-none (conflict left other) i j' k rejected (subst (λ n. (k ≡ i) ⊎ (k ≡ n)) j'_is at)
        kept in
    ap (λ (item : ℕ × RecoveryEvidence). conflict left item.1) e ∙ clear
after-clear i left ((j', other) ∷ claims) rejected j right k (inr m) at h =
    after-clear i left claims _ j right k m at h

-- Two claims that are not rejected have no conflict, in the order in which they stand.
pairs-clear :
    (claims : Claims) (rejected : Dict ℕ String) (i j : ℕ) (left right : RecoveryEvidence)
    → i ≢ j
    → In (i, left) claims
    → In (j, right) claims
    → get i (reject_pairs claims rejected) ≡ none
    → get j (reject_pairs claims rejected) ≡ none
    → (conflict left right ≡ none) ⊎ (conflict right left ≡ none)
unfolding reject_pairs
pairs-clear [] rejected i j left right other m n h k = absurd m
pairs-clear ((a, first) ∷ claims) rejected i j left right other (inl e) (inl f) h k =
    absurd (other (ap (λ (item : ℕ × RecoveryEvidence). item.0) (e ∙ sym f)))
pairs-clear ((a, first) ∷ claims) rejected i j left right other (inl e) (inr n) h k = inl (
    ap (λ (item : ℕ × RecoveryEvidence). conflict item.1 right) e
    ∙ after-clear a first claims rejected j right j n (inr refl) (pairs-kept claims j _ k))
pairs-clear ((a, first) ∷ claims) rejected i j left right other (inr m) (inl f) h k = inr (
    ap (λ (item : ℕ × RecoveryEvidence). conflict item.1 left) f
    ∙ after-clear a first claims rejected i left i m (inr refl) (pairs-kept claims i _ h))
pairs-clear ((a, first) ∷ claims) rejected i j left right other (inr m) (inr n) h k =
    pairs-clear claims _ i j left right other m n h k

-- What is withdrawn is no evidence, and the rest stays.
abbrev pub Withdrawn : ℕ → RecoveryEvidence → Type 0
Withdrawn i x = (why : String) × (x ≡ no_evidence i why)

-- What is found after an item is put is that item, or was there.
pub put-item :
    (j i : ℕ) (y x : RecoveryEvidence) (claims : Claims)
    → get i (put j y claims) ≡ some x
    → ((j ≡ i) × (x ≡ y)) ⊎ (((j == i) ≡ false) × (get i claims ≡ some x))
put-item j i y x claims h = elim (Bool-cases (j == i)) [
  | inl same ↦
      inl ((==_iff j i).0 same, some-injective _ _ (sym h ∙ get-put j i y claims ∙ rw same refl))
  | inr other ↦ inr (other, rw other at (sym (get-put j i y claims) ∙ h))
]

pub withdraw-get :
    (rejected : Dict ℕ String) (claims : Claims) (i : ℕ) (x : RecoveryEvidence)
    → get i (withdraw rejected claims) ≡ some x
    → Withdrawn i x ⊎ ((get i claims ≡ some x) × (get i rejected ≡ none))
unfolding withdraw get
withdraw-get [] claims i x h = inr (h, refl)
withdraw-get ((j, reason) ∷ rejected) claims i x h =
    elim (withdraw-get rejected (put j (no_evidence j reason) claims) i x h) [
      | inl gone ↦ inl gone
      | inr (at, kept) ↦ elim (put-item j i (no_evidence j reason) x claims at) [
        | inl (same, none_left) ↦ inl (reason, none_left ∙ ap (λ n. no_evidence n reason) same)
        | inr (other, there) ↦ inr (there, rw other kept)
      ]
    ]

-- No bit of the register and no byte of the stack belongs to both claims.
pub Apart : RecoveryEvidence → RecoveryEvidence → Type 0
Apart left right =
    ((p q : RegisterSpec)
      → left.storage_kind ≡ "register"
      → right.storage_kind ≡ "register"
      → left.register ≡ some p
      → right.register ≡ some q
      → p.full_register ≡ q.full_register
      → (p.bit_offset + left.width * 8 ≤ q.bit_offset)
        ⊎ (q.bit_offset + right.width * 8 ≤ p.bit_offset))
    × ((a b : ℤ)
        → left.storage_kind ≡ "stack"
        → right.storage_kind ≡ "stack"
        → left.stack_pointer_offset ≡ some a
        → right.stack_pointer_offset ≡ some b
        → int_leb (a +ℤ pos left.width) b ≡ true ⊎ int_leb (b +ℤ pos right.width) a ≡ true)

not_less : (a b : ℤ) → int_ltb a b ≡ false → int_leb b a ≡ true
not_less (pos a) (pos b) h = ground arith
not_less (pos a) (negsuc b) h = ground arith
not_less (negsuc a) (pos b) h = ground arith
not_less (negsuc a) (negsuc b) h = ground arith

either_false : (x y : Bool) → (x && y) ≡ false → (x ≡ false) ⊎ (y ≡ false)
either_false true y h = inr h
either_false false y h = inl refl

-- A test that does not lead to a reason failed.
no_reason : (b : Bool) (reason : String) → (if b then some reason else none) ≡ none → b ≡ false
no_reason true reason h = absurd (none-ne-some reason (sym h))
no_reason false reason h = refl

clear_bits :
    (left right : RecoveryEvidence)
    → left.storage_kind ≡ "register"
    → right.storage_kind ≡ "register"
    → same_register left.register right.register ≡ true
    → conflict left right ≡ none
    → bits_overlap left right ≡ false
unfolding conflict
clear_bits left right lk rk same h =
    no_reason (bits_overlap left right) "ambiguous_register_location" (rw (lk, rk, same) at h)

clear_slots :
    (left right : RecoveryEvidence)
    → left.storage_kind ≡ "stack"
    → right.storage_kind ≡ "stack"
    → conflict left right ≡ none
    → slots_overlap left.stack_pointer_offset left.width right.stack_pointer_offset right.width
      ≡ false
unfolding conflict
clear_slots left right lk rk h =
    no_reason
      (slots_overlap left.stack_pointer_offset left.width right.stack_pointer_offset right.width)
      "unresolved_stack_location" (rw (lk, rk) at h)

conflict-Apart : (left right : RecoveryEvidence) → conflict left right ≡ none → Apart left right
unfolding Apart bits_overlap slots_overlap same_register
conflict-Apart left right h = (
  λ p q lk rk lr rr same.
      let clear = clear_bits left right lk rk (rw (lr, rr) ((str_eq_iff _ _).1 same)) h in
      elim (either_false (ltb p.bit_offset (q.bit_offset + right.width * 8))
        (ltb q.bit_offset (p.bit_offset + left.width * 8)) (rw (lr, rr) at clear)) [
          | inl early ↦ inr (ground arith)
          | inr late ↦ inl (ground arith)
        ],
  λ a b lk rk la rb.
      elim (either_false (int_ltb a (b +ℤ pos right.width)) (int_ltb b (a +ℤ pos left.width))
        (rw (la, rb) at (clear_slots left right lk rk h))) [
          | inl early ↦ inr (not_less a (b +ℤ pos right.width) early)
          | inr late ↦ inl (not_less b (a +ℤ pos left.width) late)
        ],
)

Apart-sym : (left right : RecoveryEvidence) → Apart left right → Apart right left
unfolding Apart
Apart-sym left right (bits, slots) = (
  λ p q lk rk lr rr same. ⊎_elim inr inl (bits q p rk lk rr lr (sym same)),
  λ a b lk rk la rb. ⊎_elim inr inl (slots b a rk lk rb la),
)

-- What is no evidence claims no place.
none-Apart : (i : ℕ) (why : String) (other : RecoveryEvidence) → Apart (no_evidence i why) other
unfolding Apart
none-Apart i why other = (λ p q lk rk lr rr same. cc, λ a b lk rk la rb. cc)

-- After duplicate claims are rejected, no bit of a register and no byte of the stack is claimed for
-- two variables.
pub claims_disjoint :
    (claims : Claims) (i j : ℕ) (left right : RecoveryEvidence)
    → i ≢ j
    → get i (reject_duplicate_storage_claims claims) ≡ some left
    → get j (reject_duplicate_storage_claims claims) ≡ some right
    → Apart left right
unfolding reject_duplicate_storage_claims
claims_disjoint claims i j left right other h k =
    elim (withdraw-get (reject_pairs claims []) claims i left h) [
      | inl (why, e) ↦ subst (λ x. Apart x right) (sym e) (none-Apart i why right)
      | inr (at, kept) ↦ elim (withdraw-get (reject_pairs claims []) claims j right k) [
        | inl (why, e) ↦
            subst (Apart left) (sym e) (Apart-sym (no_evidence j why) left (none-Apart j why left))
        | inr (there, stays) ↦
            elim (pairs-clear claims [] i j left right other (In-get i left claims at)
              (In-get j right claims there) kept stays) [
                | inl clear ↦ conflict-Apart left right clear
                | inr clear ↦ Apart-sym right left (conflict-Apart right left clear)
              ]
      ]
    ]
