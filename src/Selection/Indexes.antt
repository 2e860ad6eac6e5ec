-- ===== src/Selection/Indexes.antt =====
-- Lists of indexes without repetitions, and the dictionaries of ida_plugin/dayvar_plugin.py that
-- have them as keys.
use dynvar_sync.Base.{
  ℕ, suc, ◌+◌, ◌-◌, ◌%◌, ◌≤◌, ◌<◌, leb, ◌==◌, ==_iff, Bool, true, false, ◌||◌, List, [], ◌∷◌, keep,
  get_or, length, is_some, Dict, get, put, nat_eq, All, ◌≡◌, refl, arith, Bool-cases, inl, inr,
  if◌then◌else◌, either, ◌∙◌,
}
use native.Mathlib.Nat.{mod-eq_of_lt, add-mod_right}
use dynvar_sync.Recovery.{VariableRecord}
use dynvar_sync.Selection.{has, insert_index, sort_indexes, locals_of, keys}

abbrev pub Distinct : List ℕ → Type 0
Distinct [] = Unit
Distinct (x ∷ xs) = (has x xs ≡ false) × Distinct xs

drop_one : ℕ → List ℕ → List ℕ
drop_one x [] = []
drop_one x (y ∷ ys) = if y == x then ys else y ∷ drop_one x ys

length-drop_one : (x : ℕ) (ys : List ℕ) → has x ys ≡ true → length ys ≡ suc (length (drop_one x ys))
unfolding drop_one
length-drop_one x [] h = cc
length-drop_one x (y ∷ ys) h = ground (arith, length-drop_one x ys)

has-drop_one :
    (x y : ℕ) (ys : List ℕ) → has y ys ≡ true → (x == y) ≡ false → has y (drop_one x ys) ≡ true
unfolding drop_one
has-drop_one x y [] h apart = cc
has-drop_one x y (z ∷ ys) h apart = ground (arith, has-drop_one x y ys)

-- Every index of a list that has x apart is in the list without x.
without :
    (x : ℕ) (xs ys : List ℕ)
    → has x xs ≡ false
    → All (λ y. has y ys ≡ true) xs
    → All (λ y. has y (drop_one x ys) ≡ true) xs
without x [] ys apart h = tt
without x (y ∷ xs) ys apart h = elim (Bool-cases (y == x)) [
  | inl same ↦ cc (rw same at apart)
  | inr other ↦ (
    has-drop_one x y ys h.0 (ground arith),
    without x xs ys (let e : has x (y ∷ xs) ≡ has x xs = rw other refl in rw e at apart) h.1,
  )
]

pub length-le_of_has :
    (xs ys : List ℕ) → Distinct xs → All (λ y. has y ys ≡ true) xs → length xs ≤ length ys
length-le_of_has [] ys d h = omega arith
length-le_of_has (x ∷ xs) ys d h = omega (
  arith,
  length-drop_one x ys h.0,
  length-le_of_has xs (drop_one x ys) d.1 (without x xs ys d.0 h.1),
)

has-insert_index : (i x : ℕ) (xs : List ℕ) → has i (insert_index x xs) ≡ ((x == i) || has i xs)
unfolding insert_index
has-insert_index i x [] = refl
has-insert_index i x (y ∷ xs) = ground (arith, has-insert_index i x xs)

pub has-sort_indexes : (i : ℕ) (xs : List ℕ) → has i (sort_indexes xs) ≡ has i xs
unfolding sort_indexes
has-sort_indexes i [] = refl
has-sort_indexes i (x ∷ xs) =
    ground (arith, has-insert_index i x (sort_indexes xs), has-sort_indexes i xs)

length-insert_index : (x : ℕ) (xs : List ℕ) → length (insert_index x xs) ≡ suc (length xs)
unfolding insert_index
length-insert_index x [] = refl
length-insert_index x (y ∷ xs) = ground (arith, length-insert_index x xs)

pub length-sort_indexes : (xs : List ℕ) → length (sort_indexes xs) ≡ length xs
unfolding sort_indexes
length-sort_indexes [] = refl
length-sort_indexes (x ∷ xs) =
    omega (arith, length-insert_index x (sort_indexes xs), length-sort_indexes xs)

pub has-keep :
    (p : ℕ → Bool) (i : ℕ) (xs : List ℕ) → p i ≡ true → has i xs ≡ true → has i (keep p xs) ≡ true
has-keep p i [] yes-p h = cc
has-keep p i (x ∷ xs) yes-p h = elim (Bool-cases (x == i)) [
  | inl same ↦ let e : x ≡ i = (==_iff x i).0 same in rw (e, yes-p) (ground arith)
  | inr other ↦ elim (Bool-cases (p x)) [
    | inl kept ↦ rw (kept, other) (has-keep p i xs yes-p (rw other at h))
    | inr left ↦ rw left (has-keep p i xs yes-p (rw other at h))
  ]
]

pub All-of_has : (P : ℕ → Type 0) (xs : List ℕ) → ((i : ℕ) → has i xs ≡ true → P i) → All P xs
All-of_has P [] h = tt
All-of_has P (x ∷ xs) h = (
  h x (let e : (x == x) ≡ true = (==_iff x x).1 refl in rw e refl),
  All-of_has P xs (λ i listed. h i (ground arith)),
)

-- The place of an index in a list.
pub position_of :
    (i : ℕ) (xs : List ℕ) → has i xs ≡ true → (p : ℕ) × (p < length xs) × (get_or xs p 0 ≡ i)
position_of i [] h = cc
position_of i (x ∷ xs) h = elim (Bool-cases (x == i)) [
  | inl same ↦ (0, omega arith, (==_iff x i).0 same)
  | inr other ↦
      let (p, inside, found) = position_of i xs (rw other at h) in (suc p, omega arith, found)
]

-- Every place comes up in a round from any start.
pub offset_of : (n start p : ℕ) → start < n → p < n → (j : ℕ) × (j < n) × ((start + j) % n ≡ p)
offset_of n start p hs hp = elim (Bool-cases (leb start p)) [
  | inl after ↦
      let e : start + (p - start) ≡ p = ground arith in
      (p - start, ground arith, rw e (mod-eq_of_lt hp))
  | inr before ↦
      let e : start + (n + p - start) ≡ p + n = ground arith in
      (n + p - start, ground arith, rw e (add-mod_right p n ∙ mod-eq_of_lt hp))
]

pub get-keys : (i : ℕ) (d : Dict ℕ VariableRecord) → is_some (get i d) ≡ has i (keys d)
unfolding get
get-keys i [] = refl
get-keys i ((j, v) ∷ d) = ground (arith, get-keys i d)

has-put :
    (i k : ℕ) (v : VariableRecord) (d : Dict ℕ VariableRecord)
    → has i (keys (put k v d)) ≡ ((k == i) || has i (keys d))
unfolding put
has-put i k v [] = refl
has-put i k v ((j, w) ∷ d) = ground (arith, has-put i k v d)

put-Distinct :
    (k : ℕ) (v : VariableRecord) (d : Dict ℕ VariableRecord)
    → Distinct (keys d)
    → Distinct (keys (put k v d))
unfolding put
put-Distinct k v [] h = (refl, tt)
put-Distinct k v ((j, w) ∷ d) h = elim (Bool-cases (j == k)) [
  | inl same ↦ rw same h
  | inr other ↦ rw other (ground (arith, has-put j k v d), put-Distinct k v d h.1)
]

pub locals_of-Distinct :
    (d : Dict ℕ VariableRecord) (rows : List VariableRecord)
    → Distinct (keys d)
    → Distinct (keys (locals_of d rows))
unfolding locals_of
locals_of-Distinct d [] h = h
locals_of-Distinct d (row ∷ rows) h =
    locals_of-Distinct (if row.is_arg then d else put row.lvar_index row d) rows (
      either (λ x. Distinct (keys x)) row.is_arg d (put row.lvar_index row d) h
        (put-Distinct row.lvar_index row d h))
