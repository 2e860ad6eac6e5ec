-- ===== src/Recovery/Invariant/History.antt =====
-- `_mark_fresh` and `_prune_history` keep the history within its bound.
use dynvar_sync.Base.{
  ℕ, suc, ◌-◌, ◌≤◌, ◌<◌, [], ◌∷◌, take, String, length, In, Dict, remove, nat_pair_eq, ◌≡◌, refl,
  ◌⊎◌, inl, inr, arith, Bool-cases, List-cases, length-put-le, length-remove-le, ap, sym, ◌=?◌,
  true, some,
}
use native.Mathlib.Decide.{dec_lt}
use dynvar_sync.Recovery.{RecoveryRecord, Recovery, HistoryValue}
use dynvar_sync.Recovery.Records.{
  insert_oldest, by_age, remove_keys, prune_history, remember, fresh_record, mark_fresh, store,
  int_leb,
}
use dynvar_sync.Recovery.Invariant.{
  IsSound, store-IsSound, set-IsRecordOf, fresh_record-SameContext, fresh_record-IsHonest,
}

abbrev Key : Type 0
Key = ℕ × ℕ

length-remove-lt :
    (k : Key) (v : HistoryValue) (d : Dict Key HistoryValue)
    → In (k, v) d
    → length (remove k d) < length d
unfolding remove
length-remove-lt k v [] m = absurd m
length-remove-lt k v ((j, w) ∷ d) (inl e) =
    let same : (j =? k) ≡ true =
      (nat_pair_eq.beq_iff j k).1 (sym (ap (λ (x : Key × HistoryValue). x.0) e)) in
    rw same (omega (arith, length-remove-le k d))
length-remove-lt k v ((j, w) ∷ d) (inr m) = elim (Bool-cases (j =? k)) [
  | inl same ↦ rw same (omega (arith, length-remove-le k d))
  | inr other ↦ rw other (omega (arith, length-remove-lt k v d m))
]

In-insert_oldest :
    (x item : Key × HistoryValue) (d : Dict Key HistoryValue)
    → In x (insert_oldest item d)
    → (x ≡ item) ⊎ In x d
unfolding insert_oldest
In-insert_oldest x item [] m = m
In-insert_oldest x item (other ∷ rest) m =
    elim (Bool-cases (int_leb item.1.pc_seq other.1.pc_seq)) [
      | inl older ↦ rw older at m
      | inr newer ↦ elim (rw newer at m) [
        | inl e ↦ inr (inl e)
        | inr later ↦ elim (In-insert_oldest x item rest later) [
          | inl e ↦ inl e
          | inr old ↦ inr (inr old)
        ]
      ]
    ]

In-by_age : (x : Key × HistoryValue) (d : Dict Key HistoryValue) → In x (by_age d) → In x d
unfolding by_age
In-by_age x [] m = m
In-by_age x (item ∷ items) m = elim (In-insert_oldest x item (by_age items) m) [
  | inl e ↦ inl e
  | inr old ↦ inr (In-by_age x items old)
]

length-insert_oldest :
    (item : Key × HistoryValue) (d : Dict Key HistoryValue)
    → length (insert_oldest item d) ≡ suc (length d)
unfolding insert_oldest
length-insert_oldest item [] = refl
length-insert_oldest item (other ∷ rest) = ground (arith, length-insert_oldest item rest)

length-by_age : (d : Dict Key HistoryValue) → length (by_age d) ≡ length d
unfolding by_age
length-by_age [] = refl
length-by_age (item ∷ items) =
    omega (arith, length-insert_oldest item (by_age items), length-by_age items)

-- One value too many is taken away.
remove_oldest :
    (d : Dict Key HistoryValue) (bound : ℕ)
    → length d ≤ suc bound
    → length (remove_keys (take (length d - bound) (by_age d)) d) ≤ bound
unfolding remove_keys
remove_oldest d bound h = elim (dec_lt bound (length d)) [
  | no within ↦ let none_over : length d - bound ≡ 0 = omega arith in rw none_over (omega arith)
  | yes over ↦
      let one_over : length d - bound ≡ 1 = omega arith in
      elim (List-cases (by_age d)) [
        | inl e ↦ absurd (omega (arith, length-by_age d, ap length e))
        | inr (item, rest, e) ↦
            rw (one_over, e)
              (omega (arith, length-remove-lt item.0 item.1 d (In-by_age item d (rw e (inl refl)))))
      ]
]

remember-IsSound : (r : RecoveryRecord) (s : Recovery) → IsSound s → IsSound (remember r s)
unfolding remember prune_history
remember-IsSound r s v = record {
  bounded =
      remove_oldest _ s.max_history
        (omega (arith, v.bounded, length-put-le (r.function_ea, r.lvar_index) _ s.history));
  records_current = v.records_current;
  pending_current = v.pending_current;
}

pub mark_fresh-IsSound :
    (index : ℕ) (value confidence : String) (r : RecoveryRecord) (s : Recovery)
    → (some r.current_pc_seq ≡ s.pc_seq) × (r.current_runtime_pc ≡ s.runtime_pc)
    → IsSound s
    → IsSound (mark_fresh index value confidence r s)
unfolding mark_fresh
mark_fresh-IsSound index value confidence r s at v =
    let fresh = fresh_record value confidence r in
    remember-IsSound fresh (store index fresh s) (
      store-IsSound index fresh s
        (set-IsRecordOf index fresh r s.pc_seq s.runtime_pc
          (fresh_record-SameContext value confidence r) (fresh_record-IsHonest value confidence r)
          at)
        v)
