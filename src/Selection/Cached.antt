-- ===== src/Selection/Cached.antt =====
-- The cache of ida_plugin/dayvar_plugin.py: `AnalysisSelectionCache.select`.
use dynvar_sync.Base.{
  ℕ, Bool, true, false, Option, none, some, get, default, ◌≡◌, refl, ap, Bool-cases, inl, inr,
  list_beq_refl, str_eq_iff, int_beq_iff, ==_iff, ◌==◌, bool_beq, option_beq, nat_eq,
}
use dynvar_sync.Selection.{
  has, Cache, Key, Fingerprint, Request, key_of, is_key, same_key, same_fingerprint, select,
  select_recovery_candidate_indexes,
}
use dynvar_sync.Selection.Indexes.{has-sort_indexes}

bool_beq_refl : (b : Bool) → bool_beq b b ≡ true
bool_beq_refl true = refl
bool_beq_refl false = refl

option_beq_refl : (o : Option ℕ) → option_beq nat_eq o o ≡ true
option_beq_refl none = refl
option_beq_refl (some n) = (==_iff n n).1 refl

same_fingerprint_refl : (a : Fingerprint) → same_fingerprint a a ≡ true
same_fingerprint_refl a =
    rw
      (
        (==_iff a.lvar_index a.lvar_index).1 refl,
        (str_eq_iff a.name a.name).1 refl,
        (str_eq_iff a.type_string a.type_string).1 refl,
        (==_iff a.size a.size).1 refl,
        bool_beq_refl a.is_arg,
        option_beq_refl a.arg_index,
      )
      ((str_eq_iff a.lvar_defea a.lvar_defea).1 refl)

same_key_refl : (k : Key) → same_key k k ≡ true
unfolding same_key
same_key_refl k =
    rw
      (
        (int_beq_iff k.pc_seq k.pc_seq).1 refl,
        (==_iff k.function_ea k.function_ea).1 refl,
        (int_beq_iff k.current_ea k.current_ea).1 refl,
        (str_eq_iff k.active_filter k.active_filter).1 refl,
        list_beq_refl ◌==◌ (λ n. (==_iff n n).1 refl) k.watched,
      )
      (list_beq_refl same_fingerprint same_fingerprint_refl k.variables)

select-key : (r : Request) (cache : Cache) → is_key (key_of r) (select r cache).1.key ≡ true
unfolding select
select-key r cache = elim (Bool-cases (is_key (key_of r) cache.key)) [
  | inl hit ↦ rw hit hit
  | inr miss ↦ rw miss (same_key_refl (key_of r))
]

hit :
    (r : Request) (cache : Cache)
    → is_key (key_of r) cache.key ≡ true
    → select r cache ≡ (cache.indexes, cache)
unfolding select
hit r cache h = rw h refl

selected-held :
    (r : Request) (cache : Cache) (i : ℕ)
    → has i (select r cache).1.indexes ≡ has i (select r cache).0
unfolding select
selected-held r cache i = elim (Bool-cases (is_key (key_of r) cache.key)) [
  | inl same ↦ rw same refl
  | inr miss ↦
      let selected =
        (select_recovery_candidate_indexes r.variables r.previous_rows r.active_filter r.watched
          r.max_candidates (default 0 (get r.function_ea cache.cursor_by_function))).1 in
      rw miss (has-sort_indexes i selected)
]

-- After a selection, one with the same key selects the same indexes and changes nothing in the
-- cache, whatever rows were shown before and however many candidates are allowed.
pub select_again :
    (first again : Request) (cache : Cache)
    → key_of again ≡ key_of first
    → ((select again (select first cache).1).1 ≡ (select first cache).1)
      × ((i : ℕ) → has i (select again (select first cache).1).0 ≡ has i (select first cache).0)
select_again first again cache same =
    let after = (select first cache).1 in
    let e : select again after ≡ (after.indexes, after) =
      hit again after (rw same (select-key first cache)) in
    (ap (λ x. x.1) e, λ i. rw e (selected-held first cache i))
