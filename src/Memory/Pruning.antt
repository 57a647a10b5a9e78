-- ===== src/Memory/Pruning.antt =====
-- `_prune_if_needed` of services/memory/service.py.
use ae_cwap.Memory.{Outside, prune_if_needed, MemoryRow, worth_le, MemoryScope, in_scope}
use ae_cwap.Prelude.{
  ◌≡◌, List, ℕ, take, false, length, In, String, Bool, true, contains, keep, arith, map, drop, not,
  ◌≤◌, inl, Bool-cases, inr, leb, ◌-◌, sorted, [], ap, keep-eq_nil, keep_swap, All-of_In, ◌∙◌, sym,
  take-append-drop, length-keep-sorted, keep-append, length-sorted, ◌++◌, length-keep-le,
  length-drop, contains_of_In,
}

-- what the comparison of floats is asked to be: a total order
pub record IsOrder {U : Type 0} (O : Outside U) : Type 0 where
  pub total : (x y : U) → O.le x y ≡ false → O.le y x ≡ true
  pub trans : (x y z : U) → O.le x y ≡ true → O.le y z ≡ true → O.le x z ≡ true

-- an id is of one row
abbrev pub IsKeyed : {U : Type 0} → List (MemoryRow U) → Type 0
IsKeyed {U} rows = (r s : MemoryRow U) → In r rows → In s rows → r.id ≡ s.id → r ≡ s

module _ {U : Type 0} where
  abbrev row_id : MemoryRow U → String
  row_id r = r.id

  abbrev ids_of : List (MemoryRow U) → List String
  ids_of rs = map row_id rs

  -- without those whose ids are among the first `k`, at most the others are left
  length_kept :
      (k : ℕ) (rs : List (MemoryRow U))
      → length (keep (λ (r : MemoryRow U). not (contains (ids_of (take k rs)) r.id)) rs)
        ≤ length rs - k
  length_kept k rs =
      let test : MemoryRow U → Bool = λ r. not (contains (ids_of (take k rs)) r.id) in
      let gone : keep test (take k rs) ≡ [] = keep-eq_nil test (take k rs) (
        All-of_In (λ r. test r ≡ false) (take k rs)
          (λ r m. ap not (contains_of_In row_id (take k rs) r m))) in
      let e : keep test rs ≡ keep test (drop k rs) =
        ap (keep test) (sym (take-append-drop k rs))
        ∙ keep-append test (take k rs) (drop k rs)
        ∙ ap (λ l. l ++ keep test (drop k rs)) gone in
      omega (arith, ap (λ l. length l) e, length-keep-le test (drop k rs), length-drop k rs)

module _ {U : Type 0} (O : Outside U) where
  -- what is left of a scope is at most its capacity
  pub prune-le :
      (tenant_id : String) (scope : MemoryScope) (scope_id : String) (capacity : ℕ)
      (rows : List (MemoryRow U))
      → length (
          keep
            (in_scope O tenant_id scope scope_id)
            (prune_if_needed O tenant_id scope scope_id capacity rows).0)
        ≤ capacity
  unfolding prune_if_needed
  prune-le tenant_id scope scope_id capacity rows =
      let P = in_scope O tenant_id scope scope_id in
      let mine = keep P rows in
      elim (Bool-cases (leb (length mine) capacity)) [
        | inl b ↦ rw b (ground (arith, b))
        | inr b ↦
            let k = length mine - capacity in
            let ordered = sorted (worth_le O) mine in
            let test : MemoryRow U → Bool = λ r. not (contains (ids_of (take k ordered)) r.id) in
            let e : length (keep P (keep test rows)) ≡ length (keep test ordered) =
              ap (λ l. length l) (keep_swap P test rows)
              ∙ sym (length-keep-sorted (worth_le O) test mine) in
            rw b (ground (arith, b, e, length_kept k ordered, length-sorted (worth_le O) mine))
      ]
