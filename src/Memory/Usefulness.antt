-- ===== src/Memory/Usefulness.antt =====
-- The usefulness of rows under the writes of services/memory/service.py.
use ae_cwap.Memory.{
  Outside, prune_if_needed, MemoryRow, MemoryScope, in_scope, max_of, min_of, strengthened,
  memory_call, default_capacity, remember, reinforce, forget, forget_entry, MemoryCall,
  find_duplicate, embed_text, new_row, has_id, MemoryWriteRequest, worth_le,
}
use ae_cwap.Memory.Pruning.{IsOrder}
use ae_cwap.Common.Tables.{update_where, select_one}
use ae_cwap.Prelude.{
  ◌≡◌, List, ℕ, All, ◌≤◌, true, String, Bool, ◌++◌, keep, ◌∷◌, Bool-cases, All-of_In, [], All-In,
  leb, inl, inr, In-keep, length, arith, ◌==◌, Option-cases, ◌⊎◌, subst, sym, map, take, ◌-◌, refl,
  sorted, not, contains,
}

-- what the constants of the service and adding to a float are asked to be
pub record IsScale {U : Type 0} (O : Outside U) : Type 0 where
  pub mono : (n m : ℕ) → n ≤ m → O.le (O.hundredths n) (O.hundredths m) ≡ true
  pub grows : (x : U) (n : ℕ) → O.le x (O.plus x (O.hundredths n)) ≡ true

module _ {U : Type 0} (O : Outside U) where
  -- between nothing and ten
  abbrev pub IsWithin : MemoryRow U → Type 0
  IsWithin r =
      (O.le (O.hundredths 0) r.usefulness ≡ true) × (O.le r.usefulness (O.hundredths 1000) ≡ true)

  All-keep :
      (test : MemoryRow U → Bool) (rows : List (MemoryRow U))
      → All IsWithin rows
      → All IsWithin (keep test rows)
  All-keep test rows h =
      All-of_In IsWithin (keep test rows)
        (λ r m. All-In IsWithin rows r h (In-keep test rows r m).0)

  All-update_where :
      (holds : MemoryRow U → Bool) (change : MemoryRow U → MemoryRow U) (rows : List (MemoryRow U))
      → ((r : MemoryRow U) → IsWithin r → IsWithin (change r))
      → All IsWithin rows
      → All IsWithin (update_where holds change rows)
  unfolding update_where
  All-update_where holds change [] k h = tt
  All-update_where holds change (r ∷ rows) k h = elim (Bool-cases (holds r)) [
    | inl b ↦ rw b (k r h.0, All-update_where holds change rows k h.1)
    | inr b ↦ rw b (h.0, All-update_where holds change rows k h.1)
  ]

  All-snoc :
      (rows : List (MemoryRow U)) (r : MemoryRow U)
      → All IsWithin rows
      → IsWithin r
      → All IsWithin (rows ++ r ∷ [])
  All-snoc [] r h k = (k, tt)
  All-snoc (x ∷ rows) r h k = (h.0, All-snoc rows r h.1 k)

  -- pruning leaves the table, or the rows that pass a test
  pub prune_cases :
      (tenant_id : String) (scope : MemoryScope) (scope_id : String) (rows : List (MemoryRow U))
      → let left = (prune_if_needed O tenant_id scope scope_id default_capacity rows).0 in
        (left ≡ rows) ⊎ ((test : MemoryRow U → Bool) × (left ≡ keep test rows))
  unfolding prune_if_needed
  prune_cases tenant_id scope scope_id rows =
      let mine = keep (in_scope O tenant_id scope scope_id) rows in
      let ids =
        map (λ (r : MemoryRow U). r.id)
          (take (length mine - default_capacity) (sorted (worth_le O) mine)) in
      elim (Bool-cases (leb (length mine) default_capacity)) [
        | inl b ↦ inl (rw b refl)
        | inr b ↦ inr ((λ (r : MemoryRow U). not (contains ids r.id)), rw b refl)
      ]

  All-prune :
      (tenant_id : String) (scope : MemoryScope) (scope_id : String) (rows : List (MemoryRow U))
      → All IsWithin rows
      → All IsWithin (prune_if_needed O tenant_id scope scope_id default_capacity rows).0
  All-prune tenant_id scope scope_id rows h = elim (prune_cases tenant_id scope scope_id rows) [
    | inl e ↦ subst (λ l. All IsWithin l) (sym e) h
    | inr (test, e) ↦ subst (λ l. All IsWithin l) (sym e) (All-keep test rows h)
  ]

  -- a write leaves the table, strengthens a row, or adds one and prunes
  pub written_cases :
      (request : MemoryWriteRequest) (id : String) (now : ℕ) (rows : List (MemoryRow U))
      → let rows' = memory_call O (MemoryCall.written request id now) rows in
        (rows' ≡ rows)
        ⊎ (((old : String) × (rows' ≡ update_where (has_id O old) (strengthened O) rows))
            ⊎ (rows'
                ≡ (prune_if_needed O request.tenant_id request.scope request.scope_id
                    default_capacity
                    (rows ++ new_row O request id now ∷ [])).0))
  unfolding memory_call remember
  written_cases request id now rows =
      let t = O.strip request.text in
      elim (Bool-cases (t == "")) [
        | inl b ↦ inl (ground (arith, b))
        | inr b ↦ elim (Option-cases (find_duplicate O request (embed_text O t).0 t rows)) [
          | inl n ↦ inr (inr (ground (arith, b, n)))
          | inr (old, n) ↦ elim (Option-cases (select_one (has_id O old) rows)) [
            | inl g ↦ inl (ground (arith, b, n, g))
            | inr (r, g) ↦ inr (inl (old, ground (arith, b, n, g)))
          ]
        ]
      ]

  module _ (o : IsOrder O) (c : IsScale O) where
    strengthened-IsWithin : (r : MemoryRow U) → IsWithin r → IsWithin (strengthened O r)
    strengthened-IsWithin r (a, b) =
        let up = O.plus r.usefulness (O.hundredths 50) in
        let z : O.le (O.hundredths 0) up ≡ true =
          o.trans (O.hundredths 0) r.usefulness up a (c.grows r.usefulness 50) in
        elim (Bool-cases (O.le (O.hundredths 1000) up)) [
          | inl q ↦ rw q (c.mono 0 1000 (omega arith), c.mono 1000 1000 (omega arith))
          | inr q ↦ rw q (z, o.total (O.hundredths 1000) up q)
        ]

    at_most_ten : (x : U) → O.le (min_of O (O.hundredths 1000) x) (O.hundredths 1000) ≡ true
    at_most_ten x = elim (Bool-cases (O.le (O.hundredths 1000) x)) [
      | inl q ↦ rw q (c.mono 1000 1000 (omega arith))
      | inr q ↦ rw q (o.total (O.hundredths 1000) x q)
    ]

    clamped-IsWithin :
        (x : U)
        → O.le x (O.hundredths 1000) ≡ true
        → (O.le (O.hundredths 0) (max_of O (O.hundredths 0) x) ≡ true)
          × (O.le (max_of O (O.hundredths 0) x) (O.hundredths 1000) ≡ true)
    clamped-IsWithin x h = elim (Bool-cases (O.le x (O.hundredths 0))) [
      | inl q ↦ rw q (c.mono 0 0 (omega arith), c.mono 0 1000 (omega arith))
      | inr q ↦ rw q (o.total x (O.hundredths 0) q, h)
    ]

    pub memory_call-IsWithin :
        (call : MemoryCall U) (rows : List (MemoryRow U))
        → All IsWithin rows
        → All IsWithin (memory_call O call rows)
    unfolding memory_call reinforce forget forget_entry
    memory_call-IsWithin (MemoryCall.written request id now) rows h =
        let r = new_row O request id now in
        elim (written_cases request id now rows) [
          | inl e ↦ subst (λ l. All IsWithin l) (sym e) h
          | inr (inl (old, e)) ↦
              subst (λ l. All IsWithin l) (sym e)
                (All-update_where (has_id O old) (strengthened O) rows strengthened-IsWithin h)
          | inr (inr e) ↦
              subst (λ l. All IsWithin l) (sym e)
                (All-prune request.tenant_id request.scope request.scope_id (rows ++ r ∷ [])
                  (All-snoc rows r h (c.mono 0 100 (omega arith), c.mono 100 1000 (omega arith))))
        ]
    memory_call-IsWithin (MemoryCall.reinforced [] delta) rows h = h
    memory_call-IsWithin (MemoryCall.reinforced (i ∷ ids) delta) rows h =
        All-update_where _ _ rows
          (λ r _.
            clamped-IsWithin (min_of O (O.hundredths 1000) (O.plus r.usefulness delta))
              (at_most_ten (O.plus r.usefulness delta)))
          h
    memory_call-IsWithin (MemoryCall.forgotten tenant_id scope scope_id) rows h = All-keep _ rows h
    memory_call-IsWithin (MemoryCall.entry_forgotten tenant_id id) rows h = All-keep _ rows h
