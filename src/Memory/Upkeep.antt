-- ===== src/Memory/Upkeep.antt =====
-- What every sequence of writes of services/memory/service.py keeps.
use ae_cwap.Memory.Writing.{length-keep-update_where}
use ae_cwap.Memory.{
  Outside, prune_if_needed, MemoryRow, MemoryScope, in_scope, strengthened, memory_call,
  default_capacity, reinforce, forget, forget_entry, MemoryCall, new_row, has_id,
  MemoryWriteRequest, memory_calls, scope_value,
}
use ae_cwap.Memory.Pruning.{IsOrder, prune-le}
use ae_cwap.Prelude.{
  ◌≡◌, List, ℕ, All, ◌≤◌, true, String, Bool, ◌++◌, keep, ◌∷◌, Bool-cases, [], inl, inr, length,
  arith, ap, keep_swap, length-keep-le, ◌==◌, subst, ◌&&◌, keep-append, sym, ◌∙◌, refl, append-nil,
  eq_iff,
}
use ae_cwap.Memory.Usefulness.{IsScale, IsWithin, prune_cases, written_cases, memory_call-IsWithin}

module _ {U : Type 0} (O : Outside U) where
  -- every scope is within its capacity
  abbrev IsRoomy : List (MemoryRow U) → Type 0
  IsRoomy rows =
      (tenant_id : String) (scope : MemoryScope) (scope_id : String)
      → length (keep (in_scope O tenant_id scope scope_id) rows) ≤ default_capacity

  keep-IsRoomy :
      (test : MemoryRow U → Bool) (rows : List (MemoryRow U))
      → IsRoomy rows
      → IsRoomy (keep test rows)
  keep-IsRoomy test rows h tenant_id scope scope_id =
      let P = in_scope O tenant_id scope scope_id in
      omega (
        arith,
        ap (λ l. length l) (keep_swap P test rows),
        length-keep-le test (keep P rows),
        h tenant_id scope scope_id,
      )

  prune_shorter :
      (P : MemoryRow U → Bool) (tenant_id : String) (scope : MemoryScope) (scope_id : String)
      (rows : List (MemoryRow U))
      → length (keep P (prune_if_needed O tenant_id scope scope_id default_capacity rows).0)
        ≤ length (keep P rows)
  prune_shorter P tenant_id scope scope_id rows =
      elim (prune_cases O tenant_id scope scope_id rows) [
        | inl e ↦ omega (arith, ap (λ l. length (keep P l)) e)
        | inr (test, e) ↦ omega (
          arith,
          ap (λ l. length (keep P l)) e,
          ap (λ l. length l) (keep_swap P test rows),
          length-keep-le test (keep P rows),
        )
      ]

  abbrev scope_test : String → String → String → MemoryRow U → Bool
  scope_test a b c r = (r.tenant_id == a) && (r.scope == b) && (r.scope_id == c)

  -- adding a row and pruning its scope keeps every scope within its capacity
  added-IsRoomy :
      (request : MemoryWriteRequest) (id : String) (now : ℕ) (rows : List (MemoryRow U))
      → IsRoomy rows
      → IsRoomy
          (prune_if_needed O request.tenant_id request.scope request.scope_id default_capacity
            (rows ++ new_row O request id now ∷ [])).0
  added-IsRoomy request id now rows h tenant_id scope scope_id =
      let r = new_row O request id now in
      let more = rows ++ r ∷ [] in
      let left =
        (prune_if_needed O request.tenant_id request.scope request.scope_id default_capacity
          more).0 in
      let fits : String → String → String → Type 0 =
        λ a b c. length (keep (scope_test a b c) left) ≤ default_capacity in
      let P = in_scope O tenant_id scope scope_id in
      elim (Bool-cases (P r)) [
        | inr b ↦
            let e : keep P more ≡ keep P rows =
              keep-append P rows (r ∷ []) ∙ rw b (append-nil (keep P rows)) in
            omega (
              arith,
              prune_shorter P request.tenant_id request.scope request.scope_id more,
              ap (λ l. length l) e,
              h tenant_id scope scope_id,
            )
        | inl b ↦
            let v = scope_value in
            let i : fits request.tenant_id (v request.scope) request.scope_id =
              prune-le O request.tenant_id request.scope request.scope_id default_capacity more in
            let p : request.tenant_id ≡ tenant_id =
              ground (arith, b, eq_iff request.tenant_id tenant_id) in
            let q : v request.scope ≡ v scope =
              ground (arith, b, eq_iff (v request.scope) (v scope)) in
            let s : request.scope_id ≡ scope_id =
              ground (arith, b, eq_iff request.scope_id scope_id) in
            subst (λ z. fits tenant_id (v scope) z) s
              (subst (λ y. fits tenant_id y request.scope_id) q
                (subst (λ x. fits x (v request.scope) request.scope_id) p i))
      ]

  memory_call-IsRoomy :
      (call : MemoryCall U) (rows : List (MemoryRow U))
      → IsRoomy rows
      → IsRoomy (memory_call O call rows)
  unfolding memory_call reinforce forget forget_entry
  memory_call-IsRoomy (MemoryCall.written request id now) rows h =
      elim (written_cases O request id now rows) [
        | inl e ↦ subst IsRoomy (sym e) h
        | inr (inl (old, e)) ↦ subst IsRoomy (sym e) (λ a b c.
            subst (λ n. n ≤ default_capacity)
              (sym (
                length-keep-update_where O (in_scope O a b c) (has_id O old) (strengthened O)
                  (λ _. refl) rows))
              (h a b c))
        | inr (inr e) ↦ subst IsRoomy (sym e) (added-IsRoomy request id now rows h)
      ]
  memory_call-IsRoomy (MemoryCall.reinforced [] delta) rows h = h
  memory_call-IsRoomy (MemoryCall.reinforced (i ∷ ids) delta) rows h = λ a b c.
      subst (λ n. n ≤ default_capacity)
        (sym (length-keep-update_where O (in_scope O a b c) _ _ (λ _. refl) rows)) (h a b c)
  memory_call-IsRoomy (MemoryCall.forgotten tenant_id scope scope_id) rows h = keep-IsRoomy _ rows h
  memory_call-IsRoomy (MemoryCall.entry_forgotten tenant_id id) rows h = keep-IsRoomy _ rows h

  -- Where floats are ordered as numbers are: whatever is written, reinforced by whatever amount and
  -- forgotten, in any order and from an empty table on, every row's usefulness stays between 0 and
  -- 10, and no scope of a tenant ever holds more than its 500 rows.
  pub memory_calls_lem :
      (calls : List (MemoryCall U))
      → IsOrder O
      → IsScale O
      → All
          (λ (r : MemoryRow U).
            (O.le (O.hundredths 0) r.usefulness ≡ true)
            × (O.le r.usefulness (O.hundredths 1000) ≡ true))
          (memory_calls O calls [])
        × ((tenant_id : String) (scope : MemoryScope) (scope_id : String)
            → length (keep (in_scope O tenant_id scope scope_id) (memory_calls O calls []))
              ≤ default_capacity)
  memory_calls_lem calls o c = kept calls [] tt (λ _ _ _. omega arith)
    where
      kept :
          (calls : List (MemoryCall U)) (rows : List (MemoryRow U))
          → All (IsWithin O) rows
          → IsRoomy rows
          → All (IsWithin O) (memory_calls O calls rows) × IsRoomy (memory_calls O calls rows)
      kept [] rows h k = (h, k)
      kept (call ∷ calls) rows h k =
          kept calls (memory_call O call rows) (memory_call-IsWithin O o c call rows h)
            (memory_call-IsRoomy call rows k)
