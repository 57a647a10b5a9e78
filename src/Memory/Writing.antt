-- ===== src/Memory/Writing.antt =====
-- `remember` of services/memory/service.py.
use ae_cwap.Common.Tables.{update_where}
use ae_cwap.Memory.Pruning.{IsOrder}
use ae_cwap.Memory.{
  Outside, MemoryRow, remember, find_duplicate, MemoryWriteRequest, prune_if_needed, in_scope,
  default_capacity, embed_text, new_row, worth_le, scope_value,
}
use ae_cwap.Prelude.{
  ◌≡◌, String, Bool, List, ℕ, keep, All, length, false, ◌==◌, ◌++◌, ◌∷◌, [], inl, ok, arith, inr,
  Bool-cases, none, refl, take, true, not, eq_self, ◌||◌, keep-append, ◌∙◌, length-append,
  append-nil, keep-eq_self, sorted_lowest,
}

module _ {U : Type 0} (O : Outside U) where
  abbrev pub mine_of : MemoryWriteRequest → List (MemoryRow U) → List (MemoryRow U)
  mine_of request rows = keep (in_scope O request.tenant_id request.scope request.scope_id) rows

  -- an update that leaves what a test reads leaves the number that pass it
  pub length-keep-update_where :
      (test holds : MemoryRow U → Bool) (change : MemoryRow U → MemoryRow U)
      → ((r : MemoryRow U) → test (change r) ≡ test r)
      → (rows : List (MemoryRow U))
      → length (keep test (update_where holds change rows)) ≡ length (keep test rows)
  unfolding update_where
  length-keep-update_where test holds change h [] = refl
  length-keep-update_where test holds change h (r ∷ rows) = elim (Bool-cases (holds r)) [
    | inl b ↦ rw b (ground (arith, h r, length-keep-update_where test holds change h rows))
    | inr b ↦ rw b (ground (arith, length-keep-update_where test holds change h rows))
  ]

  prune_lowest :
      (request : MemoryWriteRequest) (rows : List (MemoryRow U)) (r : MemoryRow U)
      → in_scope O request.tenant_id request.scope request.scope_id r ≡ true
      → length (mine_of request rows) ≡ default_capacity
      → All (λ x. worth_le O x r ≡ false) (mine_of request rows)
      → All (λ (x : MemoryRow U). (r.id == x.id) ≡ false) rows
      → (prune_if_needed O request.tenant_id request.scope request.scope_id default_capacity
          (rows ++ r ∷ [])).0
        ≡ rows
  unfolding prune_if_needed take
  prune_lowest request rows r p l worse fresh =
      let P = in_scope O request.tenant_id request.scope request.scope_id in
      let m : keep P (rows ++ r ∷ []) ≡ keep P rows ++ r ∷ [] =
        keep-append P rows (r ∷ []) ∙ rw p refl in
      let n : length (keep P rows ++ r ∷ []) ≡ 501 =
        omega (arith, length-append (keep P rows) (r ∷ []), l) in
      let test : MemoryRow U → Bool = λ x. not ((r.id == x.id) || false) in
      let left : keep test (rows ++ r ∷ []) ≡ rows =
        keep-append test rows (r ∷ [])
        ∙ ground (arith, eq_self r.id, append-nil (keep test rows))
        ∙ keep-eq_self test rows (passes rows fresh) in
      rw m (rw n (rw (sorted_lowest (worth_le O) (keep P rows) r worse) left))
    where
      passes :
          (xs : List (MemoryRow U))
          → All (λ (x : MemoryRow U). (r.id == x.id) ≡ false) xs
          → All (λ (x : MemoryRow U). not ((r.id == x.id) || false) ≡ true) xs
      passes [] h = tt
      passes (x ∷ xs) h = (ground (arith, h.0), passes xs h.1)

  -- A lesson that is new to a full scope, of which every row has proved more useful than a new row
  -- counts as, is not kept: `remember` returns an entry, and leaves the table as it was.
  pub remember_full :
      (request : MemoryWriteRequest) (id : String) (now : ℕ) (rows : List (MemoryRow U))
      → IsOrder O
      → (O.strip request.text == "") ≡ false
      → find_duplicate O request (embed_text O (O.strip request.text)).0 (O.strip request.text) rows
        ≡ none
      → length (mine_of request rows) ≡ default_capacity
      → All
          (λ (r : MemoryRow U). O.le r.usefulness (O.hundredths 100) ≡ false)
          (mine_of request rows)
      → All (λ (r : MemoryRow U). (id == r.id) ≡ false) rows
      → remember O request id now rows ≡ ok (rows, new_row O request id now)
  unfolding remember prune_if_needed
  remember_full request id now rows o b n l better fresh =
      let r = new_row O request id now in
      let mine = mine_of request rows in
      let p : in_scope O request.tenant_id request.scope request.scope_id r ≡ true = ground (
        arith,
        eq_self request.tenant_id,
        eq_self (scope_value request.scope),
        eq_self request.scope_id,
      ) in
      let e = prune_lowest request rows r p l (worse mine better) fresh in
      rw b (ground (arith, n, e))
    where
      worse :
          (xs : List (MemoryRow U))
          → All (λ (x : MemoryRow U). O.le x.usefulness (O.hundredths 100) ≡ false) xs
          → All (λ x. worth_le O x (new_row O request id now) ≡ false) xs
      worse [] h = tt
      worse (x ∷ xs) h =
          (ground (arith, h.0, o.total x.usefulness (O.hundredths 100)), worse xs h.1)
