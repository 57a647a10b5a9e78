-- ===== src/Memory/Remembering.antt =====
-- What `remember` of services/memory/service.py makes of the table and returns.
use ae_cwap.Memory.{
  Outside, prune_if_needed, MemoryWriteRequest, MemoryRow, in_scope, min_of, kind_value, new_row,
  default_capacity, is_duplicate, embed_text,
}
use ae_cwap.Memory.Writing.{mine_of}
use ae_cwap.Prelude.{
  List, String, ◌∷◌, ℕ, Bool, All, length, ◌≡◌, ◌&&◌, true, ◌++◌, ◌==◌, [], false, ◌<◌, ◌≤◌,
}

module _ {U : Type 0} (O : Outside U) where
  -- an id is of one row only
  abbrev pub AreDistinct : List (MemoryRow U) → Type 0
  AreDistinct [] = Unit
  AreDistinct (r ∷ rows) = All (λ (x : MemoryRow U). (r.id == x.id) ≡ false) rows × AreDistinct rows

  -- a row of the request's scope and kind that says the same
  abbrev pub repeats : MemoryWriteRequest → MemoryRow U → Bool
  repeats request x =
      in_scope O request.tenant_id request.scope request.scope_id x
      && (x.kind == kind_value request.kind)
      && is_duplicate O (embed_text O (O.strip request.text)).0 (O.strip request.text) x

  -- What a write makes of the table, and the row it returns. A lesson that a row repeats makes that
  -- row half a point more useful, up to ten, and nothing else. A lesson that no row repeats is a new
  -- row at the table's end, if its scope has room; else the scope is cut down to its capacity with
  -- the new row among its rows.
  pub data IsRemembered (request : MemoryWriteRequest) (id : String) (now : ℕ)
      (rows rows' : List (MemoryRow U)) (r : MemoryRow U) : Type 0 where
    again :
        (before after : List (MemoryRow U)) (x : MemoryRow U)
        → rows ≡ before ++ x ∷ after
        → repeats request x ≡ true
        → r ≡ record x {
          usefulness = min_of O (O.hundredths 1000) (O.plus x.usefulness (O.hundredths 50));
        }
        → rows' ≡ before ++ r ∷ after
        → IsRemembered request id now rows rows' r
    fits :
        All (λ x. repeats request x ≡ false) rows
        → length (mine_of O request rows) < default_capacity
        → r ≡ new_row O request id now
        → rows' ≡ rows ++ r ∷ []
        → IsRemembered request id now rows rows' r
    crowds :
        All (λ x. repeats request x ≡ false) rows
        → default_capacity ≤ length (mine_of O request rows)
        → r ≡ new_row O request id now
        → rows'
          ≡ (prune_if_needed O request.tenant_id request.scope request.scope_id default_capacity
              (rows ++ r ∷ [])).0
        → length (mine_of O request rows') ≤ default_capacity
        → IsRemembered request id now rows rows' r
