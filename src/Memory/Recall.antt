-- ===== src/Memory/Recall.antt =====
-- `recall` of services/memory/service.py.
use ae_cwap.Memory.{
  Outside, RecallRequest, MemoryRow, min_usefulness, embed_text, relevance, in_scope, tokens,
}
use ae_cwap.Prelude.{
  Option, String, Bool, if◌then◌else◌, ℕ, List, ◌∷◌, take, [], keep, ltb, ◌&&◌, map, sorted,
  contains, leb, not, length, ◌-◌, ◌++◌, true,
}

module _ {U : Type 0} (O : Outside U) where
  -- the order of `-score`
  abbrev pub score_le : U × MemoryRow U → U × MemoryRow U → Bool
  score_le (a, r) (b, s) = O.le b a

  -- the order of `-usefulness, created_at`
  abbrev pub standing_le : MemoryRow U → MemoryRow U → Bool
  standing_le a b =
      if O.le a.usefulness b.usefulness
      then O.le b.usefulness a.usefulness && leb a.created_at b.created_at
      else true

  abbrev pub is_useful : MemoryRow U → Bool
  is_useful r = O.le (min_usefulness O) r.usefulness

  unfoldable pub scored_rows :
      Option (List U) → String → List String → List (MemoryRow U) → List (U × MemoryRow U)
  scored_rows e i ts [] = []
  scored_rows e i ts (r ∷ rows) =
      let rest = scored_rows e i ts rows in
      if is_useful r && not (O.le (relevance O e i ts r) (O.hundredths 0))
      then (O.times (relevance O e i ts r) (O.plus (O.hundredths 100) (O.log1p r.usefulness)), r)
        ∷ rest
      else rest

  -- what `scored` is extended by
  unfoldable pub standing_rows :
      ℕ → List (U × MemoryRow U) → List (MemoryRow U) → List (U × MemoryRow U)
  standing_rows limit scored candidates =
      let matched = map (λ (p : U × MemoryRow U). p.1.id) scored in
      if ltb (length scored) limit
      then map (λ r. (O.hundredths 0, r))
          (take (limit - length scored) (
            sorted standing_le
              (keep (λ (r : MemoryRow U). not (contains matched r.id) && is_useful r) candidates)))
      else []

  -- the rows whose entries are recalled
  unfoldable pub recall : RecallRequest → List (MemoryRow U) → List (MemoryRow U)
  recall request rows =
      let (e, i) = embed_text O request.query in
      let candidates = keep (in_scope O request.tenant_id request.scope request.scope_id) rows in
      let scored = sorted score_le (scored_rows e i (tokens O request.query) candidates) in
      map (λ (p : U × MemoryRow U). p.1)
        (take request.limit (scored ++ standing_rows request.limit scored candidates))
