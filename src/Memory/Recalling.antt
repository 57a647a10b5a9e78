-- ===== src/Memory/Recalling.antt =====
-- `recall` of services/memory/service.py.
use ae_cwap.Memory.{Outside, RecallRequest, MemoryRow, in_scope, relevance, embed_text, tokens}
use ae_cwap.Memory.Recall.{scored_rows, is_useful, score_le, standing_rows, recall, standing_le}
use ae_cwap.Memory.Pruning.{IsKeyed}
use ae_cwap.Prelude.{
  ◌≡◌, List, length, In, Option, map, String, Bool, ◌∷◌, keep, ap, true, inl, inr, ◌∙◌, ◌&&◌, suc,
  Bool-cases, [], not, refl, ◌⊎◌, sym, All, sorted, contains, ◌+◌, contains-map, In-sorted, arith,
  contains_of_In, sorted_In, ℕ, min, take, ◌++◌, In-append, In-keep, ltb, All-of_In, In-take, ◌<◌,
  false, subst, ◌≤◌, ◌-◌, length-sorted, length-take, length-append,
}

In-map :
    {A B : Type 0} (f : A → B) (xs : List A) (b : B)
    → In b (map f xs)
    → (a : A) × In a xs × (f a ≡ b)
In-map f [] b m = absurd m
In-map f (x ∷ xs) b (inl e) = (x, inl refl, e)
In-map f (x ∷ xs) b (inr m) = let (a, k, e) = In-map f xs b m in (a, inr k, e)

length-map : {A B : Type 0} (f : A → B) (xs : List A) → length (map f xs) ≡ length xs
length-map f [] = refl
length-map f (x ∷ xs) = ap suc (length-map f xs)

module _ {U : Type 0} (O : Outside U) where
  abbrev pub rows_of : RecallRequest → List (MemoryRow U) → List (MemoryRow U)
  rows_of request rows = keep (in_scope O request.tenant_id request.scope request.scope_id) rows

  module _ (e : Option (List U)) (i : String) (ts : List String) where
    abbrev is_hit : MemoryRow U → Bool
    is_hit r = is_useful O r && not (O.le (relevance O e i ts r) (O.hundredths 0))

    abbrev ids_in : List (U × MemoryRow U) → List String
    ids_in scored = map (λ (p : U × MemoryRow U). p.1.id) scored

    -- a scored row is a candidate that was hit
    scored_hit :
        (rows : List (MemoryRow U)) (p : U × MemoryRow U)
        → In p (scored_rows O e i ts rows)
        → In p.1 rows × (is_hit p.1 ≡ true)
    unfolding scored_rows
    scored_hit [] p m = absurd m
    scored_hit (r ∷ rows) p m = elim (Bool-cases (is_hit r)) [
      | inr b ↦
          let m' : In p (scored_rows O e i ts rows) = rw b at m in
          let (k, h) = scored_hit rows p m' in (inr k, h)
      | inl b ↦
          let m' : (scored r ≡ p) ⊎ In p (scored_rows O e i ts rows) = rw b at m in
          elim m' [
            | inl q ↦ (inl (ap (λ x. x.1) q), ap (λ x. is_hit x.1) (sym q) ∙ b)
            | inr k ↦ let (k', h) = scored_hit rows p k in (inr k', h)
          ]
    ]
      where
        scored : MemoryRow U → U × MemoryRow U
        scored r =
            (O.times (relevance O e i ts r) (O.plus (O.hundredths 100) (O.log1p r.usefulness)), r)

    hit_scored :
        (rows : List (MemoryRow U)) (r : MemoryRow U)
        → In r rows
        → is_hit r ≡ true
        → (u : U) × In (u, r) (scored_rows O e i ts rows)
    unfolding scored_rows
    hit_scored [] r m h = absurd m
    hit_scored (x ∷ rows) r (inl q) h =
        let b : is_hit x ≡ true = ap is_hit q ∙ h in
        (
          O.times (relevance O e i ts x) (O.plus (O.hundredths 100) (O.log1p x.usefulness)),
          rw b (
              inl (
                ap
                  (λ y. (
                    O.times (relevance O e i ts x)
                        (O.plus (O.hundredths 100) (O.log1p x.usefulness)),
                    y,
                  ))
                  q)),
        )
    hit_scored (x ∷ rows) r (inr m) h =
        let (u, k) = hit_scored rows r m h in
        elim (Bool-cases (is_hit x)) [ inl b ↦ (u, rw b (inr k)) | inr b ↦ (u, rw b k) ]

    abbrev hits_of : List (MemoryRow U) → List (U × MemoryRow U)
    hits_of rows = sorted (score_le O) (scored_rows O e i ts rows)

    matched_eq :
        (rows : List (MemoryRow U)) (r : MemoryRow U)
        → IsKeyed rows
        → In r rows
        → contains (ids_in (hits_of rows)) r.id ≡ is_hit r
    matched_eq rows r keyed r_in =
        let id_of : U × MemoryRow U → String = λ p. p.1.id in
        let scored = scored_rows O e i ts rows in
        elim (Bool-cases (contains (ids_in (hits_of rows)) r.id)) [
          | inl b ↦
              let (p, m, q) = contains-map id_of (hits_of rows) r.id b in
              let (x_in, h) = scored_hit rows p (In-sorted (score_le O) scored p m) in
              b ∙ sym h ∙ ap is_hit (keyed p.1 r x_in r_in q)
          | inr b ↦ elim (Bool-cases (is_hit r)) [
            | inr h ↦ b ∙ sym h
            | inl h ↦
                let (u, m) = hit_scored rows r r_in h in
                absurd (
                  ground (
                    arith,
                    b,
                    contains_of_In id_of (hits_of rows) (u, r)
                        (sorted_In (score_le O) scored (u, r) m),
                  ))
          ]
        ]

    -- what is useful was hit or is left to the standing rows
    hits_and_rest :
        (matched : List String) (rows : List (MemoryRow U))
        → All (λ (r : MemoryRow U). contains matched r.id ≡ is_hit r) rows
        → length (scored_rows O e i ts rows)
            + length (keep (λ (r : MemoryRow U). not (contains matched r.id) && is_useful O r) rows)
          ≡ length (keep (is_useful O) rows)
    unfolding scored_rows
    hits_and_rest matched [] h = omega arith
    hits_and_rest matched (r ∷ rows) (q, h) =
        let ih = hits_and_rest matched rows h in
        elim (Bool-cases (is_hit r)) [
          | inl b ↦
              let u : is_useful O r ≡ true = ground (arith, b) in rw (q, b, u) (omega (arith, ih))
          | inr b ↦ elim (Bool-cases (is_useful O r)) [
            | inl u ↦ rw (q, b, u) (omega (arith, ih))
            | inr u ↦ rw (q, b, u) (omega (arith, ih))
          ]
        ]

    -- how many are recalled
    length-topped :
        (limit : ℕ) (rows : List (MemoryRow U))
        → IsKeyed rows
        → length (take limit (hits_of rows ++ standing_rows O limit (hits_of rows) rows))
          ≡ min limit (length (keep (is_useful O) rows))
    unfolding standing_rows
    length-topped limit rows keyed =
        let hits = hits_of rows in
        let rest =
          keep (λ (r : MemoryRow U). not (contains (ids_in hits) r.id) && is_useful O r) rows in
        let total = hits_and_rest (ids_in hits) rows (
          All-of_In (λ (r : MemoryRow U). contains (ids_in hits) r.id ≡ is_hit r) rows
            (λ r m. matched_eq rows r keyed m)) in
        let n = length-sorted (score_le O) (scored_rows O e i ts rows) in
        elim (Bool-cases (ltb (length hits) limit)) [
          | inl b ↦
              let pair : MemoryRow U → U × MemoryRow U = λ r. (O.hundredths 0, r) in
              let chosen = take (limit - length hits) (sorted (standing_le O) rest) in
              let c = length-take (limit - length hits) (sorted (standing_le O) rest) in
              rw b (
                omega (
                  arith,
                  total,
                  n,
                  c,
                  length-sorted (standing_le O) rest,
                  length-map pair chosen,
                  length-append hits (map pair chosen),
                  length-take limit (hits ++ map pair chosen),
                  limit_of b,
                ))
          | inr b ↦ rw b (
              omega (
                arith,
                total,
                n,
                length-append hits [],
                length-take limit (hits ++ []),
                limit_over b,
              ))
        ]
      where
        limit_of : ltb (length (hits_of rows)) limit ≡ true → length (hits_of rows) < limit
        limit_of h = ground (arith, h)

        limit_over : ltb (length (hits_of rows)) limit ≡ false → limit ≤ length (hits_of rows)
        limit_over h = ground (arith, h)

    -- whence they come
    In-topped :
        (limit : ℕ) (rows : List (MemoryRow U)) (p : U × MemoryRow U)
        → In p (take limit (hits_of rows ++ standing_rows O limit (hits_of rows) rows))
        → In p.1 rows × (is_useful O p.1 ≡ true)
    unfolding standing_rows
    In-topped limit rows p m =
        let hits = hits_of rows in
        let standing = standing_rows O limit hits rows in
        elim (In-append hits standing p (In-take limit (hits ++ standing) p m)) [
          | inl k ↦
              let (r_in, h) =
                scored_hit rows p (In-sorted (score_le O) (scored_rows O e i ts rows) p k) in
              (r_in, ground (arith, h))
          | inr k ↦ elim (Bool-cases (ltb (length hits) limit)) [
            | inr b ↦ let k' : In p [] = rw b at k in absurd k'
            | inl b ↦
                let test : MemoryRow U → Bool =
                  λ r. not (contains (ids_in hits) r.id) && is_useful O r in
                let rest = keep test rows in
                let pair : MemoryRow U → U × MemoryRow U = λ r. (O.hundredths 0, r) in
                let ordered = sorted (standing_le O) rest in
                let chosen = take (limit - length hits) ordered in
                let k' : In p (map pair chosen) = rw b at k in
                let (r, c, q) = In-map pair chosen p k' in
                let (r_in, t) =
                  In-keep test rows r (
                    In-sorted (standing_le O) rest r (In-take (limit - length hits) ordered r c)) in
                subst (λ x. In x rows × (is_useful O x ≡ true)) (ap (λ x. x.1) q)
                  (r_in, ground (arith, t))
          ]
        ]

  -- Where an id is of one row: what is recalled are rows of the table, of the tenant, scope and
  -- scope id that were asked for and useful enough, and nothing else; and as many as the limit
  -- allows, or all that are useful enough where there are fewer.
  pub recall_lem :
      (request : RecallRequest) (rows : List (MemoryRow U))
      → IsKeyed rows
      → All
          (λ r.
            In r rows
            × (in_scope O request.tenant_id request.scope request.scope_id r ≡ true)
            × (is_useful O r ≡ true))
          (recall O request rows)
        × (length (recall O request rows)
            ≡ min request.limit (length (keep (is_useful O) (rows_of request rows))))
  unfolding recall
  recall_lem request rows keyed =
      let (e, i) = embed_text O request.query in
      let ts = tokens O request.query in
      let P = in_scope O request.tenant_id request.scope request.scope_id in
      let mine = keep P rows in
      let mine_keyed : IsKeyed mine =
        λ r s m n. keyed r s (In-keep P rows r m).0 (In-keep P rows s n).0 in
      let hits = hits_of e i ts mine in
      let picked = take request.limit (hits ++ standing_rows O request.limit hits mine) in
      (
        All-of_In (λ r. In r rows × (P r ≡ true) × (is_useful O r ≡ true))
            (map (λ (p : U × MemoryRow U). p.1) picked)
            (λ r m.
              let (p, k, q) = In-map (λ (x : U × MemoryRow U). x.1) picked r m in
              let (r_mine, u) = In-topped e i ts request.limit mine p k in
              let (r_in, t) = In-keep P rows p.1 r_mine in
              subst (λ y. In y rows × (P y ≡ true) × (is_useful O y ≡ true)) q (r_in, t, u)),
        length-map (λ (p : U × MemoryRow U). p.1) picked
            ∙ length-topped e i ts request.limit mine mine_keyed,
      )
