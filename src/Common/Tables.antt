-- ===== src/Common/Tables.antt =====
-- The statements that packages/cwap_common/idempotency.py and services/orchestrator/runner.py
-- execute, on a table that is the list of its rows in the order of their ids.
use ae_cwap.Prelude.{
  inr, refl, inl, Bool-cases, arith, none, some, ◌≡◌, Option, any, if◌then◌else◌, Bool, true, false,
  List, [], ◌∷◌, ◌++◌,
}

module _ {Row : Type 0} where
  -- INSERT … ON CONFLICT DO NOTHING RETURNING id: the rows, and whether one was written
  unfoldable pub insert_once : (Row → Row → Bool) → List Row → Row → List Row × Bool
  insert_once conflicts rows row =
      if any (conflicts row) rows then (rows, false) else (rows ++ row ∷ [], true)

  -- UPDATE … WHERE holds
  unfoldable pub update_where : (Row → Bool) → (Row → Row) → List Row → List Row
  update_where holds change [] = []
  update_where holds change (r ∷ rows) =
      (if holds r then change r else r) ∷ update_where holds change rows

  -- the row that a query by a key returns
  unfoldable pub select_one : (Row → Bool) → List Row → Option Row
  select_one holds [] = none
  select_one holds (r ∷ rows) = if holds r then some r else select_one holds rows

  pub select_one-append :
      (holds : Row → Bool) (rows : List Row) (r : Row)
      → select_one holds (rows ++ r ∷ [])
        ≡ elim (select_one holds rows) [ none ↦ if holds r then some r else none | some c ↦ some c ]
  unfolding select_one
  select_one-append holds [] r = refl
  select_one-append holds (x ∷ rows) r = ground (arith, select_one-append holds rows r)

  pub select_one-eq-none :
      (holds : Row → Bool) (rows : List Row) → any holds rows ≡ false → select_one holds rows ≡ none
  unfolding select_one
  select_one-eq-none holds [] h = refl
  select_one-eq-none holds (x ∷ rows) h = ground (arith, select_one-eq-none holds rows, h)

  pub select_one-eq-some :
      (holds : Row → Bool) (rows : List Row)
      → any holds rows ≡ true
      → (r : Row) × (select_one holds rows ≡ some r) × (holds r ≡ true)
  unfolding select_one
  select_one-eq-some holds [] h = absurd cc
  select_one-eq-some holds (x ∷ rows) h = elim (Bool-cases (holds x)) [
    | inl b ↦ (x, rw b, b)
    | inr b ↦
        let (r, e, t) = select_one-eq-some holds rows (ground (arith, b, h)) in
        (r, ground (arith, b, e), t)
  ]

  -- an update that keeps a key changes the row of that key, if it changes it, where it stands
  pub select_one-update_where :
      (key holds : Row → Bool) (change : Row → Row) (rows : List Row)
      → ((r : Row) → key (change r) ≡ key r)
      → select_one key (update_where holds change rows) ≡ elim (select_one key rows) [
        | none ↦ none
        | some r ↦ some (if holds r then change r else r)
      ]
  unfolding select_one update_where
  select_one-update_where key holds change [] k = refl
  select_one-update_where key holds change (x ∷ rows) k =
      ground (arith, k x, select_one-update_where key holds change rows k)
