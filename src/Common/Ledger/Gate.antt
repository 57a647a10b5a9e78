-- ===== src/Common/Ledger/Gate.antt =====
-- What the two-phase gate of packages/cwap_common/idempotency.py promises: each key of the ledger
-- is a machine of its own, whatever is done under the other keys.
use ae_cwap.Prelude.{
  [], subst, Option-cases, ap, ◌∷◌, Bool, refl, any, inr, sym, ◌∙◌, arith, inl, Bool-cases, false,
  some, true, ◌≡◌, List,
}
use ae_cwap.Value.{text, field, end}
use ae_cwap.Common.Tables.{
  insert_once, select_one, update_where, select_one-append, select_one-eq-none, select_one-eq-some,
  select_one-update_where,
}
use ae_cwap.Common.Ledger.{
  Key, Claim, ClaimStatus, same_key, existing, opened, execute, is_at, with_status, pre_check,
  commit, abandon,
}
use ae_cwap.Common.Ledger.Machine.{
  Event, checks, commits, abandons, act, next, answer, same_key_iff, apart,
}

abbrev holds_key : Key → Claim → Bool
holds_key k c = same_key k c.key

own_key : (k : Key) → same_key k k ≡ true
own_key k = (same_key_iff k k).1 refl

check_first :
    (k : Key) (ledger : List Claim)
    → any (holds_key k) ledger ≡ false
    → (existing (pre_check k ledger).0 k ≡ some (opened k)) × ((pre_check k ledger).1 ≡ execute)
unfolding existing pre_check insert_once
check_first k ledger h = ground (
  arith,
  h,
  select_one-append (holds_key k) ledger (opened k),
  select_one-eq-none (holds_key k) ledger h,
  own_key k,
)

check_again :
    (k : Key) (ledger : List Claim) (c : Claim)
    → any (holds_key k) ledger ≡ true
    → select_one (holds_key k) ledger ≡ some c
    → same_key k c.key ≡ true
    → (existing (pre_check k ledger).0 k ≡ next k checks (some c))
      × ((pre_check k ledger).1 ≡ answer (some c))
unfolding existing pre_check insert_once
check_again k ledger c h e t = ground (
  arith,
  h,
  e,
  t,
  select_one-update_where (holds_key k) (is_at k ClaimStatus.failed)
      (with_status ClaimStatus.in_flight) ledger (λ r. refl),
)

holds_found :
    (k : Key) (ledger : List Claim) (c : Claim)
    → select_one (holds_key k) ledger ≡ some c
    → same_key k c.key ≡ true
unfolding select_one
holds_found k [] c h = absurd cc
holds_found k (x ∷ ledger) c h = elim (Bool-cases (same_key k x.key)) [
  | inl b ↦
      let s : x ≡ c = ground (arith, b, h) in subst (λ (y : Claim). same_key k y.key ≡ true) s b
  | inr b ↦ holds_found k ledger c (ground (arith, b, h))
]

own_row :
    (k : Key) (e : Event) (ledger : List Claim)
    → existing (act k e ledger) k ≡ next k e (existing ledger k)
unfolding existing commit abandon
own_row k checks ledger = elim (Bool-cases (any (holds_key k) ledger)) [
  | inl b ↦
      let (c, e, t) = select_one-eq-some (holds_key k) ledger b in
      (check_again k ledger c b e t).0 ∙ sym (ap (next k checks) e)
  | inr b ↦
      (check_first k ledger b).0
      ∙ sym (ap (next k checks) (select_one-eq-none (holds_key k) ledger b))
]
own_row k (commits response ref) ledger = elim (Option-cases (select_one (holds_key k) ledger)) [
  | inl e ↦ ground (
    arith,
    e,
    select_one-update_where (holds_key k) (is_at k ClaimStatus.in_flight)
        (λ (c : Claim). record c {
          status = ClaimStatus.succeeded;
          response = some response;
          external_ref = ref;
        })
        ledger (λ r. refl),
  )
  | inr (c, e) ↦ ground (
    arith,
    e,
    holds_found k ledger c e,
    select_one-update_where (holds_key k) (is_at k ClaimStatus.in_flight)
        (λ (c : Claim). record c {
          status = ClaimStatus.succeeded;
          response = some response;
          external_ref = ref;
        })
        ledger (λ r. refl),
  )
]
own_row k (abandons reason) ledger = elim (Option-cases (select_one (holds_key k) ledger)) [
  | inl e ↦ ground (
    arith,
    e,
    select_one-update_where (holds_key k) (is_at k ClaimStatus.in_flight)
        (λ (c : Claim). record c {
          status = ClaimStatus.failed;
          response = some (field "error" (text reason) end);
        })
        ledger (λ r. refl),
  )
  | inr (c, e) ↦ ground (
    arith,
    e,
    holds_found k ledger c e,
    select_one-update_where (holds_key k) (is_at k ClaimStatus.in_flight)
        (λ (c : Claim). record c {
          status = ClaimStatus.failed;
          response = some (field "error" (text reason) end);
        })
        ledger (λ r. refl),
  )
]

-- an update of one key's row leaves the rows of the others
pub kept_by_update :
    (j k : Key) (s : ClaimStatus) (change : Claim → Claim) (ledger : List Claim)
    → ((c : Claim) → (change c).key ≡ c.key)
    → same_key j k ≡ false
    → select_one (holds_key j) (update_where (is_at k s) change ledger)
      ≡ select_one (holds_key j) ledger
unfolding select_one update_where
kept_by_update j k s change [] kept n = refl
kept_by_update j k s change (x ∷ ledger) kept n = elim (Bool-cases (same_key k x.key)) [
  | inl b ↦ ground (
    arith,
    b,
    kept x,
    apart j k x n b,
    ap (same_key j) (kept x),
    kept_by_update j k s change ledger kept n,
  )
  | inr b ↦ ground (arith, b, kept_by_update j k s change ledger kept n)
]

other_rows :
    (j k : Key) (e : Event) (ledger : List Claim)
    → same_key j k ≡ false
    → existing (act k e ledger) j ≡ existing ledger j
unfolding existing commit abandon pre_check insert_once
other_rows j k checks ledger n = elim (Bool-cases (any (holds_key k) ledger)) [
  | inr b ↦ elim (Option-cases (select_one (holds_key j) ledger)) [
    | inl e ↦ ground (arith, b, e, n, select_one-append (holds_key j) ledger (opened k))
    | inr (c, e) ↦ ground (arith, b, e, n, select_one-append (holds_key j) ledger (opened k))
  ]
  | inl b ↦
      let (c, e, t) = select_one-eq-some (holds_key k) ledger b in
      ground (
        arith,
        b,
        e,
        t,
        kept_by_update j k ClaimStatus.failed (with_status ClaimStatus.in_flight) ledger (λ r. refl)
            n,
      )
]
other_rows j k (commits response ref) ledger n =
    kept_by_update j k ClaimStatus.in_flight _ ledger (λ r. refl) n
other_rows j k (abandons reason) ledger n =
    kept_by_update j k ClaimStatus.in_flight _ ledger (λ r. refl) n

gate_answers : (k : Key) (ledger : List Claim) → (pre_check k ledger).1 ≡ answer (existing ledger k)
unfolding existing
gate_answers k ledger = elim (Bool-cases (any (holds_key k) ledger)) [
  | inl b ↦
      let (c, e, t) = select_one-eq-some (holds_key k) ledger b in
      (check_again k ledger c b e t).1 ∙ sym (ap answer e)
  | inr b ↦ (check_first k ledger b).1 ∙ sym (ap answer (select_one-eq-none (holds_key k) ledger b))
]

-- What a worker does under one key moves that key's machine, and a check is answered by its state.
-- The rows of the other keys stay as they are.
pub gate_refines :
    (k : Key) (e : Event) (ledger : List Claim)
    → (existing (act k e ledger) k ≡ next k e (existing ledger k))
      × ((pre_check k ledger).1 ≡ answer (existing ledger k))
      × ((j : Key) → same_key j k ≡ false → existing (act k e ledger) j ≡ existing ledger j)
gate_refines k e ledger =
    (own_row k e ledger, gate_answers k ledger, λ j n. other_rows j k e ledger n)
