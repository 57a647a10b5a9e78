-- ===== src/Common/Ledger/Writes.antt =====
-- The writes of packages/cwap_common/idempotency.py of which the first wins.
use ae_cwap.Prelude.{
  inr, subst₂, inl, false, suc, Bool-cases, eq_self, if◌then◌else◌, ◌∙◌, append_cancel, ap, eq_iff,
  [], ◌∷◌, arith, ◌&&◌, ◌++◌, ◌↔◌, not, true, any, ◌||◌, ◌==◌, ℕ, Bool, List, ◌≡◌, String,
}
use ae_cwap.Contracts.Job.{StepOutputContext}
use ae_cwap.Common.Tables.{insert_once}
use ae_cwap.Common.Ledger.{
  service_value, Key, Claim, conflicts, dispatch_claim, claim_dispatch, commit_step_output,
  same_step,
}
use ae_cwap.Common.Ledger.Machine.{same_key_iff}

-- claims of one ledger one after the other, with how many of them were won
abbrev pub claims_won : String → String → List (String × String) → List Claim → ℕ
claims_won run_id node_id [] ledger = 0
claims_won run_id node_id ((r, n) ∷ rest) ledger =
    let later = claims_won run_id node_id rest (claim_dispatch ledger r n).0 in
    if (r == run_id) && (n == node_id) && (claim_dispatch ledger r n).1 then suc later else later

abbrev pub is_claimed : String → String → List Claim → Bool
is_claimed run_id node_id ledger = any (conflicts (dispatch_claim run_id node_id)) ledger

abbrev pub is_ask : String → String → String × String → Bool
is_ask run_id node_id (r, n) = (r == run_id) && (n == node_id)

any-snoc :
    {A : Type 0} (p : A → Bool) (xs : List A) (x : A) → any p (xs ++ x ∷ []) ≡ (any p xs || p x)
any-snoc p [] x = ground arith
any-snoc p (y ∷ xs) x = ground (arith, any-snoc p xs x)

-- two claims conflict exactly if they are for the same node of the same run
conflicts_iff :
    (r n run_id node_id : String)
    → (conflicts (dispatch_claim run_id node_id) (dispatch_claim r n) ≡ true)
      ↔ (is_ask run_id node_id (r, n) ≡ true)
conflicts_iff r n run_id node_id = (there, back)
  where
    there :
        conflicts (dispatch_claim run_id node_id) (dispatch_claim r n) ≡ true
        → is_ask run_id node_id (r, n) ≡ true
    there h =
        let e = (same_key_iff (dispatch_claim run_id node_id).key (dispatch_claim r n).key).0 h in
        ground (
          arith,
          eq_iff r run_id,
          eq_iff n node_id,
          ap (λ (k : Key). k.run_id) e,
          append_cancel "dispatch:" node_id n (ap (λ (k : Key). k.operation) e),
        )

    back :
        is_ask run_id node_id (r, n) ≡ true
        → conflicts (dispatch_claim run_id node_id) (dispatch_claim r n) ≡ true
    back h =
        let a : run_id ≡ r = ground (arith, eq_iff r run_id, h) in
        let b : node_id ≡ n = ground (arith, eq_iff r run_id, eq_iff n node_id, h) in
        (same_key_iff (dispatch_claim run_id node_id).key (dispatch_claim r n).key).1 (
          ap (λ (x : String). (dispatch_claim x node_id).key) a
          ∙ ap (λ (x : String). (dispatch_claim r x).key) b)

own_claim : (r n : String) → conflicts (dispatch_claim r n) (dispatch_claim r n) ≡ true
own_claim r n = (conflicts_iff r n r n).1 (ground (arith, eq_self r, eq_self n))

same_ask :
    (r n : String) (ledger : List Claim)
    → (is_claimed r n (claim_dispatch ledger r n).0 ≡ true)
      × ((claim_dispatch ledger r n).1 ≡ not (is_claimed r n ledger))
unfolding claim_dispatch insert_once
same_ask r n ledger = elim (Bool-cases (is_claimed r n ledger)) [
  | inl b ↦ ground (arith, b)
  | inr b ↦ ground (
    arith,
    b,
    own_claim r n,
    any-snoc (conflicts (dispatch_claim r n)) ledger (dispatch_claim r n),
  )
]

other_ask :
    (r n run_id node_id : String) (ledger : List Claim)
    → is_ask run_id node_id (r, n) ≡ false
    → is_claimed run_id node_id (claim_dispatch ledger r n).0 ≡ is_claimed run_id node_id ledger
unfolding claim_dispatch insert_once
other_ask r n run_id node_id ledger h =
    elim (Bool-cases (conflicts (dispatch_claim run_id node_id) (dispatch_claim r n))) [
      | inl q ↦ absurd (ground (arith, h, (conflicts_iff r n run_id node_id).0 q))
      | inr q ↦ elim (Bool-cases (is_claimed r n ledger)) [
        | inl b ↦ ground (arith, b)
        | inr b ↦ ground (
          arith,
          b,
          q,
          any-snoc (conflicts (dispatch_claim run_id node_id)) ledger (dispatch_claim r n),
        )
      ]
    ]

-- what the asks of a node win, by whether it is claimed already and whether it is asked for
abbrev due : Bool → Bool → ℕ
due false true = 1
due _ _ = 0

claims_won_lem :
    (run_id node_id : String) (asks : List (String × String)) (ledger : List Claim)
    → claims_won run_id node_id asks ledger
      ≡ due (is_claimed run_id node_id ledger) (any (is_ask run_id node_id) asks)
claims_won_lem run_id node_id [] ledger = ground arith
claims_won_lem run_id node_id ((r, n) ∷ asks) ledger =
    elim (Bool-cases (is_ask run_id node_id (r, n))) [
      | inl b ↦
          let e : r ≡ run_id = ground (arith, eq_iff r run_id, b) in
          let f : n ≡ node_id = ground (arith, eq_iff r run_id, eq_iff n node_id, b) in
          let (held, won) : (is_claimed run_id node_id (claim_dispatch ledger r n).0 ≡ true)
              × ((claim_dispatch ledger r n).1 ≡ not (is_claimed run_id node_id ledger)) =
            subst₂
              (λ (x y : String).
                (is_claimed x y (claim_dispatch ledger r n).0 ≡ true)
                × ((claim_dispatch ledger r n).1 ≡ not (is_claimed x y ledger)))
              e f (same_ask r n ledger) in
          ground
            (arith, b, held, won, claims_won_lem run_id node_id asks (claim_dispatch ledger r n).0)
      | inr b ↦ ground (
        arith,
        b,
        other_ask r n run_id node_id ledger b,
        claims_won_lem run_id node_id asks (claim_dispatch ledger r n).0,
      )
    ]

-- However many workers ask to dispatch a node of a run that is not claimed yet, and whatever else is
-- asked for in between, exactly one of them wins, if any asks.
pub dispatch_once :
    (run_id node_id : String) (asks : List (String × String)) (ledger : List Claim)
    → is_claimed run_id node_id ledger ≡ false
    → claims_won run_id node_id asks ledger ≡ (if any (is_ask run_id node_id) asks then 1 else 0)
dispatch_once run_id node_id asks ledger h =
    ground (arith, h, claims_won_lem run_id node_id asks ledger)

any_mono :
    {A : Type 0} (p q : A → Bool) (xs : List A)
    → ((x : A) → p x ≡ true → q x ≡ true)
    → any p xs ≡ true
    → any q xs ≡ true
any_mono p q [] k h = h
any_mono p q (x ∷ xs) k h = elim (Bool-cases (p x)) [
  | inl b ↦ ground (arith, k x b)
  | inr b ↦ ground (arith, any_mono p q xs k (ground (arith, b, h)))
]

same_step_trans :
    (a b c : StepOutputContext) → same_step a b ≡ true → same_step b c ≡ true → same_step a c ≡ true
same_step_trans a b c h k = ground (
  arith,
  h,
  k,
  eq_iff a.run_id b.run_id,
  eq_iff a.step_execution_id b.step_execution_id,
  eq_iff (service_value a.source_service) (service_value b.source_service),
)

-- Committing an output for the run, step and service of one that was just committed writes nothing,
-- whatever it says.
pub commit_first_wins :
    (rows : List StepOutputContext) (first second : StepOutputContext)
    → same_step second first ≡ true
    → commit_step_output (commit_step_output rows first).0 second
      ≡ ((commit_step_output rows first).0, false)
unfolding commit_step_output insert_once
commit_first_wins rows first second h = elim (Bool-cases (any (same_step first) rows)) [
  | inl b ↦ ground (
    arith,
    b,
    any_mono (same_step first) (same_step second) rows (λ x k. same_step_trans second first x h k)
        b,
  )
  | inr b ↦ ground (arith, b, h, any-snoc (same_step second) rows first)
]
