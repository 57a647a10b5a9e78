-- ===== src/Common/Ledger/Statements.antt =====
-- The gate of packages/cwap_common/idempotency.py with the statements of several workers in between
-- each other: a check is an INSERT, then a read, then an UPDATE of a failed claim, and each of them
-- is a step.
use ae_cwap.Common.Ledger.Machine.{same_key_iff}
use ae_cwap.Common.Ledger.Gate.{kept_by_update}
use ae_cwap.Common.Tables.{
  insert_once, update_where, select_one-append, select_one-eq-some, select_one-update_where,
  select_one-eq-none,
}
use ae_cwap.Value.{Fields}
use ae_cwap.Common.Ledger.{
  existing, Key, answered, Claim, ClaimStatus, same_key, claim_key, reopen, commit, is_status,
  is_at, abandon, with_status, opened,
}
use ae_cwap.Prelude.{
  refl, [], ◌∷◌, Option, Bool, List, String, ℕ, ◌≡◌, some, false, none, true, any, Bool-cases,
  if◌then◌else◌, inl, inr, arith, ◌∙◌, ◌⊎◌, subst, ◌&&◌, suc, ap,
}

pub data Statement : Type 0 where
  -- the statements of a check
  inserts reads reopens : Statement
  -- the statement of `commit`, and that of `abandon`
  records : Fields → Option String → Statement
  releases : String → Statement

unfoldable pub execute_statement : Key → Statement → List Claim → List Claim
execute_statement k inserts ledger = (claim_key k ledger).0
execute_statement k reads ledger = ledger
execute_statement k reopens ledger = reopen k ledger
execute_statement k (records response ref) ledger = commit k response ref ledger
execute_statement k (releases reason) ledger = abandon k reason ledger

-- whether a check of the key lets its call through at this statement
unfoldable pub lets_through : Key → Statement → List Claim → Bool
unfolding answered
lets_through k inserts ledger = (claim_key k ledger).1
lets_through k reads ledger = elim (existing ledger k) [
  | none ↦ true
  | some c ↦ (answered c).should_execute
]
lets_through k _ ledger = false

-- how many calls of `k` are let through while the statements run
abbrev pub calls : Key → List (Key × Statement) → List Claim → ℕ
calls k [] ledger = 0
calls k ((j, s) ∷ ss) ledger =
    let rest = calls k ss (execute_statement j s ledger) in
    if same_key k j && lets_through j s ledger then suc rest else rest

-- whether a statement gives up a call of `k`
abbrev pub gives_up : Key → Key × Statement → Bool
gives_up k (j, releases reason) = same_key k j
gives_up k _ = false

-- the row of `k` is there, and its call is in flight or has succeeded
abbrev IsHeld : Key → List Claim → Type 0
IsHeld k ledger =
    (c : Claim) × (existing ledger k ≡ some c) × (is_status c.status ClaimStatus.failed ≡ false)

abbrev holds_key : Key → Claim → Bool
holds_key k c = same_key k c.key

any_of_some :
    (k : Key) (ledger : List Claim) (c : Claim)
    → existing ledger k ≡ some c
    → any (holds_key k) ledger ≡ true
unfolding existing
any_of_some k ledger c h = elim (Bool-cases (any (holds_key k) ledger)) [
  | inl b ↦ b
  | inr b ↦ absurd (ground (arith, h, select_one-eq-none (holds_key k) ledger b))
]

inserts-IsHeld :
    (k j : Key) (ledger : List Claim) → IsHeld k ledger → IsHeld k (claim_key j ledger).0
unfolding existing insert_once
inserts-IsHeld k j ledger (c, q, s) = elim (Bool-cases (any (holds_key j) ledger)) [
  | inl b ↦ (c, ground (arith, b, q), s)
  | inr b ↦ (c, ground (arith, b, q, select_one-append (holds_key k) ledger (opened j)), s)
]

own_update :
    (k : Key) (t : ClaimStatus) (change : Claim → Claim) (ledger : List Claim) (c : Claim)
    → ((x : Claim) → same_key k (change x).key ≡ same_key k x.key)
    → existing ledger k ≡ some c
    → existing (update_where (is_at k t) change ledger) k
      ≡ some (if is_at k t c then change c else c)
unfolding existing
own_update k t change ledger c same q =
    select_one-update_where (holds_key k) (is_at k t) change ledger same ∙ ground (arith, q)

other_update :
    (k j : Key) (t : ClaimStatus) (change : Claim → Claim) (ledger : List Claim)
    → ((x : Claim) → (change x).key ≡ x.key)
    → same_key k j ≡ false
    → IsHeld k ledger
    → IsHeld k (update_where (is_at j t) change ledger)
unfolding existing
other_update k j t change ledger same n (c, q, s) =
    (c, kept_by_update k j t change ledger same n ∙ q, s)

reopens-IsHeld : (k : Key) (ledger : List Claim) → IsHeld k ledger → IsHeld k (reopen k ledger)
reopens-IsHeld k ledger (c, q, s) = (
  c,
  ground (
    arith,
    s,
    own_update k ClaimStatus.failed (with_status ClaimStatus.in_flight) ledger c (λ x. refl) q,
  ),
  s,
)

records-IsHeld :
    (k : Key) (response : Fields) (ref : Option String) (ledger : List Claim)
    → IsHeld k ledger
    → IsHeld k (commit k response ref ledger)
unfolding commit
records-IsHeld k response ref ledger (c, q, s) =
    let change : Claim → Claim = λ x. record x {
      status = ClaimStatus.succeeded;
      response = some response;
      external_ref = ref;
    } in
    let e = own_update k ClaimStatus.in_flight change ledger c (λ x. refl) q in
    elim (Bool-cases (is_at k ClaimStatus.in_flight c)) [
      | inl b ↦ (change c, ground (arith, b, e), refl)
      | inr b ↦ (c, ground (arith, b, e), s)
    ]

statement-IsHeld :
    (k j : Key) (s : Statement) (ledger : List Claim)
    → gives_up k (j, s) ≡ false
    → IsHeld k ledger
    → IsHeld k (execute_statement j s ledger)
unfolding execute_statement commit abandon
statement-IsHeld k j inserts ledger g h = inserts-IsHeld k j ledger h
statement-IsHeld k j reads ledger g h = h
statement-IsHeld k j reopens ledger g h = elim (Bool-cases (same_key k j)) [
  | inl b ↦
      subst (λ x. IsHeld k (reopen x ledger)) ((same_key_iff k j).0 b) (reopens-IsHeld k ledger h)
  | inr b ↦
      other_update k j ClaimStatus.failed (with_status ClaimStatus.in_flight) ledger (λ x. refl) b h
]
statement-IsHeld k j (records response ref) ledger g h = elim (Bool-cases (same_key k j)) [
  | inl b ↦
      subst (λ x. IsHeld k (commit x response ref ledger)) ((same_key_iff k j).0 b)
        (records-IsHeld k response ref ledger h)
  | inr b ↦ other_update k j ClaimStatus.in_flight _ ledger (λ x. refl) b h
]
statement-IsHeld k j (releases reason) ledger g h =
    other_update k j ClaimStatus.in_flight _ ledger (λ x. refl) g h

-- while a key is held, no statement of it lets a call through
held_refuses :
    (k : Key) (s : Statement) (ledger : List Claim)
    → IsHeld k ledger
    → lets_through k s ledger ≡ false
unfolding lets_through insert_once
held_refuses k inserts ledger (c, q, s) = ground (arith, any_of_some k ledger c q)
held_refuses k reads ledger (c, q, s) = elim (status_cases c.status) [
  | inl e ↦ ground (arith, q, e)
  | inr (inl e) ↦ ground (arith, q, e)
  | inr (inr e) ↦ absurd (ground (arith, s, e))
]
  where
    status_cases :
        (t : ClaimStatus)
        → (t ≡ ClaimStatus.in_flight) ⊎ (t ≡ ClaimStatus.succeeded) ⊎ (t ≡ ClaimStatus.failed)
    status_cases ClaimStatus.in_flight = inl refl
    status_cases ClaimStatus.succeeded = inr (inl refl)
    status_cases ClaimStatus.failed = inr (inr refl)
held_refuses k reopens ledger h = refl
held_refuses k (records r f) ledger h = refl
held_refuses k (releases r) ledger h = refl

no_more_calls :
    (k : Key) (ss : List (Key × Statement)) (ledger : List Claim)
    → IsHeld k ledger
    → any (gives_up k) ss ≡ false
    → calls k ss ledger ≡ 0
no_more_calls k [] ledger h g = refl
no_more_calls k ((j, s) ∷ ss) ledger h g =
    let one : gives_up k (j, s) ≡ false = ground (arith, g) in
    let rest : any (gives_up k) ss ≡ false = ground (arith, g) in
    let quiet : (same_key k j && lets_through j s ledger) ≡ false =
      elim (Bool-cases (same_key k j)) [
        | inr b ↦ ground (arith, b)
        | inl b ↦ ground (
          arith,
          b,
          subst (λ x. lets_through x s ledger ≡ false) ((same_key_iff k j).0 b)
              (held_refuses k s ledger h),
        )
      ] in
    rw quiet
      (no_more_calls k ss (execute_statement j s ledger) (statement-IsHeld k j s ledger one h) rest)

-- Where no claim of a key is in the ledger, and no call of it is given up: from the first INSERT of
-- the key on, exactly one call of it is let through, that of the worker who inserted, whatever
-- statements of checks and commits the workers execute, under this key and others, in whatever order
-- they come in between each other.
pub calls_once :
    (k : Key) (ss : List (Key × Statement)) (ledger : List Claim)
    → existing ledger k ≡ none
    → any (gives_up k) ss ≡ false
    → calls k ((k, inserts) ∷ ss) ledger ≡ 1
unfolding existing insert_once lets_through execute_statement
calls_once k ss ledger h g =
    let n : any (holds_key k) ledger ≡ false = elim (Bool-cases (any (holds_key k) ledger)) [
      | inr b ↦ b
      | inl b ↦
          let (c, e, t) = select_one-eq-some (holds_key k) ledger b in absurd (ground (arith, e, h))
    ] in
    let own : same_key k k ≡ true = (same_key_iff k k).1 refl in
    let held : IsHeld k (claim_key k ledger).0 = (
      opened k,
      ground (arith, n, own, h, select_one-append (holds_key k) ledger (opened k)),
      refl,
    ) in
    let rest = no_more_calls k ss (claim_key k ledger).0 held g in
    let won : lets_through k inserts ledger ≡ true = ground (arith, n) in
    rw own (rw won (ap suc rest))
