-- ===== src/Common/Ledger/Machine.antt =====
-- The machine of one key of the ledger of packages/cwap_common/idempotency.py, and what a worker does
-- to the ledger.
use ae_cwap.Prelude.{
  inr, sym, ◌∙◌, eq_iff, arith, inl, ◌↔◌, Bool-cases, none, false, some, true, ◌≡◌, Option, List,
  String,
}
use ae_cwap.Value.{Fields, text, field, end}
use ae_cwap.Common.Ledger.{
  Key, Claim, ClaimStatus, ClaimResult, same_key, opened, execute, replay, elsewhere, with_status,
  pre_check, commit, abandon,
}

pub data Event : Type 0 where
  checks : Event
  commits : Fields → Option String → Event
  abandons : String → Event

-- what a worker does to the ledger
abbrev pub act : Key → Event → List Claim → List Claim
act k checks ledger = (pre_check k ledger).0
act k (commits response ref) ledger = commit k response ref ledger
act k (abandons reason) ledger = abandon k reason ledger

-- what one key's machine does
abbrev pub next : Key → Event → Option Claim → Option Claim
next k checks none = some (opened k)
next k checks (some c) =
    some (elim c.status [ ClaimStatus.failed ↦ with_status ClaimStatus.in_flight c | _ ↦ c ])
next k (commits response ref) none = none
next k (commits response ref) (some c) = some (elim c.status [
  | ClaimStatus.in_flight ↦ record c {
    status = ClaimStatus.succeeded;
    response = some response;
    external_ref = ref;
  }
  | _ ↦ c
])
next k (abandons reason) none = none
next k (abandons reason) (some c) = some (elim c.status [
  | ClaimStatus.in_flight ↦ record c {
    status = ClaimStatus.failed;
    response = some (field "error" (text reason) end);
  }
  | _ ↦ c
])

-- what the gate answers
abbrev pub answer : Option Claim → ClaimResult
answer none = execute
answer (some c) = elim c.status [
  | ClaimStatus.succeeded ↦ replay c.response
  | ClaimStatus.failed ↦ execute
  | ClaimStatus.in_flight ↦ elsewhere
]

pub same_key_iff : (a b : Key) → (same_key a b ≡ true) ↔ (a ≡ b)
unfolding same_key
same_key_iff a b = ground (
  arith,
  eq_iff a.run_id b.run_id,
  eq_iff a.step_execution_id b.step_execution_id,
  eq_iff a.operation b.operation,
)

-- a row under one key is under no other
pub apart :
    (j k : Key) (c : Claim)
    → same_key j k ≡ false
    → same_key k c.key ≡ true
    → same_key j c.key ≡ false
apart j k c n h = elim (Bool-cases (same_key j c.key)) [
  | inl b ↦ absurd (
      ground (
        arith,
        n,
        (same_key_iff j k).1 (((same_key_iff j c.key).0 b) ∙ sym ((same_key_iff k c.key).0 h)),
      ))
  | inr b ↦ b
]
