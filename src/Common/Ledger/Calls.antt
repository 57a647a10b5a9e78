-- ===== src/Common/Ledger/Calls.antt =====
-- What becomes of a call that has succeeded, under the gate of packages/cwap_common/idempotency.py.
use ae_cwap.Prelude.{refl, subst, ap, ◌∙◌, inr, inl, Bool-cases, arith, ◌≡◌, [], some, ◌∷◌, List}
use ae_cwap.Common.Ledger.{Key, Claim, ClaimStatus, same_key, existing, replay, pre_check}
use ae_cwap.Common.Ledger.Machine.{
  Event, checks, commits, abandons, act, next, answer, same_key_iff,
}
use ae_cwap.Common.Ledger.Gate.{gate_refines}

abbrev pub act_all : List (Key × Event) → List Claim → List Claim
act_all [] ledger = ledger
act_all ((k, e) ∷ es) ledger = act_all es (act k e ledger)

success_kept :
    (k j : Key) (e : Event) (ledger : List Claim) (c : Claim)
    → existing ledger k ≡ some c
    → c.status ≡ ClaimStatus.succeeded
    → existing (act j e ledger) k ≡ some c
success_kept k j e ledger c q s = elim (Bool-cases (same_key k j)) [
  | inr b ↦ (gate_refines j e ledger).2 k b ∙ q
  | inl b ↦
      subst (λ (x : Key). existing (act x e ledger) k ≡ some c) ((same_key_iff k j).0 b)
        ((gate_refines k e ledger).0 ∙ ap (next k e) q ∙ stays e)
]
  where
    stays : (x : Event) → next k x (some c) ≡ some c
    stays checks = ground (arith, s)
    stays (commits r f) = ground (arith, s)
    stays (abandons r) = ground (arith, s)

-- Once a call has succeeded its row never changes, whatever workers do, and each later check of its
-- key is answered by the response that was recorded.
pub success_final :
    (k : Key) (es : List (Key × Event)) (ledger : List Claim) (c : Claim)
    → existing ledger k ≡ some c
    → c.status ≡ ClaimStatus.succeeded
    → (existing (act_all es ledger) k ≡ some c)
      × ((pre_check k (act_all es ledger)).1 ≡ replay c.response)
success_final k [] ledger c q s = (q, (gate_refines k checks ledger).1 ∙ ap answer q ∙ rw s refl)
success_final k ((j, e) ∷ es) ledger c q s =
    success_final k es (act j e ledger) c (success_kept k j e ledger c q s) s
