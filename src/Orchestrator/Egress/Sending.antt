-- ===== src/Orchestrator/Egress/Sending.antt =====
-- What `execute_http` of services/orchestrator/executors.py sends, and what a redelivery gets.
use ae_cwap.Orchestrator.Egress.{
  Web, assert_host_allowed, perform, HttpState, HttpRequest, is_http, is_listed, url_of, body_of,
  Value, request_of, execute_http,
}
use ae_cwap.Value.{Fields}
use ae_cwap.Common.Ledger.{
  Claim, Key, ClaimStatus, pre_check, existing, with_status, opened, elsewhere, commit, replay,
}
use ae_cwap.Common.Ledger.Machine.{checks, commits, next, answer}
use ae_cwap.Common.Ledger.Gate.{gate_refines}
use ae_cwap.Prelude.{
  ◌≡◌, List, true, some, Option-cases, inl, ◌∙◌, ap, inr, refl, ◌⊎◌, arith, Option, String, ok,
  ◌++◌, ◌∷◌, [], Bool-cases, ltb, length, Result-cases, ◌==◌, false, subst, sym,
}

status_cases :
    (s : ClaimStatus)
    → (s ≡ ClaimStatus.in_flight) ⊎ ((s ≡ ClaimStatus.succeeded) ⊎ (s ≡ ClaimStatus.failed))
status_cases ClaimStatus.in_flight = inl refl
status_cases ClaimStatus.succeeded = inr (inl refl)
status_cases ClaimStatus.failed = inr (inr refl)

-- a key that is let through is then in flight
let_through :
    (k : Key) (ledger : List Claim)
    → (pre_check k ledger).1.should_execute ≡ true
    → (c : Claim) × (existing (pre_check k ledger).0 k ≡ some c)
      × (c.status ≡ ClaimStatus.in_flight)
let_through k ledger h =
    let (own, says, _) = gate_refines k checks ledger in
    elim (Option-cases (existing ledger k)) [
      | inl n ↦ (opened k, own ∙ ap (next k checks) n, refl)
      | inr (c, n) ↦
          through c (own ∙ ap (next k checks) n) (ap (λ a. a.should_execute) (says ∙ ap answer n))
    ]
  where
    through :
        (c : Claim)
        → existing (pre_check k ledger).0 k ≡ next k checks (some c)
        → (pre_check k ledger).1.should_execute ≡ (answer (some c)).should_execute
        → (c' : Claim) × (existing (pre_check k ledger).0 k ≡ some c')
          × (c'.status ≡ ClaimStatus.in_flight)
    through c e a = elim (status_cases c.status) [
      | inl q ↦ absurd (ground (arith, h, a, q))
      | inr (inl q) ↦ absurd (ground (arith, h, a, q))
      | inr (inr q) ↦ (with_status ClaimStatus.in_flight c, ground (arith, e, q), refl)
    ]

-- after the call is committed, a check is answered by its response
pub committed :
    (k : Key) (response : Fields) (ref : Option String) (ledger : List Claim)
    → (pre_check k ledger).1.should_execute ≡ true
    → (pre_check k (commit k response ref (pre_check k ledger).0)).1 ≡ replay (some response)
committed k response ref ledger h =
    let (c, e, q) = let_through k ledger h in
    let (own, _, _) = gate_refines k (commits response ref) (pre_check k ledger).0 in
    let (_, says, _) = gate_refines k checks (commit k response ref (pre_check k ledger).0) in
    says ∙ ap answer (own ∙ ap (next k (commits response ref)) e) ∙ ground (arith, q)

-- after no commit, a check is answered by the claim that is in flight
pub pending :
    (k : Key) (ledger : List Claim)
    → (pre_check k ledger).1.should_execute ≡ true
    → (pre_check k (pre_check k ledger).0).1 ≡ elsewhere
pending k ledger h =
    let (c, e, q) = let_through k ledger h in
    let (_, says, _) = gate_refines k checks (pre_check k ledger).0 in
    says ∙ ap answer e ∙ ground (arith, q)

module _ (W : Web) where
  permitted :
      (allowed : List String) (url : String)
      → assert_host_allowed W allowed url ≡ ok tt
      → (is_http (W.scheme url) ≡ true) × (is_listed W allowed (W.lower (W.hostname url)) ≡ true)
  unfolding assert_host_allowed
  permitted allowed url h = elim (Bool-cases (is_http (W.scheme url))) [
    | inr b ↦ absurd (ground (arith, h, b))
    | inl b ↦ elim (Bool-cases (ltb 0 (length allowed))) [
      | inr c ↦ absurd (ground (arith, h, b, c))
      | inl c ↦ elim (Bool-cases (is_listed W allowed (W.lower (W.hostname url)))) [
        | inl d ↦ (b, d)
        | inr d ↦ absurd (ground (arith, h, b, c, d))
      ]
    ]
  ]

  perform_sent :
      (key : Key) (params inputs : Fields) (state : HttpState)
      → let s' = (perform W key params inputs state).1 in
        (s'.sent ≡ state.sent)
        ⊎ ((q : HttpRequest) × (s'.sent ≡ state.sent ++ q ∷ []) × (q.url ≡ url_of W params inputs))
  unfolding perform
  perform_sent key params inputs state = elim (Option-cases (body_of W params inputs)) [
    | inl n ↦ inl (ground (arith, n))
    | inr (b, n) ↦ let q = request_of W params inputs b in inr (q, sent_eq b n, refl)
  ]
    where
      sent_eq :
          (b : Value)
          → body_of W params inputs ≡ some b
          → (perform W key params inputs state).1.sent
            ≡ state.sent ++ request_of W params inputs b ∷ []
      sent_eq b n =
          elim (Result-cases (W.send (length state.sent) (request_of W params inputs b))) [
            | inl (e, r) ↦ ground (arith, n, r)
            | inr (a, r) ↦ ground (arith, n, r)
          ]

  -- Whatever is asked for and whatever the client does: `execute_http` sends no request, or one
  -- more, to the URL that was asked for; and it sends one only over http or https, to a host that is
  -- on the list or below one that is, and only when the gate's check let the call through.
  pub execute_http_sends :
      (allowed : List String) (key : Key) (params inputs : Fields) (state : HttpState)
      → let s' = (execute_http W allowed key params inputs state).1 in
        (s'.sent ≡ state.sent)
        ⊎ ((q : HttpRequest) × (s'.sent ≡ state.sent ++ q ∷ [])
            × (q.url ≡ url_of W params inputs)
            × (is_http (W.scheme q.url) ≡ true)
            × (is_listed W allowed (W.lower (W.hostname q.url)) ≡ true)
            × ((pre_check key state.ledger).1.should_execute ≡ true))
  unfolding execute_http
  execute_http_sends allowed key params inputs state =
      let url = url_of W params inputs in
      let claimed : HttpState = record state { ledger = (pre_check key state.ledger).0 } in
      let claim = (pre_check key state.ledger).1 in
      elim (Bool-cases (url == "")) [
        | inl b ↦ inl (ground (arith, b))
        | inr b ↦ elim (Result-cases (assert_host_allowed W allowed url)) [
          | inl (e, a) ↦ inl (ground (arith, b, a))
          | inr (tt, a) ↦ elim (Bool-cases claim.should_execute) [
            | inr c ↦ inl (refused b a c)
            | inl c ↦
                let (http, listed) = permitted allowed url a in
                elim (perform_sent key params inputs claimed) [
                  | inl e ↦ inl (passed b a c ∙ e)
                  | inr (q, e, u) ↦ inr (
                    q,
                    passed b a c ∙ e,
                    u,
                    subst (λ x. is_http (W.scheme x) ≡ true) (sym u) http,
                    subst (λ x. is_listed W allowed (W.lower (W.hostname x)) ≡ true) (sym u) listed,
                    c,
                  )
                ]
          ]
        ]
      ]
    where
      passed :
          (url_of W params inputs == "") ≡ false
          → assert_host_allowed W allowed (url_of W params inputs) ≡ ok tt
          → (pre_check key state.ledger).1.should_execute ≡ true
          → (execute_http W allowed key params inputs state).1.sent
            ≡ (perform W key params inputs
                (record state { ledger = (pre_check key state.ledger).0 })).1.sent
      passed b a c = ground (arith, b, a, c)

      refused :
          (url_of W params inputs == "") ≡ false
          → assert_host_allowed W allowed (url_of W params inputs) ≡ ok tt
          → (pre_check key state.ledger).1.should_execute ≡ false
          → (execute_http W allowed key params inputs state).1.sent ≡ state.sent
      refused b a c = ground (arith, b, a, c)
