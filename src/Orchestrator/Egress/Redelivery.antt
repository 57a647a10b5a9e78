-- ===== src/Orchestrator/Egress/Redelivery.antt =====
-- What a job that is delivered again gets from `execute_http` of services/orchestrator/executors.py.
use ae_cwap.Orchestrator.Egress.{
  Web, Fields, HttpState, url_of, assert_host_allowed, execute_http, Value, perform, body_of,
  HttpError, HttpResponse, request_of, payload_of,
}
use ae_cwap.Common.Ledger.{Key, pre_check, commit, replay, elsewhere}
use ae_cwap.Orchestrator.Egress.Sending.{committed, pending}
use ae_cwap.Prelude.{
  ◌≡◌, List, String, ◌==◌, false, ok, true, some, err, arith, none, ap, length, Result, ◌∙◌,
  if◌then◌else◌, ◌++◌, ◌∷◌, [],
}

module _ (W : Web) (allowed : List String) (key : Key) (params inputs : Fields) (state : HttpState)
    (url_given : (url_of W params inputs == "") ≡ false)
    (permission : assert_host_allowed W allowed (url_of W params inputs) ≡ ok tt) where
  -- a later delivery is answered by what the gate says
  replayed :
      (s : HttpState) (prior : Fields)
      → (pre_check key s.ledger).1 ≡ replay (some prior)
      → ((execute_http W allowed key params inputs s).0 ≡ ok prior)
        × ((execute_http W allowed key params inputs s).1.sent ≡ s.sent)
  unfolding execute_http
  replayed s prior h = ground (arith, url_given, permission, h)

  turned_away :
      (s : HttpState)
      → (pre_check key s.ledger).1 ≡ elsewhere
      → ((execute_http W allowed key params inputs s).0 ≡ err HttpError.already_in_flight)
        × ((execute_http W allowed key params inputs s).1.sent ≡ s.sent)
  unfolding execute_http
  turned_away s h = ground (arith, url_given, permission, h)

  module _ (let_through : (pre_check key state.ledger).1.should_execute ≡ true) where
    first_call :
        (body : Value) (r : HttpResponse)
        → body_of W params inputs ≡ some body
        → W.send (length state.sent) (request_of W params inputs body) ≡ ok r
        → execute_http W allowed key params inputs state ≡ (
          (if r.is_success then ok (payload_of W r) else err HttpError.bad_status),
          record {
            ledger =
                commit key
                  (payload_of W r)
                  (some (W.digits r.status))
                  (pre_check key state.ledger).0;
            sent = state.sent ++ request_of W params inputs body ∷ [];
          },
        )
    unfolding execute_http perform
    first_call body r b s = ground (arith, url_given, permission, let_through, b, s)

    no_call :
        body_of W params inputs ≡ none
        → execute_http W allowed key params inputs state ≡ (
          err HttpError.template_failed,
          record state { ledger = (pre_check key state.ledger).0 },
        )
    unfolding execute_http perform
    no_call b = ground (arith, url_given, permission, let_through, b)

    -- Where a job has a URL that is permitted, the gate lets its call through and the client returns
    -- a response: the job fails if the response is no success. When the job is delivered again,
    -- nothing more is sent, and the job succeeds with the recorded response, whatever its status.
    pub execute_http_once :
        (body : Value) (r : HttpResponse)
        → body_of W params inputs ≡ some body
        → W.send (length state.sent) (request_of W params inputs body) ≡ ok r
        → let (result, after) = execute_http W allowed key params inputs state in
          let (again, later) = execute_http W allowed key params inputs after in
          (result ≡ (if r.is_success then ok (payload_of W r) else err HttpError.bad_status))
          × (after.sent ≡ state.sent ++ request_of W params inputs body ∷ [])
          × (again ≡ ok (payload_of W r))
          × (later.sent ≡ after.sent)
    execute_http_once body r b s =
        let e = first_call body r b s in
        let after = (execute_http W allowed key params inputs state).1 in
        let gate : (pre_check key after.ledger).1 ≡ replay (some (payload_of W r)) =
          ap (λ (x : Result HttpError Fields × HttpState). (pre_check key x.1.ledger).1) e
          ∙ committed key (payload_of W r) (some (W.digits r.status)) state.ledger let_through in
        let (again, quiet) = replayed after (payload_of W r) gate in
        (
          ap (λ (x : Result HttpError Fields × HttpState). x.0) e,
          ap (λ (x : Result HttpError Fields × HttpState). x.1.sent) e,
          again,
          quiet,
        )

    -- Where a job has a URL that is permitted and the gate lets its call through, but its body does
    -- not render: the job fails, and nothing is sent. When it is delivered again it is refused as a
    -- duplicate of a call in flight, and again nothing is sent.
    pub execute_http_stuck :
        body_of W params inputs ≡ none
        → let (result, after) = execute_http W allowed key params inputs state in
          let (again, later) = execute_http W allowed key params inputs after in
          (result ≡ err HttpError.template_failed)
          × (again ≡ err HttpError.already_in_flight)
          × (later.sent ≡ state.sent)
    execute_http_stuck b =
        let e = no_call b in
        let after = (execute_http W allowed key params inputs state).1 in
        let gate : (pre_check key after.ledger).1 ≡ elsewhere =
          ap (λ (x : Result HttpError Fields × HttpState). (pre_check key x.1.ledger).1) e
          ∙ pending key state.ledger let_through in
        let (again, quiet) = turned_away after gate in
        (
          ap (λ (x : Result HttpError Fields × HttpState). x.0) e,
          again,
          quiet ∙ ap (λ (x : Result HttpError Fields × HttpState). x.1.sent) e,
        )
