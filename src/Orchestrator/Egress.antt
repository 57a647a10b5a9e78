-- ===== src/Orchestrator/Egress.antt =====
-- The http executor of services/orchestrator/executors.py: `execute_http` and
-- `_assert_host_allowed`. URLs, templates, text methods and the HTTP client are the parameter `Web`.
-- The ledger is that of Common/Ledger; `sent` are the requests that have left.
pub mod Sending
pub mod Redelivery
use ae_cwap.Common.Ledger.{Claim, Key, ClaimResult, pre_check, commit, abandon}
use ae_cwap.Value.{Value, Fields, text, null, num, bool, field, end, truthy, ℤ, obj}
use ae_cwap.Value.Dict.{get}
use ae_cwap.Prelude.{
  ◌≡◌, Result, ℕ, Option, List, String, Bool, if◌then◌else◌, guard, some, none, contains, ◌>>◌,
  ◌==◌, err, ◌||◌, ltb, ◌++◌, ok, ◌∷◌, any, length, [], append,
}

pub record HttpRequest : Type 0 where
  pub method : String
  pub url : String
  pub headers : Value
  pub body : Value

pub record HttpResponse : Type 0 where
  pub status : ℕ
  -- the body, decoded where it is JSON, and as it came
  pub decoded : Value
  pub raw : String
  pub is_success : Bool

pub record Web : Type 0 where
  -- `str.upper`, `str.lower`, `str.strip`, `str.endswith`, `str(value)`, `str(number)`
  pub upper : String → String
  pub lower : String → String
  pub strip : String → String
  pub ends_with : String → String → Bool
  pub shown : Value → String
  pub digits : ℕ → String
  -- `urlparse(url).scheme`, and `urlparse(url).hostname or ""`
  pub scheme : String → String
  pub hostname : String → String
  -- `render_template`: none where it raises
  pub render : String → Fields → Option String
  -- the client: the text of what it raises, or the response; by the number of the request
  pub send : ℕ → HttpRequest → Result String HttpResponse

pub data HttpError : Type 0 where
  no_url : HttpError
  bad_scheme : HttpError
  nothing_allowed : HttpError
  host_blocked : HttpError
  already_in_flight : HttpError
  template_failed : HttpError
  request_failed : HttpError
  bad_status : HttpError

pub record HttpState : Type 0 where
  pub ledger : List Claim
  pub sent : List HttpRequest

abbrev pub is_http : String → Bool
is_http scheme = (scheme == "http") || (scheme == "https")

module _ (W : Web) where
  -- the host is on the list, or below one that is
  abbrev pub is_listed : List String → String → Bool
  is_listed allowed host =
      contains allowed host || any (λ entry. W.ends_with host (append "." entry)) allowed

  unfoldable pub assert_host_allowed : List String → String → Result HttpError (Unit {0})
  assert_host_allowed allowed url =
      guard (is_http (W.scheme url)) HttpError.bad_scheme
      >> guard (ltb 0 (length allowed)) HttpError.nothing_allowed
      >> guard (is_listed allowed (W.lower (W.hostname url))) HttpError.host_blocked

  -- `str(value)`
  abbrev str_of : Value → String
  str_of (text s) = s
  str_of v = W.shown v

  abbrev or_else : Option Value → String → String
  or_else none s = s
  or_else (some v) s = if truthy v then str_of v else s

  abbrev pub url_of : Fields → Fields → String
  url_of params inputs = W.strip (or_else (get params "url") (or_else (get inputs "url") ""))

  abbrev pub method_of : Fields → String
  method_of params = W.upper (elim (get params "method") [ none ↦ "GET" | some v ↦ str_of v ])

  -- `params.get(key)`, null where there is none
  abbrev pub param : Fields → String → Value
  param params key = elim (get params key) [ none ↦ null | some v ↦ v ]

  -- a body that is a text is rendered
  unfoldable pub body_of : Fields → Fields → Option Value
  body_of params inputs = elim (param params "body") [
    | text s ↦
        if s == ""
        then some (text s)
        else elim (W.render s inputs) [ none ↦ none | some t ↦ some (text t) ]
    | v ↦ some v
  ]

  -- a body that is text is the content, and one that is a dict is sent as JSON; any other is not sent
  abbrev pub body_sent : Value → Value
  body_sent (text s) = text s
  body_sent (obj d) = obj d
  body_sent _ = null

  abbrev pub request_of : Fields → Fields → Value → HttpRequest
  request_of params inputs body = record {
    method = method_of params;
    url = url_of params inputs;
    headers = param params "headers";
    body = body_sent body;
  }

  abbrev pub payload_of : HttpResponse → Fields
  payload_of r =
      field "status" (num (ℤ.pos r.status))
        (field "body" r.decoded (field "ok" (bool r.is_success) end))

  abbrev pub http_key : String → String → Key
  http_key run_id step_execution_id = record {
    run_id = run_id;
    step_execution_id = step_execution_id;
    operation = "http_request";
  }

  -- the call itself, once the gate has let it through
  unfoldable pub perform : Key → Fields → Fields → HttpState → Result HttpError Fields × HttpState
  perform key params inputs state = elim (body_of params inputs) [
    | none ↦ (err HttpError.template_failed, state)
    | some body ↦
        let request = request_of params inputs body in
        let sent = state.sent ++ request ∷ [] in
        elim (W.send (length state.sent) request) [
          | err reason ↦ (
            err HttpError.request_failed,
            record { ledger = abandon key reason state.ledger; sent = sent },
          )
          | ok r ↦ (
            (if r.is_success then ok (payload_of r) else err HttpError.bad_status),
            record {
              ledger = commit key (payload_of r) (some (W.digits r.status)) state.ledger;
              sent = sent;
            },
          )
        ]
  ]

  -- the output, or what is raised
  unfoldable pub execute_http :
      List String → Key → Fields → Fields → HttpState → Result HttpError Fields × HttpState
  execute_http allowed key params inputs state =
      let url = url_of params inputs in
      let (ledger, claim) = pre_check key state.ledger in
      let claimed : HttpState = record state { ledger = ledger } in
      if url == "" then (err HttpError.no_url, state) else elim (assert_host_allowed allowed url) [
        | err e ↦ (err e, state)
        | ok _ ↦
            if claim.should_execute
            then perform key params inputs claimed
            else if claim.in_flight_elsewhere
            then (err HttpError.already_in_flight, claimed)
            else (ok (elim claim.prior_response [ none ↦ end | some r ↦ r ]), claimed)
      ]
