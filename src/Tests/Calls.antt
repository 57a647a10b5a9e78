-- ===== src/Tests/Calls.antt =====
-- The http executor at concrete jobs.
use ae_cwap.Skills.Calling.{execute_skill}
use ae_cwap.Skills.Scope.{state_after, write_uses, execute_skill_quiet}
use ae_cwap.Orchestrator.Egress.Redelivery.{execute_http_stuck, execute_http_once}
use ae_cwap.Orchestrator.Egress.Sending.{execute_http_sends}
use ae_cwap.Value.{Fields, field, end, text, arr, cons, nil}
use ae_cwap.Value.Dict.{get}
use ae_cwap.Orchestrator.Egress.{
  HttpState, body_of, assert_host_allowed, Web, execute_http, url_of, http_key, HttpRequest,
  is_http, is_listed, HttpResponse, HttpError, request_of, payload_of,
}
use ae_cwap.Common.Ledger.{pre_check, Key}
use ae_cwap.Common.Tables.{insert_once}
use ae_cwap.Skills.{SkillDefinition, SkillKind}
use ae_cwap.Skills.Execution.{Outer, SkillError, SkillContext, SkillState}
use ae_cwap.Prelude.{
  ◌≡◌, List, [], false, String, true, ok, some, none, refl, ◌⊎◌, if◌then◌else◌, ◌∷◌, ◌==◌, ◌++◌,
  err,
}

-- a client that a server in trouble answers; the template "bad" does not render
abbrev web : Web
web = record {
  upper = λ s. s;
  lower = λ s. s;
  strip = λ s. s;
  ends_with = λ s t. false;
  shown = λ v. "";
  digits = λ n. "500";
  scheme = λ url. "https";
  hostname = λ url. "api.example.com";
  render = λ s inputs. if s == "bad" then none else some s;
  send =
      λ n q. ok (record { status = 500; decoded = text "down"; raw = "down"; is_success = false });
}

abbrev hosts : List String
hosts = "api.example.com" ∷ []

abbrev order_params : Fields
order_params = field "url" (text "https://api.example.com/orders") (field "body" (text "one") end)

abbrev bad_params : Fields
bad_params = field "url" (text "https://api.example.com/orders") (field "body" (text "bad") end)

abbrev order_key : Key
order_key = http_key web "r1" "se1"

abbrev nothing_sent : HttpState
nothing_sent = record { ledger = []; sent = [] }

first_is_let_through : (pre_check order_key []).1.should_execute ≡ true
unfolding pre_check insert_once
first_is_let_through = refl

execute_http_sends_example :
    let s' = (execute_http web hosts order_key order_params end nothing_sent).1 in
    (s'.sent ≡ [])
    ⊎ ((q : HttpRequest) × (s'.sent ≡ [] ++ q ∷ [])
        × (q.url ≡ url_of web order_params end)
        × (is_http (web.scheme q.url) ≡ true)
        × (is_listed web hosts (web.lower (web.hostname q.url)) ≡ true)
        × ((pre_check order_key []).1.should_execute ≡ true))
execute_http_sends_example = execute_http_sends web hosts order_key order_params end nothing_sent

order_body : body_of web order_params end ≡ some (text "one")
unfolding body_of get
order_body = refl

bad_body : body_of web bad_params end ≡ none
unfolding body_of get
bad_body = refl

order_url_given : (url_of web order_params end == "") ≡ false
unfolding get
order_url_given = refl

bad_url_given : (url_of web bad_params end == "") ≡ false
unfolding get
bad_url_given = refl

order_allowed : assert_host_allowed web hosts (url_of web order_params end) ≡ ok tt
unfolding assert_host_allowed get
order_allowed = refl

bad_allowed : assert_host_allowed web hosts (url_of web bad_params end) ≡ ok tt
unfolding assert_host_allowed get
bad_allowed = refl

abbrev down : HttpResponse
down = record { status = 500; decoded = text "down"; raw = "down"; is_success = false }

execute_http_once_example :
    let (result, after) = execute_http web hosts order_key order_params end nothing_sent in
    let (again, later) = execute_http web hosts order_key order_params end after in
    (result ≡ err HttpError.bad_status)
    × (after.sent ≡ [] ++ request_of web order_params end (text "one") ∷ [])
    × (again ≡ ok (payload_of web down))
    × (later.sent ≡ after.sent)
execute_http_once_example =
    execute_http_once web hosts order_key order_params end nothing_sent order_url_given
      order_allowed first_is_let_through (text "one") down order_body refl

execute_http_stuck_example :
    let (result, after) = execute_http web hosts order_key bad_params end nothing_sent in
    let (again, later) = execute_http web hosts order_key bad_params end after in
    (result ≡ err HttpError.template_failed)
    × (again ≡ err HttpError.already_in_flight)
    × (later.sent ≡ [])
execute_http_stuck_example =
    execute_http_stuck web hosts order_key bad_params end nothing_sent bad_url_given bad_allowed
      first_is_let_through bad_body

abbrev outer : Outer
outer = record {
  complete = λ prompt system. ok prompt;
  retrieve = λ handle query. err SkillError.retrieval_failed;
  get_server = λ tenant_id id. none;
  call_tool = λ n u. ok "";
  hash = λ d. "h";
  digest = λ d. "d";
  message = λ e. "failed";
}

abbrev read_context : SkillContext
read_context = record {
  tenant_id = "acme";
  run_id = "r1";
  step_execution_id = "se1";
  allow_side_effects = false;
  allowed_hosts = hosts;
}

abbrev order_skill : SkillDefinition
order_skill = record {
  id = "s1";
  tenant_id = "acme";
  name = "order";
  kind = SkillKind.http;
  parameters = [];
  definition = order_params;
  invocations = 0;
  failures = 0;
}

abbrev twice_skill : SkillDefinition
twice_skill = record order_skill {
  id = "s2";
  name = "order_twice";
  kind = SkillKind.composite;
  definition = field "steps" (arr (cons (text "order") (cons (text "order") nil))) end;
}

abbrev skill_state : SkillState
skill_state = record {
  skills = order_skill ∷ twice_skill ∷ [];
  ledger = [];
  sent = [];
  tool_uses = [];
}

execute_skill_quiet_example :
    let s' = state_after (execute_skill web outer read_context 10 twice_skill end skill_state) in
    (s'.sent ≡ []) × (write_uses s' ≡ [])
execute_skill_quiet_example =
    execute_skill_quiet web outer read_context refl 10 twice_skill end skill_state
