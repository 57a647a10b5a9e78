-- ===== src/Skills/Execution.antt =====
-- services/skills/execution.py: how a skill runs, by its kind, and what it may do outside. The model,
-- the corpora, the tool servers and hashes are the parameter `Outer`; URLs, templates and the HTTP
-- client are the parameter `Web` of the http node. A composite calls skills that may be composites:
-- the depth that is left is a number, and `too_deep` stands for Python's own limit. Durations, the
-- options of a model call and the memory of a skill are left out.
use ae_cwap.Skills.{SkillDefinition, SkillParameter}
use ae_cwap.Common.Ledger.{Claim, Key, ClaimResult}
use ae_cwap.Orchestrator.Egress.{Web, HttpRequest, body_sent}
use ae_cwap.Value.{Value, Fields, text, null, obj, field, end}
use ae_cwap.Value.Dict.{get}
use ae_cwap.Prelude.{
  List, Option, Result, String, ℕ, Bool, ◌∷◌, none, if◌then◌else◌, guard, ◌>>=◌, some, err, not,
  true, ◌==◌, [], ◌||◌, ok, ◌>>◌, ◌&&◌,
}

-- `SkillExecutionError` and the other errors that are reported to the agent
pub data SkillError : Type 0 where
  missing_arguments no_write_scope egress_denied binding_failed request_failed : SkillError
  model_failed no_query retrieval_failed tool_unavailable server_gone server_off : SkillError
  tool_failed no_steps unknown_step own_step step_failed : SkillError

pub record ToolServer : Type 0 where
  pub name : String
  pub enabled : Bool

pub record ToolUse : Type 0 where
  pub server_id : String
  pub tool_name : String
  pub arguments : Fields
  pub read_only : Bool

pub record Outer : Type 0 where
  pub complete : String → String → Result SkillError String
  pub retrieve : String → String → Result SkillError String
  pub get_server : String → String → Option ToolServer
  pub call_tool : ℕ → ToolUse → Result String String
  -- `hash` of the values, and the digest of the arguments
  pub hash : Fields → String
  pub digest : Fields → String
  pub message : SkillError → String

pub record SkillContext : Type 0 where
  pub tenant_id : String
  pub run_id : String
  pub step_execution_id : String
  pub allow_side_effects : Bool
  -- `http_allowed_hosts`
  pub allowed_hosts : List String

pub record SkillState : Type 0 where
  pub skills : List SkillDefinition
  pub ledger : List Claim
  pub sent : List HttpRequest
  pub tool_uses : List ToolUse

-- what `execute` lets out, with what was reached: composites that call one another without end, and
-- the TypeError of a composite whose steps are a number or `True`
pub data Runaway : Type 0 where
  too_deep not_iterable : SkillState → Runaway

abbrev pub max_skill_output_chars : ℕ
max_skill_output_chars = 20000

module _ (W : Web) (X : Outer) (context : SkillContext) where
  -- `str(value)`
  abbrev pub skill_text : Value → String
  skill_text (text s) = s
  skill_text v = W.shown v

  -- `definition.get(key)` as a text, blank where there is none
  abbrev pub text_at : Fields → String → String
  text_at d key = elim (get d key) [ none ↦ "" | some v ↦ skill_text v ]

  -- `_check_required`
  unfoldable pub has_required : List SkillParameter → Fields → Bool
  has_required [] arguments = true
  has_required (p ∷ ps) arguments =
      (not p.required || not (W.strip (text_at arguments p.name) == ""))
      && has_required ps arguments

  abbrev pub values_of : List SkillParameter → Fields → Value → Fields
  values_of [] arguments default = end
  values_of (p ∷ ps) arguments default =
      field p.name (elim (get arguments p.name) [ none ↦ default | some v ↦ v ])
        (values_of ps arguments default)

  abbrev pub rendered : Fields → String → Fields → Result SkillError String
  rendered definition key values = elim (W.render (text_at definition key) values) [
    | none ↦ err SkillError.binding_failed
    | some s ↦ ok s
  ]

  unfoldable pub run_prompt : SkillDefinition → Fields → Result SkillError String
  run_prompt skill values = rendered skill.definition "prompt_template" values >>= λ prompt.
      X.complete prompt (text_at skill.definition "system")

  -- the first value that is not blank
  abbrev pub query_of : Fields → String
  query_of end = ""
  query_of (field k v d) =
      let rest = query_of d in if W.strip (skill_text v) == "" then rest else skill_text v

  unfoldable pub run_retrieval : SkillDefinition → Fields → Result SkillError String
  run_retrieval skill values =
      guard (not (query_of values == "")) SkillError.no_query
      >> X.retrieve (text_at skill.definition "knowledge_handle") (query_of values)

  abbrev pub gate_key : String → Key
  gate_key operation = record {
    run_id = context.run_id;
    step_execution_id = context.step_execution_id;
    operation = operation;
  }

  -- what a call that was made before returned
  abbrev pub prior_text : ClaimResult → String → String
  prior_text claim key = elim claim.prior_response [
    | none ↦ "already performed"
    | some r ↦ elim (get r key) [ none ↦ "already performed" | some v ↦ skill_text v ]
  ]

  abbrev pub skill_body : SkillDefinition → Fields → Option Value
  skill_body skill values = elim (get skill.definition "body") [
    | none ↦ some null
    | some v ↦ elim v [
      | text s ↦
          if s == ""
          then some (text s)
          else elim (W.render s values) [ none ↦ none | some t ↦ some (text t) ]
      | other ↦ some other
    ]
  ]

  abbrev pub skill_request : SkillDefinition → String → Value → HttpRequest
  skill_request skill url body = record {
    method =
        W.upper (elim (get skill.definition "method") [ none ↦ "GET" | some v ↦ skill_text v ]);
    url = url;
    headers = elim (get skill.definition "headers") [ none ↦ obj end | some v ↦ v ];
    body = body_sent W body;
  }
