-- ===== src/Contracts/Job.antt =====
-- packages/cwap_contracts/v2/job.py and v1/identity.py: the execution contract. A job names one
-- node, the service that runs it and the state that the run is in; the validators make an illegal
-- transition unrepresentable. `schema_version` and the timestamps are left out.
pub mod Transitions
use ae_cwap.Prelude.{
  ℕ, String, Bool, true, false, not, ◌==◌, ◌&&◌, Option, none, some, List, [], ◌∷◌, ltb, leb,
  if◌then◌else◌, Result, ok, err, ◌>>=◌, ◌>>◌, guard, contains,
}
use ae_cwap.Value.{Fields}
use ae_cwap.Contracts.Graph.{NodeType}
use ae_cwap.Contracts.Graph.Validation.{missing}

pub data ServiceName : Type 0 where
  orchestrator agent_runtime llm_proxy rag_search http_connector transform_engine : ServiceName
  branch_evaluator terminal : ServiceName

pub data ExecutionState : Type 0 where
  run_accepted input_resolved llm_inference_complete agent_objective_met : ExecutionState
  agent_budget_exhausted rag_context_loaded http_call_complete transform_complete : ExecutionState
  branch_evaluated data_validated workflow_complete failed : ExecutionState

-- `TERMINAL_STATES`
abbrev pub is_terminal_state : ExecutionState → Bool
is_terminal_state ExecutionState.workflow_complete = true
is_terminal_state ExecutionState.failed = true
is_terminal_state _ = false

-- `TERMINAL` is the one service that is not in `DISPATCHABLE_SERVICES`
abbrev pub is_terminal : ServiceName → Bool
is_terminal ServiceName.terminal = true
is_terminal _ = false

-- `service in LEGAL_TRANSITIONS[state]`
abbrev pub is_legal : ExecutionState → ServiceName → Bool
is_legal state service = if is_terminal_state state then is_terminal service else true

-- `NODE_TYPE_SERVICE`
unfoldable pub service_for : NodeType → ServiceName
service_for NodeType.input = ServiceName.orchestrator
service_for NodeType.agent = ServiceName.agent_runtime
service_for NodeType.llm = ServiceName.llm_proxy
service_for NodeType.rag_retrieve = ServiceName.rag_search
service_for NodeType.http_request = ServiceName.http_connector
service_for NodeType.transform = ServiceName.transform_engine
service_for NodeType.branch = ServiceName.branch_evaluator
service_for NodeType.output = ServiceName.orchestrator

-- `NODE_TYPE_RESULT_STATE`
unfoldable pub result_state : NodeType → ExecutionState
result_state NodeType.input = ExecutionState.input_resolved
result_state NodeType.agent = ExecutionState.agent_objective_met
result_state NodeType.llm = ExecutionState.llm_inference_complete
result_state NodeType.rag_retrieve = ExecutionState.rag_context_loaded
result_state NodeType.http_request = ExecutionState.http_call_complete
result_state NodeType.transform = ExecutionState.transform_complete
result_state NodeType.branch = ExecutionState.branch_evaluated
result_state NodeType.output = ExecutionState.workflow_complete

pub record PermissionRequirement : Type 0 where
  pub required_scope : String
  pub required_write : Option String

-- `as_set`: a write scope that is the empty text does not count
unfoldable pub as_set : PermissionRequirement → List String
as_set p =
    p.required_scope ∷ elim p.required_write [ none ↦ [] | some w ↦ if w == "" then [] else w ∷ [] ]

pub data PrincipalKind : Type 0 where
  user service : PrincipalKind

pub record JobContext : Type 0 where
  pub tenant_id : String
  pub initiating_user_id : String
  pub permissions : PermissionRequirement
  pub trace_id : String
  pub principal_kind : PrincipalKind

pub record NextStepDefinition : Type 0 where
  pub target_service : ServiceName
  pub target_node_id : Option String
  pub input_bindings : List (String × String)
  pub terminal : Bool

pub record WorkflowJobPayload : Type 0 where
  pub run_id : String
  pub step_execution_id : String
  pub workflow_id : String
  pub node_id : String
  pub job_context : JobContext
  pub current_state : ExecutionState
  pub next_step_definition : NextStepDefinition
  pub inputs : Fields
  pub attempt : ℕ

pub record StepOutputContext : Type 0 where
  pub run_id : String
  pub step_execution_id : String
  pub source_service : ServiceName
  pub node_id : String
  pub resulting_state : ExecutionState
  pub output : Fields
  pub derived_context : Fields
  pub duration_ms : ℕ

pub data JobError : Type 0 where
  terminal_service terminal_with_node service_is_terminal no_target : JobError
  empty_field bad_attempt illegal_transition : JobError

abbrev is_none : Option String → Bool
is_none none = true
is_none (some _) = false

-- `_terminal_consistency`
unfoldable pub validate_next_step : NextStepDefinition → Result JobError (Unit {0})
validate_next_step n =
    if n.terminal
    then (do
      guard (is_terminal n.target_service) JobError.terminal_service
      guard (is_none n.target_node_id) JobError.terminal_with_node)
    else (do
      guard (not (is_terminal n.target_service)) JobError.service_is_terminal
      guard (not (missing n.target_node_id)) JobError.no_target)

-- `min_length=1` of the ids and `ge=1` of the attempt
unfoldable pub fields_present : WorkflowJobPayload → Bool
fields_present p =
    not (p.run_id == "")
    && not (p.step_execution_id == "")
    && not (p.workflow_id == "")
    && not (p.node_id == "")
    && not (p.job_context.tenant_id == "")
    && not (p.job_context.initiating_user_id == "")
    && not (p.job_context.permissions.required_scope == "")
    && not (p.job_context.trace_id == "")

-- the model's fields, then the nested step, then `_validate_transition`
unfoldable pub validate_job : WorkflowJobPayload → Result JobError (Unit {0})
validate_job p = do
  guard (fields_present p) JobError.empty_field
  guard (leb 1 p.attempt) JobError.bad_attempt
  validate_next_step p.next_step_definition
  guard (is_legal p.current_state p.next_step_definition.target_service) JobError.illegal_transition
