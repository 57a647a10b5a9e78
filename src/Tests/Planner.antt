-- ===== src/Tests/Planner.antt =====
-- The planner and the job contract at the sample workflow.
use ae_cwap.Prelude.{inl, ◌↔◌, err, ok, true, ℕ, String, [], ◌∷◌, ◌≡◌, refl}
use ae_cwap.Value.{bool, Fields, text, field, end}
use ae_cwap.Value.Dict.{get}
use ae_cwap.Contracts.Graph.{WorkflowGraph, NodeType, outgoing, node}
use ae_cwap.Contracts.Job.{
  JobError, ServiceName, ExecutionState, StepOutputContext, validate_job, validate_next_step,
  fields_present, result_state, service_for,
}
use ae_cwap.Contracts.Graph.Validation.{validate_structure}
use ae_cwap.Contracts.Graph.Kahn.{accepts_order}
use ae_cwap.Contracts.Job.Transitions.{IsJob, validate_job_iff}
use ae_cwap.Orchestrator.Branch.{
  IsRunFault, preview, operator_named, resolve_param, apply, decide, NodeExecutionError,
  BranchOutcome, evaluate_branch,
}
use ae_cwap.Orchestrator.StateMachine.{
  started, find, settle, bind_inputs, resolve_branch, follow, follow_all, Planner, PlannedStep,
  plan_next, build_payload, edge_for_decision,
}
use ae_cwap.Orchestrator.StateMachine.Plan.{
  IsPlan, plan_next_lem, plan_next_error, planned_job_valid,
}
use ae_cwap.Orchestrator.Variables.{resolve_value, record_step, dig, resolve, resolve_bindings}
use ae_cwap.Orchestrator.Variables.Texts.{join_dots, split_dots, join_dots-split_dots}
use ae_cwap.Tests.Samples.{
  to_choice, job, to_transform, output_node, transform_node, flow, flow_valid, start_node,
  choice_node, no_context, plain_python, owner,
}

abbrev ids : ℕ → String
ids n = "se"

-- what the sample's decision returns
abbrev decided : BranchOutcome
decided = record {
  output = field "decision" (bool true) (field "evaluated" (text "x") end);
  derived_context = field "operator" (text "==") end;
  decision = true;
}

abbrev decision_row : StepOutputContext
decision_row = record {
  run_id = "r";
  step_execution_id = "se";
  source_service = ServiceName.branch_evaluator;
  node_id = "b";
  resulting_state = ExecutionState.branch_evaluated;
  output = decided.output;
  derived_context = decided.derived_context;
  duration_ms = 0;
}

-- the plan after the input: the decision is settled, and the transform comes next
abbrev planned : PlannedStep
planned = record { next_steps = to_transform ∷ []; branch_outputs = decision_row ∷ [] }

abbrev planner : Planner
planner = record {
  context = record_step no_context "b" decided.output;
  branch_outputs = decision_row ∷ [];
  drawn = 1;
  events = "branch.evaluated" ∷ [];
}

decides : evaluate_branch plain_python choice_node no_context ≡ ok decided
unfolding evaluate_branch decide apply resolve_param operator_named preview resolve_value get
decides = refl

after_input : plan_next plain_python ids flow "r" "in" no_context 0 ≡ ok (planned, planner)
unfolding plan_next follow_all follow resolve_branch edge_for_decision bind_inputs settle find node
    outgoing evaluate_branch decide apply resolve_param operator_named preview resolve_value get
    resolve_bindings service_for result_state record_step
after_input = refl

plan_next_lem_example : IsPlan plain_python ids flow "r" "in" no_context planned
plan_next_lem_example =
    plan_next_lem plain_python ids flow "r" "in" no_context 0 planned planner after_input

-- a decision whose operator is not known
abbrev odd_flow : WorkflowGraph
odd_flow = record flow {
  nodes =
      start_node
      ∷ record choice_node { params = field "operator" (text "~") end }
      ∷ transform_node
      ∷ output_node
      ∷ [];
}

odd_valid : validate_structure odd_flow ≡ ok tt
unfolding validate_structure accepts_order outgoing
odd_valid = refl

odd_plan :
    plan_next plain_python ids odd_flow "r" "in" no_context 0
    ≡ err (NodeExecutionError.unknown_operator "b")
unfolding plan_next follow_all follow resolve_branch bind_inputs find node outgoing evaluate_branch
    operator_named get resolve_bindings
odd_plan = refl

plan_next_error_example : IsRunFault (NodeExecutionError.unknown_operator "b")
plan_next_error_example =
    plan_next_error plain_python ids odd_flow "r" "in" no_context 0
      (NodeExecutionError.unknown_operator "b") odd_valid odd_plan

job_built :
    build_payload flow "r" owner (result_state NodeType.input) to_transform end "se2" ≡ ok job
unfolding build_payload result_state
job_built = refl

job_filled : fields_present job ≡ true
unfolding fields_present
job_filled = refl

planned_job_valid_example : validate_job job ≡ ok tt
planned_job_valid_example =
    planned_job_valid plain_python ids flow start_node "r" "se2" no_context 0 planned planner
      to_transform owner end job flow_valid (inl refl) after_input (inl refl) job_built job_filled

validate_job_iff_example : (validate_job job ≡ ok tt) ↔ IsJob job
validate_job_iff_example = validate_job_iff job

-- an output leaves the run complete, and no node may follow
complete_rejected :
    validate_job (record job { current_state = ExecutionState.workflow_complete })
    ≡ err JobError.illegal_transition
unfolding validate_job validate_next_step fields_present
complete_rejected = refl

abbrev answer : Fields
answer = field "topic" (text "tides") end

resolves_topic : resolve "$steps.in.topic" (record_step no_context "in" answer) ≡ ok (text "tides")
unfolding resolve record_step dig get
resolves_topic = refl

join_dots-split_dots_example : join_dots (split_dots "run.input.topic") ≡ "run.input.topic"
join_dots-split_dots_example = join_dots-split_dots "run.input.topic"

settles_one :
    follow plain_python ids flow "r" 16 to_choice (started no_context 0)
    ≡ ok (to_transform, planner)
unfolding follow resolve_branch edge_for_decision bind_inputs settle find node outgoing
    evaluate_branch decide apply resolve_param operator_named preview resolve_value get
    resolve_bindings service_for result_state record_step
settles_one = refl
