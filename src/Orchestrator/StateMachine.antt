-- ===== src/Orchestrator/StateMachine.antt =====
-- services/orchestrator/state_machine.py: the planner. Decision nodes are resolved while planning,
-- so that each step that is dispatched names one node that does work. What the planner changes (the
-- run context, the outputs of the decisions, the log) is threaded through; a fresh step id is drawn
-- from `fresh` by a counter, in place of `uuid4`.
pub mod Follow
pub mod Faults
pub mod Leads
pub mod Plan
use ae_cwap.Prelude.{
  ℕ, zero, suc, ◌+◌, String, Bool, true, false, not, Option, none, some, List, [], ◌∷◌, ◌++◌,
  Result, ok, err, ◌>>=◌, if◌then◌else◌, ◌==◌, map,
}
use ae_cwap.Value.{Fields}
use ae_cwap.Contracts.Graph.{
  NodeType, is_branching, WorkflowNode, WorkflowEdge, WorkflowGraph, node, outgoing, entry_node,
}
use ae_cwap.Contracts.Job.{
  ServiceName, ExecutionState, JobContext, NextStepDefinition, WorkflowJobPayload,
  StepOutputContext, service_for, result_state,
}
use ae_cwap.Orchestrator.Variables.{RunContext, record_step, resolve_bindings}
use ae_cwap.Orchestrator.Branch.{Python, BranchOutcome, NodeExecutionError, evaluate_branch}

abbrev pub max_inline_branches : ℕ
max_inline_branches = 16

pub record Planner : Type 0 where
  pub context : RunContext
  pub branch_outputs : List StepOutputContext
  pub drawn : ℕ
  pub events : List String

pub record PlannedStep : Type 0 where
  pub next_steps : List NextStepDefinition
  pub branch_outputs : List StepOutputContext

-- `node`, where the KeyError is an error of the planner
unfoldable pub find : WorkflowGraph → String → Result NodeExecutionError WorkflowNode
find g id = elim (node g id) [ none ↦ err (NodeExecutionError.missing_node id) | some n ↦ ok n ]

abbrev pub step_to : WorkflowNode → List (String × String) → NextStepDefinition
step_to n bindings = record {
  target_service = service_for n.type;
  target_node_id = some n.id;
  input_bindings = bindings;
  terminal = false;
}

abbrev pub end_step : NextStepDefinition
end_step = record {
  target_service = ServiceName.terminal;
  target_node_id = none;
  input_bindings = [];
  terminal = true;
}

-- `none` is the StopIteration of `entry_node`
pub initial_step : WorkflowGraph → Option NextStepDefinition
initial_step g = elim (entry_node g) [ none ↦ none | some n ↦ some (step_to n []) ]

abbrev pub same_condition : Option Bool → Bool → Bool
same_condition (some true) true = true
same_condition (some false) false = true
same_condition _ _ = false

-- the loop of `_edge_for_decision`
pub edge_with : List WorkflowEdge → Bool → Option WorkflowEdge
edge_with [] decision = none
edge_with (e ∷ es) decision =
    if same_condition e.condition decision then some e else edge_with es decision

unfoldable pub edge_for_decision :
    WorkflowGraph → String → Bool → Result NodeExecutionError WorkflowEdge
unfolding edge_with
edge_for_decision g id decision = elim (edge_with (outgoing g id) decision) [
  | none ↦ err (NodeExecutionError.no_edge id decision)
  | some e ↦ ok e
]

-- `resolve_bindings` inside the `try`
unfoldable pub bind_inputs :
    String → List (String × String) → RunContext → Result NodeExecutionError Fields
bind_inputs id bindings c = elim (resolve_bindings bindings c) [
  | ok inputs ↦ ok inputs
  | err e ↦ err (NodeExecutionError.binding id)
]

-- where `plan_next` begins
abbrev pub started : RunContext → ℕ → Planner
started context drawn = record {
  context = context;
  branch_outputs = [];
  drawn = drawn;
  events = [];
}

module _ (py : Python) (fresh : ℕ → String) (g : WorkflowGraph) (run_id : String) where
  branch_output : String → BranchOutcome → String → StepOutputContext
  branch_output id outcome step_id = record {
    run_id = run_id;
    step_execution_id = step_id;
    source_service = ServiceName.branch_evaluator;
    node_id = id;
    resulting_state = result_state NodeType.branch;
    output = outcome.output;
    derived_context = outcome.derived_context;
    duration_ms = 0;
  }

  -- the outcome of a decision, recorded
  unfoldable pub settle : String → BranchOutcome → Planner → Planner
  unfolding branch_output
  settle id outcome p = record p {
    context = record_step p.context id outcome.output;
    branch_outputs = p.branch_outputs ++ branch_output id outcome (fresh p.drawn) ∷ [];
    drawn = p.drawn + 1;
    events = p.events ++ "branch.evaluated" ∷ [];
  }

  -- `_resolve_branch`, and the two lines of `_follow` that record its outcome. The inputs of the
  -- decision are resolved for the error that this may raise; `evaluate_branch` does not read them.
  unfoldable pub resolve_branch :
      WorkflowNode → List (String × String) → Planner → Result NodeExecutionError (Bool × Planner)
  resolve_branch n bindings p = do
    inputs ← bind_inputs n.id bindings p.context
    outcome ← evaluate_branch py n p.context
    ok (outcome.decision, settle n.id outcome p)

  -- `_follow`; the number is how many decisions may still be resolved
  unfoldable pub follow :
      ℕ → WorkflowEdge → Planner → Result NodeExecutionError (NextStepDefinition × Planner)
  follow zero edge p = do
    target ← find g edge.target
    elim (is_branching target.type) [
      | true ↦ err (NodeExecutionError.too_many_branches target.id)
      | false ↦ ok (step_to target edge.bindings, p)
    ]
  follow (suc hops) edge p = do
    target ← find g edge.target
    elim (is_branching target.type) [
      | true ↦ (do
        (decision, p') ← resolve_branch target edge.bindings p
        chosen ← edge_for_decision g target.id decision
        follow hops chosen p')
      | false ↦ ok (step_to target edge.bindings, p)
    ]

  -- the loop of `plan_next` over the outgoing edges
  unfoldable pub follow_all :
      List WorkflowEdge → Planner → Result NodeExecutionError (List NextStepDefinition × Planner)
  follow_all [] p = ok ([], p)
  follow_all (e ∷ es) p = do
    (step, p') ← follow max_inline_branches e p
    (steps, p'') ← follow_all es p'
    ok (step ∷ steps, p'')

  -- the steps that follow, and what planning them has changed
  unfoldable pub plan_next :
      String → RunContext → ℕ → Result NodeExecutionError (PlannedStep × Planner)
  plan_next from context drawn = elim (outgoing g from) [
    | [] ↦ ok (record { next_steps = end_step ∷ []; branch_outputs = [] }, started context drawn)
    | e ∷ es ↦ (do
      (steps, p) ← follow_all (e ∷ es) (started context drawn)
      ok (record { next_steps = steps; branch_outputs = p.branch_outputs }, p))
  ]

-- `build_payload`, given the new step's id
unfoldable pub build_payload :
    WorkflowGraph
    → String
    → JobContext
    → ExecutionState
    → NextStepDefinition
    → Fields
    → String
    → Result NodeExecutionError WorkflowJobPayload
build_payload g run_id job_context current_state next_step inputs step_id =
    if next_step.terminal
    then err NodeExecutionError.terminal_step
    else elim next_step.target_node_id [
      | none ↦ err NodeExecutionError.terminal_step
      | some id ↦ ok (record {
        run_id = run_id;
        step_execution_id = step_id;
        workflow_id = g.id;
        node_id = id;
        job_context = job_context;
        current_state = current_state;
        next_step_definition = next_step;
        inputs = inputs;
        attempt = 1;
      })
    ]
