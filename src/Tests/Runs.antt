-- ===== src/Tests/Runs.antt =====
-- The worker at the sample workflow.
use ae_cwap.Orchestrator.Runs.{Run, RunStatus, World, ExecutionOutcome, load_run}
use ae_cwap.Orchestrator.Runner.{drain}
use ae_cwap.Value.{end}
use ae_cwap.Contracts.Graph.{WorkflowNode, WorkflowEdge, incoming, node}
use ae_cwap.Contracts.Job.{WorkflowJobPayload}
use ae_cwap.Common.Tables.{select_one}
use ae_cwap.Orchestrator.Variables.{RunContext}
use ae_cwap.Orchestrator.Branch.{NodeExecutionError}
use ae_cwap.Orchestrator.Joins.{
  work_remains, RunState, is_closed, join_ready, closed_within, closed_edges,
}
use ae_cwap.Orchestrator.Joins.Remaining.{IsDue, work_remains_iff}
use ae_cwap.Orchestrator.Joins.Closed.{CutOff, is_closed_iff, join_ready_iff}
use ae_cwap.Orchestrator.Runner.Final.{drain_final}
use ae_cwap.Tests.Samples.{flow, flow_valid, plain_python}
use ae_cwap.Tests.Queues.{codec, settings, users, quiet}
use ae_cwap.Prelude.{
  In, ◌⊎◌, ◌≤◌, ◌≡◌, refl, ℕ, String, Bool, [], ◌∷◌, none, some, true, false, Result, ok, ◌↔◌, All,
  contains, length,
}

-- the decision went to the output
abbrev declined : RunState
declined = record { completed = "in" ∷ "b" ∷ []; decisions = ("b", false) ∷ [] }

is_closed_iff_example :
    (b : Bool) × (is_closed flow declined "t" ≡ some b) × ((b ≡ true) ↔ CutOff flow declined "t")
is_closed_iff_example = is_closed_iff flow declined "t" flow_valid

transform_closed : is_closed flow declined "t" ≡ some true
unfolding is_closed closed_within closed_edges incoming node
transform_closed = refl

join_ready_iff_example :
    (b : Bool) × (join_ready flow declined "o" ≡ some b)
    × ((b ≡ true) ↔ (
        (length (incoming flow "o") ≤ 1)
        ⊎ All
            (λ (e : WorkflowEdge).
              (contains declined.completed e.source ≡ true) ⊎ CutOff flow declined e.source)
            (incoming flow "o")))
join_ready_iff_example = join_ready_iff flow declined "o" flow_valid

abbrev run_with : RunStatus → ℕ → Run
run_with status steps = record {
  id = "r";
  workflow_id = "wf";
  tenant_id = "acme";
  initiating_user_id = "u1";
  trace_id = "tr";
  status = status;
  graph_snapshot = flow;
  inputs = end;
  result = none;
  error = none;
  steps_executed = steps;
}

abbrev world : RunStatus → ℕ → World
world status steps = record {
  runs = run_with status steps ∷ [];
  rows = [];
  ledger = [];
  gateway = record quiet { queues = ("work", "job" ∷ "job" ∷ []) ∷ [] };
  events = [];
  drawn = 0;
}

abbrev fresh : ℕ → String
fresh n = "step"

abbrev echo :
    WorkflowNode → WorkflowJobPayload → RunContext → Result NodeExecutionError ExecutionOutcome
echo n p c = ok (record { output = p.inputs; derived_context = end })

over_run : load_run (world RunStatus.failed 1) "r" ≡ some (run_with RunStatus.failed 1)
unfolding load_run select_one
over_run = refl

drain_final_example :
    load_run
      (drain plain_python fresh codec settings users 50 echo 10 (world RunStatus.failed 1)).0
      "r"
    ≡ some (run_with RunStatus.failed 1)
drain_final_example =
    drain_final plain_python fresh codec settings users 50 echo 10 (world RunStatus.failed 1) "r"
      (run_with RunStatus.failed 1) over_run refl

work_remains_iff_example :
    (b : Bool) × (work_remains flow declined ≡ some b)
    × ((b ≡ true) ↔ ((n : WorkflowNode) × In n flow.nodes × IsDue flow declined flow_valid n))
work_remains_iff_example = work_remains_iff flow declined flow_valid
