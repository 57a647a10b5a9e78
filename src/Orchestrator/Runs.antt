-- ===== src/Orchestrator/Runs.antt =====
-- The state that the worker of services/orchestrator/runner.py reads and writes: the tables, the
-- queues, the events. The graph of a run row is kept as a graph, of which the validator runs again
-- at each load. `_remember_outcome`, the log's data and times are left out.
use ae_cwap.Value.{Fields, end}
use ae_cwap.Contracts.Graph.{NodeType, WorkflowGraph}
use ae_cwap.Contracts.Job.{StepOutputContext}
use ae_cwap.Common.Tables.{select_one, update_where}
use ae_cwap.Common.Ledger.{Claim, commit_step_output}
use ae_cwap.Common.Gateway.{Gateway, ContractError}
use ae_cwap.Orchestrator.Variables.{RunContext, BindingError, record_step, previous_output}
use ae_cwap.Orchestrator.Branch.{NodeExecutionError}
use ae_cwap.Prelude.{
  ℕ, ◌+◌, String, Bool, true, false, not, Option, none, some, List, [], ◌∷◌, ◌++◌, ◌&&◌, ◌==◌,
  foldl, keep,
}

pub data RunStatus : Type 0 where
  pending running succeeded failed : RunStatus

-- `TERMINAL_RUN_STATUSES`
abbrev pub is_over : RunStatus → Bool
is_over RunStatus.succeeded = true
is_over RunStatus.failed = true
is_over _ = false

-- what a run failed with
pub data Reason : Type 0 where
  step_limit : Reason
  step_failed : NodeExecutionError → Reason
  binding_failed : BindingError → Reason

pub record Run : Type 0 where
  pub id : String
  pub workflow_id : String
  pub tenant_id : String
  pub initiating_user_id : String
  pub trace_id : String
  pub status : RunStatus
  pub graph_snapshot : WorkflowGraph
  pub inputs : Fields
  pub result : Option Fields
  pub error : Option Reason
  pub steps_executed : ℕ

pub record World : Type 0 where
  pub runs : List Run
  pub rows : List StepOutputContext
  pub ledger : List Claim
  pub gateway : Gateway
  pub events : List String
  pub drawn : ℕ

-- what an executor returns
pub record ExecutionOutcome : Type 0 where
  pub output : Fields
  pub derived_context : Fields

-- what is raised past the worker
pub data Fault : Type 0 where
  invalid_graph key_error : Fault
  bad_step : NodeExecutionError → Fault
  rejected : ContractError → Fault

abbrev pub is_run : String → Run → Bool
is_run id r = r.id == id

-- `Run.id == id, Run.status.notin_(TERMINAL_RUN_STATUSES)`
abbrev pub is_open_run : String → Run → Bool
is_open_run id r = (r.id == id) && not (is_over r.status)

unfoldable pub load_run : World → String → Option Run
load_run w id = select_one (is_run id) w.runs

abbrev pub emit : String → World → World
emit event w = record w { events = w.events ++ event ∷ [] }

abbrev pub failed_with : Reason → Run → Run
failed_with reason r = record r { status = RunStatus.failed; error = some reason }

unfoldable pub fail : String → Reason → World → World
fail id reason w =
    emit "run.failed"
      (record w { runs = update_where (is_open_run id) (failed_with reason) w.runs })

abbrev pub succeeded_with : Fields → Run → Run
succeeded_with result r = record r { status = RunStatus.succeeded; result = some result }

unfoldable pub succeed : String → RunContext → World → World
succeed id context w = emit "run.succeeded" (record w {
  runs = update_where (is_open_run id) (succeeded_with (previous_output context)) w.runs;
})

-- `_rebuild_context`
unfoldable pub rebuild_context : List StepOutputContext → String → Fields → RunContext
rebuild_context rows id inputs =
    foldl (λ (c : RunContext) (row : StepOutputContext). record_step c row.node_id row.output)
      (record { run_id = id; inputs = inputs; steps = []; previous_node_id = none })
      (keep (λ (row : StepOutputContext). row.run_id == id) rows)

-- `_inputs_for`
unfoldable pub inputs_for : World → String → Fields
inputs_for w id = elim (load_run w id) [ none ↦ end | some r ↦ r.inputs ]

abbrev pub commit_all : List StepOutputContext → List StepOutputContext → List StepOutputContext
commit_all rows [] = rows
commit_all rows (o ∷ os) = commit_all (commit_step_output rows o).0 os

-- the columns that a step's first write changes
abbrev pub progress : NodeType → Fields → Run → Run
progress type output r = record r {
  steps_executed = r.steps_executed + 1;
  status = RunStatus.running;
  inputs = elim type [ NodeType.input ↦ output | _ ↦ r.inputs ];
}
