-- ===== src/Orchestrator/Runner/Start.antt =====
-- `start_run` of services/orchestrator/runner.py: the row, and then the first job.
use ae_cwap.Value.{Fields}
use ae_cwap.Contracts.Graph.{WorkflowNode, WorkflowGraph}
use ae_cwap.Contracts.Job.{ExecutionState, JobContext, NextStepDefinition, WorkflowJobPayload}
use ae_cwap.Common.Authz.{User}
use ae_cwap.Common.Gateway.{Codec, Settings, publish}
use ae_cwap.Orchestrator.Variables.{RunContext}
use ae_cwap.Orchestrator.Branch.{Python, NodeExecutionError}
use ae_cwap.Orchestrator.StateMachine.{initial_step}
use ae_cwap.Orchestrator.Runs.{Run, World, Fault, ExecutionOutcome}
use ae_cwap.Orchestrator.Runner.{accepted_run, new_id, start_run}
use ae_cwap.Prelude.{◌≡◌, ℕ, String, some, List, Result, ok, err}

module _ (py : Python) (fresh : ℕ → String) (codec : Codec) (settings : Settings)
    (users : List User) (max_steps : ℕ)
    (execute : WorkflowNode
      → WorkflowJobPayload
      → RunContext
      → Result NodeExecutionError ExecutionOutcome)
    (g : WorkflowGraph) (c : JobContext) (inputs : Fields) (w : World) where
  abbrev id : String
  id = new_id py fresh codec settings users max_steps execute w

  abbrev row : Run
  row = accepted_run py fresh codec settings users max_steps execute id g c inputs

  abbrev after : World × Result Fault String
  after = start_run py fresh codec settings users max_steps execute g c inputs w

  -- how a start ends: with the first job published, or with nothing published
  pub data IsStarted : Type 0 where
    started :
        (first : NextStepDefinition) (p q : WorkflowJobPayload)
        → initial_step g ≡ some first
        → p.next_step_definition ≡ first
        → p.run_id ≡ id
        → p.current_state ≡ ExecutionState.run_accepted
        → publish codec settings users p w.gateway ≡ ok (q, after.0.gateway)
        → after.1 ≡ ok id
        → IsStarted
    refused : (x : Fault) → after.1 ≡ err x → after.0.gateway ≡ w.gateway → IsStarted
