-- ===== src/Orchestrator/Runner.antt =====
-- services/orchestrator/runner.py: the start of a run, and one step of it per message. Each handler
-- is a function on the state of `Runs`; what it raises past the worker is a value beside the state
-- that its writes have left. `execute` stands for the node executors (what they write of their own
-- is left out), `fresh` for `uuid4`.
pub mod Status
pub mod Final
pub mod Start
use ae_cwap.Orchestrator.Runs.{
  RunStatus, is_over, Reason, Run, World, ExecutionOutcome, Fault, is_run, is_open_run, load_run,
  emit, failed_with, fail, succeeded_with, succeed, rebuild_context, inputs_for, commit_all,
  progress,
}
use ae_cwap.Value.{Value, Fields, end}
use ae_cwap.Contracts.Graph.{NodeType, WorkflowNode, WorkflowEdge, WorkflowGraph, node, incoming}
use ae_cwap.Contracts.Graph.Validation.{model_validate}
use ae_cwap.Contracts.Job.{
  ExecutionState, ServiceName, JobContext, NextStepDefinition, WorkflowJobPayload,
  StepOutputContext, result_state,
}
use ae_cwap.Common.Tables.{select_one, update_where}
use ae_cwap.Common.Ledger.{Claim, commit_step_output, claim_dispatch}
use ae_cwap.Common.Authz.{User}
use ae_cwap.Common.Gateway.{Codec, Settings, Gateway, ContractError, publish, take_next}
use ae_cwap.Orchestrator.Variables.{
  RunContext, BindingError, record_step, previous_output, resolve_bindings,
}
use ae_cwap.Orchestrator.Branch.{Python, NodeExecutionError}
use ae_cwap.Orchestrator.StateMachine.{PlannedStep, Planner, plan_next, build_payload, initial_step}
use ae_cwap.Orchestrator.Joins.{RunState, run_state, join_ready, work_remains, joined_bindings}
use ae_cwap.Prelude.{
  append, if◌then◌else◌, ◌≡◌, ℕ, zero, suc, ◌+◌, String, Bool, true, false, not, Option, none, some,
  List, [], ◌∷◌, ◌++◌, Result, ok, err, ◌&&◌, ◌||◌, ◌==◌, leb, ltb, length, foldl, keep,
}

abbrev is_input : NodeType → Bool
is_input NodeType.input = true
is_input _ = false

-- what is raised ends the handler, in the state that was reached
abbrev pub then_do :
    {A B : Type 0}
    → World × Result Fault A
    → (A → World → World × Result Fault B)
    → World × Result Fault B
then_do (w, err x) next = (w, err x)
then_do (w, ok a) next = next a w

module _ (py : Python) (fresh : ℕ → String) (codec : Codec) (settings : Settings)
    (users : List User) (max_steps : ℕ)
    (execute : WorkflowNode
      → WorkflowJobPayload
      → RunContext
      → Result NodeExecutionError ExecutionOutcome) where
  -- the row of a run that has just been accepted
  abbrev pub accepted_run : String → WorkflowGraph → JobContext → Fields → Run
  accepted_run id g c inputs = record {
    id = id;
    workflow_id = g.id;
    tenant_id = c.tenant_id;
    initiating_user_id = c.initiating_user_id;
    trace_id = c.trace_id;
    status = RunStatus.pending;
    graph_snapshot = g;
    inputs = inputs;
    result = none;
    error = none;
    steps_executed = 0;
  }

  abbrev pub new_id : World → String
  new_id w = append "run_" (fresh w.drawn)

  -- the row and the event, which are written before the first job is built
  abbrev pub with_run : WorkflowGraph → JobContext → Fields → World → World
  with_run g c inputs w =
      emit "run.accepted"
        (record w { runs = w.runs ++ accepted_run (new_id w) g c inputs ∷ []; drawn = suc w.drawn })

  -- `start_run`
  unfoldable pub start_run :
      WorkflowGraph → JobContext → Fields → World → World × Result Fault String
  start_run g c inputs w =
      let w₁ = with_run g c inputs w in
      elim (initial_step g) [
        | none ↦ (w₁, err Fault.key_error)
        | some first ↦
            elim (build_payload g (new_id w) c ExecutionState.run_accepted first inputs
              (fresh w₁.drawn)) [
                | err e ↦ (w₁, err (Fault.bad_step e))
                | ok p ↦ elim (publish codec settings users p w₁.gateway) [
                  | err e ↦ (w₁, err (Fault.rejected e))
                  | ok (_, gateway) ↦
                      (record w₁ { gateway = gateway; drawn = suc w₁.drawn }, ok (new_id w))
                ]
              ]
      ]

  -- the last lines of `_dispatch`: the next job is built and published
  unfoldable pub send_step :
      WorkflowGraph
      → WorkflowJobPayload
      → ExecutionState
      → NextStepDefinition
      → Fields
      → World
      → World × Result Fault Bool
  send_step g p state step inputs w =
      elim (build_payload g p.run_id p.job_context state step inputs (fresh w.drawn)) [
        | err e ↦ (w, err (Fault.bad_step e))
        | ok next ↦ elim (publish codec settings users next w.gateway) [
          | err e ↦ (w, err (Fault.rejected e))
          | ok (_, gateway) ↦ (record w { gateway = gateway; drawn = suc w.drawn }, ok true)
        ]
      ]

  -- `_dispatch` of a step that is not a join
  unfoldable pub dispatch_plain :
      WorkflowGraph
      → WorkflowJobPayload
      → RunContext
      → ExecutionState
      → NextStepDefinition
      → World
      → World × Result Fault Bool
  dispatch_plain g p context state step w = elim (resolve_bindings step.input_bindings context) [
    | err e ↦ (fail p.run_id (Reason.binding_failed e) w, ok false)
    | ok inputs ↦ send_step g p state step inputs w
  ]

  -- `_dispatch` of a join on which every path has arrived
  unfoldable pub dispatch_ready :
      WorkflowGraph
      → WorkflowJobPayload
      → ExecutionState
      → NextStepDefinition
      → String
      → World
      → World × Result Fault Bool
  dispatch_ready g p state step id w =
      let joined = record step { input_bindings = joined_bindings g id } in
      let context = rebuild_context w.rows p.run_id (inputs_for w p.run_id) in
      elim (resolve_bindings joined.input_bindings context) [
        | err e ↦ (fail p.run_id (Reason.binding_failed e) w, ok false)
        | ok inputs ↦
            let (ledger, won) = claim_dispatch w.ledger p.run_id id in
            if won
            then send_step g p state joined inputs (record w { ledger = ledger })
            else (w, ok false)
      ]

  -- `_dispatch`
  unfoldable pub dispatch :
      WorkflowGraph
      → WorkflowJobPayload
      → RunContext
      → ExecutionState
      → NextStepDefinition
      → World
      → World × Result Fault Bool
  dispatch g p context state step w = elim step.target_node_id [
    | none ↦ dispatch_plain g p context state step w
    | some id ↦
        if not (id == "") && ltb 1 (length (incoming g id))
        then elim (join_ready g (run_state w.rows p.run_id) id) [
          | none ↦ (w, err Fault.key_error)
          | some false ↦ (w, ok false)
          | some true ↦ dispatch_ready g p state step id w
        ]
        else dispatch_plain g p context state step w
  ]

  -- the loop of `_dispatch_next`, with how many steps were dispatched
  unfoldable pub dispatch_each :
      WorkflowGraph
      → WorkflowJobPayload
      → RunContext
      → ExecutionState
      → List NextStepDefinition
      → ℕ
      → World
      → World × Result Fault ℕ
  dispatch_each g p context state [] n w = (w, ok n)
  dispatch_each g p context state (s ∷ steps) n w = elim s.terminal [
    | true ↦ dispatch_each g p context state steps n w
    | false ↦
        then_do (dispatch g p context state s w)
          (λ sent w'. dispatch_each g p context state steps (if sent then suc n else n) w')
  ]

  -- the end of `_dispatch_next`
  unfoldable pub close :
      WorkflowGraph → WorkflowJobPayload → RunContext → ℕ → World → World × Result Fault (Unit {0})
  close g p context (suc n) w = (w, ok tt)
  close g p context zero w = elim (work_remains g (run_state w.rows p.run_id)) [
    | none ↦ (w, err Fault.key_error)
    | some true ↦ (w, ok tt)
    | some false ↦ (succeed p.run_id context w, ok tt)
  ]

  -- `_dispatch_next`; the events of decisions that were settled before planning failed are left out
  unfoldable pub dispatch_next :
      WorkflowGraph
      → WorkflowJobPayload
      → RunContext
      → NodeType
      → World
      → World × Result Fault (Unit {0})
  dispatch_next g p context type w =
      elim (plan_next py fresh g p.run_id p.node_id context w.drawn) [
        | err x ↦ (fail p.run_id (Reason.step_failed x) w, ok tt)
        | ok (planned, planner) ↦
            let w₁ = record w {
              rows = commit_all w.rows planned.branch_outputs;
              events = w.events ++ planner.events;
              drawn = planner.drawn;
            } in
            then_do (dispatch_each g p planner.context (result_state type) planned.next_steps 0 w₁)
              (close g p planner.context)
      ]

  -- `_process` from the commit on
  unfoldable pub finish :
      WorkflowGraph
      → WorkflowJobPayload
      → RunContext
      → WorkflowNode
      → ExecutionOutcome
      → World
      → World × Result Fault (Unit {0})
  finish g p context n outcome w =
      let (rows, first_write) = commit_step_output w.rows (record {
        run_id = p.run_id;
        step_execution_id = p.step_execution_id;
        source_service = p.next_step_definition.target_service;
        node_id = n.id;
        resulting_state = result_state n.type;
        output = outcome.output;
        derived_context = outcome.derived_context;
        duration_ms = 0;
      }) in
      let committed =
        if first_write
        then record w {
          rows = rows;
          runs = update_where (is_run p.run_id) (progress n.type outcome.output) w.runs;
        }
        else emit "step.deduplicated" (record w { rows = rows }) in
      let inputs = if first_write && is_input n.type then outcome.output else context.inputs in
      dispatch_next g p (record_step (record context { inputs = inputs }) n.id outcome.output)
        n.type (emit "step.completed" committed)

  -- `_process`
  unfoldable pub process : WorkflowJobPayload → World → World × Result Fault (Unit {0})
  process p w = elim (load_run w p.run_id) [
    | none ↦ (emit "run.unknown" w, ok tt)
    | some run ↦ elim (is_over run.status) [
      | true ↦ (emit "step.skipped" w, ok tt)
      | false ↦ elim (model_validate run.graph_snapshot) [
        | err e ↦ (w, err Fault.invalid_graph)
        | ok _ ↦
            let g = run.graph_snapshot in
            let context = rebuild_context w.rows p.run_id run.inputs in
            elim (node g p.node_id) [
              | none ↦ (w, err Fault.key_error)
              | some n ↦ elim (leb max_steps run.steps_executed) [
                | true ↦ (fail p.run_id Reason.step_limit w, ok tt)
                | false ↦ elim (execute n p context) [
                  | err x ↦ (fail p.run_id (Reason.step_failed x) (emit "step.started" w), ok tt)
                  | ok outcome ↦ finish g p context n outcome (emit "step.started" w)
                ]
              ]
            ]
      ]
    ]
  ]

  -- `poll`: whether a job was executed
  unfoldable pub poll : World → World × Result Fault Bool
  poll w =
      let (taken, gateway) = take_next codec settings users w.gateway in
      let w₁ = record w { gateway = gateway } in
      elim taken [ none ↦ (w₁, ok false) | some p ↦ then_do (process p w₁) (λ _ w₂. (w₂, ok true)) ]

  -- `drain`: how many jobs were executed
  unfoldable pub drain : ℕ → World → World × Result Fault ℕ
  drain zero w = (w, ok 0)
  drain (suc max_messages) w = then_do (poll w) (λ executed w₁.
      if executed then then_do (drain max_messages w₁) (λ n w₂. (w₂, ok (suc n))) else (w₁, ok 0))
