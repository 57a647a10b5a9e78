-- ===== src/Orchestrator/Runner/Status.antt =====
-- What the worker of services/orchestrator/runner.py does to the rows of the runs, whatever message
-- it handles and whatever the executors return.
use ae_cwap.Value.{Fields}
use ae_cwap.Contracts.Graph.{incoming, NodeType, WorkflowNode, WorkflowGraph, node}
use ae_cwap.Contracts.Graph.Validation.{model_validate}
use ae_cwap.Contracts.Job.{result_state, ExecutionState, NextStepDefinition, WorkflowJobPayload}
use ae_cwap.Common.Tables.{update_where}
use ae_cwap.Common.Authz.{User}
use ae_cwap.Common.Gateway.{Codec, Settings, publish}
use ae_cwap.Common.Ledger.{claim_dispatch}
use ae_cwap.Orchestrator.Variables.{RunContext, resolve_bindings}
use ae_cwap.Orchestrator.Branch.{Python, NodeExecutionError}
use ae_cwap.Orchestrator.StateMachine.{plan_next, build_payload}
use ae_cwap.Orchestrator.Joins.{run_state, join_ready, work_remains, joined_bindings}
use ae_cwap.Orchestrator.Runs.{
  commit_all, Run, is_over, World, Reason, Fault, ExecutionOutcome, is_run, is_open_run, load_run,
  failed_with, succeeded_with, fail, succeed, progress, rebuild_context, inputs_for,
}
use ae_cwap.Orchestrator.Runner.{
  previous_output, then_do, send_step, dispatch_plain, dispatch_ready, dispatch, dispatch_each,
  close, dispatch_next, finish, process,
}
use ae_cwap.Prelude.{
  leb, ◌<◌, if◌then◌else◌, ◌++◌, ◌&&◌, ◌==◌, not, Bool-cases, inr, subst, arith, inl, Result-cases,
  Option-cases, ◌≡◌, ℕ, zero, suc, String, Bool, true, false, some, List, [], ◌∷◌, Result, ok, err,
  ltb, length,
}

pub then_do_keeps :
    {A B : Type 0} (Q : List Run → Type 0) (r : World × Result Fault A)
    (k : A → World → World × Result Fault B)
    → Q r.0.runs
    → ((a : A) (w : World) → Q w.runs → Q (k a w).0.runs)
    → Q (then_do r k).0.runs
then_do_keeps Q (w, err x) k h go = h
then_do_keeps Q (w, ok a) k h go = go a w h

if_keeps :
    (Q : List Run → Type 0) (b : Bool) (x y : World)
    → Q x.runs
    → Q y.runs
    → Q (if b then x else y).runs
if_keeps Q true x y h k = h
if_keeps Q false x y h k = k

-- A property of the table of runs that survives what `_fail` and `_succeed` do to it.
pub record IsKept (Q : List Run → Type 0) : Type 0 where
  pub failing :
      (id : String) (reason : Reason) (rs : List Run)
      → Q rs
      → Q (update_where (is_open_run id) (failed_with reason) rs)
  pub succeeding :
      (id : String) (result : Fields) (rs : List Run)
      → Q rs
      → Q (update_where (is_open_run id) (succeeded_with result) rs)

module _ (py : Python) (fresh : ℕ → String) (codec : Codec) (settings : Settings)
    (users : List User) (max_steps : ℕ)
    (execute : WorkflowNode
      → WorkflowJobPayload
      → RunContext
      → Result NodeExecutionError ExecutionOutcome)
    (Q : List Run → Type 0) (kept : IsKept Q) (g : WorkflowGraph) (p : WorkflowJobPayload) where
  send_step_kept :
      (state : ExecutionState) (s : NextStepDefinition) (inputs : Fields) (w : World)
      → (send_step py fresh codec settings users max_steps execute g p state s inputs w).0.runs
        ≡ w.runs
  unfolding send_step
  send_step_kept state s inputs w =
      elim (Result-cases (build_payload g p.run_id p.job_context state s inputs (fresh w.drawn))) [
        | inl (e, b) ↦ ground (arith, b)
        | inr (next, b) ↦ elim (Result-cases (publish codec settings users next w.gateway)) [
          | inl (e, q) ↦ ground (arith, b, q)
          | inr (x, q) ↦ ground (arith, b, q)
        ]
      ]

  fail_keeps : (reason : Reason) (w : World) → Q w.runs → Q (fail p.run_id reason w).runs
  unfolding fail
  fail_keeps reason w h = kept.failing p.run_id reason w.runs h

  plain_keeps :
      (context : RunContext) (state : ExecutionState) (s : NextStepDefinition) (w : World)
      → Q w.runs
      → Q
          (dispatch_plain py fresh codec settings users max_steps execute g p context state s
            w).0.runs
  unfolding dispatch_plain
  plain_keeps context state s w h =
      elim (Result-cases (resolve_bindings s.input_bindings context)) [
        | inl (e, b) ↦ subst Q (ground (arith, b)) (fail_keeps (Reason.binding_failed e) w h)
        | inr (inputs, b) ↦ subst Q (ground (arith, b, send_step_kept state s inputs w)) h
      ]

  ready_keeps :
      (state : ExecutionState) (s : NextStepDefinition) (id : String) (w : World)
      → Q w.runs
      → Q (dispatch_ready py fresh codec settings users max_steps execute g p state s id w).0.runs
  unfolding dispatch_ready
  ready_keeps state s id w h =
      let joined : NextStepDefinition = record s { input_bindings = joined_bindings g id } in
      elim (Result-cases (
        resolve_bindings (joined_bindings g id)
          (rebuild_context w.rows p.run_id (inputs_for w p.run_id)))) [
            | inl (e, b) ↦ subst Q (ground (arith, b)) (fail_keeps (Reason.binding_failed e) w h)
            | inr (inputs, b) ↦ elim (Bool-cases (claim_dispatch w.ledger p.run_id id).1) [
              | inl c ↦
                  subst Q
                    (ground (
                      arith,
                      b,
                      c,
                      send_step_kept state joined inputs
                          (record w { ledger = (claim_dispatch w.ledger p.run_id id).0 }),
                    ))
                    h
              | inr c ↦ subst Q (ground (arith, b, c)) h
            ]
          ]

  dispatch_keeps :
      (context : RunContext) (state : ExecutionState) (s : NextStepDefinition) (w : World)
      → Q w.runs
      → Q (dispatch py fresh codec settings users max_steps execute g p context state s w).0.runs
  unfolding dispatch
  dispatch_keeps context state s w h = elim (Option-cases s.target_node_id) [
    | inl t ↦ subst Q (ground (arith, t)) (plain_keeps context state s w h)
    | inr (id, t) ↦ elim (Bool-cases (not (id == "") && ltb 1 (length (incoming g id)))) [
      | inr j ↦ subst Q (ground (arith, t, j)) (plain_keeps context state s w h)
      | inl j ↦ elim (Option-cases (join_ready g (run_state w.rows p.run_id) id)) [
        | inl r ↦ subst Q (ground (arith, t, j, r)) h
        | inr (b, r) ↦ elim (Bool-cases b) [
          | inl y ↦ subst Q (ground (arith, t, j, r, y)) (ready_keeps state s id w h)
          | inr y ↦ subst Q (ground (arith, t, j, r, y)) h
        ]
      ]
    ]
  ]

  each_keeps :
      (context : RunContext) (state : ExecutionState) (steps : List NextStepDefinition) (n : ℕ)
      (w : World)
      → Q w.runs
      → Q
          (dispatch_each py fresh codec settings users max_steps execute g p context state steps n
            w).0.runs
  unfolding dispatch_each
  each_keeps context state [] n w h = h
  each_keeps context state (s ∷ steps) n w h = elim (Bool-cases s.terminal) [
    | inl t ↦ subst Q (ground (arith, t)) (each_keeps context state steps n w h)
    | inr t ↦
        let kept_on =
          then_do_keeps Q
            (dispatch py fresh codec settings users max_steps execute g p context state s w)
            (λ sent w'.
              dispatch_each py fresh codec settings users max_steps execute g p context state steps
                (if sent then suc n else n) w')
            (dispatch_keeps context state s w h)
            (λ sent w' k. each_keeps context state steps (if sent then suc n else n) w' k) in
        subst Q (ground (arith, t)) kept_on
  ]

  close_keeps :
      (context : RunContext) (n : ℕ) (w : World)
      → Q w.runs
      → Q (close py fresh codec settings users max_steps execute g p context n w).0.runs
  unfolding close succeed
  close_keeps context (suc n) w h = h
  close_keeps context zero w h = elim (Option-cases (work_remains g (run_state w.rows p.run_id))) [
    | inl r ↦ subst Q (ground (arith, r)) h
    | inr (b, r) ↦ elim (Bool-cases b) [
      | inl y ↦ subst Q (ground (arith, r, y)) h
      | inr y ↦
          subst Q (ground (arith, r, y))
            (kept.succeeding p.run_id (previous_output context) w.runs h)
    ]
  ]

  -- what follows the commit keeps what `_fail` and `_succeed` keep
  pub dispatch_next_keeps :
      (context : RunContext) (type : NodeType) (w : World)
      → Q w.runs
      → Q (dispatch_next py fresh codec settings users max_steps execute g p context type w).0.runs
  unfolding dispatch_next
  dispatch_next_keeps context type w h =
      elim (Result-cases (plan_next py fresh g p.run_id p.node_id context w.drawn)) [
        | inl (x, q) ↦ subst Q (ground (arith, q)) (fail_keeps (Reason.step_failed x) w h)
        | inr ((planned, planner), q) ↦
            let w₁ : World = record w {
              rows = commit_all w.rows planned.branch_outputs;
              events = w.events ++ planner.events;
              drawn = planner.drawn;
            } in
            let kept_on =
              then_do_keeps Q
                (dispatch_each py fresh codec settings users max_steps execute g p planner.context
                  (result_state type) planned.next_steps 0 w₁)
                (close py fresh codec settings users max_steps execute g p planner.context)
                (each_keeps planner.context (result_state type) planned.next_steps 0 w₁ h)
                (λ n w₂ k. close_keeps planner.context n w₂ k) in
            subst Q (ground (arith, q)) kept_on
      ]

  -- what `_process` does to the runs, as a whole
  pub finish_keeps :
      (context : RunContext) (n : WorkflowNode) (outcome : ExecutionOutcome) (w : World)
      → Q w.runs
      → Q (update_where (is_run p.run_id) (progress n.type outcome.output) w.runs)
      → Q (finish py fresh codec settings users max_steps execute g p context n outcome w).0.runs
  unfolding finish
  finish_keeps context n outcome w h k = dispatch_next_keeps _ n.type _ (if_keeps Q _ _ _ k h)

module _ (py : Python) (fresh : ℕ → String) (codec : Codec) (settings : Settings)
    (users : List User) (max_steps : ℕ)
    (execute : WorkflowNode
      → WorkflowJobPayload
      → RunContext
      → Result NodeExecutionError ExecutionOutcome)
    (Q : List Run → Type 0) (kept : IsKept Q) where
  -- `_process` keeps what `_fail` and `_succeed` keep, and what the progress of an open run that is
  -- below the step limit keeps
  pub process_keeps :
      (p : WorkflowJobPayload) (w : World)
      → ((run : Run) (type : NodeType) (output : Fields)
          → load_run w p.run_id ≡ some run
          → is_over run.status ≡ false
          → run.steps_executed < max_steps
          → Q w.runs
          → Q (update_where (is_run p.run_id) (progress type output) w.runs))
      → Q w.runs
      → Q (process py fresh codec settings users max_steps execute p w).0.runs
  unfolding process fail
  process_keeps p w go h = elim (Option-cases (load_run w p.run_id)) [
    | inl q ↦ subst Q (ground (arith, q)) h
    | inr (run, q) ↦ elim (Bool-cases (is_over run.status)) [
      | inl o ↦ subst Q (ground (arith, q, o)) h
      | inr o ↦ elim (Result-cases (model_validate run.graph_snapshot)) [
        | inl (e, v) ↦ subst Q (ground (arith, q, o, v)) h
        | inr (u, v) ↦ elim (Option-cases (node run.graph_snapshot p.node_id)) [
          | inl f ↦ subst Q (ground (arith, q, o, v, f)) h
          | inr (n, f) ↦ elim (Bool-cases (leb max_steps run.steps_executed)) [
            | inl l ↦
                subst Q (ground (arith, q, o, v, f, l))
                  (kept.failing p.run_id Reason.step_limit w.runs h)
            | inr l ↦
                let context = rebuild_context w.rows p.run_id run.inputs in
                elim (Result-cases (execute n p context)) [
                  | inl (x, e) ↦
                      subst Q (ground (arith, q, o, v, f, l, e))
                        (kept.failing p.run_id (Reason.step_failed x) w.runs h)
                  | inr (outcome, e) ↦ subst Q (ground (arith, q, o, v, f, l, e)) (
                      finish_keeps py fresh codec settings users max_steps execute Q kept
                        run.graph_snapshot p context n outcome
                        (record w { events = w.events ++ "step.started" ∷ [] }) h
                        (go run n.type outcome.output q o (ground (arith, l)) h))
                ]
          ]
        ]
      ]
    ]
  ]
