-- ===== src/Orchestrator/StateMachine/Plan.antt =====
-- `plan_next`, `initial_step` and `build_payload` of services/orchestrator/state_machine.py.
use ae_cwap.Orchestrator.StateMachine.Leads.{Pairs, follow-IsStepOf}
use ae_cwap.Prelude.{
  ◌∙◌, Bool-cases, false, All-In, Option-cases, true, ◌≢◌, refl, ap, ◌<◌, some, List-cases, [],
  subst₂, err, sym, subst, inr, inl, ◌*◌, Result-cases, ◌∷◌, ◌+◌, ◌≤◌, arith, All, ok, length, In,
  List, String, ℕ, ◌≡◌,
}
use ae_cwap.Value.{Fields}
use ae_cwap.Contracts.Graph.{
  NodeType, WorkflowNode, WorkflowEdge, WorkflowGraph, outgoing, entry_node,
}
use ae_cwap.Contracts.Graph.Lookups.{outgoing_lem}
use ae_cwap.Contracts.Graph.Structure.{Walk, here, entry_node_lem}
use ae_cwap.Contracts.Graph.Validation.{validate_structure}
use ae_cwap.Contracts.Graph.Validation.Accepts.{HasPaths, IsLeaving, validate_structure_iff}
use ae_cwap.Contracts.Job.{
  ExecutionState, JobContext, NextStepDefinition, WorkflowJobPayload, fields_present, validate_job,
  service_for, result_state, is_terminal_state, is_terminal,
}
use ae_cwap.Contracts.Job.Transitions.{
  IsStep, node_id_present, validate_job_iff, service_for_dispatchable, result_state_terminal, next,
}
use ae_cwap.Orchestrator.Variables.{RunContext}
use ae_cwap.Orchestrator.Branch.{Python, NodeExecutionError, IsRunFault}
use ae_cwap.Orchestrator.StateMachine.{
  step_to, Planner, PlannedStep, max_inline_branches, end_step, follow, follow_all, plan_next,
  initial_step, build_payload, started,
}
use ae_cwap.Orchestrator.StateMachine.Follow.{Reaches, follow-Reaches}
use ae_cwap.Orchestrator.StateMachine.Faults.{follow_counts, follow_error}

module _ (py : Python) (fresh : ℕ → String) (g : WorkflowGraph) (run_id : String) where
  -- What following the edges out of `a` gives: a step for each edge.
  record Followed (a : String) (es : List WorkflowEdge) (p p' : Planner)
      (ss : List NextStepDefinition) : Type 0 where
    one_each : length ss ≡ length es
    paired : Pairs py g es p.context ss p'.context
    reach : All (Reaches g a) ss
    few : length p'.branch_outputs ≤ length p.branch_outputs + max_inline_branches * length es

  follow_all_lem :
      (a : String) (es : List WorkflowEdge) (p p' : Planner) (ss : List NextStepDefinition)
      → ((e : WorkflowEdge) → In e es → In e g.edges × (e.source ≡ a))
      → follow_all py fresh g run_id es p ≡ ok (ss, p')
      → Followed a es p p' ss
  unfolding follow_all
  follow_all_lem a [] p p' ss k h =
      let none_left : [] ≡ ss = ground (arith, h) in
      let same : p ≡ p' = ground (arith, h) in
      subst₂ (λ z w. Followed a [] p w z) none_left same
        (record { one_each = refl; paired = refl; reach = tt; few = omega arith })
  follow_all_lem a (e ∷ es) p p' ss k h =
      elim (Result-cases (follow py fresh g run_id max_inline_branches e p)) [
        | inl (x, q) ↦ absurd (ground (arith, q, h))
        | inr ((s, p₁), q) ↦ elim (Result-cases (follow_all py fresh g run_id es p₁)) [
          | inl (x, r) ↦ absurd (ground (arith, q, r, h))
          | inr ((rest, p₂), r) ↦
              let (m, src) = k e (inl refl) in
              let one =
                follow-Reaches py fresh g run_id max_inline_branches a e p p₁ s m
                  (subst (Walk g a) (sym src) here) q in
              let more = follow_all_lem a es p₁ p₂ rest (λ f fm. k f (inr fm)) r in
              let steps : s ∷ rest ≡ ss = ground (arith, q, r, h) in
              let last : p₂ ≡ p' = ground (arith, q, r, h) in
              subst₂ (λ z w. Followed a (e ∷ es) p w z) steps last
                (record {
                  one_each = omega (arith, more.one_each);
                  paired = (
                    p₁.context,
                    follow-IsStepOf py fresh g run_id max_inline_branches e p p₁ s q,
                    more.paired,
                  );
                  reach = (one, more.reach);
                  few = omega (
                    arith,
                    more.few,
                    follow_counts py fresh g run_id max_inline_branches e p p₁ s q,
                  );
                })
        ]
      ]

  -- The plan after a node: an end if no edge leaves it, else a step for each edge that leaves it, of
  -- the node where following that edge ends, and each edge has settled at most 16 decisions.
  pub data IsPlan (from : String) (context : RunContext) (s : PlannedStep) : Type 0 where
    ends :
        outgoing g from ≡ []
        → s.next_steps ≡ end_step ∷ []
        → s.branch_outputs ≡ []
        → IsPlan from context s
    fans_out :
        (after : RunContext)
        → Pairs py g (outgoing g from) context s.next_steps after
        → length s.next_steps ≡ length (outgoing g from)
        → 0 < length s.next_steps
        → All (Reaches g from) s.next_steps
        → length s.branch_outputs ≤ max_inline_branches * length (outgoing g from)
        → IsPlan from context s

  -- A plan either says that the run's path ends, when the node has no outgoing edge, or has one step
  -- for each outgoing edge, in the order of the edges. The step of an edge names the node where
  -- following that edge ends: its target, if this does work, else on along the decision's edge that
  -- is labelled with what the decision evaluates to, in a context that holds the outputs of all
  -- decisions before. The plan settles at most 16 decisions for each edge.
  pub plan_next_lem :
      (from : String) (context : RunContext) (drawn : ℕ) (s : PlannedStep) (p : Planner)
      → plan_next py fresh g run_id from context drawn ≡ ok (s, p)
      → IsPlan from context s
  unfolding plan_next
  plan_next_lem from context drawn s p h = elim (List-cases (outgoing g from)) [
    | inl o ↦ ends o (ground (arith, o, h)) (ground (arith, o, h))
    | inr (e, es, o) ↦
        elim (Result-cases (follow_all py fresh g run_id (e ∷ es) (started context drawn))) [
          | inl (x, q) ↦ absurd (ground (arith, o, q, h))
          | inr ((ss, p₁), q) ↦
              let f =
                follow_all_lem from (e ∷ es) (started context drawn) p₁ ss
                  (λ d m. outgoing_lem g from d (rw o m)) q in
              let same : record { next_steps = ss; branch_outputs = p₁.branch_outputs } ≡ s =
                ground (arith, o, q, h) in
              subst (IsPlan from context) same (
                fans_out p₁.context
                  (subst (λ l. Pairs py g l context ss p₁.context) (sym o) f.paired)
                  (omega (arith, f.one_each, ap length o)) (omega (arith, f.one_each)) f.reach
                  (omega (arith, f.few, ap length o)))
        ]
  ]

  follow_all_error :
      (es : List WorkflowEdge) (p : Planner) (x : NodeExecutionError)
      → validate_structure g ≡ ok tt
      → ((e : WorkflowEdge) → In e es → In e g.edges)
      → follow_all py fresh g run_id es p ≡ err x
      → IsRunFault x
  unfolding follow_all
  follow_all_error [] p x valid k h = absurd (ground arith)
  follow_all_error (e ∷ es) p x valid k h =
      elim (Result-cases (follow py fresh g run_id max_inline_branches e p)) [
        | inl (y, q) ↦
            subst IsRunFault (ground (arith, q, h))
              (follow_error py fresh g run_id valid max_inline_branches e p y (k e (inl refl)) q)
        | inr ((s, p₁), q) ↦ elim (Result-cases (follow_all py fresh g run_id es p₁)) [
          | inl (y, r) ↦
              subst IsRunFault (ground (arith, q, r, h))
                (follow_all_error es p₁ y valid (λ f m. k f (inr m)) r)
          | inr ((rest, p₂), r) ↦ absurd (ground (arith, q, r, h))
        ]
      ]

  -- On an accepted graph planning fails only by what a decision's bindings, params and values cause,
  -- or by more than 16 decisions in a row.
  pub plan_next_error :
      (from : String) (context : RunContext) (drawn : ℕ) (x : NodeExecutionError)
      → validate_structure g ≡ ok tt
      → plan_next py fresh g run_id from context drawn ≡ err x
      → IsRunFault x
  unfolding plan_next
  plan_next_error from context drawn x valid h = elim (List-cases (outgoing g from)) [
    | inl o ↦ absurd (ground (arith, o, h))
    | inr (e, es, o) ↦
        elim (Result-cases (follow_all py fresh g run_id (e ∷ es) (started context drawn))) [
          | inl (y, q) ↦ subst IsRunFault (ground (arith, o, q, h)) (
              follow_all_error (e ∷ es) (started context drawn) y valid
                (λ d m. (outgoing_lem g from d (rw o m)).0) q)
          | inr ((ss, p₁), q) ↦ absurd (ground (arith, o, q, h))
        ]
  ]

-- A run of an accepted graph has a first step, which names the graph's entry.
pub initial_step_lem :
    (g : WorkflowGraph)
    → validate_structure g ≡ ok tt
    → (n : WorkflowNode) × (entry_node g ≡ some n)
      × (s : NextStepDefinition) × (initial_step g ≡ some s)
      × (s.target_node_id ≡ some n.id)
      × (s.target_service ≡ service_for n.type)
unfolding initial_step
initial_step_lem g valid =
    let (n, e, _, _, _) = entry_node_lem g valid in
    (n, e, step_to n [], ground (arith, e), refl, refl)

leaving_of_output :
    (t : NodeType) (out : List WorkflowEdge) → t ≡ NodeType.output → IsLeaving t out → out ≡ []
leaving_of_output NodeType.output out e h = h
leaving_of_output NodeType.input out e h = cc
leaving_of_output _ out e h = cc

-- what the payload of a step says
pub record IsBuilt (state : ExecutionState) (s : NextStepDefinition) (p : WorkflowJobPayload)
    : Type 0 where
  pub step : p.next_step_definition ≡ s
  pub state_kept : p.current_state ≡ state
  pub names : s.target_node_id ≡ some p.node_id
  pub first_attempt : p.attempt ≡ 1
  pub goes_on : s.terminal ≡ false

pub build_payload_lem :
    (g : WorkflowGraph) (run_id : String) (job_context : JobContext) (state : ExecutionState)
    (s : NextStepDefinition) (inputs : Fields) (step_id : String) (p : WorkflowJobPayload)
    → build_payload g run_id job_context state s inputs step_id ≡ ok p
    → IsBuilt state s p
unfolding build_payload
build_payload_lem g run_id job_context state s inputs step_id p h =
    elim (Option-cases s.target_node_id) [
      | inl e ↦ absurd (ground (arith, e, h))
      | inr (id, e) ↦ elim (Bool-cases s.terminal) [
        | inl t ↦ absurd (ground (arith, e, t, h))
        | inr t ↦ record {
          step = ground (arith, e, t, h);
          state_kept = ground (arith, e, t, h);
          names = ground (arith, e, t, h);
          first_attempt = ground (arith, e, t, h);
          goes_on = t;
        }
      ]
    ]

Reaches-of_plan :
    (py : Python) (fresh : ℕ → String) (g : WorkflowGraph) (run_id from : String)
    (context : RunContext) (plan : PlannedStep) (s : NextStepDefinition)
    → IsPlan py fresh g run_id from context plan
    → In s plan.next_steps
    → s.terminal ≡ false
    → Reaches g from s × (outgoing g from ≢ [])
Reaches-of_plan py fresh g run_id from context plan s (ends o n b) m t =
    let last : In s (end_step ∷ []) = rw n at m in
    elim last [
      | inl e ↦ absurd (ground (arith, ap (λ (x : NextStepDefinition). x.terminal) e, t))
      | inr none_left ↦ absurd none_left
    ]
Reaches-of_plan py fresh g run_id from context plan s (fans_out c pairs l some_step r few) m t = (
  All-In (Reaches g from) plan.next_steps s r m,
  λ o. absurd (omega (arith, l, some_step, ap length o)),
)

-- On an accepted graph the job that is built for a step planned after a node passes the contract's
-- validation, if its ids are not empty: the planner never asks for a transition that is illegal
-- after the state in which the node leaves the run.
pub planned_job_valid :
    (py : Python) (fresh : ℕ → String) (g : WorkflowGraph) (n : WorkflowNode)
    (run_id step_id : String) (context : RunContext) (drawn : ℕ) (plan : PlannedStep)
    (after : Planner) (s : NextStepDefinition) (job_context : JobContext) (inputs : Fields)
    (p : WorkflowJobPayload)
    → validate_structure g ≡ ok tt
    → In n g.nodes
    → plan_next py fresh g run_id n.id context drawn ≡ ok (plan, after)
    → In s plan.next_steps
    → build_payload g run_id job_context (result_state n.type) s inputs step_id ≡ ok p
    → fields_present p ≡ true
    → validate_job p ≡ ok tt
planned_job_valid py fresh g n run_id step_id context drawn plan after s job_context inputs p valid
      m planned member built filled =
    let b = build_payload_lem g run_id job_context (result_state n.type) s inputs step_id p built in
    let (r, leaves) =
      Reaches-of_plan py fresh g run_id n.id context plan s
        (plan_next_lem py fresh g run_id n.id context drawn plan after planned) member b.goes_on in
    let leaving : IsLeaving n.type (outgoing g n.id) =
      All-In (HasPaths g) g.nodes n ((validate_structure_iff g).0 valid).paths m in
    let goes_on : is_terminal_state (result_state n.type) ≡ false =
      elim (Bool-cases (is_terminal_state (result_state n.type))) [
        | inl t ↦ absurd (
            leaves
              (leaving_of_output n.type (outgoing g n.id) (result_state_terminal n.type t) leaving))
        | inr t ↦ t
      ] in
    (validate_job_iff p).1 (record {
      filled = filled;
      counted = omega (arith, b.first_attempt);
      step = subst IsStep (sym b.step) (
          next p.node_id b.goes_on
            (ap is_terminal r.service ∙ service_for_dispatchable r.target.type) b.names
            (node_id_present p filled));
      legal = inl (ap is_terminal_state b.state_kept ∙ goes_on);
    })
