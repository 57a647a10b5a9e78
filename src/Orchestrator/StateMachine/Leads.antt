-- ===== src/Orchestrator/StateMachine/Leads.antt =====
-- Where an edge leads in the planner of services/orchestrator/state_machine.py, described by the
-- decisions on the way.
use ae_cwap.Orchestrator.StateMachine.Follow.{find_lem, edge_for_decision_lem}
use ae_cwap.Orchestrator.Branch.{Python, BranchOutcome, evaluate_branch}
use ae_cwap.Orchestrator.StateMachine.{
  edge_with, WorkflowGraph, WorkflowEdge, resolve_branch, RunContext, edge_for_decision, Planner,
  follow, WorkflowNode, settle, NextStepDefinition, find, service_for, is_branching, outgoing,
  step_to, record_step, same_condition, bind_inputs,
}
use ae_cwap.Prelude.{
  refl, List, ℕ, String, Bool, ◌≡◌, some, In, ok, Result-cases, ◌∷◌, false, inl, arith, Option, inr,
  true, Bool-cases, ap, suc, sym, ◌∙◌, [], subst, none, zero,
}

-- Following the edge `e` in the context `c` ends with the edge `f` at the node `n`, and leaves the
-- context `c'`: the edge's own target, if it does work; else the target is a decision, the edge of it
-- that is labelled with what the decision evaluates to is followed, and its output is recorded.
pub data Leads (py : Python) (g : WorkflowGraph)
    : WorkflowEdge → RunContext → WorkflowEdge → WorkflowNode → RunContext → Type 0 where
  arrives :
      {e f : WorkflowEdge} {c c' : RunContext} {n : WorkflowNode}
      → In n g.nodes
      → n.id ≡ e.target
      → is_branching n.type ≡ false
      → f ≡ e
      → c' ≡ c
      → Leads py g e c f n c'
  decides :
      {e f : WorkflowEdge} {c c' : RunContext} {n : WorkflowNode} (d : WorkflowNode)
      (outcome : BranchOutcome) (chosen : WorkflowEdge)
      → In d g.nodes
      → d.id ≡ e.target
      → is_branching d.type ≡ true
      → evaluate_branch py d c ≡ ok outcome
      → In chosen g.edges
      → chosen.source ≡ d.id
      → chosen.condition ≡ some outcome.decision
      → Leads py g chosen (record_step c d.id outcome.output) f n c'
      → Leads py g e c f n c'

-- a step for the node where following an edge ends, with the bindings of the last edge
pub record IsStepOf (py : Python) (g : WorkflowGraph) (e : WorkflowEdge) (c : RunContext)
    (s : NextStepDefinition) (c' : RunContext) : Type 0 where
  pub last : WorkflowEdge
  pub target : WorkflowNode
  pub leads : Leads py g e c last target c'
  pub names : s.target_node_id ≡ some target.id
  pub service : s.target_service ≡ service_for target.type
  pub binds : s.input_bindings ≡ last.bindings
  pub goes_on : s.terminal ≡ false

-- a step for each edge, in order, each edge followed in the context that the one before has left
abbrev pub Pairs :
    Python
    → WorkflowGraph
    → List WorkflowEdge
    → RunContext
    → List NextStepDefinition
    → RunContext
    → Type 0
Pairs py g [] c [] c' = c' ≡ c
Pairs py g [] c (s ∷ ss) c' = ⊥
Pairs py g (e ∷ es) c [] c' = ⊥
Pairs py g (e ∷ es) c (s ∷ ss) c' = (m : RunContext) × IsStepOf py g e c s m × Pairs py g es m ss c'

edge_with-condition :
    (es : List WorkflowEdge) (decision : Bool) (e : WorkflowEdge)
    → edge_with es decision ≡ some e
    → e.condition ≡ some decision
unfolding edge_with
edge_with-condition [] decision e h = cc
edge_with-condition (x ∷ es) decision e h =
    elim (Bool-cases (same_condition x.condition decision)) [
      | inl p ↦
          let same : x ≡ e = ground (arith, h, p) in
          ap (λ (y : WorkflowEdge). y.condition) (sym same) ∙ labelled x.condition decision p
      | inr p ↦ edge_with-condition es decision e (ground (arith, h, p))
    ]
  where
    labelled : (l : Option Bool) (d : Bool) → same_condition l d ≡ true → l ≡ some d
    labelled none d k = absurd cc
    labelled (some true) true k = refl
    labelled (some true) false k = absurd cc
    labelled (some false) true k = absurd cc
    labelled (some false) false k = refl

module _ (py : Python) (fresh : ℕ → String) (g : WorkflowGraph) (run_id : String) where
  chosen_lem :
      (id : String) (decision : Bool) (e : WorkflowEdge)
      → edge_for_decision g id decision ≡ ok e
      → e.condition ≡ some decision
  unfolding edge_for_decision
  chosen_lem id decision e h = edge_with-condition (outgoing g id) decision e (ground arith)

  -- a decision that is resolved has been evaluated in the planner's context, and recorded there
  resolve_branch_lem :
      (n : WorkflowNode) (bindings : List (String × String)) (p p' : Planner) (d : Bool)
      → resolve_branch py fresh g run_id n bindings p ≡ ok (d, p')
      → (outcome : BranchOutcome) × (evaluate_branch py n p.context ≡ ok outcome)
        × (outcome.decision ≡ d)
        × (p'.context ≡ record_step p.context n.id outcome.output)
  unfolding resolve_branch settle
  resolve_branch_lem n bindings p p' d h =
      elim (Result-cases (bind_inputs n.id bindings p.context)) [
        | inl (x, q) ↦ absurd (ground (arith, q, h))
        | inr (inputs, q) ↦ elim (Result-cases (evaluate_branch py n p.context)) [
          | inl (x, r) ↦ absurd (ground (arith, q, r, h))
          | inr (outcome, r) ↦
              let same : settle py fresh g run_id n.id outcome p ≡ p' = ground (arith, q, r, h) in
              (outcome, r, ground (arith, q, r, h), sym (ap (λ (x : Planner). x.context) same))
        ]
      ]

  arrived :
      (e : WorkflowEdge) (p p' : Planner) (t : WorkflowNode) (s : NextStepDefinition)
      → find g e.target ≡ ok t
      → is_branching t.type ≡ false
      → step_to t e.bindings ≡ s
      → p ≡ p'
      → IsStepOf py g e p.context s p'.context
  arrived e p p' t s q b same kept =
      let (m, id) = find_lem g e.target t q in
      record {
        last = e;
        target = t;
        leads = arrives m id b refl (ap (λ (x : Planner). x.context) (sym kept));
        names = ap (λ (x : NextStepDefinition). x.target_node_id) (sym same);
        service = ap (λ (x : NextStepDefinition). x.target_service) (sym same);
        binds = ap (λ (x : NextStepDefinition). x.input_bindings) (sym same);
        goes_on = ap (λ (x : NextStepDefinition). x.terminal) (sym same);
      }

  pub follow-IsStepOf :
      (hops : ℕ) (e : WorkflowEdge) (p p' : Planner) (s : NextStepDefinition)
      → follow py fresh g run_id hops e p ≡ ok (s, p')
      → IsStepOf py g e p.context s p'.context
  unfolding follow
  follow-IsStepOf zero e p p' s h = elim (Result-cases (find g e.target)) [
    | inl (x, q) ↦ absurd (ground (arith, q, h))
    | inr (t, q) ↦ elim (Bool-cases (is_branching t.type)) [
      | inl b ↦ absurd (ground (arith, q, b, h))
      | inr b ↦ arrived e p p' t s q b (ground (arith, q, b, h)) (ground (arith, q, b, h))
    ]
  ]
  follow-IsStepOf (suc hops) e p p' s h = elim (Result-cases (find g e.target)) [
    | inl (x, q) ↦ absurd (ground (arith, q, h))
    | inr (t, q) ↦ elim (Bool-cases (is_branching t.type)) [
      | inl b ↦ elim (Result-cases (resolve_branch py fresh g run_id t e.bindings p)) [
        | inl (x, r) ↦ absurd (ground (arith, q, b, r, h))
        | inr ((d, p₁), r) ↦ elim (Result-cases (edge_for_decision g t.id d)) [
          | inl (x, c) ↦ absurd (ground (arith, q, b, r, c, h))
          | inr (f, c) ↦
              let (m, id) = find_lem g e.target t q in
              let (fm, fs) = edge_for_decision_lem g t.id d f c in
              let (outcome, v, same, kept) = resolve_branch_lem t e.bindings p p₁ d r in
              let more = follow-IsStepOf hops f p₁ p' s (ground (arith, q, b, r, c, h)) in
              record {
                last = more.last;
                target = more.target;
                leads =
                    decides t outcome f m id b v fm fs (chosen_lem t.id d f c ∙ ap some (sym same))
                      (subst (λ x. Leads py g f x more.last more.target p'.context) kept
                        more.leads);
                names = more.names;
                service = more.service;
                binds = more.binds;
                goes_on = more.goes_on;
              }
        ]
      ]
      | inr b ↦ arrived e p p' t s q b (ground (arith, q, b, h)) (ground (arith, q, b, h))
    ]
  ]
