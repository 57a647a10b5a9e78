-- ===== src/Orchestrator/StateMachine/Follow.antt =====
-- `_follow` of services/orchestrator/state_machine.py: where it leads and how it can fail.
use ae_cwap.Prelude.{
  zero, ◌∙◌, refl, suc, sym, Result-cases, subst, ℕ, [], inr, ap, inl, Bool-cases, arith, false,
  ◌∷◌, ok, Bool, In, some, String, List, ◌≡◌,
}
use ae_cwap.Contracts.Graph.{WorkflowNode, WorkflowEdge, WorkflowGraph, outgoing, is_branching}
use ae_cwap.Contracts.Graph.Lookups.{node_lem, outgoing_lem}
use ae_cwap.Contracts.Graph.Structure.{Walk, step}
use ae_cwap.Contracts.Job.{NextStepDefinition, service_for}
use ae_cwap.Orchestrator.Branch.{Python}
use ae_cwap.Orchestrator.StateMachine.{
  Planner, find, step_to, same_condition, edge_with, edge_for_decision, resolve_branch, follow,
}

edge_with_lem :
    (es : List WorkflowEdge) (decision : Bool) (e : WorkflowEdge)
    → edge_with es decision ≡ some e
    → In e es
unfolding edge_with
edge_with_lem [] decision e h = cc
edge_with_lem (x ∷ es) decision e h = elim (Bool-cases (same_condition x.condition decision)) [
  | inl p ↦ inl (ground (arith, h, p))
  | inr p ↦ inr (edge_with_lem es decision e (ground (arith, h, p)))
]

module _ (g : WorkflowGraph) where
  pub find_lem : (id : String) (n : WorkflowNode) → find g id ≡ ok n → In n g.nodes × (n.id ≡ id)
  unfolding find
  find_lem id n h = node_lem g id n (ground arith)

  pub edge_for_decision_lem :
      (id : String) (decision : Bool) (e : WorkflowEdge)
      → edge_for_decision g id decision ≡ ok e
      → In e g.edges × (e.source ≡ id)
  unfolding edge_for_decision
  edge_for_decision_lem id decision e h =
      outgoing_lem g id e (edge_with_lem (outgoing g id) decision e (ground arith))

-- A step that names a node which does work, at the end of a walk from `a`.
pub record Reaches (g : WorkflowGraph) (a : String) (s : NextStepDefinition) : Type 0 where
  pub target : WorkflowNode
  pub member : In target g.nodes
  pub works : is_branching target.type ≡ false
  pub service : s.target_service ≡ service_for target.type
  pub names : s.target_node_id ≡ some target.id
  pub goes_on : s.terminal ≡ false
  pub walk : Walk g a target.id

module _ (py : Python) (fresh : ℕ → String) (g : WorkflowGraph) (run_id : String) where
  Reaches-target :
      (a : String) (e : WorkflowEdge) (t : WorkflowNode) (s : NextStepDefinition)
      → In e g.edges
      → Walk g a e.source
      → find g e.target ≡ ok t
      → is_branching t.type ≡ false
      → s ≡ step_to t e.bindings
      → Reaches g a s
  Reaches-target a e t s m w found works same =
      let (member, id) = find_lem g e.target t found in
      record {
        target = t;
        member = member;
        works = works;
        service = ap (λ (x : NextStepDefinition). x.target_service) same;
        names = ap (λ (x : NextStepDefinition). x.target_node_id) same;
        goes_on = ap (λ (x : NextStepDefinition). x.terminal) same;
        walk = subst (Walk g a) (sym id) (step e w m refl);
      }

  pub follow-Reaches :
      (hops : ℕ) (a : String) (e : WorkflowEdge) (p p' : Planner) (s : NextStepDefinition)
      → In e g.edges
      → Walk g a e.source
      → follow py fresh g run_id hops e p ≡ ok (s, p')
      → Reaches g a s
  unfolding follow
  follow-Reaches zero a e p p' s m w h = elim (Result-cases (find g e.target)) [
    | inl (x, q) ↦ absurd (ground (arith, q, h))
    | inr (t, q) ↦ elim (Bool-cases (is_branching t.type)) [
      | inl b ↦ absurd (ground (arith, q, b, h))
      | inr b ↦ Reaches-target a e t s m w q b (ground (arith, q, b, h))
    ]
  ]
  follow-Reaches (suc hops) a e p p' s m w h = elim (Result-cases (find g e.target)) [
    | inl (x, q) ↦ absurd (ground (arith, q, h))
    | inr (t, q) ↦ elim (Bool-cases (is_branching t.type)) [
      | inl b ↦ elim (Result-cases (resolve_branch py fresh g run_id t e.bindings p)) [
        | inl (x, r) ↦ absurd (ground (arith, q, b, r, h))
        | inr ((d, p₁), r) ↦ elim (Result-cases (edge_for_decision g t.id d)) [
          | inl (x, c) ↦ absurd (ground (arith, q, b, r, c, h))
          | inr (f, c) ↦
              let (fm, fs) = edge_for_decision_lem g t.id d f c in
              let (tm, tid) = find_lem g e.target t q in
              follow-Reaches hops a f p₁ p' s fm
                (subst (Walk g a) (sym (fs ∙ tid)) (step e w m refl))
                (ground (arith, q, b, r, c, h))
        ]
      ]
      | inr b ↦ Reaches-target a e t s m w q b (ground (arith, q, b, h))
    ]
  ]
