-- ===== src/Orchestrator/StateMachine/Faults.antt =====
-- `_follow` of services/orchestrator/state_machine.py on an accepted graph: which errors are left,
-- and how many decisions one edge may settle.
use ae_cwap.Prelude.{
  length-append, false, true, zero, [], subst, inr, ◌+◌, inl, suc, arith, Bool-cases, ◌≤◌, All-In,
  ◌∷◌, In, length, Result-cases, err, ok, true, some, ℕ, Bool, String, List, ◌≡◌,
}
use ae_cwap.Contracts.Graph.{
  WorkflowNode, WorkflowEdge, WorkflowGraph, NodeType, outgoing, is_branching,
}
use ae_cwap.Contracts.Graph.Structure.{node_of_edge}
use ae_cwap.Contracts.Graph.Validation.{validate_structure}
use ae_cwap.Contracts.Graph.Validation.Checks.{IsChoice}
use ae_cwap.Contracts.Graph.Validation.Accepts.{HasPaths, IsLeaving, validate_structure_iff}
use ae_cwap.Contracts.Job.{NextStepDefinition}
use ae_cwap.Orchestrator.Variables.{resolve_bindings}
use ae_cwap.Orchestrator.Branch.{
  Python, NodeExecutionError, IsRunFault, BranchOutcome, evaluate_branch, evaluate_branch_error,
}
use ae_cwap.Orchestrator.StateMachine.{
  Planner, find, edge_with, edge_for_decision, bind_inputs, resolve_branch, follow, settle,
}
use ae_cwap.Orchestrator.StateMachine.Follow.{find_lem, edge_for_decision_lem}

edge_with_total :
    (out : List WorkflowEdge) (d : Bool)
    → IsChoice out
    → (e : WorkflowEdge) × (edge_with out d ≡ some e)
unfolding edge_with
edge_with_total [] d h = absurd h
edge_with_total (a ∷ []) d h = absurd h
edge_with_total (a ∷ b ∷ c ∷ out) d h = absurd h
edge_with_total (a ∷ b ∷ []) true (inl (p, q)) = (b, ground (arith, p, q))
edge_with_total (a ∷ b ∷ []) true (inr (p, q)) = (a, ground (arith, p, q))
edge_with_total (a ∷ b ∷ []) false (inl (p, q)) = (a, ground (arith, p, q))
edge_with_total (a ∷ b ∷ []) false (inr (p, q)) = (b, ground (arith, p, q))

IsChoice-of_branching :
    (t : NodeType) (out : List WorkflowEdge)
    → is_branching t ≡ true
    → IsLeaving t out
    → IsChoice out
IsChoice-of_branching NodeType.branch out b h = h
IsChoice-of_branching NodeType.input out b h = cc
IsChoice-of_branching _ out b h = cc

-- A decision node of an accepted graph has an edge for each decision.
pub edge_for_decision_total :
    (g : WorkflowGraph) (n : WorkflowNode) (d : Bool)
    → validate_structure g ≡ ok tt
    → In n g.nodes
    → is_branching n.type ≡ true
    → (e : WorkflowEdge) × (edge_for_decision g n.id d ≡ ok e)
unfolding edge_for_decision
edge_for_decision_total g n d valid m b =
    let leaving : IsLeaving n.type (outgoing g n.id) =
      All-In (HasPaths g) g.nodes n ((validate_structure_iff g).0 valid).paths m in
    let (e, found) =
      edge_with_total (outgoing g n.id) d
        (IsChoice-of_branching n.type (outgoing g n.id) b leaving) in
    (e, ground (arith, found))

bind_inputs_error :
    (id : String) (bs : List (String × String)) (p : Planner) (x : NodeExecutionError)
    → bind_inputs id bs p.context ≡ err x
    → IsRunFault x
unfolding bind_inputs
bind_inputs_error id bs p x h = elim (Result-cases (resolve_bindings bs p.context)) [
  | inl (e, q) ↦
      let same : NodeExecutionError.binding id ≡ x = ground (arith, q, h) in
      subst IsRunFault same tt
  | inr (r, q) ↦ absurd (ground (arith, q, h))
]

module _ (py : Python) (fresh : ℕ → String) (g : WorkflowGraph) (run_id : String) where
  resolve_branch_error :
      (n : WorkflowNode) (bs : List (String × String)) (p : Planner) (x : NodeExecutionError)
      → resolve_branch py fresh g run_id n bs p ≡ err x
      → IsRunFault x
  unfolding resolve_branch
  resolve_branch_error n bs p x h = elim (Result-cases (bind_inputs n.id bs p.context)) [
    | inl (y, q) ↦ subst IsRunFault (ground (arith, q, h)) (bind_inputs_error n.id bs p y q)
    | inr (i, q) ↦ elim (Result-cases (evaluate_branch py n p.context)) [
      | inl (y, r) ↦
          subst IsRunFault (ground (arith, q, r, h)) (evaluate_branch_error py n p.context y r)
      | inr (o, r) ↦ absurd (ground (arith, q, r, h))
    ]
  ]

  settle_counts :
      (id : String) (o : BranchOutcome) (p : Planner)
      → (length (settle py fresh g run_id id o p).branch_outputs ≡ suc (length p.branch_outputs))
        × ((settle py fresh g run_id id o p).drawn ≡ suc p.drawn)
  unfolding settle
  settle_counts id o p = omega (arith, length-append {0})

  -- Settling one decision adds one output and draws one id.
  resolve_branch_counts :
      (n : WorkflowNode) (bs : List (String × String)) (p p' : Planner) (d : Bool)
      → resolve_branch py fresh g run_id n bs p ≡ ok (d, p')
      → (length p'.branch_outputs ≡ suc (length p.branch_outputs)) × (p'.drawn ≡ suc p.drawn)
  unfolding resolve_branch
  resolve_branch_counts n bs p p' d h = elim (Result-cases (bind_inputs n.id bs p.context)) [
    | inl (y, q) ↦ absurd (ground (arith, q, h))
    | inr (i, q) ↦ elim (Result-cases (evaluate_branch py n p.context)) [
      | inl (y, r) ↦ absurd (ground (arith, q, r, h))
      | inr (o, r) ↦
          let same : settle py fresh g run_id n.id o p ≡ p' = ground (arith, q, r, h) in
          subst
            (λ (z : Planner).
              (length z.branch_outputs ≡ suc (length p.branch_outputs)) × (z.drawn ≡ suc p.drawn))
            same (settle_counts n.id o p)
    ]
  ]

  -- One edge settles at most as many decisions as it has hops, and each has its own output and id.
  pub follow_counts :
      (hops : ℕ) (e : WorkflowEdge) (p p' : Planner) (s : NextStepDefinition)
      → follow py fresh g run_id hops e p ≡ ok (s, p')
      → (length p'.branch_outputs ≤ length p.branch_outputs + hops)
        × (length p'.branch_outputs + p.drawn ≡ length p.branch_outputs + p'.drawn)
  unfolding follow
  follow_counts zero e p p' s h = elim (Result-cases (find g e.target)) [
    | inl (x, q) ↦ absurd (ground (arith, q, h))
    | inr (t, q) ↦ elim (Bool-cases (is_branching t.type)) [
      | inl b ↦ absurd (ground (arith, q, b, h))
      | inr b ↦ ground (arith, q, b, h)
    ]
  ]
  follow_counts (suc hops) e p p' s h = elim (Result-cases (find g e.target)) [
    | inl (x, q) ↦ absurd (ground (arith, q, h))
    | inr (t, q) ↦ elim (Bool-cases (is_branching t.type)) [
      | inl b ↦ elim (Result-cases (resolve_branch py fresh g run_id t e.bindings p)) [
        | inl (x, r) ↦ absurd (ground (arith, q, b, r, h))
        | inr ((d, p₁), r) ↦ elim (Result-cases (edge_for_decision g t.id d)) [
          | inl (x, c) ↦ absurd (ground (arith, q, b, r, c, h))
          | inr (f, c) ↦ omega (
            arith,
            resolve_branch_counts t e.bindings p p₁ d r,
            follow_counts hops f p₁ p' s (ground (arith, q, b, r, c, h)),
          )
        ]
      ]
      | inr b ↦ ground (arith, q, b, h)
    ]
  ]

  module _ (valid : validate_structure g ≡ ok tt) where
    find_edge : (e : WorkflowEdge) → In e g.edges → (n : WorkflowNode) × (find g e.target ≡ ok n)
    unfolding find
    find_edge e m =
        let (n, found, _, _) = (node_of_edge g valid e m).1 in (n, ground (arith, found))

    -- On an accepted graph an edge of the graph is followed, or fails by what a decision's own
    -- bindings, params and values cause or by too many decisions in a row: never because a node or
    -- the edge for a decision is missing.
    pub follow_error :
        (hops : ℕ) (e : WorkflowEdge) (p : Planner) (x : NodeExecutionError)
        → In e g.edges
        → follow py fresh g run_id hops e p ≡ err x
        → IsRunFault x
    unfolding follow
    follow_error zero e p x m h =
        let (t, q) = find_edge e m in
        elim (Bool-cases (is_branching t.type)) [
          | inl b ↦
              let same : NodeExecutionError.too_many_branches t.id ≡ x = ground (arith, q, b, h) in
              subst IsRunFault same tt
          | inr b ↦ absurd (ground (arith, q, b, h))
        ]
    follow_error (suc hops) e p x m h =
        let (t, q) = find_edge e m in
        elim (Bool-cases (is_branching t.type)) [
          | inl b ↦ elim (Result-cases (resolve_branch py fresh g run_id t e.bindings p)) [
            | inl (y, r) ↦
                subst IsRunFault (ground (arith, q, b, r, h))
                  (resolve_branch_error t e.bindings p y r)
            | inr ((d, p₁), r) ↦
                let (f, c) = edge_for_decision_total g t d valid (find_lem g e.target t q).0 b in
                follow_error hops f p₁ x (edge_for_decision_lem g t.id d f c).0
                  (ground (arith, q, b, r, c, h))
          ]
          | inr b ↦ absurd (ground (arith, q, b, h))
        ]
