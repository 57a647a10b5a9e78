-- ===== src/Orchestrator/Joins/Remaining.antt =====
-- `_work_remains` of services/orchestrator/runner.py, which tells the end of a path from the end of a
-- run.
use ae_cwap.Contracts.Graph.{WorkflowEdge, WorkflowNode, WorkflowGraph, incoming, is_branching}
use ae_cwap.Contracts.Graph.Validation.{validate_structure}
use ae_cwap.Orchestrator.Joins.{RunState, remains_in, work_remains}
use ae_cwap.Orchestrator.Joins.Closed.{CutOff, is_closed_iff, arrived_total}
use ae_cwap.Prelude.{
  refl, sym, arith, subst, inl, ◌⊎◌, Bool-cases, inr, ok, ◌≡◌, Bool, true, false, some, List, [],
  ◌∷◌, ◌↔◌, ◌||◌, In, All, contains,
}

module _ (g : WorkflowGraph) (s : RunState) (valid : validate_structure g ≡ ok tt) where
  -- A node is due if it has not finished, is no decision, is not cut off, and every path into it
  -- has arrived.
  pub record IsDue (n : WorkflowNode) : Type 0 where
    pub unfinished : (contains s.completed n.id || is_branching n.type) ≡ false
    pub reachable : ¬ CutOff g s n.id
    pub arrived :
        All
          (λ (e : WorkflowEdge). (contains s.completed e.source ≡ true) ⊎ CutOff g s e.source)
          (incoming g n.id)

  abbrev Some : List WorkflowNode → Type 0
  Some ns = (n : WorkflowNode) × In n ns × IsDue n

  later : (m : WorkflowNode) (ns : List WorkflowNode) → Some ns → Some (m ∷ ns)
  later m ns (n, i, d) = (n, inr i, d)

  other : (m : WorkflowNode) (ns : List WorkflowNode) → ¬ IsDue m → Some (m ∷ ns) → Some ns
  other m ns undue (n, inl e, d) = absurd (undue (subst IsDue (sym e) d))
  other m ns undue (n, inr i, d) = (n, i, d)

  remains_total :
      (ns : List WorkflowNode) → (b : Bool) × (remains_in g s ns ≡ some b) × ((b ≡ true) ↔ Some ns)
  unfolding remains_in
  remains_total [] = (false, refl, (λ h. absurd cc, λ h. absurd h.1))
  remains_total (n ∷ ns) =
      let (r, t, (there, back)) = remains_total ns in
      let (c, q, (cut, uncut)) = is_closed_iff g s n.id valid in
      let (a, u, (all, unall)) = arrived_total g s (incoming g n.id) valid in
      let skip : ¬ IsDue n → (r ≡ true) ↔ Some (n ∷ ns) =
        λ undue. (λ h. later n ns (there h), λ h. back (other n ns undue h)) in
      elim (Bool-cases (contains s.completed n.id || is_branching n.type)) [
        | inl d ↦ (r, ground (arith, d, t), skip (λ k. ground (arith, d, k.unfinished)))
        | inr d ↦ elim (Bool-cases c) [
          | inl f ↦ (r, ground (arith, d, q, f, t), skip (λ k. k.reachable (cut f)))
          | inr f ↦ elim (Bool-cases a) [
            | inr v ↦ (
              r,
              ground (arith, d, q, f, u, v, t),
              skip (λ k. ground (arith, v, unall k.arrived)),
            )
            | inl v ↦ (
              true,
              ground (arith, d, q, f, u, v),
              (
                λ _. (
                  n,
                  inl refl,
                  record {
                    unfinished = d;
                    reachable = λ k. ground (arith, f, uncut k);
                    arrived = all v;
                  },
                ),
                λ _. refl,
              ),
            )
          ]
        ]
      ]

  -- On an accepted graph `_work_remains` ends, and says whether a node of the graph is due: it has
  -- not finished, is no decision, is not cut off, and every path into it has arrived.
  pub work_remains_iff :
      (b : Bool) × (work_remains g s ≡ some b)
      × ((b ≡ true) ↔ ((n : WorkflowNode) × In n g.nodes × IsDue n))
  unfolding work_remains
  work_remains_iff = remains_total g.nodes
