-- ===== src/Contracts/Graph/Lookups.antt =====
-- The lookups of packages/cwap_contracts/v4/graph.py return what they are asked for.
use ae_cwap.Prelude.{
  [], inr, subst, ap, ◌⊎◌, arith, inl, eq_iff, Bool-cases, true, ◌==◌, ◌∷◌, keep, In, some, List,
  Bool, String, ◌≡◌,
}
use ae_cwap.Contracts.Graph.{
  WorkflowNode, WorkflowEdge, WorkflowGraph, node, outgoing, incoming, find_node,
}

keep-In :
    {A : Type 0} (test : A → Bool) (xs : List A) (x : A)
    → In x (keep test xs)
    → In x xs × (test x ≡ true)
keep-In test [] x h = absurd h
keep-In {A} test (y ∷ xs) x h = elim (Bool-cases (test y)) [
  | inl p ↦
      let split : (y ≡ x) ⊎ In x (keep test xs) = rw p at h in
      elim split [
        | inl e ↦ (inl e, subst (λ (z : A). test z ≡ true) e p)
        | inr m ↦ let rest = keep-In test xs x m in (inr rest.0, rest.1)
      ]
  | inr p ↦ let rest = keep-In test xs x (rw p at h) in (inr rest.0, rest.1)
]

find_node_lem :
    (ns : List WorkflowNode) (id : String) (n : WorkflowNode)
    → find_node ns id ≡ some n
    → In n ns × (n.id ≡ id)
find_node_lem [] id n h = cc
find_node_lem (m ∷ ns) id n h = elim (Bool-cases (m.id == id)) [
  | inl e ↦
      let same : m ≡ n = ground (arith, h, e) in
      (inl same, ground (arith, ap (λ (w : WorkflowNode). w.id) same, eq_iff m.id id, e))
  | inr e ↦ let rest = find_node_lem ns id n (ground (arith, h, e)) in (inr rest.0, rest.1)
]

module _ (g : WorkflowGraph) where
  pub node_lem : (id : String) (n : WorkflowNode) → node g id ≡ some n → In n g.nodes × (n.id ≡ id)
  unfolding node
  node_lem id n h = find_node_lem g.nodes id n h

  pub outgoing_lem :
      (id : String) (e : WorkflowEdge) → In e (outgoing g id) → In e g.edges × (e.source ≡ id)
  unfolding outgoing
  outgoing_lem id e m =
      let (member, test) = keep-In (λ (x : WorkflowEdge). x.source == id) g.edges e m in
      (member, (eq_iff e.source id).0 test)

  pub incoming_lem :
      (id : String) (e : WorkflowEdge) → In e (incoming g id) → In e g.edges × (e.target ≡ id)
  unfolding incoming
  incoming_lem id e m =
      let (member, test) = keep-In (λ (x : WorkflowEdge). x.target == id) g.edges e m in
      (member, (eq_iff e.target id).0 test)
