-- ===== src/Contracts/Graph/Structure.antt =====
-- What a run relies on in a graph that was accepted (packages/cwap_contracts/v4/graph.py): lookups
-- that succeed, one entry, walks that never return, and nodes that are all within reach.
use ae_cwap.Prelude.{
  refl, zero, [], ◌==◌, sym, subst, inr, eq_iff, inl, Bool-cases, not, ◌∷◌, ap, suc, keep, false,
  some, true, arith, All-In, In, ◌<◌, ◌≤◌, ok, contains, length, String, ◌≡◌, List, ℕ,
}
use ae_cwap.Contracts.Graph.{
  WorkflowNode, WorkflowEdge, WorkflowGraph, node_ids, targets, find_node, node, first_root,
  entry_node,
}
use ae_cwap.Contracts.Graph.Kahn.Correct.{IsRanking}
use ae_cwap.Contracts.Graph.Validation.{validate_structure, roots}
use ae_cwap.Contracts.Graph.Validation.Checks.{IsJoined}
use ae_cwap.Contracts.Graph.Validation.Accepts.{IsWellFormed, validate_structure_iff}

pub find_node_of_contains :
    (ns : List WorkflowNode) (id : String)
    → contains (node_ids ns) id ≡ true
    → (n : WorkflowNode) × (find_node ns id ≡ some n) × (n.id ≡ id) × In n ns
find_node_of_contains [] id h = cc
find_node_of_contains (n ∷ ns) id h = elim (Bool-cases (n.id == id)) [
  | inl e ↦ (n, rw e, (eq_iff n.id id).0 e, inl refl)
  | inr e ↦
      let (m, found, same, member) = find_node_of_contains ns id (ground (arith, h, e)) in
      (m, rw e found, same, inr member)
]

module _ (ts : List String) where
  first_root_lem :
      (ns : List WorkflowNode)
      → 0 < length (keep (λ id. not (contains ts id)) (node_ids ns))
      → (n : WorkflowNode) × (first_root ts ns ≡ some n) × In n ns × (contains ts n.id ≡ false)
  first_root_lem [] h = absurd (omega arith)
  first_root_lem (n ∷ ns) h = elim (Bool-cases (contains ts n.id)) [
    | inl e ↦
        let (m, found, member, root) = first_root_lem ns (rw e at h) in
        (m, rw e found, inr member, root)
    | inr e ↦ (n, rw e, inl refl, e)
  ]

  contains-keep :
      (ids : List String) (a : String)
      → contains ids a ≡ true
      → contains ts a ≡ false
      → contains (keep (λ id. not (contains ts id)) ids) a ≡ true
  contains-keep [] a h r = cc
  contains-keep (i ∷ ids) a h r = ground (arith, contains-keep ids a, eq_iff i a)

contains_of_In :
    (ns : List WorkflowNode) (n : WorkflowNode) → In n ns → contains (node_ids ns) n.id ≡ true
contains_of_In [] n m = absurd m
contains_of_In (x ∷ ns) n (inl e) =
    ground (arith, ap (λ (w : WorkflowNode). w.id) e, eq_iff x.id n.id)
contains_of_In (x ∷ ns) n (inr m) = ground (arith, contains_of_In ns n m)

eq_of_single :
    (xs : List String) (a b : String)
    → length xs ≡ 1
    → contains xs a ≡ true
    → contains xs b ≡ true
    → a ≡ b
eq_of_single [] a b l m k = cc
eq_of_single (x ∷ []) a b l m k = ground (arith, eq_iff x a, eq_iff x b)
eq_of_single (x ∷ y ∷ xs) a b l m k = absurd (omega arith)

source_of_target :
    (es : List WorkflowEdge) (id : String)
    → contains (targets es) id ≡ true
    → (e : WorkflowEdge) × In e es × (e.target ≡ id)
source_of_target [] id h = cc
source_of_target (e ∷ es) id h = elim (Bool-cases (e.target == id)) [
  | inl p ↦ (e, inl refl, (eq_iff e.target id).0 p)
  | inr p ↦ let (f, m, t) = source_of_target es id (ground (arith, h, p)) in (f, inr m, t)
]

-- a walk along edges of the graph, of any length
pub data Walk (g : WorkflowGraph) (a : String) : String → Type 0 where
  here : Walk g a a
  step :
      {b : String} (e : WorkflowEdge) → Walk g a b → In e g.edges → e.source ≡ b → Walk g a e.target

module _ (g : WorkflowGraph) (valid : validate_structure g ≡ ok tt) where
  shape : IsWellFormed g
  shape = (validate_structure_iff g).0 valid

  -- Both ends of an edge of an accepted graph are found by `node`, under their own id.
  pub node_of_edge :
      (e : WorkflowEdge)
      → In e g.edges
      → ((n : WorkflowNode) × (node g e.source ≡ some n) × (n.id ≡ e.source) × In n g.nodes)
        × ((n : WorkflowNode) × (node g e.target ≡ some n) × (n.id ≡ e.target) × In n g.nodes)
  unfolding node
  node_of_edge e m =
      let ends = All-In (IsJoined (node_ids g.nodes)) g.edges e shape.joined m in
      (find_node_of_contains g.nodes e.source ends.0, find_node_of_contains g.nodes e.target ends.1)

  -- `entry_node` of an accepted graph returns a node with no inbound edge, and it is the only one.
  pub entry_node_lem :
      (n : WorkflowNode) × (entry_node g ≡ some n)
      × In n g.nodes
      × (contains (targets g.edges) n.id ≡ false)
      × ((m : WorkflowNode) → In m g.nodes → contains (targets g.edges) m.id ≡ false → m.id ≡ n.id)
  unfolding entry_node
  entry_node_lem =
      let (n, found, member, root) =
        first_root_lem (targets g.edges) g.nodes (omega (arith, shape.entry)) in
      (
        n,
        found,
        member,
        root,
        λ m k r.
            eq_of_single (roots g) m.id n.id shape.entry
              (contains-keep (targets g.edges) (node_ids g.nodes) m.id (contains_of_In g.nodes m k)
                r)
              (contains-keep (targets g.edges) (node_ids g.nodes) n.id
                (contains_of_In g.nodes n member) root),
      )

  within_reach :
      (root : WorkflowNode)
      → ((m : WorkflowNode)
          → In m g.nodes
          → contains (targets g.edges) m.id ≡ false
          → m.id ≡ root.id)
      → (rank : String → ℕ) → IsRanking g.edges rank
      → (k : ℕ) (n : WorkflowNode) → rank n.id < k
      → In n g.nodes
      → Walk g root.id n.id
  within_reach root only rank up zero n l m = absurd (omega arith)
  within_reach root only rank up (suc k) n l m =
      elim (Bool-cases (contains (targets g.edges) n.id)) [
        | inr r ↦ subst (Walk g root.id) (sym (only n m r)) here
        | inl t ↦
            let (e, member, same) = source_of_target g.edges n.id t in
            let below : rank e.source < rank e.target =
              All-In (λ (x : WorkflowEdge). rank x.source < rank x.target) g.edges e up member in
            let (p, _, pid, pm) = (node_of_edge e member).0 in
            subst (Walk g root.id) same (
              step e
                (within_reach root only rank up k p
                  (omega (arith, below, ap rank same, ap rank pid)) pm)
                member (sym pid))
      ]

  -- Every node of an accepted graph is reached from its entry by a walk along edges.
  pub reach_from_entry :
      (n : WorkflowNode)
      → In n g.nodes
      → (root : WorkflowNode) × (entry_node g ≡ some root) × Walk g root.id n.id
  reach_from_entry n m =
      let (root, found, _, _, only) = entry_node_lem in
      let (rank, up) = shape.acyclic in
      (root, found, within_reach root only rank up (suc (rank n.id)) n (omega arith) m)

Walk-up :
    (g : WorkflowGraph) (rank : String → ℕ) {a b : String}
    → IsRanking g.edges rank
    → Walk g a b
    → rank a ≤ rank b
Walk-up g rank up here = omega arith
Walk-up g rank up (step {b} e w m s) =
    let below : rank e.source < rank e.target =
      All-In (λ (x : WorkflowEdge). rank x.source < rank x.target) g.edges e up m in
    omega (arith, below, ap rank s, Walk-up g rank up w)

-- In an accepted graph no walk that follows an edge comes back to where that edge started.
pub no_return :
    (g : WorkflowGraph) (e : WorkflowEdge)
    → validate_structure g ≡ ok tt
    → In e g.edges
    → ¬ Walk g e.target e.source
no_return g e valid m w =
    let (rank, up) = ((validate_structure_iff g).0 valid).acyclic in
    let below : rank e.source < rank e.target =
      All-In (λ (x : WorkflowEdge). rank x.source < rank x.target) g.edges e up m in
    absurd (omega (arith, below, Walk-up g rank up w))
