-- ===== src/Contracts/Graph/Validation/Accepts.antt =====
-- `WorkflowGraph._validate_structure` of packages/cwap_contracts/v4/graph.py accepts exactly the
-- well-formed graphs.
use ae_cwap.Prelude.{
  suc, ap, refl, >>=-eq-ok, ◌∷◌, length, ◌≤◌, map, IsNodup, arith, guard-eq-ok, ◌↔◌, All, ◌≢◌,
  String, ok, [], ◌≡◌, List, ℕ,
}
use ae_cwap.Contracts.Graph.{
  NodeType, WorkflowNode, WorkflowEdge, WorkflowGraph, node_ids, outgoing,
}
use ae_cwap.Contracts.Graph.Kahn.Correct.{bounded_rank, IsRanking, IsKnown, accepts_order_iff}
use ae_cwap.Contracts.Graph.Validation.{
  validate_structure, validate_branches, check_branching, roots, count_pairs, is_choice,
  sort_conditions, conditions,
}
use ae_cwap.Contracts.Graph.Validation.Checks.{
  Passed-of_ok, ok_of_Passed, IsNodup-of_unrepeated, unrepeated_of_nodup, pairs_once, IsJoined,
  IsJoined-of_checked, checked_of_joined, IsChoice, IsChoice-of_sorted, sorted_of_choice,
  any-eq-false,
}

-- what may leave a node: a choice from a branch, nothing from an output, anything from another
abbrev pub IsLeaving : NodeType → List WorkflowEdge → Type 0
IsLeaving NodeType.branch out = IsChoice out
IsLeaving NodeType.output out = out ≡ []
IsLeaving _ out = Unit

IsLeaving-of_checked :
    (t : NodeType) (id : String) (out : List WorkflowEdge)
    → check_branching t id out ≡ ok tt
    → IsLeaving t out
unfolding check_branching
IsLeaving-of_checked NodeType.branch id out h =
    IsChoice-of_sorted out (guard-eq-ok (is_choice (sort_conditions (conditions out))) _ h)
IsLeaving-of_checked NodeType.output id [] h = refl
IsLeaving-of_checked NodeType.output id (e ∷ out) h = cc
IsLeaving-of_checked _ id out h = tt

checked_of_leaving :
    (t : NodeType) (id : String) (out : List WorkflowEdge)
    → IsLeaving t out
    → check_branching t id out ≡ ok tt
unfolding check_branching
checked_of_leaving NodeType.branch id out h = rw (sorted_of_choice out h)
checked_of_leaving NodeType.output id out h = rw h
checked_of_leaving _ id out h = ground arith

abbrev pub HasPaths : WorkflowGraph → WorkflowNode → Type 0
HasPaths g n = IsLeaving n.type (outgoing g n.id)

paths_of_checked :
    (g : WorkflowGraph) (ns : List WorkflowNode)
    → validate_branches g ns ≡ ok tt
    → All (HasPaths g) ns
unfolding validate_branches
paths_of_checked g [] h = tt
paths_of_checked g (n ∷ ns) h =
    let (u, first, rest) =
      >>=-eq-ok (check_branching n.type n.id (outgoing g n.id)) (λ _. validate_branches g ns) h in
    (IsLeaving-of_checked n.type n.id (outgoing g n.id) first, paths_of_checked g ns rest)

checked_of_paths :
    (g : WorkflowGraph) (ns : List WorkflowNode)
    → All (HasPaths g) ns
    → validate_branches g ns ≡ ok tt
unfolding validate_branches
checked_of_paths g [] h = refl
checked_of_paths g (n ∷ ns) h =
    rw (checked_of_leaving n.type n.id (outgoing g n.id) h.0) (checked_of_paths g ns h.1)

-- A graph that can be executed.
pub record IsWellFormed (g : WorkflowGraph) : Type 0 where
  pub inhabited : g.nodes ≢ []
  pub nodes_once : IsNodup (node_ids g.nodes)
  pub edges_once : IsNodup (map (λ (e : WorkflowEdge). e.id) g.edges)
  pub joined : All (IsJoined (node_ids g.nodes)) g.edges
  pub parallel : (a b : String) → count_pairs g.edges a b ≤ 1
  pub entry : length (roots g) ≡ 1
  pub acyclic : (rank : String → ℕ) × IsRanking g.edges rank
  pub paths : All (HasPaths g) g.nodes

IsKnown-of_joined :
    (ids : List String) (es : List WorkflowEdge) → All (IsJoined ids) es → All (IsKnown ids) es
IsKnown-of_joined ids [] h = tt
IsKnown-of_joined ids (e ∷ es) h = ((h.0.0, h.0.1), IsKnown-of_joined ids es h.1)

-- The validator accepts a graph exactly if it is well-formed: it has a node, node ids and edge ids
-- are distinct, edges join two different nodes of the graph, no two edges join the same nodes, one
-- node has no inbound edge, there are levels along which every edge goes up, and every branch has
-- one edge for each decision while no edge leaves an output.
pub validate_structure_iff : (g : WorkflowGraph) → (validate_structure g ≡ ok tt) ↔ IsWellFormed g
validate_structure_iff g = (sound, complete)
  where
    sound : validate_structure g ≡ ok tt → IsWellFormed g
    sound h =
        let p = Passed-of_ok g h in
        let once = IsNodup-of_unrepeated (node_ids g.nodes) p.nodes in
        let joined = IsJoined-of_checked (node_ids g.nodes) g.edges p.ends in
        let (b, says, ranks, _) =
          accepts_order_iff g once (IsKnown-of_joined (node_ids g.nodes) g.edges joined) in
        record {
          inhabited = λ e. ground (arith, p.inhabited, e);
          nodes_once = once;
          edges_once = IsNodup-of_unrepeated _ p.edges;
          joined = joined;
          parallel = pairs_once g.edges p.pairs;
          entry = p.entry;
          acyclic = ranks (ground (arith, says, p.order));
          paths = paths_of_checked g g.nodes p.branches;
        }

    complete : IsWellFormed g → validate_structure g ≡ ok tt
    complete w =
        let (b, says, _, order) =
          accepts_order_iff g w.nodes_once
            (IsKnown-of_joined (node_ids g.nodes) g.edges w.joined) in
        ok_of_Passed g (record {
          inhabited = ground (arith, w.inhabited);
          nodes = unrepeated_of_nodup _ w.nodes_once;
          edges = unrepeated_of_nodup _ w.edges_once;
          ends = checked_of_joined _ _ w.joined;
          pairs =
              any-eq-false _ g.edges
                (λ (e : WorkflowEdge). ground (arith, w.parallel e.source e.target));
          entry = w.entry;
          order = ground (arith, says, order w.acyclic.0 w.acyclic.1);
          branches = checked_of_paths g g.nodes w.paths;
        })

length-node_ids : (ns : List WorkflowNode) → length (node_ids ns) ≡ length ns
length-node_ids [] = refl
length-node_ids (n ∷ ns) = ap suc (length-node_ids ns)

-- an accepted graph has levels that are at most as many as its nodes
pub validate_structure_ranks :
    (g : WorkflowGraph)
    → validate_structure g ≡ ok tt
    → (rank : String → ℕ) × IsRanking g.edges rank × ((n : String) → rank n ≤ length g.nodes)
validate_structure_ranks g h =
    let p = Passed-of_ok g h in
    let joined = IsJoined-of_checked (node_ids g.nodes) g.edges p.ends in
    let (rank, up, most) =
      bounded_rank g (IsNodup-of_unrepeated (node_ids g.nodes) p.nodes)
        (IsKnown-of_joined (node_ids g.nodes) g.edges joined) p.order in
    (rank, up, λ n. omega (arith, most n, length-node_ids g.nodes))
