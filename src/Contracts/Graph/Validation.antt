-- ===== src/Contracts/Graph/Validation.antt =====
-- The validators of packages/cwap_contracts/v4/graph.py: `WorkflowNode._type_specific_requirements`
-- and `WorkflowGraph._validate_structure` with `_reject_cycles` and `_validate_branches`. Messages
-- are left out: an error is the check that failed and the id that it names.
pub mod Checks
pub mod Accepts
use ae_cwap.Prelude.{
  ℕ, zero, suc, String, Bool, true, false, not, ◌==◌, ◌&&◌, ◌||◌, Option, none, some, List, [], ◌∷◌,
  map, length, keep, any, contains, count, ltb, leb, nat_eq, if◌then◌else◌, Result, ok, err, ◌>>=◌,
  ◌>>◌, guard,
}
use ae_cwap.Contracts.Graph.{
  NodeType, is_branching, is_terminal_type, is_reasoning, ReviewConfig, WorkflowNode, WorkflowEdge,
  WorkflowGraph, node_ids, targets, outgoing,
}
use ae_cwap.Contracts.Graph.Kahn.{accepts_order}

pub data GraphError : Type 0 where
  no_corpus no_agent not_reviewable own_reviewer : String → GraphError
  no_nodes duplicate_node_ids duplicate_edge_ids duplicate_pairs cycle : GraphError
  unknown_source unknown_target self_loop : String → GraphError
  entry_count : ℕ → GraphError
  bad_branch output_with_edges fan_out : String → GraphError

-- `not value` of an optional text: absent or empty
abbrev pub missing : Option String → Bool
missing none = true
missing (some s) = s == ""

abbrev same_text : Option String → String → Bool
same_text none s = false
same_text (some t) s = t == s

abbrev is_rag : NodeType → Bool
is_rag NodeType.rag_retrieve = true
is_rag _ = false

abbrev is_agent : NodeType → Bool
is_agent NodeType.agent = true
is_agent _ = false

check_review : WorkflowNode → Option ReviewConfig → Result GraphError (Unit {0})
check_review n none = ok tt
check_review n (some review) = do
  guard (is_reasoning n.type) (GraphError.not_reviewable n.id)
  guard (not (same_text n.agent_id review.agent_id)) (GraphError.own_reviewer n.id)

pub validate_node : WorkflowNode → Result GraphError (Unit {0})
unfolding check_review
validate_node n = do
  guard (not (is_rag n.type && missing n.knowledge_handle)) (GraphError.no_corpus n.id)
  guard (not (is_agent n.type && missing n.agent_id)) (GraphError.no_agent n.id)
  check_review n n.review

-- `{x for x in xs if xs.count(x) > 1}` is not empty
abbrev pub has_repeats : List String → Bool
has_repeats xs = any (λ x. ltb 1 (count xs x)) xs

-- `pairs.count(pair)`
abbrev pub count_pairs : List WorkflowEdge → String → String → ℕ
count_pairs [] a b = 0
count_pairs (e ∷ es) a b =
    let rest = count_pairs es a b in if e.source == a && e.target == b then suc rest else rest

abbrev pub repeats_pair : List WorkflowEdge → Bool
repeats_pair es = any (λ (e : WorkflowEdge). ltb 1 (count_pairs es e.source e.target)) es

pub check_ends : List String → List WorkflowEdge → Result GraphError (Unit {0})
check_ends known [] = ok tt
check_ends known (e ∷ es) = do
  guard (contains known e.source) (GraphError.unknown_source e.id)
  guard (contains known e.target) (GraphError.unknown_target e.id)
  guard (not (e.source == e.target)) (GraphError.self_loop e.id)
  check_ends known es

abbrev pub roots : WorkflowGraph → List String
roots g = keep (λ id. not (contains (targets g.edges) id)) (node_ids g.nodes)

-- `none` is the end of the fuel, which is counted as a cycle.
reject_cycles : WorkflowGraph → Result GraphError (Unit {0})
reject_cycles g = elim (accepts_order g) [
  | none ↦ err GraphError.cycle
  | some b ↦ guard b GraphError.cycle
]

-- `key=lambda value: str(value)`: "False" < "None" < "True"
abbrev condition_key : Option Bool → ℕ
condition_key (some false) = 0
condition_key none = 1
condition_key (some true) = 2

abbrev pub insert_condition : Option Bool → List (Option Bool) → List (Option Bool)
insert_condition c [] = c ∷ []
insert_condition c (d ∷ ds) =
    let rest = insert_condition c ds in
    if leb (condition_key c) (condition_key d) then c ∷ d ∷ ds else d ∷ rest

abbrev pub sort_conditions : List (Option Bool) → List (Option Bool)
sort_conditions [] = []
sort_conditions (c ∷ cs) = insert_condition c (sort_conditions cs)

-- `== [False, True]`
abbrev pub is_choice : List (Option Bool) → Bool
is_choice (some false ∷ some true ∷ []) = true
is_choice _ = false

abbrev pub conditions : List WorkflowEdge → List (Option Bool)
conditions = map (λ (e : WorkflowEdge). e.condition)

abbrev pub is_empty {ℓ} : {A : Type ℓ} → List A → Bool
is_empty [] = true
is_empty (_ ∷ _) = false

abbrev allow_fan_out : Bool
allow_fan_out = true

-- one round of the loop of `_validate_branches`
pub check_branching : NodeType → String → List WorkflowEdge → Result GraphError (Unit {0})
check_branching type id out =
    if is_branching type
    then guard (is_choice (sort_conditions (conditions out))) (GraphError.bad_branch id)
    else if is_terminal_type type
    then guard (is_empty out) (GraphError.output_with_edges id)
    else guard (not (ltb 1 (length out) && not allow_fan_out)) (GraphError.fan_out id)

pub validate_branches : WorkflowGraph → List WorkflowNode → Result GraphError (Unit {0})
unfolding check_branching
validate_branches g [] = ok tt
validate_branches g (n ∷ ns) = do
  check_branching n.type n.id (outgoing g n.id)
  validate_branches g ns

unfoldable pub validate_structure : WorkflowGraph → Result GraphError (Unit {0})
unfolding check_ends reject_cycles validate_branches
validate_structure g = do
  guard (not (is_empty g.nodes)) GraphError.no_nodes
  guard (not (has_repeats (node_ids g.nodes))) GraphError.duplicate_node_ids
  guard (not (has_repeats (map (λ (e : WorkflowEdge). e.id) g.edges))) GraphError.duplicate_edge_ids
  check_ends (node_ids g.nodes) g.edges
  guard (not (repeats_pair g.edges)) GraphError.duplicate_pairs
  guard (nat_eq (length (roots g)) 1) (GraphError.entry_count (length (roots g)))
  reject_cycles g
  validate_branches g g.nodes

pub validate_nodes : List WorkflowNode → Result GraphError (Unit {0})
validate_nodes [] = ok tt
validate_nodes (n ∷ ns) = validate_node n >> validate_nodes ns

-- `WorkflowGraph.model_validate`: the validators of the nodes, then that of the graph. The bounds on
-- the lengths of texts and on numbers are left out.
unfoldable pub model_validate : WorkflowGraph → Result GraphError (Unit {0})
model_validate g = validate_nodes g.nodes >> validate_structure g
