-- ===== src/Orchestrator/Joins.antt =====
-- The part of services/orchestrator/runner.py that reads from the committed rows which paths of a
-- run have ended: `_is_closed`, `_run_state`, `_join_ready`, `_work_remains` and `_joined_bindings`.
-- `_is_closed` calls itself along inbound edges: it is fuelled by one more than the number of nodes,
-- and `none` is the `KeyError` of an unknown node or the end of the fuel. Rows are read in the order of
-- their ids.
pub mod Closed
pub mod Remaining
use ae_cwap.Contracts.Graph.{
  NodeType, is_branching, WorkflowNode, WorkflowEdge, WorkflowGraph, node, incoming,
}
use ae_cwap.Contracts.Job.{StepOutputContext}
use ae_cwap.Value.{Value, bool, Fields}
use ae_cwap.Value.Dict.{get}
use ae_cwap.Prelude.{
  keep, foldl, if◌then◌else◌, ◌++◌, ◌||◌, ℕ, zero, suc, String, Bool, true, false, not, Option,
  none, some, List, [], ◌∷◌, ◌&&◌, ◌==◌, lookup, insert, contains, leb, length,
}

-- which nodes have finished, and which way each decision went
pub record RunState : Type 0 where
  pub completed : List String
  pub decisions : List (String × Bool)

abbrev pub verdict : Fields → Option Bool
verdict output = elim (get output "decision") [ some (bool b) ↦ some b | _ ↦ none ]

abbrev pub see : RunState → StepOutputContext → RunState
see s row = record {
  completed = s.completed ++ row.node_id ∷ [];
  decisions = elim (verdict row.output) [
    | none ↦ s.decisions
    | some b ↦ insert s.decisions row.node_id b
  ];
}

unfoldable pub run_state : List StepOutputContext → String → RunState
run_state rows run_id =
    foldl see (record { completed = []; decisions = [] })
      (keep (λ (r : StepOutputContext). r.run_id == run_id) rows)

abbrev same_bool : Bool → Bool → Bool
same_bool true b = b
same_bool false b = not b

-- `type is BRANCH and condition is not None and taken is not None and taken is not condition`
abbrev pub is_cut : NodeType → Option Bool → Option Bool → Bool
is_cut type (some condition) (some taken) = is_branching type && not (same_bool taken condition)
is_cut type _ _ = false

-- the loop of `_is_closed` over the inbound edges, given the call on a source
unfoldable pub closed_edges :
    (String → Option Bool) → WorkflowGraph → RunState → List WorkflowEdge → Option Bool
closed_edges call g s [] = some true
closed_edges call g s (e ∷ es) = elim (node g e.source) [
  | none ↦ none
  | some source ↦ elim (is_cut source.type e.condition (lookup s.decisions source.id)) [
    | true ↦ closed_edges call g s es
    | false ↦ elim (contains s.completed e.source) [
      | true ↦ some false
      | false ↦ elim (call e.source) [ some true ↦ closed_edges call g s es | other ↦ other ]
    ]
  ]
]

unfoldable pub closed_within : ℕ → WorkflowGraph → RunState → String → Option Bool
closed_within zero g s id = none
closed_within (suc fuel) g s id = elim (incoming g id) [
  | [] ↦ some false
  | e ∷ es ↦ closed_edges (closed_within fuel g s) g s (e ∷ es)
]

unfoldable pub is_closed : WorkflowGraph → RunState → String → Option Bool
is_closed g s id = closed_within (suc (length g.nodes)) g s id

-- whether the path along each edge has arrived: its source has finished or is closed
unfoldable pub all_arrived : WorkflowGraph → RunState → List WorkflowEdge → Option Bool
all_arrived g s [] = some true
all_arrived g s (e ∷ es) = elim (contains s.completed e.source) [
  | true ↦ all_arrived g s es
  | false ↦ elim (is_closed g s e.source) [ some true ↦ all_arrived g s es | other ↦ other ]
]

unfoldable pub join_ready : WorkflowGraph → RunState → String → Option Bool
join_ready g s id =
    if leb (length (incoming g id)) 1 then some true else all_arrived g s (incoming g id)

-- the loop of `_work_remains` over the nodes
unfoldable pub remains_in : WorkflowGraph → RunState → List WorkflowNode → Option Bool
remains_in g s [] = some false
remains_in g s (n ∷ ns) = elim (contains s.completed n.id || is_branching n.type) [
  | true ↦ remains_in g s ns
  | false ↦ elim (is_closed g s n.id) [
    | none ↦ none
    | some true ↦ remains_in g s ns
    | some false ↦ elim (all_arrived g s (incoming g n.id)) [
      | some false ↦ remains_in g s ns
      | other ↦ other
    ]
  ]
]

unfoldable pub work_remains : WorkflowGraph → RunState → Option Bool
work_remains g s = remains_in g s g.nodes

-- `bindings.update(edge.bindings)` over the inbound edges
abbrev update_with : List (String × String) → WorkflowEdge → List (String × String)
update_with bindings e =
    foldl (λ (d : List (String × String)) (b : String × String). insert d b.0 b.1) bindings
      e.bindings

unfoldable pub joined_bindings : WorkflowGraph → String → List (String × String)
joined_bindings g id = foldl update_with [] (incoming g id)
