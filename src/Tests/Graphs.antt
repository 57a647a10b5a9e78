-- ===== src/Tests/Graphs.antt =====
-- The graph contract at the sample workflow, and graphs that its validator rejects.
use ae_cwap.Prelude.{ℕ, inl, ◌↔◌, true, err, Bool, inr, ok, String, none, some, [], ◌∷◌, ◌≡◌, refl}
use ae_cwap.Contracts.Graph.{WorkflowNode, WorkflowGraph, outgoing, entry_node}
use ae_cwap.Contracts.Graph.Kahn.{accepts_order}
use ae_cwap.Contracts.Graph.Kahn.Correct.{IsRanking, accepts_order_iff}
use ae_cwap.Contracts.Graph.Structure.{Walk, reach_from_entry, no_return}
use ae_cwap.Contracts.Graph.Validation.{GraphError, validate_structure}
use ae_cwap.Contracts.Graph.Validation.Accepts.{IsWellFormed, validate_structure_iff}
use ae_cwap.Tests.Samples.{flow, flow_valid, output_node, to_choice, if_true, to_output, edge}

validate_structure_iff_example : (validate_structure flow ≡ ok tt) ↔ IsWellFormed flow
validate_structure_iff_example = validate_structure_iff flow

flow_shape : IsWellFormed flow
flow_shape = (validate_structure_iff flow).0 flow_valid

accepts_order_iff_example :
    (b : Bool) × (accepts_order flow ≡ some b)
    × (b ≡ true → (rank : String → ℕ) × IsRanking flow.edges rank)
    × ((rank : String → ℕ) → IsRanking flow.edges rank → b ≡ true)
accepts_order_iff_example =
    accepts_order_iff flow flow_shape.nodes_once
      ((refl, refl), ((refl, refl), ((refl, refl), ((refl, refl), tt))))

reach_from_entry_example :
    (root : WorkflowNode) × (entry_node flow ≡ some root) × Walk flow root.id "o"
reach_from_entry_example = reach_from_entry flow flow_valid output_node (inr (inr (inr (inl refl))))

no_return_example : ¬ Walk flow "o" "t"
no_return_example = no_return flow to_output flow_valid (inr (inr (inr (inl refl))))

-- an edge from the output back to the decision closes a cycle
looped : WorkflowGraph
looped = record flow { edges = edge "e5" "o" "b" none ∷ flow.edges }

looped_rejected : validate_structure looped ≡ err GraphError.cycle
unfolding validate_structure accepts_order outgoing looped
looped_rejected = refl

-- a decision with one path
one_path : WorkflowGraph
one_path = record flow { edges = to_choice ∷ if_true ∷ to_output ∷ [] }

one_path_rejected : validate_structure one_path ≡ err (GraphError.bad_branch "b")
unfolding validate_structure accepts_order outgoing one_path
one_path_rejected = refl
