-- ===== src/Contracts/Graph.antt =====
-- packages/cwap_contracts/v4/graph.py, with the node types and edges of v2/graph.py and
-- v1/graph.py: the workflow blueprint and its lookups. The canvas position of a node is left out.
pub mod Lookups
pub mod Kahn
pub mod Validation
pub mod Structure
use ae_cwap.Prelude.{
  ℕ, String, Bool, true, false, not, ◌==◌, ◌&&◌, Option, none, some, List, [], ◌∷◌, map, ltb,
  contains, keep, if◌then◌else◌,
}
use ae_cwap.Value.{Fields}

pub data NodeType : Type 0 where
  input agent llm rag_retrieve http_request transform branch output : NodeType

abbrev pub is_branching : NodeType → Bool
is_branching NodeType.branch = true
is_branching _ = false

abbrev pub is_terminal_type : NodeType → Bool
is_terminal_type NodeType.output = true
is_terminal_type _ = false

abbrev pub is_reasoning : NodeType → Bool
is_reasoning NodeType.agent = true
is_reasoning NodeType.llm = true
is_reasoning _ = false

pub record ReviewConfig : Type 0 where
  pub agent_id : String
  pub max_rounds : ℕ
  pub approval_phrase : String

pub record WorkflowNode : Type 0 where
  pub id : String
  pub type : NodeType
  pub label : String
  pub params : Fields
  pub knowledge_handle : Option String
  pub agent_id : Option String
  pub review : Option ReviewConfig

-- `bindings` is a dict from the names of inputs to expressions
pub record WorkflowEdge : Type 0 where
  pub id : String
  pub source : String
  pub target : String
  pub condition : Option Bool
  pub bindings : List (String × String)

pub record WorkflowGraph : Type 0 where
  pub id : String
  pub name : String
  pub version : ℕ
  pub nodes : List WorkflowNode
  pub edges : List WorkflowEdge
  pub memory_scope_id : Option String

abbrev pub node_ids : List WorkflowNode → List String
node_ids = map (λ (n : WorkflowNode). n.id)

abbrev pub targets : List WorkflowEdge → List String
targets = map (λ (e : WorkflowEdge). e.target)

-- `none` is the KeyError
abbrev pub find_node : List WorkflowNode → String → Option WorkflowNode
find_node [] id = none
find_node (n ∷ ns) id = if n.id == id then some n else find_node ns id

abbrev pub edges_from : List WorkflowEdge → String → List WorkflowEdge
edges_from es id = keep (λ e. e.source == id) es

abbrev pub edges_to : List WorkflowEdge → String → List WorkflowEdge
edges_to es id = keep (λ e. e.target == id) es

-- the first node that no edge leads to; `none` is the StopIteration
abbrev pub first_root : List String → List WorkflowNode → Option WorkflowNode
first_root ts [] = none
first_root ts (n ∷ ns) = if contains ts n.id then first_root ts ns else some n

module _ (g : WorkflowGraph) where
  unfoldable pub node : String → Option WorkflowNode
  node id = find_node g.nodes id

  unfoldable pub outgoing : String → List WorkflowEdge
  outgoing id = edges_from g.edges id

  unfoldable pub incoming : String → List WorkflowEdge
  incoming id = edges_to g.edges id

  unfoldable pub entry_node : Option WorkflowNode
  entry_node = first_root (targets g.edges) g.nodes

  -- `memory_scope_id or id`: an empty text counts as absent
  pub memory_scope : String
  memory_scope = elim g.memory_scope_id [ none ↦ g.id | some s ↦ if s == "" then g.id else s ]
