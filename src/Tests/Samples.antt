-- ===== src/Tests/Samples.antt =====
-- A workflow of four steps: an input, a decision, a transform on its true path, an output.
use ae_cwap.Prelude.{String, Option, none, some, [], ◌∷◌, true, false, Bool, ◌≡◌, refl, ok, ◌==◌}
use ae_cwap.Value.{Fields, text, field, end}
use ae_cwap.Contracts.Graph.{NodeType, WorkflowNode, WorkflowEdge, WorkflowGraph, outgoing}
use ae_cwap.Contracts.Graph.Kahn.{accepts_order}
use ae_cwap.Contracts.Graph.Validation.{validate_structure}
use ae_cwap.Contracts.Job.{
  NextStepDefinition, WorkflowJobPayload, StepOutputContext, ServiceName, ExecutionState,
  JobContext, PrincipalKind,
}
use ae_cwap.Orchestrator.Branch.{Python, Coerced, lowered}
use ae_cwap.Orchestrator.Variables.{RunContext}

abbrev plain : String → NodeType → Fields → WorkflowNode
plain id type params = record {
  id = id;
  type = type;
  label = "";
  params = params;
  knowledge_handle = none;
  agent_id = none;
  review = none;
}

abbrev pub edge : String → String → String → Option Bool → WorkflowEdge
edge id source target condition = record {
  id = id;
  source = source;
  target = target;
  condition = condition;
  bindings = [];
}

abbrev pub start_node : WorkflowNode
start_node = plain "in" NodeType.input end

abbrev pub choice_node : WorkflowNode
choice_node = plain "b" NodeType.branch (field "left" (text "x") (field "right" (text "x") end))

abbrev pub transform_node : WorkflowNode
transform_node = plain "t" NodeType.transform end

abbrev pub output_node : WorkflowNode
output_node = plain "o" NodeType.output end

abbrev pub to_choice : WorkflowEdge
to_choice = edge "e1" "in" "b" none

abbrev pub if_true : WorkflowEdge
if_true = edge "e2" "b" "t" (some true)

abbrev pub if_false : WorkflowEdge
if_false = edge "e3" "b" "o" (some false)

abbrev pub to_output : WorkflowEdge
to_output = edge "e4" "t" "o" none

abbrev pub flow : WorkflowGraph
flow = record {
  id = "wf";
  name = "flow";
  version = 1;
  nodes = start_node ∷ choice_node ∷ transform_node ∷ output_node ∷ [];
  edges = to_choice ∷ if_true ∷ if_false ∷ to_output ∷ [];
  memory_scope_id = none;
}

pub flow_valid : validate_structure flow ≡ ok tt
unfolding validate_structure accepts_order outgoing
flow_valid = refl

-- texts compare by themselves, and nothing is a number
abbrev same : Coerced Unit → Coerced Unit → Bool
same (lowered a) (lowered b) = a == b
same _ _ = false

abbrev pub plain_python : Python
plain_python = record {
  Number = Unit;
  str = λ v. elim v [ text s ↦ s | _ ↦ "" ];
  lower = λ s. s;
  strip = λ s. s;
  in_text = λ a b. a == b;
  float = λ v. none;
  parse = λ s. none;
  lt = λ a b. false;
  le = λ a b. false;
  equal = same;
}

abbrev pub no_context : RunContext
no_context = record { run_id = "r"; inputs = end; steps = []; previous_node_id = none }

abbrev pub owner : JobContext
owner = record {
  tenant_id = "acme";
  initiating_user_id = "u1";
  permissions = record { required_scope = "READ_WORKFLOWS"; required_write = none };
  trace_id = "tr";
  principal_kind = PrincipalKind.user;
}

abbrev pub row_of : String → String → Fields → StepOutputContext
row_of step_id id output = record {
  run_id = "r";
  step_execution_id = step_id;
  source_service = ServiceName.transform_engine;
  node_id = id;
  resulting_state = ExecutionState.transform_complete;
  output = output;
  derived_context = end;
  duration_ms = 0;
}

abbrev pub to_transform : NextStepDefinition
to_transform = record {
  target_service = ServiceName.transform_engine;
  target_node_id = some "t";
  input_bindings = [];
  terminal = false;
}

abbrev pub job : WorkflowJobPayload
job = record {
  run_id = "r";
  step_execution_id = "se2";
  workflow_id = "wf";
  node_id = "t";
  job_context = owner;
  current_state = ExecutionState.input_resolved;
  next_step_definition = to_transform;
  inputs = end;
  attempt = 1;
}
