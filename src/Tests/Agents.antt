-- ===== src/Tests/Agents.antt =====
-- An agent with one skill, and a model that calls it and one that is not there, then answers.
use ae_cwap.Tests.Memories.{outside, two_entries}
use ae_cwap.Memory.{query_text}
use ae_cwap.Value.{end}
use ae_cwap.Agents.Learning.{recall_for}
use ae_cwap.Agents.Running.{run_agent}
use ae_cwap.Skills.{SkillDefinition, SkillKind, get_many}
use ae_cwap.Agents.{
  World, AgentDefinition, Reply, AgentError, Completion, AgentRunContext, named_skills,
}
use ae_cwap.Prelude.{
  ◌≡◌, ℕ, true, ◌∷◌, List, [], if◌then◌else◌, false, nat_eq, take_text, none, err, refl, some,
  String,
}

abbrev first_reply : Completion
first_reply = record {
  text = "let me look";
  tool_calls =
      record { id = "c1"; skill_name = "search"; arguments = end }
      ∷ record { id = "c2"; skill_name = "ghost"; arguments = end }
      ∷ [];
  input_tokens = 10;
  output_tokens = 3;
  reasoning = "";
}

abbrev second_reply : Completion
second_reply = record {
  text = "done";
  tool_calls = [];
  input_tokens = 20;
  output_tokens = 4;
  reasoning = "";
}

abbrev world : World ℕ
world = record {
  converse = λ i ms sys ts. Reply.answered (if nat_eq i 1 then first_reply else second_reply);
  execute = λ n skill arguments. some (record { output = "found"; is_error = false });
  strip = λ s. s;
  shown = λ names. "";
  digits = λ n. "n";
  rstrip = λ s. s;
  partition = λ marker s. none;
  fresh = λ n. "m";
  reward = 20;
  penalty = 0;
}

abbrev searcher : SkillDefinition
searcher = record {
  id = "s1";
  tenant_id = "acme";
  name = "search";
  kind = SkillKind.retrieval;
  parameters = [];
  definition = end;
  invocations = 0;
  failures = 0;
}

abbrev analyst : AgentDefinition
analyst = record {
  id = "a1";
  tenant_id = "acme";
  name = "Ana";
  role = "an analyst";
  instructions = "";
  skill_ids = "s1" ∷ [];
  max_iterations = 6;
  memory = record {
    recall = true;
    recall_limit = 5;
    write_learnings = true;
    use_workflow_memory = false;
  };
}

abbrev run_context : AgentRunContext
run_context = record { run_id = "r1"; workflow_memory_scope = ""; emit = true }

-- the skills of the agent, by their names
abbrev known : List (String × SkillDefinition)
known = named_skills (get_many (searcher ∷ []) "acme" ("s1" ∷ []))

-- an agent that recalls nothing at a time does not run
abbrev forgetful : AgentDefinition
forgetful = record analyst {
  memory = record {
    recall = true;
    recall_limit = 0;
    write_learnings = true;
    use_workflow_memory = false;
  };
}

forgetful_run :
    run_agent outside world forgetful "find it" run_context (searcher ∷ []) 0 two_entries
    ≡ err AgentError.invalid_recall
unfolding run_agent recall_for query_text take_text
forgetful_run = refl
