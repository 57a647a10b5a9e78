-- ===== src/Agents/Outcome.antt =====
-- `run_agent` of services/agents/runtime.py as a whole.
use ae_cwap.Agents.Dialogue.{Ended, found_in_turns, total_input, total_output}
use ae_cwap.Agents.{AgentStatus, AgentResult, SkillDefinition}
use ae_cwap.Prelude.{◌≡◌, List, String, Option, some, ℕ, none, length, ◌≤◌}

abbrev pub answer_of : AgentResult → Option String
answer_of result = elim result.status [
  | AgentStatus.objective_met ↦ some result.text
  | AgentStatus.budget_exhausted ↦ none
]

-- the result is of a run of the loop that ended
pub record IsRun (strip : String → String) (by_name : List (String × SkillDefinition)) (n : ℕ)
    (result : AgentResult) : Type 0 where
  pub ended : Ended strip by_name n 1 (answer_of result) result.turns
  pub within : length result.turns ≤ n
  pub used : result.skills_used ≡ found_in_turns by_name result.turns
  pub input : result.input_tokens ≡ total_input result.turns
  pub output : result.output_tokens ≡ total_output result.turns
