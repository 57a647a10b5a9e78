-- ===== src/Agents/Learning.antt =====
-- `_recall`, `_reflect`, `_condense` and `_build_system_prompt` of services/agents/runtime.py, on the
-- table of memories. The texts that are remembered are not blank, so that `remember` refuses none.
use ae_cwap.Agents.{
  AgentStatus, World, AgentTurn, SkillDefinition, AgentRunContext, AgentDefinition, AgentResult,
  ToolResult, find_by_name, AgentError,
}
use ae_cwap.Memory.{
  Outside, MemoryRow, MemoryScope, MemoryWriteRequest, MemoryKind, MemoryCall, RecallRequest,
  query_text,
}
use ae_cwap.Memory.Recall.{recall}
use ae_cwap.Prelude.{
  [], String, Option, List, some, none, ◌∷◌, append, join, map, ◌++◌, ℕ, if◌then◌else◌, contains,
  Result, take_text, ◌==◌, keep, not, suc, ◌||◌, ok, nat_eq, err, ◌&&◌, length,
}

pub record Recalled : Type 0 where
  pub text : String
  pub ids : List String

abbrev pub nothing_recalled : Recalled
nothing_recalled = record { text = ""; ids = [] }

-- `RecallResult.as_prompt_block`
unfoldable pub as_prompt_block : {U : Type 0} → String → List (MemoryRow U) → String
as_prompt_block heading [] = ""
as_prompt_block {U} heading (r ∷ rows) = append heading (
    append ":\n" (
      join "\n"
        (map (λ (x : MemoryRow U). append "- (" (append x.kind (append ") " x.text))) (r ∷ rows))))

module _ {U : Type 0} (O : Outside U) (W : World U) where
  abbrev pub recall_request : AgentDefinition → MemoryScope → String → String → RecallRequest
  recall_request agent scope scope_id query = record {
    tenant_id = agent.tenant_id;
    scope = scope;
    scope_id = scope_id;
    query = query;
    limit = agent.memory.recall_limit;
  }

  -- what is recalled of the agent, and of the workflow
  unfoldable pub recalled_by :
      AgentDefinition → String → AgentRunContext → List (MemoryRow U) → Recalled
  recalled_by agent query context rows =
      let mine = recall O (recall_request agent MemoryScope.agent agent.id query) rows in
      let shared =
        (if agent.memory.use_workflow_memory && not (context.workflow_memory_scope == "")
          then recall O
              (recall_request agent MemoryScope.workflow context.workflow_memory_scope query) rows
          else []) in
      record {
        text = join "\n\n" (
            keep (λ t. not (t == ""))
              (as_prompt_block "What you have learned in this role" mine
                ∷ as_prompt_block "What this workflow has established" shared
                ∷ []));
        ids = map (λ (r : MemoryRow U). r.id) (mine ++ shared);
      }

  -- `_recall`; a request with the limit 0 is refused by its own contract
  unfoldable pub recall_for :
      AgentDefinition → String → AgentRunContext → List (MemoryRow U) → Result AgentError Recalled
  recall_for agent objective context rows =
      let query = query_text O objective in
      if not agent.memory.recall || (query == "")
      then ok nothing_recalled
      else if nat_eq agent.memory.recall_limit 0
      then err AgentError.invalid_recall
      else ok (recalled_by agent query context rows)

  abbrev goal_marker : String
  goal_marker = "The goal is:"

  abbrev handoff_marker : String
  handoff_marker = "The previous agent produced:"

  -- `_condense`
  unfoldable pub condense : String → String
  condense objective =
      let goal : String = elim (W.partition goal_marker objective) [
        | none ↦ objective
        | some p ↦ p.1
      ] in
      let own_part : String = elim (W.partition handoff_marker goal) [
        | none ↦ goal
        | some p ↦ p.0
      ] in
      let condensed = O.joined (O.split own_part) in
      if take_text 160 condensed == condensed
      then condensed
      else append (W.rstrip (take_text 160 condensed)) "…"

  -- `context.run_id or None`
  abbrev source_run : AgentRunContext → Option String
  source_run context = if context.run_id == "" then none else some context.run_id

  abbrev pub agent_memory :
      AgentDefinition → MemoryKind → AgentRunContext → String → MemoryWriteRequest
  agent_memory agent kind context content = record {
    tenant_id = agent.tenant_id;
    scope = MemoryScope.agent;
    scope_id = agent.id;
    kind = kind;
    text = content;
    source_run_id = source_run context;
  }

  abbrev pub skill_memory : SkillDefinition → AgentRunContext → ToolResult → MemoryWriteRequest
  skill_memory skill context outcome = record {
    tenant_id = skill.tenant_id;
    scope = MemoryScope.skill;
    scope_id = skill.id;
    kind = MemoryKind.failure;
    text = append "Invoking this with arguments that produced: " (take_text 300 outcome.output);
    source_run_id = source_run context;
  }

  abbrev pub failures_of : List AgentTurn → List ToolResult
  failures_of [] = []
  failures_of (t ∷ turns) =
      keep (λ (o : ToolResult). o.is_error) t.tool_results ++ failures_of turns

  -- one lesson for each failure of a skill that is registered
  abbrev pub failure_lessons :
      AgentDefinition
      → AgentRunContext
      → List SkillDefinition
      → List ToolResult
      → List MemoryWriteRequest
  failure_lessons agent context skills [] = []
  failure_lessons agent context skills (o ∷ outcomes) =
      let rest = failure_lessons agent context skills outcomes in
      elim (find_by_name skills agent.tenant_id o.skill_name) [
        | none ↦ rest
        | some skill ↦ skill_memory skill context o ∷ rest
      ]

  -- `dict.fromkeys`: the first of each
  abbrev pub once_each : List String → List String → List String
  once_each seen [] = []
  once_each seen (x ∷ xs) =
      let old = once_each seen xs in
      let new = once_each (seen ++ x ∷ []) xs in if contains seen x then old else x ∷ new

  abbrev pub own_lessons :
      AgentDefinition → String → AgentResult → AgentRunContext → List MemoryWriteRequest
  own_lessons agent objective result context = elim result.status [
    | AgentStatus.budget_exhausted ↦
        agent_memory agent MemoryKind.failure context (
          append "Objective of this shape needed more than "
            (append (W.digits agent.max_iterations) (append " iterations: " (condense objective))))
        ∷ []
    | AgentStatus.objective_met ↦ elim result.skills_used [
      | [] ↦ []
      | _ ∷ _ ↦
          agent_memory agent MemoryKind.learning context (
            append "For an objective like '" (
              append (condense objective) (
                append "', " (
                  append (join " then " (once_each [] result.skills_used)) (
                    append " worked in "
                      (append (W.digits (length result.turns)) " iteration(s)."))))))
          ∷ []
    ]
  ]

  -- each request is a `remember` under a fresh id
  abbrev pub writes_from : ℕ → List MemoryWriteRequest → List (MemoryCall U)
  writes_from drawn [] = []
  writes_from drawn (r ∷ requests) =
      MemoryCall.written r (W.fresh drawn) drawn ∷ writes_from (suc drawn) requests

  -- what `_reflect` calls
  unfoldable pub reflections :
      AgentDefinition
      → String
      → AgentResult
      → AgentRunContext
      → List SkillDefinition
      → ℕ
      → List (MemoryCall U)
  reflections agent objective result context skills drawn =
      if not agent.memory.write_learnings
      then []
      else writes_from drawn (
          failure_lessons agent context skills (failures_of result.turns)
          ++ own_lessons agent objective result context)
        ++ MemoryCall.reinforced result.recalled_memory_ids (elim result.status [
          | AgentStatus.objective_met ↦ W.reward
          | AgentStatus.budget_exhausted ↦ W.penalty
        ])
          ∷ []
