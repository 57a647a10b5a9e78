-- ===== src/Agents/Running.antt =====
-- `_build_system_prompt` and `run_agent` of services/agents/runtime.py.
use ae_cwap.Agents.Learning.{recall_for, reflections}
use ae_cwap.Memory.{Outside, memory_calls}
use ae_cwap.Agents.{
  AgentDefinition, World, AgentRunContext, AgentStatus, Session, SkillDefinition, user_message,
  AgentResult, MemoryRow, final_answer, AgentError, emit_event, get_many, think_and_act,
}
use ae_cwap.Prelude.{
  String, Bool, List, Option, join, ℕ, ◌∷◌, some, append, [], Result, ◌++◌, none, if◌then◌else◌,
  map, ◌==◌, err, ◌>>=◌, ltb, length, ok,
}

-- `_build_system_prompt`: its lines, joined
unfoldable pub build_system_prompt : AgentDefinition → String → List SkillDefinition → String
build_system_prompt agent recalled skills = join "\n" (
    (append "You are " (append agent.name (append ". " agent.role)) ∷ "" ∷ [])
    ++ (elim skills [
      | [] ↦
          "You have no tools for this task. Work from the material you have been given, and say plainly where an answer would need something you cannot reach from here."
          ∷ []
      | first ∷ others ↦
          "Work by using the tools available to you. Call one, read its result, and decide what to do next. When you have what you need, answer directly instead of calling another tool."
          ∷ ""
          ∷ append "Your tools: "
              (append (join ", " (map (λ (s : SkillDefinition). s.name) (first ∷ others))) ".")
          ∷ ""
          ∷ "Check rather than recall. If something the answer depends on could be established with one of these tools, use it — even when you believe you already know. What you remember may be out of date or may not apply here; what a tool returns is about this case."
          ∷ ""
          ∷ "If a tool fails, read the error and try different arguments or a different tool. Do not repeat a call that just failed the same way."
          ∷ []
    ])
    ++ ("" ∷ "State plainly what you could not determine. Never invent a fact to fill a gap." ∷ [])
    ++ (if agent.instructions == "" then [] else "" ∷ agent.instructions ∷ [])
    ++ (if recalled == "" then [] else "" ∷ recalled ∷ []))

module _ {U : Type 0} (O : Outside U) (W : World U) where
  abbrev pub opening : String → Bool → AgentRunContext → Session
  opening objective has_recalled context =
      let s : Session = record {
        messages = user_message objective ∷ [];
        turns = [];
        used = [];
        thought = [];
        input_tokens = 0;
        output_tokens = 0;
        events = [];
      } in
      if has_recalled then emit_event context "agent.memory_recalled" s else s

  abbrev pub result_of : String → AgentStatus → List String → Session → AgentResult
  result_of content status ids s = record {
    text = content;
    status = status;
    turns = s.turns;
    skills_used = s.used;
    input_tokens = s.input_tokens;
    output_tokens = s.output_tokens;
    recalled_memory_ids = ids;
    reasoning = s.thought;
  }

  -- what the loop ended with becomes the result
  abbrev pub concluded :
      AgentDefinition
      → String
      → AgentRunContext
      → List String
      → Option String × Session
      → Result AgentError AgentResult
  concluded agent system context ids (answer, s) = elim answer [
    | some content ↦ ok (result_of content AgentStatus.objective_met ids s)
    | none ↦ (do
      (content, s') ← final_answer W agent system context s
      ok (result_of content AgentStatus.budget_exhausted ids s'))
  ]

  -- the result, and the table of memories after it; `skills` are all that are registered
  unfoldable pub run_agent :
      AgentDefinition
      → String
      → AgentRunContext
      → List SkillDefinition
      → ℕ
      → List (MemoryRow U)
      → Result AgentError (AgentResult × List (MemoryRow U))
  run_agent agent objective context skills drawn rows =
      if O.strip objective == ""
      then err AgentError.no_objective
      else let known = get_many skills agent.tenant_id agent.skill_ids in
        recall_for O W agent objective context rows >>= λ recalled.
        let system = build_system_prompt agent recalled.text known in
        think_and_act W agent.max_iterations 1 system known context
          (opening objective (ltb 0 (length recalled.ids)) context)
        >>= λ ended. concluded agent system context recalled.ids ended >>= λ result. ok (
          result,
          memory_calls O (reflections O W agent objective result context skills drawn) rows,
        )
