-- ===== src/Agents/Dialogue.antt =====
-- What the turns of a run of services/agents/runtime.py say, and what they add up to.
use ae_cwap.Agents.{
  AgentRunContext, Session, AgentTurn, ToolCall, SkillDefinition, emit_event, ToolResult,
}
use ae_cwap.Prelude.{
  ◌≡◌, List, ℕ, String, ◌∷◌, lookup, Bool-cases, ◌+◌, ◌++◌, Option, zero, none, [], inl, some,
  arith, true, suc, inr, ◌<◌, length,
}

-- the result is of the skill that was found, or an error under the name that was asked for
abbrev pub IsOf : Option SkillDefinition → ToolCall → ToolResult → Type 0
IsOf none c r = (r.skill_name ≡ c.skill_name) × (r.is_error ≡ true)
IsOf (some skill) c r = r.skill_name ≡ skill.name

-- each call has one result, in order: of the skill that its name finds, or the error that says that
-- there is none
abbrev pub IsAnswered : List (String × SkillDefinition) → List ToolCall → List ToolResult → Type 0
IsAnswered by_name [] [] = Unit
IsAnswered by_name [] (r ∷ results) = ⊥
IsAnswered by_name (c ∷ calls) [] = ⊥
IsAnswered by_name (c ∷ calls) (r ∷ results) =
    (r.call_id ≡ c.id) × IsOf (lookup by_name c.skill_name) c r × IsAnswered by_name calls results

-- how the loop ends with so many iterations left, the next of a number: with the answer and the
-- turns from there
pub data Ended (strip : String → String) (by_name : List (String × SkillDefinition))
    : ℕ → ℕ → Option String → List AgentTurn → Type 0 where
  spent : {k : ℕ} → Ended strip by_name zero k none []
  met :
      {n k : ℕ} {content : String} {t : AgentTurn}
      → t.iteration ≡ k
      → t.tool_calls ≡ []
      → t.text ≡ strip content
      → Ended strip by_name (suc n) k (some content) (t ∷ [])
  acted :
      {n k : ℕ} {answer : Option String} {t : AgentTurn} {turns : List AgentTurn}
      → t.iteration ≡ k
      → 0 < length t.tool_calls
      → IsAnswered by_name t.tool_calls t.tool_results
      → Ended strip by_name n (suc k) answer turns
      → Ended strip by_name (suc n) k answer (t ∷ turns)

-- the skills that calls find
abbrev pub found_in : List (String × SkillDefinition) → List ToolCall → List String
found_in by_name [] = []
found_in by_name (c ∷ calls) = elim (lookup by_name c.skill_name) [
  | none ↦ found_in by_name calls
  | some skill ↦ skill.name ∷ found_in by_name calls
]

abbrev pub found_in_turns : List (String × SkillDefinition) → List AgentTurn → List String
found_in_turns by_name [] = []
found_in_turns by_name (t ∷ turns) = found_in by_name t.tool_calls ++ found_in_turns by_name turns

abbrev pub total_input : List AgentTurn → ℕ
total_input [] = 0
total_input (t ∷ turns) = t.input_tokens + total_input turns

abbrev pub total_output : List AgentTurn → ℕ
total_output [] = 0
total_output (t ∷ turns) = t.output_tokens + total_output turns

-- what came after: the turns, and what they added up to
pub record IsAfter (by_name : List (String × SkillDefinition)) (s : Session)
    (turns : List AgentTurn) (s' : Session) : Type 0 where
  pub turns_eq : s'.turns ≡ s.turns ++ turns
  pub used_eq : s'.used ≡ s.used ++ found_in_turns by_name turns
  pub input_eq : s'.input_tokens ≡ s.input_tokens + total_input turns
  pub output_eq : s'.output_tokens ≡ s.output_tokens + total_output turns

-- nothing of it but what is emitted or thought changes
abbrev pub IsSame : Session → Session → Type 0
IsSame s s' =
    (s'.turns ≡ s.turns)
    × (s'.used ≡ s.used)
    × (s'.input_tokens ≡ s.input_tokens)
    × (s'.output_tokens ≡ s.output_tokens)

pub emit-IsSame :
    (context : AgentRunContext) (e : String) (s : Session) → IsSame s (emit_event context e s)
unfolding emit_event
emit-IsSame context e s = elim (Bool-cases context.emit) [
  | inl b ↦ ground (arith, b)
  | inr b ↦ ground (arith, b)
]
