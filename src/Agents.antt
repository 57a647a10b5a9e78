-- ===== src/Agents.antt =====
-- services/agents/runtime.py, with the contracts of packages/cwap_contracts/v2/agents.py and
-- v4/agents.py: the loop in which a model decides and skills act, within a budget of iterations,
-- what it recalls before and what it writes down after. The model and the execution of skills are
-- the parameter `World`; streaming, durations and the data of events are left out.
pub mod Learning
pub mod Running
pub mod Dialogue
pub mod Turns
pub mod Thinking
pub mod Outcome
use ae_cwap.Skills.{SkillDefinition, get_many, find_by_name, SkillOutcome}
use ae_cwap.Memory.{Outside, MemoryRow}
use ae_cwap.Value.{Fields}
use ae_cwap.Prelude.{
  ◌≡◌, Bool, String, List, ℕ, [], ◌++◌, some, if◌then◌else◌, ◌+◌, foldl, Result, Option, none, ◌∷◌,
  append, suc, ◌==◌, ok, lookup, map, insert, join, keep, err, length, true, zero, not, take_text,
  ◌>>=◌, ◌&&◌,
}

pub record ToolCall : Type 0 where
  pub id : String
  pub skill_name : String
  pub arguments : Fields

pub record ToolResult : Type 0 where
  pub call_id : String
  pub skill_name : String
  pub output : String
  pub is_error : Bool

pub record AgentTurn : Type 0 where
  pub iteration : ℕ
  pub text : String
  pub tool_calls : List ToolCall
  pub tool_results : List ToolResult
  pub input_tokens : ℕ
  pub output_tokens : ℕ

pub record AgentMemoryConfig : Type 0 where
  pub recall : Bool
  pub recall_limit : ℕ
  pub write_learnings : Bool
  pub use_workflow_memory : Bool

pub record AgentDefinition : Type 0 where
  pub id : String
  pub tenant_id : String
  pub name : String
  pub role : String
  pub instructions : String
  pub skill_ids : List String
  pub max_iterations : ℕ
  pub memory : AgentMemoryConfig

pub record AgentRunContext : Type 0 where
  pub run_id : String
  pub workflow_memory_scope : String
  -- whether events are emitted at all
  pub emit : Bool

-- `LLMCompletion`; its calls are `ToolCallRequest`s, which have the fields of a `ToolCall`
pub record Completion : Type 0 where
  pub text : String
  pub tool_calls : List ToolCall
  pub input_tokens : ℕ
  pub output_tokens : ℕ
  pub reasoning : String

pub data Role : Type 0 where
  user assistant tool : Role

pub record ChatMessage : Type 0 where
  pub role : Role
  pub content : String
  pub tool_calls : List ToolCall
  pub tool_call_id : Option String
  pub name : Option String

-- what `converse` returns, or raises: `LLMRefusal`, another `LLMProxyError`, or anything else
pub data Reply : Type 0 where
  answered : Completion → Reply
  declined : Reply
  unreachable : Reply
  broke : Reply

-- what the loop calls: the model, by the number of the call and whether it is offered tools, and
-- skills, by the number of the execution
pub record World (U : Type 0) : Type 0 where
  pub converse : ℕ → List ChatMessage → String → List SkillDefinition → Reply
  -- none where `execute` lets an exception out
  pub execute : ℕ → SkillDefinition → Fields → Option SkillOutcome
  -- what contract models do to their texts
  pub strip : String → String
  -- `str(sorted(names))`, `str(n)`, `s.rstrip()`, and the texts before and after a marker
  pub shown : List String → String
  pub digits : ℕ → String
  pub rstrip : String → String
  pub partition : String → String → Option (String × String)
  -- `uuid4`
  pub fresh : ℕ → String
  -- 0.2 and -0.3
  pub reward : U
  pub penalty : U

pub data AgentStatus : Type 0 where
  objective_met budget_exhausted : AgentStatus

pub data AgentError : Type 0 where
  no_objective : AgentError
  model_declined : AgentError
  model_unreachable : AgentError
  -- the recall request's own validation
  invalid_recall : AgentError
  -- an exception of the model or of a skill that nothing catches
  broken : AgentError
  -- the validation of a call, of its result or of a turn
  invalid_turn : AgentError

pub record AgentResult : Type 0 where
  pub text : String
  pub status : AgentStatus
  pub turns : List AgentTurn
  pub skills_used : List String
  pub input_tokens : ℕ
  pub output_tokens : ℕ
  pub recalled_memory_ids : List String
  pub reasoning : List (ℕ × String)

-- the variables of the loop
pub record Session : Type 0 where
  pub messages : List ChatMessage
  pub turns : List AgentTurn
  pub used : List String
  pub thought : List (ℕ × String)
  pub input_tokens : ℕ
  pub output_tokens : ℕ
  pub events : List String

abbrev pub user_message : String → ChatMessage
user_message content = record {
  role = Role.user;
  content = content;
  tool_calls = [];
  tool_call_id = none;
  name = none;
}

-- `{skill.name: skill for skill in skills}`
unfoldable pub named_skills : List SkillDefinition → List (String × SkillDefinition)
named_skills skills = foldl (λ d (s : SkillDefinition). insert d s.name s) [] skills

unfoldable pub emit_event : AgentRunContext → String → Session → Session
emit_event context event s =
    if context.emit then record s { events = s.events ++ event ∷ [] } else s

-- the limit of a turn's text and of a result's output
unfoldable pub is_short : String → Bool
is_short s = take_text 100000 s == s

module _ {U : Type 0} (W : World U) where
  -- what is said of a skill that is not there
  abbrev pub unknown_skill : ToolCall → List (String × SkillDefinition) → String
  unknown_skill call by_name = append "No skill named '" (
      append call.skill_name
        (append "'. Available: " (W.shown (map (λ (p : String × SkillDefinition). p.0) by_name))))

  abbrev pub result_with : ToolCall → String → String → Bool → ToolResult
  result_with call name output is_error = record {
    call_id = call.id;
    skill_name = name;
    output = W.strip output;
    is_error = is_error;
  }

  abbrev pub is_call : ToolCall → Bool
  is_call call = not (W.strip call.id == "") && not (W.strip call.skill_name == "")

  abbrev pub stripped : ToolCall → ToolCall
  stripped call = record call { id = W.strip call.id; skill_name = W.strip call.skill_name }

  -- `ToolCall(…)` of each call that the model asks for
  unfoldable pub calls_of : List ToolCall → Result AgentError (List ToolCall)
  calls_of [] = ok []
  calls_of (call ∷ calls) =
      let rest = calls_of calls in
      if is_call call
      then (do others ← rest; ok (stripped call ∷ others))
      else err AgentError.invalid_turn

  -- `ToolResult(…)`; the ids and names of calls and skills are not blank, by their own contracts
  unfoldable pub tool_result : ToolCall → String → String → Bool → Result AgentError ToolResult
  tool_result call name output is_error =
      if is_short (W.strip output)
      then ok (result_with call name output is_error)
      else err AgentError.invalid_turn

  -- `_invoke`
  unfoldable pub invoke :
      List ToolCall
      → List (String × SkillDefinition)
      → AgentRunContext
      → Session
      → Result AgentError (List ToolResult × Session)
  invoke [] by_name context s = ok ([], s)
  invoke (call ∷ calls) by_name context s = elim (lookup by_name call.skill_name) [
    | none ↦ (do
      result ← tool_result call call.skill_name (unknown_skill call by_name) true
      (results, s') ← invoke calls by_name context s
      ok (result ∷ results, s'))
    | some skill ↦ elim (W.execute (length s.used) skill call.arguments) [
      | none ↦ err AgentError.broken
      | some outcome ↦ (do
        result ← tool_result call skill.name outcome.output outcome.is_error
        (results, s') ←
            invoke calls by_name context (
              emit_event context "agent.skill_used" (record s { used = s.used ++ skill.name ∷ [] }))
        ok (result ∷ results, s'))
    ]
  ]

  abbrev pub tool_message : ToolResult → ChatMessage
  tool_message outcome = record {
    role = Role.tool;
    content = outcome.output;
    tool_calls = [];
    tool_call_id = some outcome.call_id;
    name = some outcome.skill_name;
  }

  -- the tokens and the reasoning of a completion are noted
  unfoldable pub noted : AgentRunContext → ℕ → Completion → Session → Session
  noted context iteration c s =
      let s' = record s {
        input_tokens = s.input_tokens + c.input_tokens;
        output_tokens = s.output_tokens + c.output_tokens;
      } in
      if c.reasoning == ""
      then s'
      else emit_event context "agent.reasoned"
          (record s' { thought = s'.thought ++ (iteration, c.reasoning) ∷ [] })

  abbrev pub turn_with : ℕ → Completion → List ToolCall → List ToolResult → AgentTurn
  turn_with iteration c calls results = record {
    iteration = iteration;
    text = W.strip c.text;
    tool_calls = calls;
    tool_results = results;
    input_tokens = c.input_tokens;
    output_tokens = c.output_tokens;
  }

  -- `AgentTurn(…)`
  unfoldable pub turn_of :
      ℕ → Completion → List ToolCall → List ToolResult → Result AgentError AgentTurn
  turn_of iteration c calls results =
      if is_short (W.strip c.text)
      then ok (turn_with iteration c calls results)
      else err AgentError.invalid_turn

  -- a turn with calls: they are made, and the model is told of them
  unfoldable pub act :
      ℕ
      → Completion
      → List (String × SkillDefinition)
      → AgentRunContext
      → Session
      → Result AgentError Session
  act iteration c by_name context s = do
    calls ← calls_of c.tool_calls
    (results, s') ← invoke calls by_name context s
    turn ← turn_of iteration c calls results
    ok (record s' {
      turns = s'.turns ++ turn ∷ [];
      messages =
          s'.messages
          ++ record {
            role = Role.assistant;
            content = c.text;
            tool_calls = c.tool_calls;
            tool_call_id = none;
            name = none;
          }
            ∷ map tool_message results;
    })

  -- the loop with so many iterations left: the answer, if the objective was met
  unfoldable pub think_and_act :
      ℕ
      → ℕ
      → String
      → List SkillDefinition
      → AgentRunContext
      → Session
      → Result AgentError (Option String × Session)
  think_and_act zero iteration system skills context s = ok (none, s)
  think_and_act (suc n) iteration system skills context s =
      let asked = emit_event context "agent.thinking" s in
      elim (W.converse iteration asked.messages system skills) [
        | Reply.declined ↦ err AgentError.model_declined
        | Reply.unreachable ↦ err AgentError.model_unreachable
        | Reply.broke ↦ err AgentError.broken
        | Reply.answered c ↦
            let heard = noted context iteration c asked in
            elim c.tool_calls [
              | [] ↦ (do
                turn ← turn_of iteration c [] []
                ok (some c.text, record heard { turns = heard.turns ++ turn ∷ [] }))
              | _ ∷ _ ↦ (do
                acted ← act iteration c (named_skills skills) context heard
                think_and_act n (suc iteration) system skills context acted)
            ]
      ]

  abbrev pub closing_request : String
  closing_request =
      "You have no further tool calls available. Give your best answer from what you have gathered, and state plainly what is still missing."

  abbrev fallback_answer : String
  fallback_answer = "The agent ran out of iterations before reaching a conclusion."

  -- `_final_answer`
  unfoldable pub final_answer :
      AgentDefinition → String → AgentRunContext → Session → Result AgentError (String × Session)
  final_answer agent system context s =
      let s' = emit_event context "agent.budget_exhausted" s in
      let said =
        join "\n\n" (keep (λ t. not (t == "")) (map (λ (t : AgentTurn). t.text) s'.turns)) in
      let best = if said == "" then fallback_answer else said in
      elim (W.converse (suc agent.max_iterations) (s'.messages ++ user_message closing_request ∷ [])
        system []) [
          | Reply.answered c ↦ ok (c.text, s')
          | Reply.declined ↦ ok (best, s')
          | Reply.unreachable ↦ ok (best, s')
          | Reply.broke ↦ err AgentError.broken
        ]
