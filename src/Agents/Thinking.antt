-- ===== src/Agents/Thinking.antt =====
-- The loop of `run_agent` of services/agents/runtime.py.
use ae_cwap.Agents.Turns.{
  IsWorking, heard_of, nothing-IsAfter, heard_of-IsHeard, silent_turn, act_lem,
}
use ae_cwap.Agents.Dialogue.{Ended, spent, met, acted, IsAfter}
use ae_cwap.Agents.{
  World, Reply, AgentRunContext, Session, AgentTurn, ToolCall, SkillDefinition, Completion,
  emit_event, think_and_act, named_skills, turn_of, act, is_short, turn_with,
}
use ae_cwap.Prelude.{
  ◌≡◌, List, ℕ, String, ◌∷◌, ◌++◌, Option, zero, none, [], inl, some, arith, true, suc, inr, length,
  ◌∙◌, ap, refl, ok, List-cases,
}

module _ {U : Type 0} (W : World U) (system : String) (skills : List SkillDefinition)
    (context : AgentRunContext) where
  answers :
      (n k : ℕ) (s : Session) (c : Completion)
      → W.converse k (emit_event context "agent.thinking" s).messages system skills
        ≡ Reply.answered c
      → c.tool_calls ≡ []
      → is_short (W.strip c.text) ≡ true
      → let heard = heard_of W context k c s in
        think_and_act W (suc n) k system skills context s
        ≡ ok (some c.text, record heard { turns = heard.turns ++ turn_with W k c [] [] ∷ [] })
  unfolding think_and_act turn_of
  answers n k s c r q b = ground (arith, r, q, b)

  goes_on :
      (n k : ℕ) (s s1 : Session) (c : Completion) (first : ToolCall) (rest : List ToolCall)
      → W.converse k (emit_event context "agent.thinking" s).messages system skills
        ≡ Reply.answered c
      → c.tool_calls ≡ first ∷ rest
      → act W k c (named_skills skills) context (heard_of W context k c s) ≡ ok s1
      → think_and_act W (suc n) k system skills context s
        ≡ think_and_act W n (suc k) system skills context s1
  unfolding think_and_act
  goes_on n k s s1 c first rest r q a = ground (arith, r, q, a)

  -- where the model and the skills work, the loop ends
  pub think_and_act_lem :
      (n k : ℕ) (s : Session)
      → IsWorking W (named_skills skills)
      → (answer : Option String) × (turns : List AgentTurn) × (s' : Session) × (think_and_act W n k
            system skills context s
          ≡ ok (answer, s'))
        × Ended W.strip (named_skills skills) n k answer turns
        × IsAfter (named_skills skills) s turns s'
  unfolding think_and_act
  think_and_act_lem zero k s w =
      (none, [], s, refl, spent, nothing-IsAfter W (named_skills skills) s)
  think_and_act_lem (suc n) k s w =
      let (c, r, b, valid) =
        w.answers k (emit_event context "agent.thinking" s).messages system skills in
      let by_name = named_skills skills in
      let heard = heard_of W context k c s in
      let h = heard_of-IsHeard W context k c s in
      elim (List-cases c.tool_calls) [
        | inl q ↦ (
          some c.text,
          turn_with W k c [] [] ∷ [],
          record heard { turns = heard.turns ++ turn_with W k c [] [] ∷ [] },
          answers n k s c r q b,
          met refl refl refl,
          silent_turn W by_name k c s heard h,
        )
        | inr (first, rest, q) ↦
            let (t, s1, e1, i, l, a1, after) = act_lem W by_name context k c s heard w b valid h in
            let (answer, turns, s2, e, d, a) = think_and_act_lem n (suc k) s1 w in
            (
              answer,
              t ∷ turns,
              s2,
              goes_on n k s s1 c first rest r q e1 ∙ e,
              acted i (omega (arith, l, ap (λ x. length x) q)) a1 d,
              after turns s2 a,
            )
      ]
