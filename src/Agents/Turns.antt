-- ===== src/Agents/Turns.antt =====
-- One turn of the loop of services/agents/runtime.py: `_invoke` and what the loop notes of it.
use ae_cwap.Agents.Dialogue.{IsAnswered, found_in, found_in_turns, IsAfter, emit-IsSame}
use ae_cwap.Agents.{
  World, Reply, AgentRunContext, invoke, Session, AgentTurn, ToolCall, SkillDefinition, Completion,
  emit_event, noted, ToolResult, ChatMessage, turn_of, act, Role, tool_result, calls_of, is_short,
  turn_with, unknown_skill, is_call, stripped, result_with, Fields, tool_message, SkillOutcome,
}
use ae_cwap.Prelude.{
  ◌≡◌, List, ℕ, String, ◌∷◌, lookup, Bool-cases, ◌+◌, ◌++◌, none, sym, [], inl, ◌==◌, some,
  append-nil, arith, true, Option-cases, inr, length, ◌∙◌, ap, append_assoc, refl, ok, All, Bool,
  map,
}

module _ {U : Type 0} (W : World U) where
  noted_lem :
      (context : AgentRunContext) (k : ℕ) (c : Completion) (s : Session)
      → let s' = noted W context k c s in
        (s'.turns ≡ s.turns)
        × (s'.used ≡ s.used)
        × (s'.input_tokens ≡ s.input_tokens + c.input_tokens)
        × (s'.output_tokens ≡ s.output_tokens + c.output_tokens)
  unfolding noted emit_event
  noted_lem context k c s = elim (Bool-cases (c.reasoning == "")) [
    | inl b ↦ ground (arith, b)
    | inr b ↦ elim (Bool-cases context.emit) [
      | inl e ↦ ground (arith, b, e)
      | inr e ↦ ground (arith, b, e)
    ]
  ]

  -- A model that always answers, with a text within the limit and calls that are valid, and skills
  -- that always return an outcome within the limit; also what is said of a skill that is not there
  -- has to be within it.
  pub record IsWorking (by_name : List (String × SkillDefinition)) : Type 0 where
    pub answers :
        (i : ℕ) (ms : List ChatMessage) (sys : String) (ts : List SkillDefinition)
        → (c : Completion) × (W.converse i ms sys ts ≡ Reply.answered c)
          × (is_short (W.strip c.text) ≡ true)
          × All
              (λ call.
                (is_call W call ≡ true)
                × (is_short (W.strip (unknown_skill W (stripped W call) by_name)) ≡ true))
              c.tool_calls
    pub returns :
        (n : ℕ) (skill : SkillDefinition) (arguments : Fields)
        → (outcome : SkillOutcome) × (W.execute n skill arguments ≡ some outcome)
          × (is_short (W.strip outcome.output) ≡ true)

  calls_of_lem :
      (by_name : List (String × SkillDefinition)) (calls : List ToolCall)
      → All
          (λ call.
            (is_call W call ≡ true)
            × (is_short (W.strip (unknown_skill W (stripped W call) by_name)) ≡ true))
          calls
      → (cs : List ToolCall) × (calls_of W calls ≡ ok cs)
        × (length cs ≡ length calls)
        × All (λ call. is_short (W.strip (unknown_skill W call by_name)) ≡ true) cs
  unfolding calls_of
  calls_of_lem by_name [] h = ([], refl, refl, tt)
  calls_of_lem by_name (call ∷ calls) h =
      let (cs, e, l, a) = calls_of_lem by_name calls h.1 in
      (stripped W call ∷ cs, rw (h.0.0) (rw e refl), omega (arith, l), (h.0.1, a))

  result_ok :
      (call : ToolCall) (name output : String) (is_error : Bool)
      → is_short (W.strip output) ≡ true
      → tool_result W call name output is_error ≡ ok (result_with W call name output is_error)
  unfolding tool_result
  result_ok call name output is_error h = rw h refl

  invoke_lem :
      (by_name : List (String × SkillDefinition)) (calls : List ToolCall)
      (context : AgentRunContext) (s : Session)
      → IsWorking by_name
      → All (λ call. is_short (W.strip (unknown_skill W call by_name)) ≡ true) calls
      → (results : List ToolResult) × (s' : Session) × (invoke W calls by_name context s
          ≡ ok (results, s'))
        × IsAnswered by_name calls results
        × (s'.turns ≡ s.turns)
        × (s'.used ≡ s.used ++ found_in by_name calls)
        × (s'.input_tokens ≡ s.input_tokens)
        × (s'.output_tokens ≡ s.output_tokens)
  unfolding invoke
  invoke_lem by_name [] context s w h = ([], s, refl, tt, refl, sym (append-nil s.used), refl, refl)
  invoke_lem by_name (c ∷ calls) context s w h = elim (Option-cases (lookup by_name c.skill_name)) [
    | inl n ↦
        let (results, s', e, a, t, u, i, o) = invoke_lem by_name calls context s w h.1 in
        (
          result_with W c c.skill_name (unknown_skill W c by_name) true ∷ results,
          s',
          ground (arith, n, result_ok c c.skill_name (unknown_skill W c by_name) true h.0, e),
          (refl, rw n (refl, refl), a),
          t,
          rw (n, found_in) u,
          i,
          o,
        )
    | inr (skill, n) ↦
        let (outcome, x, y) = w.returns (length s.used) skill c.arguments in
        let s1 : Session = record s { used = s.used ++ skill.name ∷ [] } in
        let (t1, u1, i1, o1) = emit-IsSame context "agent.skill_used" s1 in
        let (results, s', e, a, t, u, i, o) =
          invoke_lem by_name calls context (emit_event context "agent.skill_used" s1) w h.1 in
        (
          result_with W c skill.name outcome.output outcome.is_error ∷ results,
          s',
          ground (arith, n, x, result_ok c skill.name outcome.output outcome.is_error y, e),
          (refl, rw n refl, a),
          t ∙ t1,
          rw (n, found_in)
              (u
                ∙ ap (λ l. l ++ found_in by_name calls) u1
                ∙ append_assoc s.used (skill.name ∷ []) (found_in by_name calls)),
          i ∙ i1,
          o ∙ o1,
        )
  ]

  turn-IsAfter :
      (by_name : List (String × SkillDefinition)) (s s1 s2 : Session) (t : AgentTurn)
      (turns : List AgentTurn)
      → s1.turns ≡ s.turns ++ t ∷ []
      → s1.used ≡ s.used ++ found_in by_name t.tool_calls
      → s1.input_tokens ≡ s.input_tokens + t.input_tokens
      → s1.output_tokens ≡ s.output_tokens + t.output_tokens
      → IsAfter by_name s1 turns s2
      → IsAfter by_name s (t ∷ turns) s2
  turn-IsAfter by_name s s1 s2 t turns a b c d h = record {
    turns_eq = h.turns_eq ∙ ap (λ l. l ++ turns) a ∙ append_assoc s.turns (t ∷ []) turns;
    used_eq =
        h.used_eq
        ∙ ap (λ l. l ++ found_in_turns by_name turns) b
        ∙ append_assoc s.used (found_in by_name t.tool_calls) (found_in_turns by_name turns);
    input_eq = omega (arith, h.input_eq, c);
    output_eq = omega (arith, h.output_eq, d);
  }

  pub nothing-IsAfter :
      (by_name : List (String × SkillDefinition)) (s : Session) → IsAfter by_name s [] s
  nothing-IsAfter by_name s = record {
    turns_eq = sym (append-nil s.turns);
    used_eq = sym (append-nil s.used);
    input_eq = omega arith;
    output_eq = omega arith;
  }

  abbrev pub heard_of : AgentRunContext → ℕ → Completion → Session → Session
  heard_of context k c s = noted W context k c (emit_event context "agent.thinking" s)

  abbrev IsHeard : Completion → Session → Session → Type 0
  IsHeard c s heard =
      (heard.turns ≡ s.turns)
      × (heard.used ≡ s.used)
      × (heard.input_tokens ≡ s.input_tokens + c.input_tokens)
      × (heard.output_tokens ≡ s.output_tokens + c.output_tokens)

  pub heard_of-IsHeard :
      (context : AgentRunContext) (k : ℕ) (c : Completion) (s : Session)
      → IsHeard c s (heard_of context k c s)
  heard_of-IsHeard context k c s =
      let (t0, u0, i0, o0) = emit-IsSame context "agent.thinking" s in
      let (t1, u1, i1, o1) = noted_lem context k c (emit_event context "agent.thinking" s) in
      (t1 ∙ t0, u1 ∙ u0, omega (arith, i1, i0), omega (arith, o1, o0))

  pub silent_turn :
      (by_name : List (String × SkillDefinition)) (k : ℕ) (c : Completion) (s heard : Session)
      → IsHeard c s heard
      → IsAfter by_name s
          (turn_with W k c [] [] ∷ [])
          (record heard { turns = heard.turns ++ turn_with W k c [] [] ∷ [] })
  silent_turn by_name k c s heard (t, u, i, o) =
      let t0 = turn_with W k c [] [] in
      let s' : Session = record heard { turns = heard.turns ++ t0 ∷ [] } in
      turn-IsAfter by_name s s' s' t0 [] (ap (λ l. l ++ t0 ∷ []) t) (u ∙ sym (append-nil s.used)) i
        o (nothing-IsAfter by_name s')

  -- a turn with calls, as the loop leaves it
  pub act_lem :
      (by_name : List (String × SkillDefinition)) (context : AgentRunContext) (k : ℕ)
      (c : Completion) (s heard : Session)
      → IsWorking by_name
      → is_short (W.strip c.text) ≡ true
      → All
          (λ call.
            (is_call W call ≡ true)
            × (is_short (W.strip (unknown_skill W (stripped W call) by_name)) ≡ true))
          c.tool_calls
      → IsHeard c s heard
      → (t : AgentTurn) × (s1 : Session) × (act W k c by_name context heard ≡ ok s1)
        × (t.iteration ≡ k)
        × (length t.tool_calls ≡ length c.tool_calls)
        × IsAnswered by_name t.tool_calls t.tool_results
        × ((turns : List AgentTurn) (s2 : Session)
            → IsAfter by_name s1 turns s2
            → IsAfter by_name s (t ∷ turns) s2)
  unfolding act turn_of
  act_lem by_name context k c s heard w b h (t, u, i, o) =
      let (cs, e, l, f) = calls_of_lem by_name c.tool_calls h in
      let (results, s', r, a, t1, u1, i1, o1) = invoke_lem by_name cs context heard w f in
      let turn = turn_with W k c cs results in
      let s1 : Session = record s' {
        turns = s'.turns ++ turn ∷ [];
        messages =
            s'.messages
            ++ record {
              role = Role.assistant;
              content = c.text;
              tool_calls = c.tool_calls;
              tool_call_id = none;
              name = none;
            }
              ∷ map (tool_message W) results;
      } in
      (
        turn,
        s1,
        rw e (rw r (rw b refl)),
        refl,
        l,
        a,
        λ turns s2 m.
            turn-IsAfter by_name s s1 s2 turn turns (ap (λ x. x ++ turn ∷ []) (t1 ∙ t))
              (u1 ∙ ap (λ x. x ++ found_in by_name cs) u) (i1 ∙ i) (o1 ∙ o) m,
      )
