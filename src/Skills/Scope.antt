-- ===== src/Skills/Scope.antt =====
-- What a skill of services/skills/execution.py does outside when its run has no write scope.
use ae_cwap.Common.Ledger.{Key}
use ae_cwap.Skills.Calling.{
  run_http, tool_call, run_mcp, run_steps, tool_use, tool_key, is_unavailable, dispatch_skill,
  execute_skill, run_kind, steps_of, counted,
}
use ae_cwap.Skills.{SkillDefinition, SkillKind, SkillOutcome, find_by_name, Fields}
use ae_cwap.Orchestrator.Egress.{Web}
use ae_cwap.Skills.Execution.{
  SkillError, Runaway, Outer, SkillContext, SkillState, ToolUse, values_of, has_required,
}
use ae_cwap.Value.{text}
use ae_cwap.Value.Dict.{put}
use ae_cwap.Prelude.{
  ◌≡◌, false, Result, List, ◌∙◌, err, keep, arith, ok, not, String, true, ◌∷◌, [], refl, Bool,
  Option-cases, ◌++◌, inl, Bool-cases, keep-append, inr, ◌==◌, append-nil, Result-cases, subst,
  length, sym, ℕ, List-cases, suc, zero,
}

-- the calls of tools that may change something
abbrev pub write_uses : SkillState → List ToolUse
write_uses s = keep (λ (u : ToolUse). not u.read_only) s.tool_uses

-- the state that was reached, also where the depth ran out
abbrev pub state_after : {A : Type 0} → Result Runaway (A × SkillState) → SkillState
state_after (err (Runaway.too_deep s)) = s
state_after (err (Runaway.not_iterable s)) = s
state_after (ok (a, s)) = s

abbrev IsQuiet : SkillState → SkillState → Type 0
IsQuiet s s' = (s'.sent ≡ s.sent) × (write_uses s' ≡ write_uses s)

IsQuiet-trans : (a b c : SkillState) → IsQuiet a b → IsQuiet b c → IsQuiet a c
IsQuiet-trans a b c (p, q) (r, s) = (r ∙ p, s ∙ q)

-- a run that ends where it began
stays :
    {A : Type 0} (s : SkillState) (run : Result Runaway (A × SkillState)) (a : A)
    → run ≡ ok (a, s)
    → IsQuiet s (state_after run)
stays s run a q = subst (λ x. IsQuiet s (state_after x)) (sym q) (refl, refl)

module _ (W : Web) (X : Outer) (context : SkillContext)
    (no_scope : context.allow_side_effects ≡ false) where
  run_http_quiet :
      (skill : SkillDefinition) (values : Fields) (s : SkillState)
      → (run_http W X context skill values s).1 ≡ s
  unfolding run_http
  run_http_quiet skill values s = ground (arith, no_scope)

  tool_call-IsQuiet :
      (key : Key) (u : ToolUse) (s : SkillState)
      → u.read_only ≡ true
      → IsQuiet s (tool_call W X context key u s).1
  unfolding tool_call
  tool_call-IsQuiet key u s r =
      let test : ToolUse → Bool = λ x. not x.read_only in
      let same : keep test (s.tool_uses ++ u ∷ []) ≡ keep test s.tool_uses =
        keep-append test s.tool_uses (u ∷ []) ∙ rw r (append-nil (keep test s.tool_uses)) in
      elim (Result-cases (X.call_tool (length s.tool_uses) u)) [
        | inl (e, q) ↦ rw (tool_call, q) (refl, same)
        | inr (o, q) ↦ rw (tool_call, q) (refl, same)
      ]

  run_mcp-IsQuiet :
      (skill : SkillDefinition) (arguments : Fields) (s : SkillState)
      → IsQuiet s (run_mcp W X context skill arguments s).1
  unfolding run_mcp
  run_mcp-IsQuiet skill arguments s =
      let u = tool_use W X context skill arguments in
      let key = tool_key W X context u in
      elim (Bool-cases (is_unavailable W X context skill)) [
        | inl a ↦ rw a (refl, refl)
        | inr a ↦ elim (Bool-cases u.read_only) [
          | inr r ↦ rw a (rw r (rw no_scope (refl, refl)))
          | inl r ↦ elim (Option-cases (X.get_server context.tenant_id u.server_id)) [
            | inl g ↦ ground (arith, a, r, g)
            | inr (server, g) ↦ elim (Bool-cases server.enabled) [
              | inr b ↦ ground (arith, a, r, g, b)
              | inl b ↦
                  let e : (run_mcp W X context skill arguments s).1
                      ≡ (tool_call W X context key u s).1 =
                    ground (arith, a, r, g, b) in
                  subst (λ x. IsQuiet s x) (sym e) (tool_call-IsQuiet key u s r)
            ]
          ]
        ]
      ]

  module _
      (call : SkillDefinition → Fields → SkillState → Result Runaway (SkillOutcome × SkillState))
      (quiet : (skill : SkillDefinition) (arguments : Fields) (s : SkillState)
        → IsQuiet s (state_after (call skill arguments s))) where
    run_steps-IsQuiet :
        (skill : SkillDefinition) (names : List String) (carried : Fields) (output : String)
        (s : SkillState)
        → IsQuiet s (state_after (run_steps W X context call skill names carried output s))
    unfolding run_steps
    run_steps-IsQuiet skill [] carried output s = (refl, refl)
    run_steps-IsQuiet skill (name ∷ names) carried output s =
        let run = run_steps W X context call skill (name ∷ names) carried output s in
        elim (Option-cases (find_by_name s.skills skill.tenant_id name)) [
          | inl f ↦ stays s run (err SkillError.unknown_step) (ground (arith, f))
          | inr (child, f) ↦ elim (Bool-cases (child.id == skill.id)) [
            | inl b ↦ stays s run (err SkillError.own_step) (ground (arith, f, b))
            | inr b ↦
                let arguments = values_of W X context child.parameters carried (text output) in
                let h = quiet child arguments s in
                elim (Result-cases (call child arguments s)) [
                  | inl (e, c) ↦
                      let q : run ≡ err e = ground (arith, f, b, c) in
                      subst (λ x. IsQuiet s (state_after x)) (sym q)
                        (subst (λ x. IsQuiet s (state_after x)) c h)
                  | inr (done, c) ↦
                      let h' : IsQuiet s done.1 = subst (λ x. IsQuiet s (state_after x)) c h in
                      elim (Bool-cases done.0.is_error) [
                        | inl d ↦
                            let q : run ≡ ok (err SkillError.step_failed, done.1) =
                              ground (arith, f, b, c, d) in
                            subst (λ x. IsQuiet s (state_after x)) (sym q) h'
                        | inr d ↦
                            let carried' = put carried "previous" (text done.0.output) in
                            let rest =
                              run_steps W X context call skill names carried' done.0.output
                                done.1 in
                            let q : run ≡ rest = ground (arith, f, b, c, d) in
                            subst (λ x. IsQuiet s (state_after x)) (sym q)
                              (IsQuiet-trans s done.1 (state_after rest) h'
                                (run_steps-IsQuiet skill names carried' done.0.output done.1))
                      ]
                ]
          ]
        ]

    run_kind-IsQuiet :
        (kind : SkillKind) (skill : SkillDefinition) (arguments : Fields) (s : SkillState)
        → IsQuiet s (state_after (run_kind W X context call kind skill arguments s))
    unfolding run_kind
    run_kind-IsQuiet SkillKind.transform skill arguments s = (refl, refl)
    run_kind-IsQuiet SkillKind.prompt skill arguments s = (refl, refl)
    run_kind-IsQuiet SkillKind.retrieval skill arguments s = (refl, refl)
    run_kind-IsQuiet SkillKind.http skill arguments s =
        subst (λ x. IsQuiet s x)
          (sym
            (run_http_quiet skill (values_of W X context skill.parameters arguments (text "")) s))
          (refl, refl)
    run_kind-IsQuiet SkillKind.mcp skill arguments s = run_mcp-IsQuiet skill arguments s
    run_kind-IsQuiet SkillKind.composite skill arguments s =
        elim (Option-cases (steps_of W X context skill)) [
          | inl q ↦
              let e : run_kind W X context call SkillKind.composite skill arguments s
                  ≡ err (Runaway.not_iterable s) =
                ground (arith, q) in
              subst (λ x. IsQuiet s (state_after x)) (sym e) (refl, refl)
          | inr (steps, f) ↦ elim (List-cases steps) [
            | inl q ↦
                stays s (run_kind W X context call SkillKind.composite skill arguments s)
                  (err SkillError.no_steps) (ground (arith, f, q))
            | inr (name, names, q) ↦
                let values = values_of W X context skill.parameters arguments (text "") in
                let e : run_kind W X context call SkillKind.composite skill arguments s
                    ≡ run_steps W X context call skill (name ∷ names) values "" s =
                  ground (arith, f, q) in
                subst (λ x. IsQuiet s (state_after x)) (sym e)
                  (run_steps-IsQuiet skill (name ∷ names) values "" s)
          ]
        ]

    dispatch-IsQuiet :
        (skill : SkillDefinition) (arguments : Fields) (s : SkillState)
        → IsQuiet s (state_after (dispatch_skill W X context call skill arguments s))
    unfolding dispatch_skill
    dispatch-IsQuiet skill arguments s =
        elim (Bool-cases (has_required W X context skill.parameters arguments)) [
          | inl b ↦
              let e : dispatch_skill W X context call skill arguments s
                  ≡ run_kind W X context call skill.kind skill arguments s =
                ground (arith, b) in
              subst (λ x. IsQuiet s (state_after x)) (sym e)
                (run_kind-IsQuiet skill.kind skill arguments s)
          | inr b ↦
              stays s (dispatch_skill W X context call skill arguments s)
                (err SkillError.missing_arguments) (ground (arith, b))
        ]

  counted-IsQuiet :
      (skill : SkillDefinition) (result : Result SkillError String) (s : SkillState)
      → IsQuiet s (counted W X context skill (result, s)).1
  counted-IsQuiet skill (ok output) s = (refl, refl)
  counted-IsQuiet skill (err e) s = (refl, refl)

  -- Where a run has no write scope: whatever skill of whatever kind is executed, with whatever
  -- arguments, composites at any depth and all their steps included, and also where the depth runs
  -- out, no HTTP request leaves, and no tool is called that is not marked as one that only reads.
  pub execute_skill_quiet :
      (depth : ℕ) (skill : SkillDefinition) (arguments : Fields) (s : SkillState)
      → let s' = state_after (execute_skill W X context depth skill arguments s) in
        (s'.sent ≡ s.sent) × (write_uses s' ≡ write_uses s)
  unfolding execute_skill
  execute_skill_quiet zero skill arguments s = (refl, refl)
  execute_skill_quiet (suc depth) skill arguments s =
      let inner = execute_skill W X context depth in
      let run = execute_skill W X context (suc depth) skill arguments s in
      let h = dispatch-IsQuiet inner (execute_skill_quiet depth) skill arguments s in
      elim (Result-cases (dispatch_skill W X context inner skill arguments s)) [
        | inl (e, c) ↦
            let q : run ≡ err e = ground (arith, c) in
            subst (λ x. IsQuiet s (state_after x)) (sym q)
              (subst (λ x. IsQuiet s (state_after x)) c h)
        | inr (done, c) ↦
            let q : run ≡ ok (counted W X context skill done) = ground (arith, c) in
            subst (λ x. IsQuiet s (state_after x)) (sym q)
              (IsQuiet-trans s done.1 (counted W X context skill done).1
                (subst (λ x. IsQuiet s (state_after x)) c h) (counted-IsQuiet skill done.0 done.1))
      ]
