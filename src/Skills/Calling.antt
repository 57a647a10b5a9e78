-- ===== src/Skills/Calling.antt =====
-- services/skills/execution.py: the kinds that act outside, composites, and `execute`.
use ae_cwap.Skills.{SkillDefinition, SkillKind, SkillOutcome, find_by_name, record_invocation}
use ae_cwap.Common.Ledger.{Key, pre_check, commit, abandon}
use ae_cwap.Orchestrator.Egress.{Web, assert_host_allowed}
use ae_cwap.Value.{Fields, Items, text, num, obj, arr, field, end, nil, cons, truthy, ℤ}
use ae_cwap.Value.Dict.{get, put}
use ae_cwap.Skills.Execution.{
  SkillError, Runaway, Outer, SkillContext, SkillState, ToolUse, max_skill_output_chars, text_at,
  values_of, skill_body, gate_key, rendered, has_required, run_prompt, prior_text, skill_request,
  skill_text, run_retrieval,
}
use ae_cwap.Prelude.{
  Bool, String, Result, List, ℕ, [], ok, err, if◌then◌else◌, not, ◌++◌, none, ◌&&◌, some, take_text,
  false, append, ◌∷◌, suc, length, ◌==◌, ◌>>=◌, true, zero, Option,
}

module _ (W : Web) (X : Outer) (context : SkillContext) where
  -- the http call itself, once the gate has let it through
  unfoldable pub skill_call :
      Key → SkillDefinition → String → Fields → SkillState → Result SkillError String × SkillState
  skill_call key skill url values state = elim (skill_body W X context skill values) [
    | none ↦ (err SkillError.binding_failed, state)
    | some body ↦
        let request = skill_request W X context skill url body in
        let sent = state.sent ++ request ∷ [] in
        elim (W.send (length state.sent) request) [
          | err reason ↦ (
            err SkillError.request_failed,
            record state { ledger = abandon key reason state.ledger; sent = sent },
          )
          | ok r ↦
              let shown = take_text max_skill_output_chars r.raw in
              (
                ok (append "HTTP " (append (W.digits r.status) (append "\n" shown))),
                record state {
                  ledger =
                      commit key
                        (field "status" (num (ℤ.pos r.status)) (field "body" (text shown) end)) none
                        state.ledger;
                  sent = sent;
                },
              )
        ]
  ]

  -- `_run_http`
  unfoldable pub run_http :
      SkillDefinition → Fields → SkillState → Result SkillError String × SkillState
  run_http skill values state =
      if not context.allow_side_effects
      then (err SkillError.no_write_scope, state)
      else elim (rendered W X context skill.definition "url" values) [
        | err e ↦ (err e, state)
        | ok url ↦ elim (assert_host_allowed W context.allowed_hosts url) [
          | err e ↦ (err SkillError.egress_denied, state)
          | ok _ ↦
              let key =
                gate_key W X context
                  (append "skill:" (append skill.name (append ":" (X.hash values)))) in
              let (ledger, claim) = pre_check key state.ledger in
              let claimed : SkillState = record state { ledger = ledger } in
              if claim.should_execute
              then skill_call key skill url values claimed
              else (ok (prior_text W X context claim "body"), claimed)
        ]
      ]

  unfoldable pub tool_use : SkillDefinition → Fields → ToolUse
  tool_use skill arguments = record {
    server_id = text_at W X context skill.definition "server_id";
    tool_name = text_at W X context skill.definition "tool_name";
    arguments = arguments;
    read_only = elim (get skill.definition "read_only") [ none ↦ false | some v ↦ truthy v ];
  }

  -- whether a call of a tool passes the gate
  abbrev pub is_gated : ToolUse → Bool
  is_gated u = not u.read_only && not (context.run_id == "")

  -- the tool call itself
  unfoldable pub tool_call : Key → ToolUse → SkillState → Result SkillError String × SkillState
  tool_call key u state =
      let uses = state.tool_uses ++ u ∷ [] in
      elim (X.call_tool (length state.tool_uses) u) [
        | err reason ↦ (
          err SkillError.tool_failed,
          record state {
            ledger = if is_gated u then abandon key reason state.ledger else state.ledger;
            tool_uses = uses;
          },
        )
        | ok output ↦ (
          ok (if output == "" then "(the tool returned nothing)" else output),
          record state {
            ledger =
                if is_gated u
                then commit key
                    (field "output" (text (take_text max_skill_output_chars output)) end) none
                    state.ledger
                else state.ledger;
            tool_uses = uses;
          },
        )
      ]

  unfoldable pub is_unavailable : SkillDefinition → Bool
  is_unavailable skill = elim (get skill.definition "unavailable") [
    | none ↦ false
    | some v ↦ truthy v
  ]

  -- the key under which a call of a tool is gated
  unfoldable pub tool_key : ToolUse → Key
  tool_key u = gate_key W X context (
      append "mcp:"
        (append u.server_id (append ":" (append u.tool_name (append ":" (X.digest u.arguments))))))

  -- `_run_mcp`
  unfoldable pub run_mcp :
      SkillDefinition → Fields → SkillState → Result SkillError String × SkillState
  run_mcp skill arguments state =
      let u = tool_use skill arguments in
      let key = tool_key u in
      let (ledger, claim) = pre_check key state.ledger in
      let claimed : SkillState = record state { ledger = ledger } in
      if is_unavailable skill
      then (err SkillError.tool_unavailable, state)
      else if not u.read_only && not context.allow_side_effects
      then (err SkillError.no_write_scope, state)
      else elim (X.get_server context.tenant_id u.server_id) [
        | none ↦ (err SkillError.server_gone, state)
        | some server ↦
            if not server.enabled
            then (err SkillError.server_off, state)
            else if not (is_gated u)
            then tool_call key u state
            else if claim.should_execute
            then tool_call key u claimed
            else (ok (prior_text W X context claim "output"), claimed)
      ]

  -- the names of a composite's steps
  abbrev pub step_names : Items → List String
  step_names nil = []
  step_names (cons (obj d) steps) = text_at W X context d "skill" ∷ step_names steps
  step_names (cons v steps) = skill_text W X context v ∷ step_names steps

  -- the characters of a text, and the keys of a dict, over which Python iterates as well
  abbrev letters : String → List String
  letters String.[] = []
  letters (String.◌∷◌ c s) = String.◌∷◌ c String.[] ∷ letters s

  abbrev keys : Fields → List String
  keys end = []
  keys (field k v d) = k ∷ keys d

  -- the steps by name, or none where they cannot be iterated over
  unfoldable pub steps_of : SkillDefinition → Option (List String)
  steps_of skill = elim (get skill.definition "steps") [
    | none ↦ some []
    | some v ↦
        if truthy v
        then elim v [
          | arr steps ↦ some (step_names steps)
          | text s ↦ some (letters s)
          | obj d ↦ some (keys d)
          | _ ↦ none
        ]
        else some []
  ]

  -- the loop of `_run_composite`, with the calls of other skills given
  unfoldable pub run_steps :
      (SkillDefinition → Fields → SkillState → Result Runaway (SkillOutcome × SkillState))
      → SkillDefinition
      → List String
      → Fields
      → String
      → SkillState
      → Result Runaway (Result SkillError String × SkillState)
  run_steps call skill [] carried output state = ok (ok output, state)
  run_steps call skill (name ∷ names) carried output state =
      elim (find_by_name state.skills skill.tenant_id name) [
        | none ↦ ok (err SkillError.unknown_step, state)
        | some child ↦
            if child.id == skill.id
            then ok (err SkillError.own_step, state)
            else call child (values_of W X context child.parameters carried (text output)) state
              >>= λ done.
                  if done.0.is_error
                  then ok (err SkillError.step_failed, done.1)
                  else run_steps call skill names (put carried "previous" (text done.0.output))
                      done.0.output done.1
      ]

  -- `_dispatch`, once the arguments are there
  unfoldable pub run_kind :
      (SkillDefinition → Fields → SkillState → Result Runaway (SkillOutcome × SkillState))
      → SkillKind
      → SkillDefinition
      → Fields
      → SkillState
      → Result Runaway (Result SkillError String × SkillState)
  run_kind call SkillKind.transform skill arguments state = ok (
    rendered W X context skill.definition "template"
        (values_of W X context skill.parameters arguments (text "")),
    state,
  )
  run_kind call SkillKind.prompt skill arguments state = ok (
    run_prompt W X context skill (values_of W X context skill.parameters arguments (text "")),
    state,
  )
  run_kind call SkillKind.retrieval skill arguments state = ok (
    run_retrieval W X context skill (values_of W X context skill.parameters arguments (text "")),
    state,
  )
  run_kind call SkillKind.http skill arguments state =
      ok (run_http skill (values_of W X context skill.parameters arguments (text "")) state)
  run_kind call SkillKind.mcp skill arguments state = ok (run_mcp skill arguments state)
  run_kind call SkillKind.composite skill arguments state = elim (steps_of skill) [
    | none ↦ err (Runaway.not_iterable state)
    | some [] ↦ ok (err SkillError.no_steps, state)
    | some (name ∷ names) ↦
        run_steps call skill (name ∷ names)
          (values_of W X context skill.parameters arguments (text "")) "" state
  ]

  unfoldable pub dispatch_skill :
      (SkillDefinition → Fields → SkillState → Result Runaway (SkillOutcome × SkillState))
      → SkillDefinition
      → Fields
      → SkillState
      → Result Runaway (Result SkillError String × SkillState)
  dispatch_skill call skill arguments state =
      if has_required W X context skill.parameters arguments
      then run_kind call skill.kind skill arguments state
      else ok (err SkillError.missing_arguments, state)

  -- `_truncate`
  abbrev pub truncated : String → String
  truncated s =
      if take_text max_skill_output_chars s == s
      then s
      else append (take_text max_skill_output_chars s) "\n\n[truncated at 20000 characters]"

  -- `execute`: the outcome, counted for the skill
  abbrev pub counted :
      SkillDefinition → Result SkillError String × SkillState → SkillOutcome × SkillState
  counted skill (result, state) = elim result [
    | ok output ↦ (
      record { output = truncated output; is_error = false },
      record state { skills = record_invocation state.skills skill.tenant_id skill.id false },
    )
    | err e ↦ (
      record { output = append skill.name (append " failed: " (X.message e)); is_error = true },
      record state { skills = record_invocation state.skills skill.tenant_id skill.id true },
    )
  ]

  unfoldable pub execute_skill :
      ℕ → SkillDefinition → Fields → SkillState → Result Runaway (SkillOutcome × SkillState)
  execute_skill zero skill arguments state = err (Runaway.too_deep state)
  execute_skill (suc depth) skill arguments state =
      dispatch_skill (execute_skill depth) skill arguments state >>= λ done. ok (counted skill done)
