-- ===== src/Orchestrator/Variables/Resolve.antt =====
-- What a binding resolves to (services/orchestrator/variables.py).
use ae_cwap.Prelude.{eq_iff, arith, refl, ◌∷◌, [], ◌≢◌, eq_self, lookup-insert, ◌≡◌, List, String}
use ae_cwap.Value.{Fields, obj}
use ae_cwap.Orchestrator.Variables.{
  RunContext, record_step, previous_output, dig, resolve_parts, run_reference, step_reference,
}

-- what `previous_output` is after a step
pub previous_output-record_step :
    (c : RunContext) (id : String) (output : Fields)
    → previous_output (record_step c id output) ≡ output
unfolding previous_output record_step
previous_output-record_step c id output = rw (lookup-insert c.steps id id output, eq_self)

-- After a step is recorded, `$output` and the `$steps` reference to that step both look into the
-- output that was recorded.
pub resolve_recorded :
    (c : RunContext) (id : String) (output : Fields) (key : String) (path : List String)
    → (resolve_parts ("output" ∷ key ∷ path) (record_step c id output)
        ≡ dig (obj output) (key ∷ path))
      × (resolve_parts ("steps" ∷ id ∷ key ∷ path) (record_step c id output)
          ≡ dig (obj output) (key ∷ path))
unfolding resolve_parts record_step
resolve_recorded c id output key path = (
  rw (previous_output-record_step c id output) refl,
  ground (arith, lookup-insert c.steps id id output, eq_self id),
)

-- Recording a step changes no `$run` reference, and no `$steps` reference to another step.
pub resolve_kept :
    (c : RunContext) (id : String) (output : Fields) (other : String) (path : List String)
    → id ≢ other
    → (resolve_parts ("run" ∷ path) (record_step c id output) ≡ resolve_parts ("run" ∷ path) c)
      × (resolve_parts ("steps" ∷ other ∷ path) (record_step c id output)
          ≡ resolve_parts ("steps" ∷ other ∷ path) c)
unfolding resolve_parts record_step
resolve_kept c id output other path n = (run_kept path, step_kept path)
  where
    run_kept : (p : List String) → run_reference p (record_step c id output) ≡ run_reference p c
    run_kept [] = refl
    run_kept (kind ∷ []) = refl
    run_kept (kind ∷ key ∷ p) = refl

    step_kept :
        (p : List String)
        → step_reference (other ∷ p) (record_step c id output) ≡ step_reference (other ∷ p) c
    step_kept [] = refl
    step_kept (key ∷ p) = ground (arith, lookup-insert c.steps id other output, eq_iff id other)
