-- ===== src/Contracts/Job/Transitions.antt =====
-- What a validated job may say (packages/cwap_contracts/v2/job.py).
use ae_cwap.Prelude.{
  ◌⊎◌, ◌≤◌, Option-cases, inr, inl, ◌↔◌, Bool-cases, ◌≡◌, refl, ok, true, false, some, none, String,
  arith, ◌≢◌, eq_iff,
}
use ae_cwap.Contracts.Graph.{NodeType}
use ae_cwap.Contracts.Job.{
  fields_present, ServiceName, WorkflowJobPayload, NextStepDefinition, validate_job,
  validate_next_step, is_terminal_state, is_terminal, service_for, result_state,
}

-- A step that passes validation: an end with no node, or a service that runs the node it names.
pub data IsStep : NextStepDefinition → Type 0 where
  last :
      {n : NextStepDefinition}
      → n.terminal ≡ true
      → n.target_service ≡ ServiceName.terminal
      → n.target_node_id ≡ none
      → IsStep n
  next :
      {n : NextStepDefinition} (id : String)
      → n.terminal ≡ false
      → is_terminal n.target_service ≡ false
      → n.target_node_id ≡ some id
      → id ≢ ""
      → IsStep n

IsStep-of_valid : (n : NextStepDefinition) → validate_next_step n ≡ ok tt → IsStep n
unfolding validate_next_step
IsStep-of_valid n h = elim (Bool-cases n.terminal) [
  | inl e ↦ last e (ground arith) (ground arith)
  | inr e ↦ elim (Option-cases n.target_node_id) [
    | inl o ↦ absurd (ground arith)
    | inr (id, o) ↦ next id e (ground arith) o (λ z. ground (arith, eq_iff id ""))
  ]
]

valid_of_step : (n : NextStepDefinition) → IsStep n → validate_next_step n ≡ ok tt
unfolding validate_next_step
valid_of_step n (last e s o) = ground arith
valid_of_step n (next id e s o z) = ground (arith, eq_iff id "")

-- The validator accepts exactly the steps that end the path with the terminal service and no node,
-- and those that name a node, by an id that is not empty, and a service that runs nodes.
pub validate_next_step_iff : (n : NextStepDefinition) → (validate_next_step n ≡ ok tt) ↔ IsStep n
validate_next_step_iff n = (IsStep-of_valid n, valid_of_step n)

-- A job whose ids are filled in, with a step that may follow its state.
pub record IsJob (p : WorkflowJobPayload) : Type 0 where
  pub filled : fields_present p ≡ true
  pub counted : 1 ≤ p.attempt
  pub step : IsStep p.next_step_definition
  pub legal : (is_terminal_state p.current_state ≡ false) ⊎ (p.next_step_definition.terminal ≡ true)

step_end :
    (n : NextStepDefinition)
    → validate_next_step n ≡ ok tt
    → n.terminal ≡ is_terminal n.target_service
unfolding validate_next_step
step_end n h = ground arith

-- A job passes validation exactly if its ids are not empty, its attempt is at least 1, its step is
-- one that passes, and after a terminal state the step ends the path.
pub validate_job_iff : (p : WorkflowJobPayload) → (validate_job p ≡ ok tt) ↔ IsJob p
validate_job_iff p = (sound, complete)
  where
    sound : validate_job p ≡ ok tt → IsJob p
    sound h =
        let step : validate_next_step p.next_step_definition ≡ ok tt =
          unfold validate_job in ground arith in
        record {
          filled = unfold validate_job in ground arith;
          counted = unfold validate_job in ground arith;
          step = IsStep-of_valid p.next_step_definition step;
          legal = unfold validate_job in ground (arith, step_end p.next_step_definition step);
        }

    complete : IsJob p → validate_job p ≡ ok tt
    complete j =
        let step = valid_of_step p.next_step_definition j.step in
        unfold validate_job in
        ground (arith, j.filled, j.counted, step, j.legal, step_end p.next_step_definition step)

pub service_for_dispatchable : (t : NodeType) → is_terminal (service_for t) ≡ false
unfolding service_for
service_for_dispatchable NodeType.input = refl
service_for_dispatchable _ = refl

-- Only an output leaves a run in a state after which nothing may be dispatched.
pub result_state_terminal :
    (t : NodeType) → is_terminal_state (result_state t) ≡ true → t ≡ NodeType.output
unfolding result_state
result_state_terminal NodeType.input h = cc
result_state_terminal NodeType.output h = refl
result_state_terminal _ h = cc

-- a job whose fields are present names a node by an id that is not empty
pub node_id_present : (p : WorkflowJobPayload) → fields_present p ≡ true → p.node_id ≢ ""
unfolding fields_present
node_id_present p h e = ground (arith, eq_iff p.node_id "")
