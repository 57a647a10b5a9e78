-- ===== src/Orchestrator/Runner/Final.antt =====
-- The state of a run over the messages that the worker of services/orchestrator/runner.py handles.
use ae_cwap.Contracts.Graph.{WorkflowNode}
use ae_cwap.Contracts.Job.{WorkflowJobPayload}
use ae_cwap.Common.Tables.{select_one, update_where, select_one-update_where}
use ae_cwap.Common.Authz.{User}
use ae_cwap.Common.Gateway.{Codec, Settings, take_next}
use ae_cwap.Orchestrator.Variables.{RunContext}
use ae_cwap.Orchestrator.Branch.{Python, NodeExecutionError}
use ae_cwap.Orchestrator.Runs.{
  Run, is_over, World, ExecutionOutcome, is_run, is_open_run, load_run, failed_with, succeeded_with,
  progress,
}
use ae_cwap.Orchestrator.Runner.{then_do, process, poll, drain}
use ae_cwap.Orchestrator.Runner.Status.{IsKept, process_keeps, then_do_keeps}
use ae_cwap.Prelude.{
  ◌∙◌, sym, if◌then◌else◌, subst, Option-cases, inr, inl, ap, eq_iff, refl, ◌==◌, arith, ◌≤◌,
  Bool-cases, ◌≡◌, ℕ, zero, suc, String, Bool, true, false, some, List, [], ◌∷◌, Result, ok,
}

abbrev Finds : String → Run → List Run → Type 0
Finds id run rs = select_one (is_run id) rs ≡ some run

Finds-IsKept : (id : String) (run : Run) → is_over run.status ≡ true → IsKept (Finds id run)
Finds-IsKept id run o = record {
  failing = λ other reason rs h. ground (
    arith,
    o,
    h,
    select_one-update_where (is_run id) (is_open_run other) (failed_with reason) rs (λ r. refl),
  );
  succeeding = λ other result rs h. ground (
    arith,
    o,
    h,
    select_one-update_where (is_run id) (is_open_run other) (succeeded_with result) rs (λ r. refl),
  );
}

select_is_run : (id : String) (rs : List Run) (run : Run) → Finds id run rs → run.id ≡ id
unfolding select_one
select_is_run id [] run h = absurd cc
select_is_run id (r ∷ rs) run h = elim (Bool-cases (r.id == id)) [
  | inl b ↦
      let same : r ≡ run = ground (arith, b, h) in
      ground (arith, ap (λ (x : Run). x.id) same, eq_iff r.id id, b)
  | inr b ↦ select_is_run id rs run (ground (arith, b, h))
]

abbrev Steps : String → ℕ → List Run → Type 0
Steps id most rs = (run : Run) → Finds id run rs → run.steps_executed ≤ most

-- the row that an update has left, from the one before
before_update :
    (id : String) (holds : Run → Bool) (change : Run → Run) (rs : List Run) (run : Run)
    → ((r : Run) → (change r).id ≡ r.id)
    → Finds id run (update_where holds change rs)
    → (r : Run) × Finds id r rs × (run ≡ (if holds r then change r else r))
before_update id holds change rs run same h =
    let lem =
      select_one-update_where (is_run id) holds change rs
        (λ r. ap (λ (x : String). x == id) (same r)) in
    elim (Option-cases (select_one (is_run id) rs)) [
      | inl q ↦ absurd (ground (arith, q, lem, h))
      | inr (r, q) ↦ (r, q, ground (arith, q, lem, h))
    ]

Steps-IsKept : (id : String) (most : ℕ) → IsKept (Steps id most)
Steps-IsKept id most = record {
  failing = λ other reason rs h run found.
      let (r, q, e) =
        before_update id (is_open_run other) (failed_with reason) rs run (λ x. refl) found in
      ground (arith, h r q, ap (λ (x : Run). x.steps_executed) e);
  succeeding = λ other result rs h run found.
      let (r, q, e) =
        before_update id (is_open_run other) (succeeded_with result) rs run (λ x. refl) found in
      ground (arith, h r q, ap (λ (x : Run). x.steps_executed) e);
}

module _ (py : Python) (fresh : ℕ → String) (codec : Codec) (settings : Settings)
    (users : List User) (max_steps : ℕ)
    (execute : WorkflowNode
      → WorkflowJobPayload
      → RunContext
      → Result NodeExecutionError ExecutionOutcome) where
  -- A run that has succeeded or failed keeps its row, with its status, result and error, whatever
  -- message is handled.
  pub process_final :
      (p : WorkflowJobPayload) (w : World) (id : String) (run : Run)
      → load_run w id ≡ some run
      → is_over run.status ≡ true
      → load_run (process py fresh codec settings users max_steps execute p w).0 id ≡ some run
  unfolding load_run
  process_final p w id run found o =
      process_keeps py fresh codec settings users max_steps execute (Finds id run)
        (Finds-IsKept id run o) p w
        (λ other type output q open_ _ h. ground (
          arith,
          o,
          open_,
          h,
          select_is_run id w.runs run h,
          select_is_run p.run_id w.runs other q,
          q,
          eq_iff run.id p.run_id,
          ap (λ (x : String). select_one (is_run x) w.runs) (select_is_run id w.runs run h),
          select_one-update_where (is_run id) (is_run p.run_id) (progress type output) w.runs
              (λ r. refl),
        ))
        found

  poll_keeps :
      (Q : List Run → Type 0) (w : World)
      → ((p : WorkflowJobPayload) (v : World)
          → Q v.runs
          → Q (process py fresh codec settings users max_steps execute p v).0.runs)
      → Q w.runs
      → Q (poll py fresh codec settings users max_steps execute w).0.runs
  unfolding poll
  poll_keeps Q w go h = elim (Option-cases (take_next codec settings users w.gateway).0) [
    | inl q ↦ subst Q (ground (arith, q)) h
    | inr (p, q) ↦
        let w₁ : World = record w { gateway = (take_next codec settings users w.gateway).1 } in
        let handled =
          then_do_keeps Q (process py fresh codec settings users max_steps execute p w₁)
            (λ _ w₂. (w₂, ok true)) (go p w₁ h) (λ _ w₂ k. k) in
        subst Q (ground (arith, q)) handled
  ]

  after_keeps :
      (Q : List Run → Type 0) (n : ℕ)
      → ((v : World)
          → Q v.runs
          → Q (drain py fresh codec settings users max_steps execute n v).0.runs)
      → (executed : Bool) (v : World) → Q v.runs
      → Q
          (if executed
            then then_do
                (drain py fresh codec settings users max_steps execute n v)
                (λ m u. (u, ok (suc m)))
            else (v, ok 0)).0.runs
  after_keeps Q n rest true v k =
      then_do_keeps Q (drain py fresh codec settings users max_steps execute n v)
        (λ m u. (u, ok (suc m))) (rest v k) (λ m u j. j)
  after_keeps Q n rest false v k = k

  drain_keeps :
      (Q : List Run → Type 0)
      → ((p : WorkflowJobPayload) (v : World)
          → Q v.runs
          → Q (process py fresh codec settings users max_steps execute p v).0.runs)
      → (max_messages : ℕ) (w : World) → Q w.runs
      → Q (drain py fresh codec settings users max_steps execute max_messages w).0.runs
  unfolding drain
  drain_keeps Q go zero w h = h
  drain_keeps Q go (suc n) w h =
      then_do_keeps Q (poll py fresh codec settings users max_steps execute w)
        (λ executed w₁.
          if executed
          then then_do (drain py fresh codec settings users max_steps execute n w₁)
              (λ m w₂. (w₂, ok (suc m)))
          else (w₁, ok 0))
        (poll_keeps Q w go h) (after_keeps Q n (drain_keeps Q go n))

  -- A run that has succeeded or failed keeps its row however many messages a worker drains.
  pub drain_final :
      (max_messages : ℕ) (w : World) (id : String) (run : Run)
      → load_run w id ≡ some run
      → is_over run.status ≡ true
      → load_run (drain py fresh codec settings users max_steps execute max_messages w).0 id
        ≡ some run
  unfolding load_run
  drain_final n w id run found o =
      drain_keeps (Finds id run) (λ p v h. process_final p v id run h o) n w found

  process-Steps :
      (p : WorkflowJobPayload) (w : World) (id : String)
      → Steps id max_steps w.runs
      → Steps id max_steps (process py fresh codec settings users max_steps execute p w).0.runs
  unfolding load_run
  process-Steps p w id h =
      process_keeps py fresh codec settings users max_steps execute (Steps id max_steps)
        (Steps-IsKept id max_steps) p w
        (λ other type output q open_ below k run found.
          let (r, f, e) =
            before_update id (is_run p.run_id) (progress type output) w.runs run (λ x. refl)
              found in
          let theirs : r.id ≡ p.run_id → other ≡ r = λ s.
            let t : Finds p.run_id r w.runs =
              subst (λ (x : String). Finds x r w.runs) (sym (select_is_run id w.runs r f) ∙ s) f in
            ground (arith, q, t) in
          elim (Bool-cases (r.id == p.run_id)) [
            | inl b ↦
                let same = theirs ((eq_iff r.id p.run_id).0 b) in
                ground (
                  arith,
                  b,
                  below,
                  ap (λ (x : Run). x.steps_executed) same,
                  ap (λ (x : Run). x.steps_executed) e,
                )
            | inr b ↦ ground (arith, b, k r f, ap (λ (x : Run). x.steps_executed) e)
          ])
        h

  -- However many messages a worker drains, the column steps_executed of a run stays within the limit,
  -- if it was within it before.
  drain_steps :
      (max_messages : ℕ) (w : World) (id : String)
      → ((run : Run) → load_run w id ≡ some run → run.steps_executed ≤ max_steps)
      → (run : Run)
      → load_run (drain py fresh codec settings users max_steps execute max_messages w).0 id
        ≡ some run
      → run.steps_executed ≤ max_steps
  unfolding load_run
  drain_steps n w id h = drain_keeps (Steps id max_steps) (λ p v k. process-Steps p v id k) n w h
