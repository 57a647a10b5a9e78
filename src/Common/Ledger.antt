-- ===== src/Common/Ledger.antt =====
-- packages/cwap_common/idempotency.py, on the tables of packages/cwap_common/models.py: writes of
-- which the first wins, the right to dispatch a node, and the two-phase gate around an external
-- call. Timestamps are left out.
pub mod Machine
pub mod Gate
pub mod Calls
pub mod Statements
pub mod Writes
use ae_cwap.Contracts.Job.{ServiceName, StepOutputContext}
use ae_cwap.Common.Tables.{insert_once, select_one, update_where}
use ae_cwap.Prelude.{
  if◌then◌else◌, nat_eq, ◌==◌, ◌&&◌, some, none, Option, append, List, true, false, ℕ, Bool, String,
}
use ae_cwap.Value.{text, field, end, Fields}

-- the columns of the ledger's unique constraint
pub record Key : Type 0 where
  pub run_id : String
  pub step_execution_id : String
  pub operation : String

pub data ClaimStatus : Type 0 where
  in_flight succeeded failed : ClaimStatus

pub record Claim : Type 0 where
  pub key : Key
  pub status : ClaimStatus
  pub external_ref : Option String
  pub response : Option Fields

pub record ClaimResult : Type 0 where
  pub should_execute : Bool
  pub prior_response : Option Fields
  pub in_flight_elsewhere : Bool

unfoldable pub same_key : Key → Key → Bool
same_key a b =
    (a.run_id == b.run_id)
    && (a.step_execution_id == b.step_execution_id)
    && (a.operation == b.operation)

abbrev pub conflicts : Claim → Claim → Bool
conflicts a b = same_key a.key b.key

abbrev pub is_status : ClaimStatus → ClaimStatus → Bool
is_status ClaimStatus.in_flight ClaimStatus.in_flight = true
is_status ClaimStatus.succeeded ClaimStatus.succeeded = true
is_status ClaimStatus.failed ClaimStatus.failed = true
is_status _ _ = false

-- `service.value`
abbrev pub service_value : ServiceName → String
service_value ServiceName.orchestrator = "ORCHESTRATOR"
service_value ServiceName.agent_runtime = "AGENT_RUNTIME"
service_value ServiceName.llm_proxy = "LLM_PROXY"
service_value ServiceName.rag_search = "RAG_SEARCH"
service_value ServiceName.http_connector = "HTTP_CONNECTOR"
service_value ServiceName.transform_engine = "TRANSFORM_ENGINE"
service_value ServiceName.branch_evaluator = "BRANCH_EVALUATOR"
service_value ServiceName.terminal = "TERMINAL"

-- the unique constraint of the state rows
abbrev pub same_step : StepOutputContext → StepOutputContext → Bool
same_step a b =
    (a.run_id == b.run_id)
    && (a.step_execution_id == b.step_execution_id)
    && (service_value a.source_service == service_value b.source_service)

unfoldable pub commit_step_output :
    List StepOutputContext → StepOutputContext → List StepOutputContext × Bool
commit_step_output rows output = insert_once same_step rows output

-- the ledger's row that `claim_dispatch` inserts
abbrev pub dispatch_claim : String → String → Claim
dispatch_claim run_id node_id = record {
  key = record {
    run_id = run_id;
    step_execution_id = "dispatch";
    operation = append "dispatch:" node_id;
  };
  status = ClaimStatus.succeeded;
  external_ref = none;
  response = none;
}

unfoldable pub claim_dispatch : List Claim → String → String → List Claim × Bool
claim_dispatch ledger run_id node_id = insert_once conflicts ledger (dispatch_claim run_id node_id)

pub record LogEvent : Type 0 where
  pub run_id : String
  pub seq : ℕ
  pub event : String
  pub message : String
  pub details : Fields

abbrev pub same_seq : LogEvent → LogEvent → Bool
same_seq a b = (a.run_id == b.run_id) && nat_eq a.seq b.seq

unfoldable pub append_log : List LogEvent → LogEvent → List LogEvent × Bool
append_log rows event = insert_once same_seq rows event

unfoldable pub existing : List Claim → Key → Option Claim
existing ledger k = select_one (λ (c : Claim). same_key k c.key) ledger

-- a claim that was just made
abbrev pub opened : Key → Claim
opened k = record { key = k; status = ClaimStatus.in_flight; external_ref = none; response = none }

abbrev pub execute : ClaimResult
execute = record { should_execute = true; prior_response = none; in_flight_elsewhere = false }

abbrev pub replay : Option Fields → ClaimResult
replay response = record {
  should_execute = false;
  prior_response = some (elim response [ none ↦ end | some r ↦ r ]);
  in_flight_elsewhere = false;
}

abbrev pub elsewhere : ClaimResult
elsewhere = record { should_execute = false; prior_response = none; in_flight_elsewhere = true }

-- the row of `k`, if it has the status
abbrev pub is_at : Key → ClaimStatus → Claim → Bool
is_at k s c = same_key k c.key && is_status c.status s

abbrev pub with_status : ClaimStatus → Claim → Claim
with_status s c = record c { status = s }

-- the statements of `pre_check`: the INSERT, with whether it was the first,
abbrev pub claim_key : Key → List Claim → List Claim × Bool
claim_key k ledger = insert_once conflicts ledger (opened k)

-- what it answers to the row that it then reads,
unfoldable pub answered : Claim → ClaimResult
answered c = elim c.status [
  | ClaimStatus.succeeded ↦ replay c.response
  | ClaimStatus.failed ↦ execute
  | ClaimStatus.in_flight ↦ elsewhere
]

-- and the UPDATE that opens a failed claim again, of which the row count is not read
abbrev pub reopen : Key → List Claim → List Claim
reopen k ledger =
    update_where (is_at k ClaimStatus.failed) (with_status ClaimStatus.in_flight) ledger

-- `pre_check` with no statement of another worker between its own
unfoldable pub pre_check : Key → List Claim → List Claim × ClaimResult
unfolding answered
pre_check k ledger =
    let (claimed, won) = claim_key k ledger in
    if won then (claimed, execute) else elim (existing claimed k) [
      | none ↦ (claimed, execute)
      | some c ↦
          (if is_status c.status ClaimStatus.failed then reopen k claimed else claimed, answered c)
    ]

unfoldable pub commit : Key → Fields → Option String → List Claim → List Claim
commit k response external_ref ledger =
    update_where (is_at k ClaimStatus.in_flight)
      (λ (c : Claim). record c {
        status = ClaimStatus.succeeded;
        response = some response;
        external_ref = external_ref;
      })
      ledger

unfoldable pub abandon : Key → String → List Claim → List Claim
abandon k reason ledger =
    update_where (is_at k ClaimStatus.in_flight)
      (λ (c : Claim). record c {
        status = ClaimStatus.failed;
        response = some (field "error" (text reason) end);
      })
      ledger
