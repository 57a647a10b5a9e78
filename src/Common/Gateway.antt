-- ===== src/Common/Gateway.antt =====
-- packages/cwap_common/contract_gateway.py with the in-memory queues of packages/cwap_common/broker.py:
-- the only ways to put a job on a queue and to take one off. `Codec` stands for the contract models'
-- JSON (pydantic's): what a text holds, before the job's own validation. Locks and waiting are left
-- out: each call is one step.
pub mod Delivery
pub mod Publishing
use ae_cwap.Contracts.Job.{ServiceName, JobContext, JobError, WorkflowJobPayload, validate_job}
use ae_cwap.Common.Authz.{User, Denial, authorize}
use ae_cwap.Prelude.{
  length, String, ℕ, suc, Bool, Option, none, some, List, [], ◌∷◌, ◌++◌, Result, ok, err, ◌>>=◌,
  lookup, insert,
}

pub record Codec : Type 0 where
  pub dump : WorkflowJobPayload → String
  pub parse : String → Option WorkflowJobPayload
  pub run_id_of : String → Option String

-- the queues by name
abbrev pub Queues : Type 0
Queues = List (String × List String)

abbrev pub messages : Queues → String → List String
messages queues name = elim (lookup queues name) [ none ↦ [] | some bodies ↦ bodies ]

unfoldable pub send : Queues → String → String → Queues
send queues name body = insert queues name (messages queues name ++ body ∷ [])

unfoldable pub receive : Queues → String → Option (String × Queues)
receive queues name = elim (messages queues name) [
  | [] ↦ none
  | body ∷ bodies ↦ some (body, insert queues name bodies)
]

pub depth : Queues → String → ℕ
depth queues name = length (messages queues name)

pub drain : Queues → String → List String × Queues
drain queues name = (messages queues name, insert queues name [])

pub data ContractError : Type 0 where
  not_json : ContractError
  violation : JobError → ContractError
  unauthorized : Denial → ContractError

pub record DeadLetter : Type 0 where
  pub queue : String
  pub reason : ContractError
  pub run_id : Option String
  pub payload : String

-- what the wrappers share: the queues, the table of dead letters, and the consumer's counter
pub record Gateway : Type 0 where
  pub queues : Queues
  pub dead_letters : List DeadLetter
  pub dead_lettered : ℕ

pub record Settings : Type 0 where
  pub work_queue : String
  pub dead_letter_queue : String
  pub envelope : String → ContractError → String → String
  pub upper : String → String

module _ (codec : Codec) (settings : Settings) (users : List User) where
  unfoldable pub validate_payload : String → Result ContractError WorkflowJobPayload
  validate_payload raw = elim (codec.parse raw) [
    | none ↦ err ContractError.not_json
    | some p ↦ elim (validate_job p) [ err e ↦ err (ContractError.violation e) | ok _ ↦ ok p ]
  ]

  unfoldable pub assert_authorized : JobContext → ServiceName → Result ContractError (List String)
  assert_authorized c service = elim (authorize settings.upper users c service) [
    | err e ↦ err (ContractError.unauthorized e)
    | ok held ↦ ok held
  ]

  -- `ProducerWrapper.publish`
  unfoldable pub publish :
      WorkflowJobPayload → Gateway → Result ContractError (WorkflowJobPayload × Gateway)
  publish payload g = do
    validated ← validate_payload (codec.dump payload)
    held ← assert_authorized validated.job_context validated.next_step_definition.target_service
    ok (validated, record g { queues = send g.queues settings.work_queue (codec.dump validated) })

  -- `DeadLetterSink.park`
  unfoldable pub park : String → ContractError → String → Gateway → Gateway
  park raw error source_queue g = record g {
    queues = send g.queues settings.dead_letter_queue (settings.envelope source_queue error raw);
    dead_letters =
        g.dead_letters
        ++ record {
          queue = source_queue;
          reason = error;
          run_id = codec.run_id_of raw;
          payload = raw;
        }
          ∷ [];
  }

  -- the checks of `ConsumerWrapper.accept`
  unfoldable pub checked : String → Result ContractError WorkflowJobPayload
  checked raw = do
    validated ← validate_payload raw
    held ← assert_authorized validated.job_context validated.next_step_definition.target_service
    ok validated

  unfoldable pub accept : String → Gateway → Option WorkflowJobPayload × Gateway
  accept raw g = elim (checked raw) [
    | ok validated ↦ (some validated, g)
    | err e ↦
        let parked = park raw e settings.work_queue g in
        (none, record parked { dead_lettered = suc parked.dead_lettered })
  ]

  -- `ConsumerWrapper.next`
  unfoldable pub take_next : Gateway → Option WorkflowJobPayload × Gateway
  take_next g = elim (receive g.queues settings.work_queue) [
    | none ↦ (none, g)
    | some (raw, rest) ↦ accept raw (record g { queues = rest })
  ]
