-- ===== src/Tests/Queues.antt =====
-- Authorisation and the queue wrappers at concrete jobs.
use ae_cwap.Contracts.Job.{ServiceName, as_set, validate_job, validate_next_step, fields_present}
use ae_cwap.Common.Tables.{select_one}
use ae_cwap.Common.Authz.{User, authorize, scopes_for}
use ae_cwap.Common.Authz.Allowed.{IsAllowed, authorize_iff}
use ae_cwap.Common.Gateway.{
  Codec, Settings, Gateway, messages, publish, take_next, validate_payload, assert_authorized,
}
use ae_cwap.Common.Gateway.Delivery.{IsTaken, take_next_lem}
use ae_cwap.Common.Gateway.Publishing.{queued, take_next-publish}
use ae_cwap.Tests.Samples.{job, owner}
use ae_cwap.Prelude.{
  arith, eq_iff, ◌≢◌, ◌≡◌, refl, List, [], ◌∷◌, none, some, true, if◌then◌else◌, ◌==◌, ok, ◌↔◌,
}

abbrev pub member : User
member = record { id = "u1"; tenant_id = "acme"; scopes = "READ_WORKFLOWS" ∷ "WRITE_DB" ∷ [] }

abbrev pub users : List User
users = member ∷ []

-- a codec that knows one job
abbrev pub codec : Codec
codec = record {
  dump = λ p. "job";
  parse = λ raw. if raw == "job" then some job else none;
  run_id_of = λ raw. none;
}

abbrev pub settings : Settings
settings = record {
  work_queue = "work";
  dead_letter_queue = "dead";
  envelope = λ queue reason raw. raw;
  upper = λ s. s;
}

abbrev pub quiet : Gateway
quiet = record { queues = []; dead_letters = []; dead_lettered = 0 }

abbrev noisy : Gateway
noisy = record quiet { queues = ("work", "junk" ∷ "job" ∷ []) ∷ [] }

authorize_iff_example :
    (authorize (λ s. s) users owner ServiceName.transform_engine
      ≡ ok ("READ_WORKFLOWS" ∷ "WRITE_DB" ∷ []))
    ↔ IsAllowed
        (λ s. s)
        users
        owner
        ServiceName.transform_engine
        ("READ_WORKFLOWS" ∷ "WRITE_DB" ∷ [])
authorize_iff_example =
    authorize_iff (λ s. s) users owner ServiceName.transform_engine
      ("READ_WORKFLOWS" ∷ "WRITE_DB" ∷ [])

published : publish codec settings users job quiet ≡ ok (job, queued codec settings users job quiet)
unfolding publish validate_payload assert_authorized validate_job validate_next_step fields_present
    authorize scopes_for as_set select_one
published = refl

take_next-publish_example :
    ((take_next codec settings users (queued codec settings users job quiet)).0 ≡ some job)
    × (messages
          (take_next codec settings users (queued codec settings users job quiet)).1.queues
          "work"
        ≡ [])
    × ((take_next codec settings users (queued codec settings users job quiet)).1.dead_letters ≡ [])
take_next-publish_example =
    take_next-publish codec settings users job job quiet (queued codec settings users job quiet)
      refl refl published

apart : settings.work_queue ≢ settings.dead_letter_queue
apart e =
    let k : ("work" == "dead") ≡ true = (eq_iff "work" "dead").1 e in absurd (ground (arith, k))

take_next_lem_example :
    IsTaken codec settings users noisy
      (take_next codec settings users noisy).0
      (take_next codec settings users noisy).1
take_next_lem_example = take_next_lem codec settings users noisy apart
