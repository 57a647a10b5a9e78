-- ===== src/Tests/Ledgers.antt =====
-- The idempotency ledger at concrete keys.
use ae_cwap.Value.{Fields, text, field, end}
use ae_cwap.Common.Ledger.{
  abandon, answered, commit, Key, Claim, ClaimStatus, existing, same_key, pre_check, replay,
}
use ae_cwap.Common.Ledger.Machine.{Event, checks, commits, abandons, act, next, answer}
use ae_cwap.Common.Ledger.Gate.{gate_refines}
use ae_cwap.Common.Ledger.Calls.{act_all, success_final}
use ae_cwap.Common.Ledger.Statements.{
  Statement, inserts, reads, reopens, records, releases, execute_statement, lets_through, calls,
  calls_once,
}
use ae_cwap.Common.Ledger.Writes.{claims_won, is_ask, dispatch_once}
use ae_cwap.Common.Tables.{select_one, insert_once, update_where}
use ae_cwap.Prelude.{◌≡◌, refl, String, List, [], ◌∷◌, none, some, false, if◌then◌else◌, any}

abbrev call_key : Key
call_key = record { run_id = "r"; step_execution_id = "se"; operation = "http_request" }

abbrev other_key : Key
other_key = record { run_id = "r"; step_execution_id = "se2"; operation = "http_request" }

abbrev response : Fields
response = field "status" (text "200") end

abbrev paid : Claim
paid = record {
  key = call_key;
  status = ClaimStatus.succeeded;
  external_ref = none;
  response = some response;
}

gate_refines_example :
    (existing (act call_key checks (paid ∷ [])) call_key
      ≡ next call_key checks (existing (paid ∷ []) call_key))
    × ((pre_check call_key (paid ∷ [])).1 ≡ answer (existing (paid ∷ []) call_key))
    × ((j : Key)
        → same_key j call_key ≡ false
        → existing (act call_key checks (paid ∷ [])) j ≡ existing (paid ∷ []) j)
gate_refines_example = gate_refines call_key checks (paid ∷ [])

-- two workers race, the first fails, and another tries again
abbrev race : List (Key × Event)
race =
    (call_key, checks)
    ∷ (call_key, checks)
    ∷ (other_key, checks)
    ∷ (call_key, abandons "timeout")
    ∷ (call_key, checks)
    ∷ (call_key, commits response none)
    ∷ (call_key, checks)
    ∷ []

nothing_held : existing [] call_key ≡ none
unfolding existing select_one
nothing_held = refl

-- two workers check, one statement each in turn, the first commits, and a third checks
abbrev turns : List (Key × Statement)
turns =
    (call_key, inserts)
    ∷ (call_key, reads)
    ∷ (other_key, inserts)
    ∷ (call_key, records response none)
    ∷ (call_key, reopens)
    ∷ (call_key, inserts)
    ∷ (call_key, reads)
    ∷ []

calls_once_example : calls call_key ((call_key, inserts) ∷ turns) [] ≡ 1
calls_once_example = calls_once call_key turns [] nothing_held refl

-- One call is given up, and two workers read the failed claim before either opens it again: both
-- call, so that the one failure has let two more calls through.
abbrev both_read : List (Key × Statement)
both_read =
    (call_key, inserts)
    ∷ (call_key, releases "timeout")
    ∷ (call_key, inserts)
    ∷ (call_key, inserts)
    ∷ (call_key, reads)
    ∷ (call_key, reads)
    ∷ (call_key, reopens)
    ∷ (call_key, reopens)
    ∷ []

both_call : calls call_key both_read [] ≡ 3
unfolding execute_statement lets_through answered commit abandon existing select_one insert_once
    update_where same_key
both_call = refl

paid_held : existing (paid ∷ []) call_key ≡ some paid
unfolding existing select_one same_key
paid_held = refl

success_final_example :
    (existing (act_all race (paid ∷ [])) call_key ≡ some paid)
    × ((pre_check call_key (act_all race (paid ∷ []))).1 ≡ replay (some response))
success_final_example = success_final call_key race (paid ∷ []) paid paid_held refl

abbrev asks : List (String × String)
asks = ("r", "join") ∷ ("r", "t") ∷ ("r", "join") ∷ []

dispatch_once_example :
    claims_won "r" "join" asks [] ≡ (if any (is_ask "r" "join") asks then 1 else 0)
dispatch_once_example = dispatch_once "r" "join" asks [] refl
