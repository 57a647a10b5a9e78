-- ===== src/Tests/Logs.antt =====
-- The log bus at concrete calls.
use ae_cwap.Common.Logbus.Numbering.{IsOwnCall, log_calls-IsNumbered}
use ae_cwap.Common.Logbus.Replay.{history_lem}
use ae_cwap.Common.Tables.{insert_once}
use ae_cwap.Common.Logbus.Buffers.{fan_out_all, offer_all, latest, fan_out_all_lem}
use ae_cwap.Value.{Fields, end, field, text, arr, cons, obj, nil}
use ae_cwap.Common.Logbus.Scrubbing.{IsClean, scrub_lem}
use ae_cwap.Common.Ledger.{LogEvent, append_log}
use ae_cwap.Common.Logbus.{
  watchers, log_calls, Subscriber, scrub, Bus, emit_log, LogCall, scrub_value, with_seq, new_bus,
  publish_log, scrub_items, history, current_seq, is_sensitive, redacted, subscriber_buffer,
  highest_persisted,
}
use ae_cwap.Common.Logbus.Sequence.{own, numbers}
use ae_cwap.Prelude.{
  ◌≡◌, List, String, false, ◌∷◌, [], ◌↔◌, map, take, refl, ◌++◌, length, drop, All,
}

abbrev asis : String → String
asis s = s

abbrev secret_details : Fields
secret_details = field "token" (text "t0") (
    field "args" (arr (cons (obj (field "cookie" (text "c") end)) nil))
      (field "model" (text "m") end))

scrub_lem_example :
    IsClean asis (scrub asis secret_details)
    × (IsClean asis secret_details ↔ (scrub asis secret_details ≡ secret_details))
scrub_lem_example = scrub_lem asis secret_details

scrubbed :
    scrub asis secret_details
    ≡ field "token" redacted (
        field "args"
          (arr (cons (obj (field "cookie" redacted end)) nil))
          (field "model" (text "m") end))
unfolding scrub scrub_value scrub_items is_sensitive
scrubbed = refl

-- a dict that stands in a list of a list is not reached
nested_list : Fields
nested_list =
    field "rows" (arr (cons (arr (cons (obj (field "token" (text "t0") end)) nil)) nil)) end

nested_list_kept : scrub asis nested_list ≡ nested_list
unfolding nested_list scrub scrub_value scrub_items is_sensitive
nested_list_kept = refl

abbrev first_line : LogEvent
first_line = record { run_id = "r1"; seq = 1; event = "run.started"; message = ""; details = end }

abbrev rows1 : List LogEvent
rows1 = first_line ∷ []

abbrev calls : List LogCall
calls =
    LogCall.emitted "r1" "run.started" "" end
    ∷ LogCall.subscribed "r1"
    ∷ LogCall.emitted "r2" "run.started" "" end
    ∷ LogCall.passed "r1" "agent.streaming" "x" end
    ∷ LogCall.forgotten "r1"
    ∷ LogCall.emitted "r1" "run.finished" "" end
    ∷ []

own_calls : All (IsOwnCall asis) calls
own_calls = ((refl, refl), (tt, ((refl, refl), (tt, (tt, ((refl, refl), tt))))))

log_calls-IsNumbered_example :
    let (rows, bus) = log_calls asis asis calls ([], new_bus) in
    (map (λ (r : LogEvent). r.seq) (own "r1" rows) ≡ numbers (length (own "r1" rows)))
    × (current_seq rows "r1" bus ≡ length (own "r1" rows))
log_calls-IsNumbered_example = log_calls-IsNumbered asis asis calls "r1" own_calls

history_lem_example :
    let rows = (log_calls asis asis calls ([], new_bus)).0 in
    history rows "r1" 1 2000 ≡ take 2000 (drop 1 (own "r1" rows))
history_lem_example = history_lem asis asis calls "r1" 1 2000 own_calls

abbrev watcher : Subscriber
watcher = record { name = 0; closed = false; buffer = [] }

abbrev second_line : LogEvent
second_line = record { run_id = "r2"; seq = 1; event = "run.started"; message = ""; details = end }

abbrev lines2 : List LogEvent
lines2 = first_line ∷ second_line ∷ []

abbrev watched : Bus
watched = record {
  sequences = [];
  subscribers = ("r1", watcher ∷ []) ∷ [];
  relay = false;
  relayed = [];
  drawn = 1;
}

fan_out_all_lem_example :
    (watchers (fan_out_all lines2 watched) "r1"
      ≡ map (offer_all (own "r1" lines2)) (watchers watched "r1"))
    × ((offer_all (own "r1" lines2) watcher).buffer
        ≡ latest subscriber_buffer ([] ++ own "r1" lines2))
fan_out_all_lem_example = fan_out_all_lem lines2 watched "r1" [] watcher refl refl

-- Two buses over one table: one that drew its number before the other wrote loses its line.
abbrev stale : Bus
stale = with_seq "r1" 0 new_bus

lost_line : (emit_log asis asis "r1" "node.started" "go" end rows1 stale).1 ≡ rows1
unfolding emit_log publish_log current_seq append_log insert_once
lost_line = refl

-- An event without a name is refused after its number has been drawn: the next one leaves a gap.
refused_number :
    let (o, rows, bus) = emit_log asis asis "r1" "" "go" end [] new_bus in
    (rows ≡ []) × (current_seq rows "r1" bus ≡ 1)
unfolding emit_log current_seq highest_persisted
refused_number = (refl, refl)
