-- ===== src/Common/Logbus.antt =====
-- packages/cwap_common/logbus.py: the events of runs, numbered, written down, and handed to whoever
-- watches. One bus is one process; the table of log lines is shared by all. `lower` stands for
-- `str.lower`, and `strip` for the stripping of the texts of contract models. Locks, event loops and threads are left out: each call is one step, and an event
-- handed to a loop arrives at once. What the relay is given is the list `relayed`; its failures are
-- suppressed by the code, so they change nothing here. Levels, nodes and times are left out.
pub mod Scrubbing
pub mod Sequence
pub mod Numbering
pub mod Replay
pub mod Buffers
use ae_cwap.Value.{Value, Fields, Items, text, bool, field, obj, arr, num, cons, end, nil, null}
use ae_cwap.Value.Dict.{put}
use ae_cwap.Common.Ledger.{LogEvent, append_log}
use ae_cwap.Prelude.{
  ltb, max, nat_eq, ◌&&◌, [], not, ◌==◌, sorted, false, some, suc, length, keep, ◌∷◌, true, insert,
  leb, take, take_text, ◌++◌, contains, lookup, ℕ, if◌then◌else◌, List, Bool, remove, String, none,
  map, Option,
}

abbrev pub subscriber_buffer : ℕ
subscriber_buffer = 1000

-- `SENSITIVE_KEYS`
abbrev pub sensitive_keys : List String
sensitive_keys =
    "authorization" ∷ "api_key" ∷ "apikey" ∷ "password" ∷ "secret" ∷ "token" ∷ "x-api-key"
    ∷ "cookie" ∷ []

unfoldable pub is_sensitive : (String → String) → String → Bool
is_sensitive lower key = contains sensitive_keys (lower key)

abbrev pub redacted : Value
redacted = text "***redacted***"

-- `_scrub`: into dicts, and into the dicts that stand in a list
unfoldable mutual
  unfolding is_sensitive

  pub scrub : (String → String) → Fields → Fields
  scrub lower end = end
  scrub lower (field k v d) =
      field k (if is_sensitive lower k then redacted else scrub_value lower v) (scrub lower d)

  pub scrub_value : (String → String) → Value → Value
  scrub_value lower (obj d) = obj (scrub lower d)
  scrub_value lower (arr xs) = arr (scrub_items lower xs)
  scrub_value lower null = null
  scrub_value lower (bool b) = bool b
  scrub_value lower (num n) = num n
  scrub_value lower (text s) = text s

  pub scrub_items : (String → String) → Items → Items
  scrub_items lower nil = nil
  scrub_items lower (cons (obj d) xs) = cons (obj (scrub lower d)) (scrub_items lower xs)
  scrub_items lower (cons v xs) = cons v (scrub_items lower xs)

-- `queue.get_nowait()` of a queue that may be empty
abbrev pub drop_first : List LogEvent → List LogEvent
drop_first [] = []
drop_first (e ∷ es) = es

pub record Subscriber : Type 0 where
  pub name : ℕ
  pub closed : Bool
  pub buffer : List LogEvent

pub record Bus : Type 0 where
  pub sequences : List (String × ℕ)
  pub subscribers : List (String × List Subscriber)
  pub relay : Bool
  pub relayed : List LogEvent
  pub drawn : ℕ

-- `max(RunLog.seq)` of a run, 0 where it has no line
unfoldable pub highest_persisted : List LogEvent → String → ℕ
highest_persisted [] run_id = 0
highest_persisted (r ∷ rows) run_id =
    let rest = highest_persisted rows run_id in if r.run_id == run_id then max r.seq rest else rest

-- the run's number in `_sequences`, which is read from the table the first time
unfoldable pub current_seq : List LogEvent → String → Bus → ℕ
current_seq rows run_id bus = elim (lookup bus.sequences run_id) [
  | some n ↦ n
  | none ↦ highest_persisted rows run_id
]

abbrev pub with_seq : String → ℕ → Bus → Bus
with_seq run_id n bus = record bus { sequences = insert bus.sequences run_id n }

-- `_offer`: a full buffer drops its oldest event
pub offer : LogEvent → Subscriber → Subscriber
offer event s = if s.closed then s else record s {
  buffer =
      (if leb subscriber_buffer (length s.buffer) then drop_first s.buffer else s.buffer)
      ++ event ∷ [];
}

abbrev pub watchers : Bus → String → List Subscriber
watchers bus run_id = elim (lookup bus.subscribers run_id) [ none ↦ [] | some ss ↦ ss ]

-- `_fan_out`, and `deliver`, which is the same
pub fan_out : LogEvent → Bus → Bus
fan_out event bus = elim (lookup bus.subscribers event.run_id) [
  | none ↦ bus
  | some ss ↦ record bus {
    subscribers = insert bus.subscribers event.run_id (map (offer event) ss);
  }
]

-- to the relay, if there is one
abbrev pub hand_over : LogEvent → Bus → Bus
hand_over event bus = if bus.relay then record bus { relayed = bus.relayed ++ event ∷ [] } else bus

-- `publish`: the table and the bus
unfoldable pub publish_log : LogEvent → List LogEvent → Bus → List LogEvent × Bus
publish_log event rows bus = ((append_log rows event).0, hand_over event (fan_out event bus))

abbrev pub event_at :
    (String → String) → (String → String) → String → ℕ → String → String → Fields → LogEvent
event_at lower strip run_id seq event message details = record {
  run_id = strip run_id;
  seq = seq;
  event = strip event;
  message = strip (take_text 2000 message);
  details = scrub lower details;
}

-- what the contract of an event asks for
abbrev pub is_event : (String → String) → String → String → Bool
is_event strip run_id event = not (strip run_id == "") && not (strip event == "")

-- `emit`: the event, or none where the contract refuses it, the table and the bus. The number is
-- drawn before the event is made, and is not given back.
unfoldable pub emit_log :
    (String → String)
    → (String → String)
    → String
    → String
    → String
    → Fields
    → List LogEvent
    → Bus
    → Option LogEvent × List LogEvent × Bus
emit_log lower strip run_id event message details rows bus =
    let seq = suc (current_seq rows run_id bus) in
    let drawn = with_seq run_id seq bus in
    let record_ = event_at lower strip run_id seq event message details in
    if is_event strip run_id event
    then (let (rows', bus') = publish_log record_ rows drawn in (some record_, rows', bus'))
    else (none, rows, drawn)

-- `transient`: an event that is never written down, at the number that is current
unfoldable pub transient :
    (String → String)
    → (String → String)
    → String
    → String
    → String
    → Fields
    → List LogEvent
    → Bus
    → Option LogEvent × Bus
transient lower strip run_id event message details rows bus =
    let seq = current_seq rows run_id bus in
    let read = with_seq run_id seq bus in
    let record_ = record (event_at lower strip run_id seq event message details) {
      details = put (scrub lower details) "transient" (bool true);
    } in
    if is_event strip run_id event
    then (some record_, hand_over record_ (fan_out record_ read))
    else (none, read)

pub subscribe : String → Bus → ℕ × Bus
subscribe run_id bus = (
  bus.drawn,
  record bus {
    subscribers =
        insert bus.subscribers run_id
          (watchers bus run_id ++ record { name = bus.drawn; closed = false; buffer = [] } ∷ []);
    drawn = suc bus.drawn;
  },
)

pub unsubscribe : String → ℕ → Bus → Bus
unsubscribe run_id name bus =
    elim (keep (λ (s : Subscriber). not (nat_eq s.name name)) (watchers bus run_id)) [
      | [] ↦ record bus { subscribers = remove bus.subscribers run_id }
      | s ∷ ss ↦ record bus { subscribers = insert bus.subscribers run_id (s ∷ ss) }
    ]

pub subscriber_count : String → Bus → ℕ
subscriber_count run_id bus = length (watchers bus run_id)

abbrev pub seq_le : LogEvent → LogEvent → Bool
seq_le a b = leb a.seq b.seq

-- `history`
pub history : List LogEvent → String → ℕ → ℕ → List LogEvent
history rows run_id after_seq limit =
    take limit
      (sorted seq_le (keep (λ (r : LogEvent). (r.run_id == run_id) && ltb after_seq r.seq) rows))

pub forget_sequence : String → Bus → Bus
forget_sequence run_id bus = record bus { sequences = remove bus.sequences run_id }

-- what the calls of a bus change; what is already in the table was written by this bus
pub data LogCall : Type 0 where
  emitted : String → String → String → Fields → LogCall
  passed : String → String → String → Fields → LogCall
  -- `publish` of an event whose number the caller has chosen
  published : LogEvent → LogCall
  delivered : LogEvent → LogCall
  subscribed : String → LogCall
  unsubscribed : String → ℕ → LogCall
  attached : Bool → LogCall
  forgotten : String → LogCall

abbrev pub attach_relay : Bool → Bus → Bus
attach_relay relay bus = record bus { relay = relay }

pub log_call :
    (String → String) → (String → String) → LogCall → List LogEvent × Bus → List LogEvent × Bus
log_call lower strip (LogCall.emitted run_id event message details) (rows, bus) =
    let (_, rows', bus') = emit_log lower strip run_id event message details rows bus in
    (rows', bus')
log_call lower strip (LogCall.passed run_id event message details) (rows, bus) =
    (rows, (transient lower strip run_id event message details rows bus).1)
log_call lower strip (LogCall.published event) (rows, bus) = publish_log event rows bus
log_call lower strip (LogCall.delivered event) (rows, bus) = (rows, fan_out event bus)
log_call lower strip (LogCall.subscribed run_id) (rows, bus) = (rows, (subscribe run_id bus).1)
log_call lower strip (LogCall.unsubscribed run_id name) (rows, bus) =
    (rows, unsubscribe run_id name bus)
log_call lower strip (LogCall.attached relay) (rows, bus) = (rows, attach_relay relay bus)
log_call lower strip (LogCall.forgotten run_id) (rows, bus) = (rows, forget_sequence run_id bus)

pub log_calls :
    (String → String) → (String → String) → List LogCall → List LogEvent × Bus → List LogEvent × Bus
log_calls lower strip [] state = state
log_calls lower strip (c ∷ calls) state = log_calls lower strip calls (log_call lower strip c state)

abbrev pub new_bus : Bus
new_bus = record { sequences = []; subscribers = []; relay = false; relayed = []; drawn = 0 }
