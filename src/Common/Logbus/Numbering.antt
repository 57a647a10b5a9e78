-- ===== src/Common/Logbus/Numbering.antt =====
-- The numbers of a run's lines under every sequence of calls of packages/cwap_common/logbus.py.
use ae_cwap.Common.Logbus.Sequence.{
  numbers, own, IsInStep, IsNumbered, emit_log_lem, current_seq_lem, sequences-fan_out,
  sequences-hand_over,
}
use ae_cwap.Common.Logbus.{
  log_calls, forget_sequence, highest_persisted, log_call, unsubscribe, transient, new_bus, LogCall,
  LogEvent, Bus, subscribe, with_seq, current_seq, fan_out, hand_over, is_event, event_at,
}
use ae_cwap.Prelude.{
  ◌≡◌, ℕ, [], String, List, ◌++◌, ◌∷◌, map, max, arith, suc, ap, zero, refl, if◌then◌else◌, length,
  Bool-cases, lookup-remove, ◌∙◌, ◌==◌, lookup, subst, inr, inl, sym, eq_iff, length-append,
  lookup-insert, All, true,
}

abbrev IsLog : List LogEvent × Bus → Type 0
IsLog (rows, bus) = IsNumbered rows × IsInStep (rows, bus)

-- an event that is emitted passes the contract, and its run id is as it will be written; a number is
-- never chosen by the caller
abbrev pub IsOwnCall : (String → String) → LogCall → Type 0
IsOwnCall strip (LogCall.emitted run_id event message details) =
    (strip run_id ≡ run_id) × (is_event strip run_id event ≡ true)
IsOwnCall strip (LogCall.published event) = ⊥
IsOwnCall strip _ = Unit

abbrev top : List ℕ → ℕ
top [] = 0
top (n ∷ ns) = max n (top ns)

top_snoc : (ns : List ℕ) (n : ℕ) → top (ns ++ n ∷ []) ≡ max (top ns) n
top_snoc [] n = omega arith
top_snoc (m ∷ ns) n = omega (arith, top_snoc ns n)

top-numbers : (n : ℕ) → top (numbers n) ≡ n
top-numbers zero = refl
top-numbers (suc n) = omega (arith, top_snoc (numbers n) (suc n), top-numbers n)

highest_eq_top :
    (rows : List LogEvent) (run_id : String)
    → highest_persisted rows run_id ≡ top (map (λ (r : LogEvent). r.seq) (own run_id rows))
unfolding highest_persisted
highest_eq_top [] run_id = refl
highest_eq_top (r ∷ rows) run_id = elim (Bool-cases (r.run_id == run_id)) [
  | inl b ↦ rw b (ap (λ n. max r.seq n) (highest_eq_top rows run_id))
  | inr b ↦ rw b (highest_eq_top rows run_id)
]

-- the highest number of a run is the number of its lines
highest_eq_length :
    (rows : List LogEvent) (run_id : String)
    → IsNumbered rows
    → highest_persisted rows run_id ≡ length (own run_id rows)
highest_eq_length rows run_id h =
    highest_eq_top rows run_id ∙ ap top (h run_id) ∙ top-numbers (length (own run_id rows))

own_snoc :
    (rows : List LogEvent) (e : LogEvent) (run_id : String)
    → own run_id (rows ++ e ∷ [])
      ≡ (if e.run_id == run_id then own run_id rows ++ e ∷ [] else own run_id rows)
own_snoc [] e run_id = refl
own_snoc (r ∷ rows) e run_id = ground (arith, own_snoc rows e run_id)

map_snoc :
    (rs : List LogEvent) (e : LogEvent)
    → map (λ (r : LogEvent). r.seq) (rs ++ e ∷ []) ≡ map (λ (r : LogEvent). r.seq) rs ++ e.seq ∷ []
map_snoc [] e = refl
map_snoc (r ∷ rs) e = ap (λ l. r.seq ∷ l) (map_snoc rs e)

snoc-IsNumbered :
    (rows : List LogEvent) (e : LogEvent)
    → IsNumbered rows
    → e.seq ≡ suc (highest_persisted rows e.run_id)
    → IsNumbered (rows ++ e ∷ [])
snoc-IsNumbered rows e h s run_id = elim (Bool-cases (e.run_id == run_id)) [
  | inr b ↦ rw (own_snoc rows e run_id) (rw b (h run_id))
  | inl b ↦
      let q : e.run_id ≡ run_id = ground (arith, eq_iff e.run_id run_id, b) in
      let n : e.seq ≡ suc (length (own run_id rows)) =
        s ∙ ap (λ r. suc (highest_persisted rows r)) q ∙ ap suc (highest_eq_length rows run_id h) in
      let l : length (own run_id rows ++ e ∷ []) ≡ suc (length (own run_id rows)) =
        omega (arith, length-append (own run_id rows) (e ∷ [])) in
      rw (own_snoc rows e run_id)
        (rw b (map_snoc (own run_id rows) e ∙ ground (arith, h run_id, n) ∙ ap numbers (sym l)))
]

-- what leaves the numbers of a bus as they are leaves it in step
kept-IsInStep :
    (rows : List LogEvent) (bus bus' : Bus)
    → bus'.sequences ≡ bus.sequences
    → IsInStep (rows, bus)
    → IsInStep (rows, bus')
kept-IsInStep rows bus bus' e h run_id n k = h run_id n (ap (λ d. lookup d run_id) (sym e) ∙ k)

with_seq-IsInStep :
    (rows : List LogEvent) (bus : Bus) (run_id : String)
    → IsInStep (rows, bus)
    → IsInStep (rows, with_seq run_id (current_seq rows run_id bus) bus)
with_seq-IsInStep rows bus run_id h r n k = elim (Bool-cases (run_id == r)) [
  | inl b ↦
      let s : run_id ≡ r = ground (arith, eq_iff run_id r, b) in
      ground (
        arith,
        k,
        lookup-insert bus.sequences run_id r (current_seq rows run_id bus),
        b,
        current_seq_lem rows bus run_id h,
        s,
      )
  | inr b ↦
      h r n
        (ground (arith, k, lookup-insert bus.sequences run_id r (current_seq rows run_id bus), b))
]

published-IsInStep :
    (rows : List LogEvent) (e : LogEvent) (bus : Bus)
    → IsInStep (rows, bus)
    → IsInStep (rows, hand_over e (fan_out e bus))
published-IsInStep rows e bus =
    kept-IsInStep rows bus (hand_over e (fan_out e bus))
      (sequences-hand_over e (fan_out e bus) ∙ sequences-fan_out e bus)

forget-IsInStep :
    (rows : List LogEvent) (bus : Bus) (run_id : String)
    → IsInStep (rows, bus)
    → IsInStep (rows, forget_sequence run_id bus)
unfolding forget_sequence
forget-IsInStep rows bus run_id h r n k =
    h r n (ground (arith, k, lookup-remove bus.sequences run_id r))

sequences-unsubscribe :
    (run_id : String) (name : ℕ) (bus : Bus)
    → (unsubscribe run_id name bus).sequences ≡ bus.sequences
unfolding unsubscribe
sequences-unsubscribe run_id name bus = ground arith

log_call-IsLog :
    (lower strip : String → String) (call : LogCall) (state : List LogEvent × Bus)
    → IsOwnCall strip call
    → IsLog state
    → IsLog (log_call lower strip call state)
unfolding log_call transient subscribe
log_call-IsLog lower strip (LogCall.emitted run_id event message details) (rows, bus) (q, v)
      (a, b) =
    let (o, s, w, c) = emit_log_lem lower strip run_id event message details rows bus q v b in
    let e = event_at lower strip run_id (suc (current_seq rows run_id bus)) event message details in
    (
      subst IsNumbered (sym w)
          (snoc-IsNumbered rows e a (s ∙ ap (λ r. suc (highest_persisted rows r)) (sym q))),
      c,
    )
log_call-IsLog lower strip (LogCall.published event) state h k = absurd h
log_call-IsLog lower strip (LogCall.passed run_id event message details) (rows, bus) h (a, b) =
    let read = with_seq run_id (current_seq rows run_id bus) bus in
    let kept = with_seq-IsInStep rows bus run_id b in
    elim (Bool-cases (is_event strip run_id event)) [
      | inl v ↦ (a, rw v (published-IsInStep rows _ read kept))
      | inr v ↦ (a, rw v kept)
    ]
log_call-IsLog lower strip (LogCall.delivered event) (rows, bus) h (a, b) =
    (a, kept-IsInStep rows bus (fan_out event bus) (sequences-fan_out event bus) b)
log_call-IsLog lower strip (LogCall.subscribed run_id) (rows, bus) h (a, b) = (a, b)
log_call-IsLog lower strip (LogCall.unsubscribed run_id name) (rows, bus) h (a, b) = (
  a,
  kept-IsInStep rows bus (unsubscribe run_id name bus) (sequences-unsubscribe run_id name bus) b,
)
log_call-IsLog lower strip (LogCall.attached relay) (rows, bus) h (a, b) = (a, b)
log_call-IsLog lower strip (LogCall.forgotten run_id) (rows, bus) h (a, b) =
    (a, forget-IsInStep rows bus run_id b)

pub log_calls-IsLog :
    (lower strip : String → String) (calls : List LogCall) (state : List LogEvent × Bus)
    → All (IsOwnCall strip) calls
    → IsLog state
    → IsLog (log_calls lower strip calls state)
unfolding log_calls
log_calls-IsLog lower strip [] state own h = h
log_calls-IsLog lower strip (c ∷ calls) state own h =
    log_calls-IsLog lower strip calls (log_call lower strip c state) own.1
      (log_call-IsLog lower strip c state own.0 h)

new_bus-IsLog : IsLog ([], new_bus)
new_bus-IsLog = ((λ _. refl), λ run_id n k. cc)

-- Calls on a bus that alone writes an empty table, in any order: events emitted, each of which the
-- contract accepts, under a run id without outer white space; events passed on without being
-- written; events delivered; watchers that come and go; relays attached; runs forgotten; but no call
-- of `publish` from outside. In the end the lines of each run are numbered 1, 2, … in the order they
-- were written, without a gap and without a repetition, and the next event of the run gets the next
-- number.
pub log_calls-IsNumbered :
    (lower strip : String → String) (calls : List LogCall) (run_id : String)
    → All (IsOwnCall strip) calls
    → let (rows, bus) = log_calls lower strip calls ([], new_bus) in
      (map (λ (r : LogEvent). r.seq) (own run_id rows) ≡ numbers (length (own run_id rows)))
      × (current_seq rows run_id bus ≡ length (own run_id rows))
log_calls-IsNumbered lower strip calls run_id own_calls =
    let (rows, bus) = log_calls lower strip calls ([], new_bus) in
    let (a, b) = log_calls-IsLog lower strip calls ([], new_bus) own_calls new_bus-IsLog in
    (a run_id, current_seq_lem rows bus run_id b ∙ highest_eq_length rows run_id a)
