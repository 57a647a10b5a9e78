-- ===== src/Common/Logbus/Sequence.antt =====
-- The numbers of packages/cwap_common/logbus.py: `_next_seq`, `_current_seq`, `history`.
use ae_cwap.Common.Tables.{insert_once}
use ae_cwap.Common.Logbus.{
  highest_persisted, current_seq, emit_log, fan_out, Bus, publish_log, hand_over, Fields, event_at,
  with_seq, is_event,
}
use ae_cwap.Common.Ledger.{LogEvent, append_log, same_seq}
use ae_cwap.Prelude.{
  String, ℕ, List, keep, [], map, ◌++◌, ◌<◌, ◌∷◌, any, lookup, suc, ◌==◌, ◌≡◌, length, Option-cases,
  true, some, arith, zero, false, max, inl, eq_iff, ap, inr, subst, refl, sym, insert, Bool-cases,
  ◌∙◌, lookup-insert,
}

-- the lines of a run
abbrev pub own : String → List LogEvent → List LogEvent
own run_id rows = keep (λ (r : LogEvent). r.run_id == run_id) rows

-- what a bus remembers of a run is what the table says
abbrev pub IsInStep : List LogEvent × Bus → Type 0
IsInStep (rows, bus) =
    (run_id : String) (n : ℕ)
    → lookup bus.sequences run_id ≡ some n
    → n ≡ highest_persisted rows run_id

-- 1, 2, …, n
abbrev pub numbers : ℕ → List ℕ
numbers zero = []
numbers (suc n) = numbers n ++ suc n ∷ []

-- the lines of each run are numbered from 1 on, without a gap, in the order they were written
abbrev pub IsNumbered : List LogEvent → Type 0
IsNumbered rows =
    (run_id : String)
    → map (λ (r : LogEvent). r.seq) (own run_id rows) ≡ numbers (length (own run_id rows))

pub current_seq_lem :
    (rows : List LogEvent) (bus : Bus) (run_id : String)
    → IsInStep (rows, bus)
    → current_seq rows run_id bus ≡ highest_persisted rows run_id
unfolding current_seq
current_seq_lem rows bus run_id h = elim (Option-cases (lookup bus.sequences run_id)) [
  | inl e ↦ ground (arith, e)
  | inr (n, e) ↦ ground (arith, e, h run_id n e)
]

highest_other :
    (rows : List LogEvent) (e : LogEvent) (run_id : String)
    → (e.run_id == run_id) ≡ false
    → highest_persisted (rows ++ e ∷ []) run_id ≡ highest_persisted rows run_id
unfolding highest_persisted
highest_other [] e run_id h = rw h refl
highest_other (r ∷ rows) e run_id h = rw (highest_other rows e run_id h) refl

highest_own :
    (rows : List LogEvent) (e : LogEvent) (run_id : String)
    → (e.run_id == run_id) ≡ true
    → highest_persisted rows run_id < e.seq
    → highest_persisted (rows ++ e ∷ []) run_id ≡ e.seq
unfolding highest_persisted
highest_own [] e run_id h l = rw h (omega arith)
highest_own (r ∷ rows) e run_id h l = elim (Bool-cases (r.run_id == run_id)) [
  | inl b ↦
      let l' : max r.seq (highest_persisted rows run_id) < e.seq = rw b at l in
      rw b (omega (arith, l', highest_own rows e run_id h (omega (arith, l'))))
  | inr b ↦
      let l' : highest_persisted rows run_id < e.seq = rw b at l in
      rw b (highest_own rows e run_id h l')
]

-- a number above all of the run is not taken
not_taken :
    (rows : List LogEvent) (e : LogEvent)
    → highest_persisted rows e.run_id < e.seq
    → any (same_seq e) rows ≡ false
unfolding highest_persisted
not_taken [] e h = refl
not_taken (r ∷ rows) e h = elim (Bool-cases (r.run_id == e.run_id)) [
  | inl b ↦
      let l : max r.seq (highest_persisted rows e.run_id) < e.seq = rw b at h in
      ground (
        arith,
        not_taken rows e (omega (arith, l)),
        omega_below r.seq (highest_persisted rows e.run_id) e.seq l,
      )
  | inr b ↦
      let l : highest_persisted rows e.run_id < e.seq = rw b at h in
      ground (arith, b, not_taken rows e l, eq_iff e.run_id r.run_id, eq_iff r.run_id e.run_id)
]
  where
    omega_below : (a b c : ℕ) → max a b < c → a < c
    omega_below a b c h = omega arith

append_log_new :
    (rows : List LogEvent) (e : LogEvent)
    → highest_persisted rows e.run_id < e.seq
    → append_log rows e ≡ (rows ++ e ∷ [], true)
unfolding append_log insert_once
append_log_new rows e h = ground (arith, not_taken rows e h)

pub sequences-fan_out : (e : LogEvent) (bus : Bus) → (fan_out e bus).sequences ≡ bus.sequences
unfolding fan_out
sequences-fan_out e bus = ground arith

pub sequences-hand_over : (e : LogEvent) (bus : Bus) → (hand_over e bus).sequences ≡ bus.sequences
sequences-hand_over e bus = ground arith

after-IsInStep :
    (run_id : String) (e : LogEvent) (rows : List LogEvent) (bus : Bus)
    → e.run_id ≡ run_id
    → highest_persisted rows run_id < e.seq
    → IsInStep (rows, bus)
    → IsInStep (rows ++ e ∷ [], hand_over e (fan_out e (with_seq run_id e.seq bus)))
after-IsInStep run_id e rows bus q l h r m k =
    let k' : lookup (insert bus.sequences run_id e.seq) r ≡ some m =
      ap (λ d. lookup d r)
        (sym (
          sequences-hand_over e (fan_out e (with_seq run_id e.seq bus))
          ∙ sequences-fan_out e (with_seq run_id e.seq bus)))
      ∙ k in
    elim (Bool-cases (run_id == r)) [
      | inl b ↦
          let s : run_id ≡ r = ground (arith, eq_iff run_id r, b) in
          let x : (e.run_id == r) ≡ true = ground (arith, eq_iff e.run_id r, q, s) in
          ground (
            arith,
            k',
            lookup-insert bus.sequences run_id r e.seq,
            b,
            highest_own rows e r x (subst (λ t. highest_persisted rows t < e.seq) s l),
          )
      | inr b ↦
          let x : (e.run_id == r) ≡ false =
            ground (arith, eq_iff e.run_id r, eq_iff run_id r, q, b) in
          let o : lookup bus.sequences r ≡ some m =
            ground (arith, k', lookup-insert bus.sequences run_id r e.seq, b) in
          ground (arith, h r m o, highest_other rows e r x)
    ]

-- Where the bus remembers what the table says, and the contract accepts the event: `emit` gives it the number after the highest
-- of its run, and the event is written as the last line of the table, it is never dropped as one
-- that stands there already; and again the bus remembers what the table says.
pub emit_log_lem :
    (lower strip : String → String) (run_id event message : String) (details : Fields)
    (rows : List LogEvent) (bus : Bus)
    → strip run_id ≡ run_id
    → is_event strip run_id event ≡ true
    → IsInStep (rows, bus)
    → let e =
        event_at lower strip run_id (suc (current_seq rows run_id bus)) event message details in
      let (o, rows', bus') = emit_log lower strip run_id event message details rows bus in
      (o ≡ some e)
      × (e.seq ≡ suc (highest_persisted rows run_id))
      × (rows' ≡ rows ++ e ∷ [])
      × IsInStep (rows', bus')
unfolding emit_log publish_log
emit_log_lem lower strip run_id event message details rows bus s v h =
    let n = suc (current_seq rows run_id bus) in
    let e = event_at lower strip run_id n event message details in
    let c = current_seq_lem rows bus run_id h in
    let w =
      append_log_new rows e
        (subst (λ r. highest_persisted rows r < n) (sym s) (omega (arith, c))) in
    let step = after-IsInStep run_id e rows bus s (omega (arith, c)) h in
    rw v (
      refl,
      ap suc c,
      ap (λ p. p.0) w,
      subst (λ rows'. IsInStep (rows', hand_over e (fan_out e (with_seq run_id n bus))))
          (sym (ap (λ p. p.0) w)) step,
    )
