-- ===== src/Common/Logbus/Buffers.antt =====
-- The buffers of watchers of packages/cwap_common/logbus.py: `_offer`, `_fan_out`, `subscribe`.
use ae_cwap.Common.Logbus.Sequence.{own}
use ae_cwap.Common.Logbus.{
  offer, LogEvent, Subscriber, subscriber_buffer, drop_first, Bus, fan_out, watchers,
}
use ae_cwap.Prelude.{
  ◌≡◌, List, ℕ, length, ◌≤◌, ◌<◌, ◌++◌, suc, ◌∷◌, ◌-◌, false, [], arith, if◌then◌else◌, zero, leb,
  refl, Bool-cases, inl, length-append, true, ap, ◌∙◌, inr, sym, String, ◌==◌, map, Option-cases,
  lookup, append-nil, eq_iff, subst, append_assoc, none, lookup-insert, some, length-drop, drop,
}

-- the last `n` of a list
abbrev pub latest : ℕ → List LogEvent → List LogEvent
latest n es = drop (length es - n) es

abbrev pub offer_all : List LogEvent → Subscriber → Subscriber
offer_all [] s = s
offer_all (e ∷ es) s = offer_all es (offer e s)

drop_snoc :
    (k : ℕ) (es : List LogEvent) (e : LogEvent)
    → k ≤ length es
    → drop k (es ++ e ∷ []) ≡ drop k es ++ e ∷ []
drop_snoc zero es e h = refl
drop_snoc (suc k) [] e h = absurd (omega arith)
drop_snoc (suc k) (x ∷ es) e h = drop_snoc k es e (omega (arith, h))

drop-suc : (k : ℕ) (es : List LogEvent) → drop (suc k) es ≡ drop_first (drop k es)
drop-suc zero [] = refl
drop-suc zero (x ∷ es) = refl
drop-suc (suc k) [] = refl
drop-suc (suc k) (x ∷ es) = drop-suc k es

-- what is kept of one event more
latest_snoc :
    (n : ℕ) (es : List LogEvent) (e : LogEvent)
    → 0 < n
    → latest n (es ++ e ∷ [])
      ≡ (if leb n (length (latest n es)) then drop_first (latest n es) else latest n es) ++ e ∷ []
latest_snoc n es e h = elim (Bool-cases (leb n (length es))) [
  | inl b ↦
      let k = length es - n in
      let l : length (es ++ e ∷ []) - n ≡ suc k = ground (arith, length-append es (e ∷ []), b) in
      let f : leb n (length (latest n es)) ≡ true = ground (arith, length-drop k es, b) in
      rw f (
        ap (λ m. drop m (es ++ e ∷ [])) l
        ∙ drop_snoc (suc k) es e (ground (arith, b, h))
        ∙ ap (λ d. d ++ e ∷ []) (drop-suc k es))
  | inr b ↦
      let k = length es - n in
      let l : length (es ++ e ∷ []) - n ≡ k = ground (arith, length-append es (e ∷ []), b) in
      let f : leb n (length (latest n es)) ≡ false = ground (arith, length-drop k es, b) in
      rw f (ap (λ m. drop m (es ++ e ∷ [])) l ∙ drop_snoc k es e (ground arith))
]

offer-latest :
    (seen : List LogEvent) (e : LogEvent) (s : Subscriber)
    → s.closed ≡ false
    → s.buffer ≡ latest subscriber_buffer seen
    → ((offer e s).closed ≡ false)
      × ((offer e s).buffer ≡ latest subscriber_buffer (seen ++ e ∷ []))
unfolding offer
offer-latest seen e s c h = rw c (
  refl,
  ap (λ b. (if leb subscriber_buffer (length b) then drop_first b else b) ++ e ∷ []) h
      ∙ sym (latest_snoc subscriber_buffer seen e (omega arith)),
)

offer_all-latest :
    (seen es : List LogEvent) (s : Subscriber)
    → s.closed ≡ false
    → s.buffer ≡ latest subscriber_buffer seen
    → (offer_all es s).buffer ≡ latest subscriber_buffer (seen ++ es)
offer_all-latest seen [] s c h = h ∙ ap (latest subscriber_buffer) (sym (append-nil seen))
offer_all-latest seen (e ∷ es) s c h =
    let (c', h') = offer-latest seen e s c h in
    offer_all-latest (seen ++ e ∷ []) es (offer e s) c' h'
    ∙ ap (latest subscriber_buffer) (append_assoc seen (e ∷ []) es)

-- events handed over one after the other
abbrev pub fan_out_all : List LogEvent → Bus → Bus
fan_out_all [] bus = bus
fan_out_all (e ∷ es) bus = fan_out_all es (fan_out e bus)

watchers-fan_out :
    (e : LogEvent) (bus : Bus) (run_id : String)
    → watchers (fan_out e bus) run_id
      ≡ (if e.run_id == run_id then map (offer e) (watchers bus run_id) else watchers bus run_id)
unfolding fan_out
watchers-fan_out e bus run_id = elim (Option-cases (lookup bus.subscribers e.run_id)) [
  | inl n ↦ elim (Bool-cases (e.run_id == run_id)) [
    | inl b ↦
        let q : e.run_id ≡ run_id = ground (arith, eq_iff e.run_id run_id, b) in
        ground (arith, n, b, subst (λ r. lookup bus.subscribers r ≡ none) q n)
    | inr b ↦ ground (arith, n, b)
  ]
  | inr (ss, k) ↦
      let f : watchers (fan_out e bus) run_id
          ≡ (if e.run_id == run_id then map (offer e) ss else watchers bus run_id) =
        ground (arith, k, lookup-insert bus.subscribers e.run_id run_id (map (offer e) ss)) in
      elim (Bool-cases (e.run_id == run_id)) [
        | inl b ↦
            let q : e.run_id ≡ run_id = ground (arith, eq_iff e.run_id run_id, b) in
            ground (arith, f, b, subst (λ r. lookup bus.subscribers r ≡ some ss) q k)
        | inr b ↦ ground (arith, f, b)
      ]
]

map_self : (ss : List Subscriber) → map (offer_all []) ss ≡ ss
map_self [] = refl
map_self (s ∷ ss) = ap (λ l. s ∷ l) (map_self ss)

map-offer_all :
    (e : LogEvent) (es : List LogEvent) (ss : List Subscriber)
    → map (offer_all es) (map (offer e) ss) ≡ map (offer_all (e ∷ es)) ss
map-offer_all e es [] = refl
map-offer_all e es (s ∷ ss) = ap (λ l. offer_all es (offer e s) ∷ l) (map-offer_all e es ss)

-- Events handed over one after the other: every watcher of a run gets the events of that run, in
-- that order, and no other event; and a watcher whose loop is open, that held the latest events of
-- those before, then holds the latest of all that it was given, as many as its buffer takes.
pub fan_out_all_lem :
    (es : List LogEvent) (bus : Bus) (run_id : String) (seen : List LogEvent) (s : Subscriber)
    → s.closed ≡ false
    → s.buffer ≡ latest subscriber_buffer seen
    → (watchers (fan_out_all es bus) run_id ≡ map (offer_all (own run_id es)) (watchers bus run_id))
      × ((offer_all (own run_id es) s).buffer ≡ latest subscriber_buffer (seen ++ own run_id es))
fan_out_all_lem es bus run_id seen s c h =
    (reach es bus, offer_all-latest seen (own run_id es) s c h)
  where
    reach :
        (es : List LogEvent) (bus : Bus)
        → watchers (fan_out_all es bus) run_id
          ≡ map (offer_all (own run_id es)) (watchers bus run_id)
    reach [] bus = sym (map_self (watchers bus run_id))
    reach (e ∷ es) bus = elim (Bool-cases (e.run_id == run_id)) [
      | inl b ↦ rw b (
          reach es (fan_out e bus)
          ∙ ap (map (offer_all (own run_id es))) (watchers-fan_out e bus run_id ∙ rw b refl)
          ∙ map-offer_all e (own run_id es) (watchers bus run_id))
      | inr b ↦ rw b (
          reach es (fan_out e bus)
          ∙ ap (map (offer_all (own run_id es))) (watchers-fan_out e bus run_id ∙ rw b refl))
    ]
