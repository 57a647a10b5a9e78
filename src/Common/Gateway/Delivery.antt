-- ===== src/Common/Gateway/Delivery.antt =====
-- What the wrappers of packages/cwap_common/contract_gateway.py promise: what reaches a worker has
-- passed both checks, and what has not is kept with its reason.
use ae_cwap.Contracts.Job.{WorkflowJobPayload, validate_job}
use ae_cwap.Common.Authz.{User, authorize}
use ae_cwap.Common.Gateway.{
  Queues, Codec, Settings, Gateway, DeadLetter, ContractError, messages, send, receive, take_next,
  accept, park, checked, validate_payload, assert_authorized,
}
use ae_cwap.Prelude.{
  refl, eq_self, eq_iff, sym, subst, ap, ◌∙◌, Result-cases, inr, inl, List-cases, ◌≢◌, Option-cases,
  lookup-insert, ◌==◌, if◌then◌else◌, arith, ◌≡◌, String, suc, Option, none, some, List, [], ◌∷◌,
  ◌++◌, ok, err, insert,
}

pub messages-send :
    (qs : List (String × List String)) (name other body : String)
    → messages (send qs name body) other
      ≡ (if name == other then messages qs name ++ body ∷ [] else messages qs other)
unfolding send
messages-send qs name other body =
    ground (arith, lookup-insert qs name other (messages qs name ++ body ∷ []))

pub messages-insert :
    (qs : List (String × List String)) (name other : String) (bodies : List String)
    → messages (insert qs name bodies) other ≡ (if name == other then bodies else messages qs other)
messages-insert qs name other bodies = ground (arith, lookup-insert qs name other bodies)

module _ (codec : Codec) (settings : Settings) (users : List User) where
  -- a job that passes both checks
  pub record IsAccepted (p : WorkflowJobPayload) : Type 0 where
    pub valid : validate_job p ≡ ok tt
    pub held : List String
    pub allowed :
        authorize settings.upper users p.job_context p.next_step_definition.target_service ≡ ok held

  pub checked_sound :
      (raw : String) (p : WorkflowJobPayload)
      → checked codec settings users raw ≡ ok p
      → (codec.parse raw ≡ some p) × IsAccepted p
  unfolding checked validate_payload assert_authorized
  checked_sound raw p h = elim (Option-cases (codec.parse raw)) [
    | inl q ↦ absurd (ground (arith, q, h))
    | inr (x, q) ↦ elim (Result-cases (validate_job x)) [
      | inl (e, v) ↦ absurd (ground (arith, q, v, h))
      | inr (_, v) ↦
          elim (Result-cases
            (authorize settings.upper users x.job_context x.next_step_definition.target_service)) [
              | inl (e, a) ↦ absurd (ground (arith, q, v, a, h))
              | inr (scopes, a) ↦
                  let same : x ≡ p = ground (arith, q, v, a, h) in
                  (
                    q ∙ ap some same,
                    subst IsAccepted same (record { valid = v; held = scopes; allowed = a }),
                  )
            ]
    ]
  ]

  pub checked_complete :
      (raw : String) (p : WorkflowJobPayload)
      → codec.parse raw ≡ some p
      → IsAccepted p
      → checked codec settings users raw ≡ ok p
  unfolding checked validate_payload assert_authorized
  checked_complete raw p q a = ground (arith, q, a.valid, a.allowed)

  -- the sink keeps the reason and the text, and the counter goes up
  pub record IsParked (raw : String) (rest : List String) (g g' : Gateway) : Type 0 where
    pub error : ContractError
    pub refused : checked codec settings users raw ≡ err error
    pub letter : DeadLetter
    pub kept : g'.dead_letters ≡ g.dead_letters ++ letter ∷ []
    pub as_read : letter.payload ≡ raw
    pub with_reason : letter.reason ≡ error
    pub counted : g'.dead_lettered ≡ suc g.dead_lettered
    pub others : messages g'.queues settings.work_queue ≡ rest
    pub told :
        messages g'.queues settings.dead_letter_queue
        ≡ messages g.queues settings.dead_letter_queue
          ++ settings.envelope settings.work_queue error raw ∷ []

  -- what one call of `next` does
  pub data IsTaken (g : Gateway) : Option WorkflowJobPayload → Gateway → Type 0 where
    idle : messages g.queues settings.work_queue ≡ [] → IsTaken g none g
    delivered :
        {raw : String} {rest : List String} {p : WorkflowJobPayload} {g' : Gateway}
        → messages g.queues settings.work_queue ≡ raw ∷ rest
        → codec.parse raw ≡ some p
        → IsAccepted p
        → messages g'.queues settings.work_queue ≡ rest
        → g'.dead_letters ≡ g.dead_letters
        → IsTaken g (some p) g'
    parked :
        {raw : String} {rest : List String} {g' : Gateway}
        → messages g.queues settings.work_queue ≡ raw ∷ rest
        → IsParked raw rest g g'
        → IsTaken g none g'

  abbrev Outcome : Type 0
  Outcome = Option WorkflowJobPayload × Gateway

  park_lem :
      (raw : String) (rest : List String) (e : ContractError) (g : Gateway) (queues : Queues)
      → settings.work_queue ≢ settings.dead_letter_queue
      → checked codec settings users raw ≡ err e
      → queues ≡ insert g.queues settings.work_queue rest
      → IsParked raw rest g (accept codec settings users raw (record g { queues = queues })).1
  unfolding accept park
  park_lem raw rest e g queues apart h q = record {
    error = e;
    refused = h;
    letter = record {
      queue = settings.work_queue;
      reason = e;
      run_id = codec.run_id_of raw;
      payload = raw;
    };
    kept = ground (arith, h);
    as_read = refl;
    with_reason = refl;
    counted = ground (arith, h);
    others = ground (
      arith,
      h,
      q,
      apart,
      eq_iff settings.work_queue settings.dead_letter_queue,
      eq_iff settings.dead_letter_queue settings.work_queue,
      eq_self settings.work_queue,
      messages-send queues settings.dead_letter_queue settings.work_queue
          (settings.envelope settings.work_queue e raw),
      messages-insert g.queues settings.work_queue settings.work_queue rest,
    );
    told = ground (
      arith,
      h,
      q,
      apart,
      eq_iff settings.work_queue settings.dead_letter_queue,
      eq_self settings.dead_letter_queue,
      messages-send queues settings.dead_letter_queue settings.dead_letter_queue
          (settings.envelope settings.work_queue e raw),
      messages-insert g.queues settings.work_queue settings.dead_letter_queue rest,
    );
  }

  -- Where the two queues have different names, taking from the work queue either finds it empty and
  -- changes nothing, or delivers the oldest message
  -- as a job that passes both checks, or parks it, with the reason, among the dead letters and on
  -- their queue, and counts it; the other messages stay in order.
  pub take_next_lem :
      (g : Gateway)
      → settings.work_queue ≢ settings.dead_letter_queue
      → IsTaken g (take_next codec settings users g).0 (take_next codec settings users g).1
  unfolding take_next receive accept park
  take_next_lem g apart = elim (List-cases (messages g.queues settings.work_queue)) [
    | inl q ↦
        let e : take_next codec settings users g ≡ (none, g) = ground (arith, q) in
        subst (λ (x : Outcome). IsTaken g x.0 x.1) (sym e) (idle q)
    | inr (raw, rest, q) ↦
        let g₁ : Gateway = record g { queues = insert g.queues settings.work_queue rest } in
        let e : take_next codec settings users g ≡ accept codec settings users raw g₁ =
          ground (arith, q) in
        elim (Result-cases (checked codec settings users raw)) [
          | inl (x, c) ↦
              let same : (accept codec settings users raw g₁).0 ≡ none = ground (arith, c) in
              let done : IsParked raw rest g (accept codec settings users raw g₁).1 =
                park_lem raw rest x g _ apart c refl in
              subst (λ (x : Outcome). IsTaken g x.0 x.1) (sym e)
                (subst
                  (λ (o : Option WorkflowJobPayload).
                    IsTaken g o (accept codec settings users raw g₁).1)
                  (sym same) (parked q done))
          | inr (p, c) ↦
              let (parses, accepted) = checked_sound raw p c in
              let same : accept codec settings users raw g₁ ≡ (some p, g₁) = ground (arith, c) in
              subst (λ (x : Outcome). IsTaken g x.0 x.1) (sym (e ∙ same))
                (delivered q parses accepted
                  (ground (
                    arith,
                    messages-insert g.queues settings.work_queue settings.work_queue rest,
                    eq_self settings.work_queue,
                  ))
                  refl)
        ]
  ]
