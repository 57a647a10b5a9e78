-- ===== src/Common/Gateway/Publishing.antt =====
-- `ProducerWrapper.publish` of packages/cwap_common/contract_gateway.py, and the job it publishes.
use ae_cwap.Contracts.Job.{WorkflowJobPayload}
use ae_cwap.Common.Authz.{User}
use ae_cwap.Common.Gateway.{
  Codec, Settings, Gateway, ContractError, messages, send, receive, publish, take_next, accept,
  checked, validate_payload, assert_authorized,
}
use ae_cwap.Prelude.{
  ◌↔◌, eq_self, subst, ap, ◌∙◌, Result-cases, inr, inl, arith, ◌≡◌, some, List, [], ◌∷◌, ok, err,
  ◌++◌, String, ◌==◌, false,
}
use ae_cwap.Common.Gateway.Delivery.{
  IsAccepted, checked_sound, checked_complete, messages-send, messages-insert,
}

module _ (codec : Codec) (settings : Settings) (users : List User) where
  -- what publishing a job leaves: its body is the last message of the work queue, and every other
  -- queue, the dead letters and their count are as they were
  pub record IsQueued (p : WorkflowJobPayload) (g g' : Gateway) : Type 0 where
    pub last :
        messages g'.queues settings.work_queue
        ≡ messages g.queues settings.work_queue ++ codec.dump p ∷ []
    pub others :
        (name : String)
        → (settings.work_queue == name) ≡ false
        → messages g'.queues name ≡ messages g.queues name
    pub letters : g'.dead_letters ≡ g.dead_letters
    pub counted : g'.dead_lettered ≡ g.dead_lettered

  -- the queues after a job has been put on the work queue
  abbrev pub queued : WorkflowJobPayload → Gateway → Gateway
  queued p g = record g { queues = send g.queues settings.work_queue (codec.dump p) }

  publish_ok :
      (p q : WorkflowJobPayload) (g : Gateway)
      → checked codec settings users (codec.dump p) ≡ ok q
      → publish codec settings users p g ≡ ok (q, queued q g)
  unfolding publish checked
  publish_ok p q g h = elim (Result-cases (validate_payload codec settings users (codec.dump p))) [
    | inl (e, v) ↦ absurd (ground (arith, v, h))
    | inr (x, v) ↦
        elim (Result-cases (
          assert_authorized codec settings users x.job_context
            x.next_step_definition.target_service)) [
              | inl (e, w) ↦ absurd (ground (arith, v, w, h))
              | inr (held, w) ↦
                  let same : x ≡ q = ground (arith, v, w, h) in ground (arith, v, w, same)
            ]
  ]

  publish_err :
      (p : WorkflowJobPayload) (g : Gateway) (x : ContractError)
      → checked codec settings users (codec.dump p) ≡ err x
      → publish codec settings users p g ≡ err x
  unfolding publish checked
  publish_err p g x h = elim (Result-cases (validate_payload codec settings users (codec.dump p))) [
    | inl (e, v) ↦ ground (arith, v, h)
    | inr (y, v) ↦
        elim (Result-cases (
          assert_authorized codec settings users y.job_context
            y.next_step_definition.target_service)) [
              | inl (e, w) ↦ ground (arith, v, w, h)
              | inr (held, w) ↦ absurd (ground (arith, v, w, h))
            ]
  ]

  publishes :
      (p q : WorkflowJobPayload) (g g' : Gateway)
      → codec.parse (codec.dump p) ≡ some p
      → (publish codec settings users p g ≡ ok (q, g'))
        ↔ ((q ≡ p) × IsAccepted codec settings users p × (g' ≡ queued p g))
  publishes p q g g' law = (sound, complete)
    where
      sound :
          publish codec settings users p g ≡ ok (q, g')
          → (q ≡ p) × IsAccepted codec settings users p × (g' ≡ queued p g)
      sound h = elim (Result-cases (checked codec settings users (codec.dump p))) [
        | inl (e, c) ↦ absurd (ground (arith, publish_err p g e c, h))
        | inr (x, c) ↦
            let (parses, accepted) = checked_sound codec settings users (codec.dump p) x c in
            let same : x ≡ p = ground (arith, parses, law) in
            let written = publish_ok p x g c in
            (
              ground (arith, written, h, same),
              subst (IsAccepted codec settings users) same accepted,
              ground (arith, written, h, ap (λ (y : WorkflowJobPayload). queued y g) same),
            )
      ]

      complete :
          (q ≡ p) × IsAccepted codec settings users p × (g' ≡ queued p g)
          → publish codec settings users p g ≡ ok (q, g')
      complete (same, a, after) =
          publish_ok p p g (checked_complete codec settings users (codec.dump p) p law a)
          ∙ ap ok (ground (arith, same, after))

  -- A job that is published when the work queue is empty is the next that is taken, with the queue
  -- empty again.
  pub take_next-publish :
      (p q : WorkflowJobPayload) (g g' : Gateway)
      → codec.parse (codec.dump p) ≡ some p
      → messages g.queues settings.work_queue ≡ []
      → publish codec settings users p g ≡ ok (q, g')
      → ((take_next codec settings users g').0 ≡ some p)
        × (messages (take_next codec settings users g').1.queues settings.work_queue ≡ [])
        × ((take_next codec settings users g').1.dead_letters ≡ g.dead_letters)
  unfolding take_next receive accept
  take_next-publish p q g g' law empty h =
      let (_, a, after) = (publishes p q g g' law).0 h in
      let work : messages g'.queues settings.work_queue ≡ codec.dump p ∷ [] = ground (
        arith,
        empty,
        ap (λ (x : Gateway). messages x.queues settings.work_queue) after,
        eq_self settings.work_queue,
        messages-send g.queues settings.work_queue settings.work_queue (codec.dump p),
      ) in
      let passes = checked_complete codec settings users (codec.dump p) p law a in
      (
        ground (arith, work, passes),
        ground (
          arith,
          work,
          passes,
          eq_self settings.work_queue,
          messages-insert g'.queues settings.work_queue settings.work_queue [],
        ),
        ground (arith, work, passes, ap (λ (x : Gateway). x.dead_letters) after),
      )
