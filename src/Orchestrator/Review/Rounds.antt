-- ===== src/Orchestrator/Review/Rounds.antt =====
-- What the review loop of services/orchestrator/review.py returns.
use ae_cwap.Contracts.Graph.{ReviewConfig}
use ae_cwap.Orchestrator.Branch.{Python}
use ae_cwap.Orchestrator.Review.{ReviewOutcome, Note, approves, rounds_from, run_loop}
use ae_cwap.Prelude.{
  length-append, refl, Bool-cases, inr, inl, Result-cases, subst, arith, ◌≡◌, ℕ, zero, suc, ◌+◌,
  ◌≤◌, String, true, false, [], ◌∷◌, ◌++◌, Result, ok, length, sym,
}

module _ (py : Python) (first_line : String → String) {E : Type 0} (phrase : String)
    (critique : ℕ → String → Result E String) (revise : ℕ → String → String → Result E String) where
  -- the text after so many rounds in which the reviewer asked for changes: the draft, or what the
  -- author made in that round of the text before and the verdict on it
  pub data IsRevision (draft : String) : ℕ → String → Type 0 where
    drafted : IsRevision draft 0 draft
    revised_text :
        {n : ℕ} {before text : String} (verdict : String)
        → IsRevision draft n before
        → critique (suc n) before ≡ ok verdict
        → approves py first_line verdict phrase ≡ false
        → revise (suc n) before verdict ≡ ok text
        → IsRevision draft (suc n) text

  -- how a loop ends: with a text that the reviewer has just approved, or after all rounds with the
  -- last revision
  pub data IsReviewed (draft : String) (last : ℕ) (o : ReviewOutcome) : Type 0 where
    passed :
        (n : ℕ) (verdict : String)
        → o.rounds ≡ suc n
        → IsRevision draft n o.text
        → critique o.rounds o.text ≡ ok verdict
        → approves py first_line verdict phrase ≡ true
        → o.approved ≡ true
        → o.rounds ≤ last
        → length o.notes ≡ o.rounds
        → IsReviewed draft last o
    stands :
        IsRevision draft last o.text
        → o.approved ≡ false
        → o.rounds ≡ last
        → length o.notes ≡ last
        → IsReviewed draft last o

  rounds-IsReviewed :
      (draft : String) (left round last : ℕ) (o p : ReviewOutcome)
      → IsRevision draft o.rounds o.text
      → left + o.rounds ≡ last
      → o.approved ≡ false
      → suc o.rounds ≡ round
      → length o.notes ≡ o.rounds
      → rounds_from py first_line phrase critique revise left round o ≡ ok p
      → IsReviewed draft last p
  unfolding rounds_from
  rounds-IsReviewed draft zero round last o p t l a r n h =
      let q : record o { events = o.events ++ "review.unapproved" ∷ [] } ≡ p = ground (arith, h) in
      subst (IsReviewed draft last) q (
        stands (subst (λ n. IsRevision draft n o.text) (omega (arith, l)) t) a (omega (arith, l))
          (omega (arith, l, n)))
  rounds-IsReviewed draft (suc left) round last o p t l a r n h =
      elim (Result-cases (critique round o.text)) [
        | inl (e, c) ↦ absurd (ground (arith, c, h))
        | inr (verdict, c) ↦ elim (Bool-cases (approves py first_line verdict phrase)) [
          | inl y ↦
              let done : ReviewOutcome = record {
                text = o.text;
                rounds = round;
                approved = true;
                notes = o.notes ++ Note.approval round ∷ [];
                events = o.events ++ "review.started" ∷ "review.approved" ∷ [];
              } in
              let q : done ≡ p = ground (arith, c, y, h) in
              subst (IsReviewed draft last) q (
                passed o.rounds verdict (sym r) t c y refl (omega (arith, l, r))
                  (omega (arith, n, r, length-append o.notes (Note.approval round ∷ []))))
          | inr y ↦ elim (Result-cases (revise round o.text verdict)) [
            | inl (e, v) ↦ absurd (ground (arith, c, y, v, h))
            | inr (revised, v) ↦
                let next : ReviewOutcome = record {
                  text = revised;
                  rounds = round;
                  approved = o.approved;
                  notes = o.notes ++ Note.changes round verdict ∷ [];
                  events = o.events ++ "review.started" ∷ "review.changes" ∷ [];
                } in
                rounds-IsReviewed draft left (suc round) last next p
                  (subst (λ n. IsRevision draft n revised) r
                    (revised_text verdict t (subst (λ n. critique n o.text ≡ ok verdict) (sym r) c)
                      y (subst (λ n. revise n o.text verdict ≡ ok revised) (sym r) v)))
                  (omega (arith, l, r)) a refl
                  (omega (arith, n, r, length-append o.notes (Note.changes round verdict ∷ [])))
                  (ground (arith, c, y, v, h))
          ]
        ]
      ]

  -- A review that returns has approved the very text that it returns, in its last round, by a
  -- verdict of the reviewer on that text, or it has used all its rounds without an approval. In both
  -- cases the text is the latest revision: the draft, or what the author's last answer was, each
  -- round having revised the text of the round before by a verdict on it that did not approve. There
  -- is one note for each round.
  pub run_loop_lem :
      (config : ReviewConfig) (draft : String) (o : ReviewOutcome)
      → run_loop py first_line phrase critique revise config draft ≡ ok o
      → IsReviewed draft config.max_rounds o
  unfolding run_loop
  run_loop_lem config draft o h =
      rounds-IsReviewed draft config.max_rounds 1 config.max_rounds
        (record { text = draft; rounds = 0; approved = false; notes = []; events = [] }) o drafted
        (omega arith) refl refl refl h

  -- the loop from any round on
  rounds_return :
      (left round : ℕ) (o : ReviewOutcome)
      → ((n : ℕ) (draft : String) → (v : String) × (critique n draft ≡ ok v))
      → ((n : ℕ) (draft v : String) → (t : String) × (revise n draft v ≡ ok t))
      → (p : ReviewOutcome) × (rounds_from py first_line phrase critique revise left round o ≡ ok p)
  unfolding rounds_from
  rounds_return zero round o c r =
      (record o { events = o.events ++ "review.unapproved" ∷ [] }, refl)
  rounds_return (suc left) round o c r =
      let (verdict, q) = c round o.text in
      elim (Bool-cases (approves py first_line verdict phrase)) [
        | inl y ↦ (
          record {
            text = o.text;
            rounds = round;
            approved = true;
            notes = o.notes ++ Note.approval round ∷ [];
            events = o.events ++ "review.started" ∷ "review.approved" ∷ [];
          },
          ground (arith, q, y),
        )
        | inr y ↦
            let (revised, v) = r round o.text verdict in
            let (p, e) =
              rounds_return left (suc round)
                (record {
                  text = revised;
                  rounds = round;
                  approved = o.approved;
                  notes = o.notes ++ Note.changes round verdict ∷ [];
                  events = o.events ++ "review.started" ∷ "review.changes" ∷ [];
                })
                c r in
            (p, ground (arith, q, y, v, e))
      ]

  -- Where the agents always answer, the review ends with an outcome, after at most the configured
  -- rounds.
  pub run_loop_ends :
      (config : ReviewConfig) (draft : String)
      → ((n : ℕ) (text : String) → (v : String) × (critique n text ≡ ok v))
      → ((n : ℕ) (text v : String) → (t : String) × (revise n text v ≡ ok t))
      → (o : ReviewOutcome) × (run_loop py first_line phrase critique revise config draft ≡ ok o)
        × (o.rounds ≤ config.max_rounds)
  unfolding run_loop
  run_loop_ends config draft c r =
      let (o, e) =
        rounds_return config.max_rounds 1
          (record { text = draft; rounds = 0; approved = false; notes = []; events = [] }) c r in
      (o, e, bounded o (run_loop_lem config draft o e))
    where
      bounded :
          (o : ReviewOutcome) → IsReviewed draft config.max_rounds o → o.rounds ≤ config.max_rounds
      bounded o (passed m v s t q y a l n) = l
      bounded o (stands t a l n) = omega (arith, l)
