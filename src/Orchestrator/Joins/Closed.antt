-- ===== src/Orchestrator/Joins/Closed.antt =====
-- `_is_closed` of services/orchestrator/runner.py ends on every accepted graph, and says exactly
-- which nodes a run's decisions have cut off.
use ae_cwap.Contracts.Graph.{WorkflowEdge, WorkflowNode, WorkflowGraph, node, incoming}
use ae_cwap.Contracts.Graph.Kahn.Correct.{IsRanking}
use ae_cwap.Contracts.Graph.Validation.Accepts.{validate_structure_ranks}
use ae_cwap.Contracts.Graph.Lookups.{incoming_lem}
use ae_cwap.Contracts.Graph.Validation.{validate_structure}
use ae_cwap.Contracts.Graph.Structure.{node_of_edge}
use ae_cwap.Orchestrator.Joins.{
  all_arrived, join_ready, RunState, is_cut, closed_edges, closed_within, is_closed,
}
use ae_cwap.Prelude.{
  leb, ◌⊎◌, ◌≤◌, All-In, ok, List-cases, ap, refl, ◌∙◌, Bool-cases, inr, arith, inl, Option-cases,
  ◌≡◌, ℕ, zero, suc, String, Bool, true, false, Option, none, some, List, [], ◌∷◌, ◌↔◌, ◌<◌, In,
  All, lookup, contains, length,
}

-- whether a decision closes an edge
abbrev pub cuts : WorkflowGraph → RunState → WorkflowEdge → Bool
cuts g s e = elim (node g e.source) [
  | none ↦ false
  | some n ↦ is_cut n.type e.condition (lookup s.decisions n.id)
]

module _ (g : WorkflowGraph) (s : RunState) where
  mutual
    -- A node is cut off if it has inbound edges and every one is closed: by a decision, or because
    -- its source has not finished and is cut off itself.
    pub data CutOff : String → Type 0 where
      cut_off :
          {id : String} {e : WorkflowEdge} {es : List WorkflowEdge}
          → incoming g id ≡ e ∷ es
          → Shut (e ∷ es)
          → CutOff id

    pub data Shut : List WorkflowEdge → Type 0 where
      done : Shut []
      decided :
          {e : WorkflowEdge} {es : List WorkflowEdge} → cuts g s e ≡ true → Shut es → Shut (e ∷ es)
      behind :
          {e : WorkflowEdge} {es : List WorkflowEdge}
          → cuts g s e ≡ false
          → contains s.completed e.source ≡ false
          → CutOff e.source
          → Shut es
          → Shut (e ∷ es)

  edges_total :
      (call : String → Option Bool) (es : List WorkflowEdge)
      → ((e : WorkflowEdge) → In e es → (b : Bool) × (call e.source ≡ some b))
      → ((e : WorkflowEdge) → In e es → (n : WorkflowNode) × (node g e.source ≡ some n))
      → (b : Bool) × (closed_edges call g s es ≡ some b)
  unfolding closed_edges
  edges_total call [] calls known = (true, refl)
  edges_total call (e ∷ es) calls known =
      let (n, p) = known e (inl refl) in
      let (b, q) = calls e (inl refl) in
      let (r, t) = edges_total call es (λ x m. calls x (inr m)) (λ x m. known x (inr m)) in
      elim (Bool-cases (is_cut n.type e.condition (lookup s.decisions n.id))) [
        | inl c ↦ (r, ground (arith, p, c, t))
        | inr c ↦ elim (Bool-cases (contains s.completed e.source)) [
          | inl d ↦ (false, ground (arith, p, c, d))
          | inr d ↦ elim (Bool-cases b) [
            | inl f ↦ (r, ground (arith, p, c, d, q, f, t))
            | inr f ↦ (false, ground (arith, p, c, d, q, f))
          ]
        ]
      ]

  edges_sound :
      (call : String → Option Bool) (es : List WorkflowEdge)
      → ((id : String) → call id ≡ some true → CutOff id)
      → closed_edges call g s es ≡ some true
      → Shut es
  unfolding closed_edges
  edges_sound call [] calls h = done
  edges_sound call (e ∷ es) calls h = elim (Option-cases (node g e.source)) [
    | inl p ↦ absurd (ground (arith, p, h))
    | inr (n, p) ↦ elim (Bool-cases (is_cut n.type e.condition (lookup s.decisions n.id))) [
      | inl c ↦ decided (ground (arith, p, c)) (edges_sound call es calls (ground (arith, p, c, h)))
      | inr c ↦ elim (Bool-cases (contains s.completed e.source)) [
        | inl d ↦ absurd (ground (arith, p, c, d, h))
        | inr d ↦ elim (Option-cases (call e.source)) [
          | inl q ↦ absurd (ground (arith, p, c, d, q, h))
          | inr (b, q) ↦ elim (Bool-cases b) [
            | inr f ↦ absurd (ground (arith, p, c, d, q, f, h))
            | inl f ↦
                behind (ground (arith, p, c)) d (calls e.source (q ∙ ap some f))
                  (edges_sound call es calls (ground (arith, p, c, d, q, f, h)))
          ]
        ]
      ]
    ]
  ]

  edges_complete :
      (call : String → Option Bool) (es : List WorkflowEdge)
      → ((id : String) → call id ≡ some false → ¬ CutOff id)
      → closed_edges call g s es ≡ some false
      → ¬ Shut es
  unfolding closed_edges
  edges_complete call [] calls h t = absurd cc
  edges_complete call (e ∷ es) calls h (decided c t) = elim (Option-cases (node g e.source)) [
    | inl p ↦ ground (arith, p, c)
    | inr (n, p) ↦ edges_complete call es calls (ground (arith, p, c, h)) t
  ]
  edges_complete call (e ∷ es) calls h (behind c d k t) = elim (Option-cases (node g e.source)) [
    | inl p ↦ absurd (ground (arith, p, h))
    | inr (n, p) ↦ elim (Option-cases (call e.source)) [
      | inl q ↦ absurd (ground (arith, p, c, d, q, h))
      | inr (b, q) ↦ elim (Bool-cases b) [
        | inl f ↦ edges_complete call es calls (ground (arith, p, c, d, q, f, h)) t
        | inr f ↦ calls e.source (q ∙ ap some f) k
      ]
    ]
  ]

  within_sound : (k : ℕ) (id : String) → closed_within k g s id ≡ some true → CutOff id
  unfolding closed_within
  within_sound zero id h = absurd cc
  within_sound (suc k) id h = elim (List-cases (incoming g id)) [
    | inl p ↦ absurd (ground (arith, p, h))
    | inr (e, es, p) ↦
        cut_off p
          (edges_sound (closed_within k g s) (e ∷ es) (within_sound k) (ground (arith, p, h)))
  ]

  within_complete : (k : ℕ) (id : String) → closed_within k g s id ≡ some false → ¬ CutOff id
  unfolding closed_within
  within_complete zero id h c = absurd cc
  within_complete (suc k) id h (cut_off {e} {es} p t) =
      edges_complete (closed_within k g s) (e ∷ es) (within_complete k) (ground (arith, p, h)) t

  within_total :
      (rank : String → ℕ)
      → validate_structure g ≡ ok tt
      → IsRanking g.edges rank
      → (k : ℕ) (id : String) → rank id < k
      → (b : Bool) × (closed_within k g s id ≡ some b)
  unfolding closed_within
  within_total rank valid up zero id l = absurd (omega arith)
  within_total rank valid up (suc k) id l = elim (List-cases (incoming g id)) [
    | inl p ↦ (false, ground (arith, p))
    | inr (e, es, p) ↦
        let into : (x : WorkflowEdge) → In x (e ∷ es) → In x g.edges × (x.target ≡ id) =
          λ x m. incoming_lem g id x (rw p m) in
        let below : (x : WorkflowEdge) → In x (e ∷ es) → rank x.source < k = λ x m.
          let above : rank x.source < rank x.target =
            All-In (λ (y : WorkflowEdge). rank y.source < rank y.target) g.edges x up
              (into x m).0 in
          omega (arith, above, ap rank (into x m).1, l) in
        let (b, q) =
          edges_total (closed_within k g s) (e ∷ es)
            (λ x m. within_total rank valid up k x.source (below x m))
            (λ x m. let (n, found, _, _) = (node_of_edge g valid x (into x m).0).0 in (n, found)) in
        (b, ground (arith, p, q))
  ]

  -- On an accepted graph `_is_closed` ends and returns whether the run's decisions have cut the node
  -- off: it has inbound edges, and each is closed by a decision or comes from a node that has not
  -- finished and is cut off itself.
  pub is_closed_iff :
      (id : String)
      → validate_structure g ≡ ok tt
      → (b : Bool) × (is_closed g s id ≡ some b) × ((b ≡ true) ↔ CutOff id)
  unfolding is_closed
  is_closed_iff id valid =
      let fuel = suc (length g.nodes) in
      let (rank, up, most) = validate_structure_ranks g valid in
      let (b, q) = within_total rank valid up fuel id (omega (arith, most id)) in
      (
        b,
        q,
        (
          λ t. within_sound fuel id (q ∙ ap some t),
          λ c. elim (Bool-cases b) [
            | inl t ↦ t
            | inr f ↦ absurd (within_complete fuel id (q ∙ ap some f) c)
          ],
        ),
      )

  pub arrived_total :
      (es : List WorkflowEdge)
      → validate_structure g ≡ ok tt
      → (b : Bool) × (all_arrived g s es ≡ some b)
        × ((b ≡ true)
            ↔ All
                (λ (e : WorkflowEdge). (contains s.completed e.source ≡ true) ⊎ CutOff e.source)
                es)
  unfolding all_arrived
  arrived_total [] valid = (true, refl, (λ _. tt, λ _. refl))
  arrived_total (e ∷ es) valid =
      let (r, t, (there, back)) = arrived_total es valid in
      let (b, q, (cut, open_)) = is_closed_iff e.source valid in
      elim (Bool-cases (contains s.completed e.source)) [
        | inl d ↦ (r, ground (arith, d, t), (λ h. (inl d, there h), λ h. back h.1))
        | inr d ↦ elim (Bool-cases b) [
          | inl f ↦ (r, ground (arith, d, q, f, t), (λ h. (inr (cut f), there h), λ h. back h.1))
          | inr f ↦ (
            false,
            ground (arith, d, q, f),
            (
              λ h. absurd cc,
              λ h. elim h.0 [
                | inl k ↦ absurd (ground (arith, d, k))
                | inr k ↦ absurd (ground (arith, f, open_ k))
              ],
            ),
          )
        ]
      ]

  -- On an accepted graph `_join_ready` ends, and a node with several inbound edges is ready exactly
  -- if each of them comes from a node that has finished or is cut off; any other node is ready.
  pub join_ready_iff :
      (id : String)
      → validate_structure g ≡ ok tt
      → (b : Bool) × (join_ready g s id ≡ some b)
        × ((b ≡ true) ↔ (
            (length (incoming g id) ≤ 1)
            ⊎ All
                (λ (e : WorkflowEdge). (contains s.completed e.source ≡ true) ⊎ CutOff e.source)
                (incoming g id)))
  unfolding join_ready
  join_ready_iff id valid =
      let (b, q, (there, back)) = arrived_total (incoming g id) valid in
      elim (Bool-cases (leb (length (incoming g id)) 1)) [
        | inl l ↦ (true, ground (arith, l), (λ _. inl (ground (arith, l)), λ _. refl))
        | inr l ↦ (
          b,
          ground (arith, l, q),
          (
            λ h. inr (there h),
            λ h. elim h [ inl k ↦ absurd (ground (arith, l, k)) | inr k ↦ back k ],
          ),
        )
      ]
