-- ===== src/Contracts/Graph/Kahn/Correct.antt =====
-- `_reject_cycles` accepts exactly the graphs that have no cycle.
use ae_cwap.Prelude.{
  ◌∙◌, ap, ℕ, zero, suc, ◌≤◌, ◌<◌, ◌≡◌, refl, String, Bool, true, ◌==◌, some, List, [], ◌∷◌, arith,
  eq_iff, contains, IsNodup, length, All, In, All-of_In, All-In, if◌then◌else◌, inl, inr, nat_eq,
  contains_of_length, length-le-length,
}
use ae_cwap.Contracts.Graph.{WorkflowEdge, WorkflowGraph, node_ids}
use ae_cwap.Contracts.Graph.Kahn.{Frontier, accepts_order, start}
use ae_cwap.Contracts.Graph.Kahn.Inner.{pending}
use ae_cwap.Contracts.Graph.Kahn.Loop.{IsOrder, Inv-start, Ended, visit_ends, pending_of_popped}

-- Levels along which every edge goes up.
abbrev pub IsRanking : List WorkflowEdge → (String → ℕ) → Type 0
IsRanking es rank = All (λ e. rank e.source < rank e.target) es

-- how many nodes had been popped before `n`
abbrev position : List String → String → ℕ
position [] n = 0
position (c ∷ popped) n = if c == n then suc (length popped) else position popped n

position-le-length : (popped : List String) (n : String) → position popped n ≤ length popped
position-le-length [] n = omega arith
position-le-length (c ∷ popped) n = ground (arith, position-le-length popped n)

-- an edge that is not pending starts at a popped node
popped_of_settled :
    (es : List WorkflowEdge) (popped : List String) (e : WorkflowEdge)
    → pending es popped e.target ≡ 0
    → In e es
    → contains popped e.source ≡ true
popped_of_settled [] popped e z m = absurd m
popped_of_settled (x ∷ es) popped e z (inl p) = ground (
  arith,
  ap (λ (w : WorkflowEdge). w.target) p,
  ap (λ (w : WorkflowEdge). w.source) p,
  eq_iff x.target e.target,
)
popped_of_settled (x ∷ es) popped e z (inr m) = popped_of_settled es popped e (ground arith) m

edge_up :
    (es : List WorkflowEdge) (popped : List String) (e : WorkflowEdge)
    → IsNodup popped
    → IsOrder es popped
    → In e es
    → contains popped e.target ≡ true
    → position popped e.source < position popped e.target
edge_up es [] e u o m t = cc
edge_up es (c ∷ popped) e u o m t =
    let settled : pending es popped e.target ≡ 0 =
      ground (arith, pending_of_popped es popped e.target o.1, eq_iff c e.target) in
    let before = popped_of_settled es popped e settled m in
    ground (
      arith,
      before,
      u.0,
      eq_iff c e.source,
      eq_iff c e.target,
      position-le-length popped e.source,
      edge_up es popped e u.1 o.1 m,
    )

-- with a ranking, a node of which every predecessor is popped is settled
settled_of_popped :
    (es : List WorkflowEdge) (popped : List String) (n : String)
    → ((e : WorkflowEdge) → In e es → e.target ≡ n → contains popped e.source ≡ true)
    → pending es popped n ≡ 0
settled_of_popped [] popped n h = refl
settled_of_popped (e ∷ es) popped n h = ground (
  arith,
  settled_of_popped es popped n (λ x m t. h x (inr m) t),
  h e (inl refl),
  eq_iff e.target n,
)

module _ (ids : List String) (es : List WorkflowEdge) where
  -- Under a ranking an empty queue means that every node was popped.
  All-popped :
      (rank : String → ℕ) (popped : List String) (f : Frontier)
      → IsRanking es rank
      → All (λ e. contains ids e.source ≡ true) es
      → Ended ids es popped f
      → (k : ℕ) (n : String) → rank n < k
      → contains ids n ≡ true
      → contains popped n ≡ true
  All-popped rank popped f up src h zero n l i = absurd (omega arith)
  All-popped rank popped f up src h (suc k) n l i =
      let settled = settled_of_popped es popped n (λ e m t.
        let below : rank e.source < rank e.target =
          All-In (λ (x : WorkflowEdge). rank x.source < rank x.target) es e up m in
        All-popped rank popped f up src h k e.source (omega (arith, below, ap rank t))
          (All-In (λ (x : WorkflowEdge). contains ids x.source ≡ true) es e src m)) in
      let in_either = h.inv.full n i settled in rw h.empty at in_either

-- both ends of every edge are nodes
abbrev pub IsKnown : List String → WorkflowEdge → Type 0
IsKnown ids e = (contains ids e.source ≡ true) × (contains ids e.target ≡ true)

module _ (g : WorkflowGraph) (once : IsNodup (node_ids g.nodes)) where
  abbrev ids : List String
  ids = node_ids g.nodes

  record Verdict : Type 0 where
    popped : List String
    last : Frontier
    says : accepts_order g ≡ some (nat_eq (length popped) (length ids))
    ended : Ended ids g.edges popped last

  verdict : Verdict
  unfolding accepts_order
  verdict =
      let (popped, f, e, h) =
        visit_ends ids g.edges (length ids) (start ids g.edges) [] (omega arith)
          (Inv-start ids g.edges once) in
      record { popped = popped; last = f; says = rw (e, accepts_order); ended = h }

  -- an accepted order gives levels that are at most as many as the nodes
  pub bounded_rank :
      All (IsKnown ids) g.edges
      → accepts_order g ≡ some true
      → (rank : String → ℕ) × IsRanking g.edges rank × ((n : String) → rank n ≤ length ids)
  bounded_rank ends h =
      let v = verdict in
      let inv = v.ended.inv in
      let full : length v.popped ≡ length ids = ground (arith, v.says, h) in
      (
        position v.popped,
        All-of_In (λ (e : WorkflowEdge). position v.popped e.source < position v.popped e.target)
            g.edges
            (λ e m. edge_up g.edges v.popped e inv.popped_once inv.order m (
              contains_of_length v.popped ids inv.popped_once inv.popped_known
                (ground (arith, full)) e.target (All-In (IsKnown ids) g.edges e ends m).1)),
        λ n. omega (arith, full, position-le-length v.popped n),
      )

  -- The check ends, and it accepts exactly if the nodes have levels along which every edge goes
  -- up.
  pub accepts_order_iff :
      All (IsKnown ids) g.edges
      → (b : Bool) × (accepts_order g ≡ some b)
        × (b ≡ true → (rank : String → ℕ) × IsRanking g.edges rank)
        × ((rank : String → ℕ) → IsRanking g.edges rank → b ≡ true)
  accepts_order_iff ends =
      let v = verdict in
      let inv = v.ended.inv in
      (
        nat_eq (length v.popped) (length ids),
        v.says,
        λ full. (
          (bounded_rank ends (v.says ∙ ap some full)).0,
          (bounded_rank ends (v.says ∙ ap some full)).1,
        ),
        λ rank up.
            let all =
              All-popped ids g.edges rank v.popped v.last up
                (All-of_In (λ (e : WorkflowEdge). contains ids e.source ≡ true) g.edges
                  (λ e m. (All-In (IsKnown ids) g.edges e ends m).0))
                v.ended in
            let most = length-le-length v.popped ids inv.popped_once inv.popped_known in
            let least =
              length-le-length ids v.popped once (λ n i. all (suc (rank n)) n (omega arith) i) in
            ground (arith, most, least),
      )
