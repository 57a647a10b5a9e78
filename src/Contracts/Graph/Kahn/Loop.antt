-- ===== src/Contracts/Graph/Kahn/Loop.antt =====
-- The outer loop: what holds before each round, and that it ends within one round for each node.
use ae_cwap.Prelude.{
  zero, ℕ, length, subst, length-le-length, ◌+◌, suc, List-cases, inl, inr, ◌+◌, ◌≤◌, ◌≡◌, refl,
  String, true, false, ◌&&◌, ◌||◌, none, some, List, [], ◌∷◌, arith, eq_iff, eq_self, contains,
  IsNodup, nat_eq, if◌then◌else◌, contains-reverse, reverse-IsNodup,
}
use ae_cwap.Contracts.Graph.{WorkflowEdge, edges_from}
use ae_cwap.Contracts.Graph.Kahn.{degree, Frontier, relax_all, visit_all, start}
use ae_cwap.Contracts.Graph.Kahn.Inner.{
  arrivals, pending, pending-nil, pending-cons, degree-indegrees, roots-IsNodup, contains-roots,
}
use ae_cwap.Contracts.Graph.Kahn.Relax.{
  AtMost, hits, degree-relax_all, contains-relax_all, relax_all-IsNodup,
}

-- Nodes in the order in which they were popped, the last one first: when a node is popped, every
-- edge into it starts at a node that was popped before.
abbrev pub IsOrder : List WorkflowEdge → List String → Type 0
IsOrder es [] = Unit
IsOrder es (n ∷ popped) = (pending es popped n ≡ 0) × IsOrder es popped

pending_mono :
    (es : List WorkflowEdge) (c : String) (popped : List String) (n : String)
    → pending es (c ∷ popped) n ≤ pending es popped n
pending_mono [] c popped n = omega arith
pending_mono (e ∷ es) c popped n = ground (arith, pending_mono es c popped n)

-- No edge is pending at a node that was popped.
pub pending_of_popped :
    (es : List WorkflowEdge) (popped : List String) (n : String)
    → IsOrder es popped
    → contains popped n ≡ true
    → pending es popped n ≡ 0
pending_of_popped es [] n h m = cc
pending_of_popped es (c ∷ popped) n h m =
    ground (arith, pending_of_popped es popped n h.1, pending_mono es c popped n, eq_iff c n)

module _ (ids : List String) (es : List WorkflowEdge) where
  pub record Inv (popped : List String) (f : Frontier) : Type 0 where
    pub degrees :
        (n : String)
        → degree f.degrees n ≡ (if contains ids n then some (pending es popped n) else none)
    pub known : (n : String) → contains f.queue n ≡ true → contains ids n ≡ true
    pub fresh : (n : String) → contains f.queue n ≡ true → contains popped n ≡ false
    pub ready : (n : String) → contains f.queue n ≡ true → pending es popped n ≡ 0
    pub full :
        (n : String)
        → contains ids n ≡ true
        → pending es popped n ≡ 0
        → (contains f.queue n || contains popped n) ≡ true
    pub queue_once : IsNodup f.queue
    pub popped_once : IsNodup popped
    pub popped_known : (n : String) → contains popped n ≡ true → contains ids n ≡ true
    pub order : IsOrder es popped

  pub Inv-start : IsNodup ids → Inv [] (start ids es)
  unfolding start
  Inv-start u = record {
    degrees = λ n. ground (arith, degree-indegrees ids es n, pending-nil es n);
    known = λ n m. ground (arith, facts n);
    fresh = λ n m. refl;
    ready = λ n m. ground (arith, facts n, pending-nil es n);
    full = λ n k z. ground (arith, facts n, pending-nil es n);
    queue_once = reverse-IsNodup _ (roots-IsNodup ids es u);
    popped_once = tt;
    popped_known = λ n m. cc;
    order = tt;
  }
    where
      facts :
          (n : String)
          → contains (start ids es).queue n ≡ (contains ids n && nat_eq (arrivals es n) 0)
      facts n = rw contains-reverse (contains-roots ids es n u)

  module _ (popped : List String) (f : Frontier) (c : String)
      (h : Inv popped (record { degrees = f.degrees; queue = c ∷ f.queue })) where
    abbrev out : List WorkflowEdge
    out = edges_from es c

    -- popping `c` and then following its edges leaves the edges that are still pending
    settle : (n : String) → pending es popped n ≡ arrivals out n + pending es (c ∷ popped) n
    settle n = pending-cons es c popped n (h.fresh c (rw eq_self))

    room : (n : String) → AtMost (arrivals out n) (degree f.degrees n)
    room n = ground (arith, h.degrees n, settle n)

    queued :
        (n : String)
        → contains (relax_all f out).queue n
          ≡ (hits (degree f.degrees n) (arrivals out n) || contains f.queue n)
    queued n = contains-relax_all out f n (room n)

    fresh-queue :
        (n : String) → contains (relax_all f out).queue n ≡ true → contains (c ∷ popped) n ≡ false
    fresh-queue n m = ground (
      arith,
      queued n,
      h.degrees n,
      h.fresh n,
      h.ready n,
      h.ready c,
      h.queue_once,
      pending_of_popped es popped n h.order,
      eq_iff c n,
    )

    pub Inv-step : Inv (c ∷ popped) (relax_all f out)
    Inv-step = record {
      degrees = λ n. ground (arith, degree-relax_all out f n, h.degrees n, settle n);
      known = λ n m. ground (arith, queued n, h.degrees n, h.known n);
      fresh = λ n m. fresh-queue n m;
      ready = λ n m. ground (arith, queued n, h.degrees n, h.ready n, settle n);
      full = λ n k z. ground (arith, queued n, h.degrees n, h.full n, settle n);
      queue_once =
          relax_all-IsNodup out f room (λ n m. ground (arith, h.ready n, settle n)) h.queue_once.1;
      popped_once = (h.fresh c (rw eq_self), h.popped_once);
      popped_known = λ n m. ground (arith, h.popped_known n, h.known n, eq_iff c n);
      order = (h.ready c (rw eq_self), h.order);
    }

  -- The state of a loop that has ended.
  pub record Ended (popped : List String) (f : Frontier) : Type 0 where
    pub inv : Inv popped f
    pub empty : f.queue ≡ []

  -- A node waits in the queue only if not all are popped.
  room-popped :
      (f : Frontier) (popped : List String) (c : String) (rest : List String)
      → f.queue ≡ c ∷ rest
      → Inv popped f
      → suc (length popped) ≤ length ids
  room-popped f popped c rest e h =
      let waits : contains f.queue c ≡ true = rw e (rw eq_self) in
      length-le-length (c ∷ popped) ids (h.fresh c waits, h.popped_once)
        (λ n m. ground (arith, h.popped_known n, h.known c waits, eq_iff c n))

  pub visit_ends :
      (fuel : ℕ) (f : Frontier) (popped : List String)
      → length ids ≤ fuel + length popped
      → Inv popped f
      → (last : List String) × (f' : Frontier) × (visit_all es fuel f (length popped)
          ≡ some (length last))
        × Ended last f'
  unfolding visit_all
  visit_ends zero f popped b h = elim (List-cases f.queue) [
    | inl e ↦ (popped, f, rw (e, visit_all), record { inv = h; empty = e })
    | inr (c, rest, e) ↦ absurd (omega (arith, room-popped f popped c rest e h))
  ]
  visit_ends (suc fuel) f popped b h = elim (List-cases f.queue) [
    | inl e ↦ (popped, f, rw (e, visit_all), record { inv = h; empty = e })
    | inr (c, rest, e) ↦
        let g : Frontier = record { degrees = f.degrees; queue = rest } in
        let h' : Inv popped (record { degrees = f.degrees; queue = c ∷ rest }) =
          subst (λ q. Inv popped (record { degrees = f.degrees; queue = q })) e h in
        rw (e, visit_all)
          (visit_ends fuel (relax_all g (edges_from es c)) (c ∷ popped) (omega arith)
            (Inv-step popped g c h'))
  ]
