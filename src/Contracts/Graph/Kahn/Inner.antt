-- ===== src/Contracts/Graph/Kahn/Inner.antt =====
-- The dict of degrees, and the inner loop over the edges out of one node.
use ae_cwap.Prelude.{
  ℕ, suc, ◌+◌, String, Bool, true, false, ◌==◌, ◌&&◌, ◌≡◌, refl, Option, none, some, List, [], ◌∷◌,
  foldl, map, arith, eq_iff, contains, IsNodup, ◌∙◌, nat_eq, if◌then◌else◌, Option-cases, inl, inr,
}
use ae_cwap.Contracts.Graph.{WorkflowEdge, edges_from}
use ae_cwap.Contracts.Graph.Kahn.{Degrees, degree, assign, zeros, increment, indegrees, roots_of}

-- how many of the edges lead to `n`
abbrev pub arrivals : List WorkflowEdge → String → ℕ
arrivals [] n = 0
arrivals (e ∷ es) n = let rest = arrivals es n in if e.target == n then suc rest else rest

-- how many of them start at a node that has not been popped
abbrev pub pending : List WorkflowEdge → List String → String → ℕ
pending [] popped n = 0
pending (e ∷ es) popped n =
    let rest = pending es popped n in
    if e.target == n then (if contains popped e.source then rest else suc rest) else rest

pub pending-nil : (es : List WorkflowEdge) (n : String) → pending es [] n ≡ arrivals es n
pending-nil [] n = refl
pending-nil (e ∷ es) n = ground (arith, pending-nil es n)

-- Popping `c` settles the edges out of it.
pub pending-cons :
    (es : List WorkflowEdge) (c : String) (popped : List String) (n : String)
    → contains popped c ≡ false
    → pending es popped n ≡ arrivals (edges_from es c) n + pending es (c ∷ popped) n
pending-cons [] c popped n h = omega arith
pending-cons (e ∷ es) c popped n h =
    ground (arith, pending-cons es c popped n, eq_iff e.source c, eq_iff c e.source)

abbrev pub over : (ℕ → ℕ) → Option ℕ → Option ℕ
over f none = none
over f (some d) = some (f d)

pub degree-assign :
    (ds : Degrees) (k j : String) (v : ℕ)
    → degree (assign ds k v) j ≡ (if k == j then over (λ _. v) (degree ds j) else degree ds j)
unfolding degree assign
degree-assign [] k j v = ground arith
degree-assign ((i, d) ∷ ds) k j v =
    ground (arith, degree-assign ds k j v, eq_iff i k, eq_iff i j, eq_iff k j)

degree-increment :
    (ds : Degrees) (e : WorkflowEdge) (n : String)
    → degree (increment ds e) n ≡ (if e.target == n then over suc (degree ds n) else degree ds n)
unfolding increment
degree-increment ds e n = elim (Option-cases (degree ds e.target)) [
  | inl p ↦ rw (p, increment) (ground (arith, p, eq_iff e.target n))
  | inr (d, p) ↦
      rw (p, increment) (ground (arith, p, degree-assign ds e.target n (suc d), eq_iff e.target n))
]

pub degree-foldl-increment :
    (es : List WorkflowEdge) (ds : Degrees) (n : String)
    → degree (foldl increment ds es) n ≡ over (λ d. d + arrivals es n) (degree ds n)
degree-foldl-increment [] ds n = ground arith
degree-foldl-increment (e ∷ es) ds n =
    ground (arith, degree-foldl-increment es (increment ds e) n, degree-increment ds e n)

pub degree-zeros :
    (ids : List String) (n : String)
    → degree (zeros ids) n ≡ (if contains ids n then some 0 else none)
unfolding degree
degree-zeros [] n = refl
degree-zeros (i ∷ ids) n = ground (arith, degree-zeros ids n)

-- the keys of the dict
abbrev keys : Degrees → List String
keys = map (λ (entry : String × ℕ). entry.0)

keys-assign : (ds : Degrees) (k : String) (v : ℕ) → keys (assign ds k v) ≡ keys ds
unfolding assign
keys-assign [] k v = refl
keys-assign ((i, d) ∷ ds) k v = ground (arith, keys-assign ds k v)

keys-increment : (ds : Degrees) (e : WorkflowEdge) → keys (increment ds e) ≡ keys ds
unfolding increment
keys-increment ds e = elim (Option-cases (degree ds e.target)) [
  | inl p ↦ rw (p, increment)
  | inr (d, p) ↦ rw (p, increment) (keys-assign ds e.target (suc d))
]

keys-foldl-increment :
    (es : List WorkflowEdge) (ds : Degrees) → keys (foldl increment ds es) ≡ keys ds
keys-foldl-increment [] ds = refl
keys-foldl-increment (e ∷ es) ds = keys-foldl-increment es (increment ds e) ∙ keys-increment ds e

keys-zeros : (ids : List String) → keys (zeros ids) ≡ ids
keys-zeros [] = refl
keys-zeros (i ∷ ids) = cc (keys-zeros ids)

contains-roots_of-keys :
    (ds : Degrees) (n : String) → contains (roots_of ds) n ≡ true → contains (keys ds) n ≡ true
unfolding roots_of
contains-roots_of-keys [] n h = h
contains-roots_of-keys ((j, d) ∷ ds) n h = ground (arith, contains-roots_of-keys ds n)

contains-keys : (ds : Degrees) (n : String) → contains (keys ds) n ≡ false → degree ds n ≡ none
unfolding degree
contains-keys [] n h = refl
contains-keys ((j, d) ∷ ds) n h = ground (arith, contains-keys ds n)

abbrev pub is_zero : Option ℕ → Bool
is_zero none = false
is_zero (some d) = nat_eq d 0

contains-roots_of :
    (ds : Degrees) (n : String)
    → IsNodup (keys ds)
    → contains (roots_of ds) n ≡ is_zero (degree ds n)
unfolding roots_of degree
contains-roots_of [] n h = refl
contains-roots_of ((j, d) ∷ ds) n h =
    ground (arith, contains-roots_of ds n, eq_iff j n, contains-keys ds j, contains-keys ds n)

roots_of-IsNodup : (ds : Degrees) → IsNodup (keys ds) → IsNodup (roots_of ds)
unfolding roots_of
roots_of-IsNodup [] h = tt
roots_of-IsNodup ((j, d) ∷ ds) h = ground (arith, roots_of-IsNodup ds, contains-roots_of-keys ds j)

module _ (ids : List String) (es : List WorkflowEdge) where
  -- After the counting loop each node has the number of edges that lead to it.
  pub degree-indegrees :
      (n : String)
      → degree (indegrees ids es) n ≡ (if contains ids n then some (arrivals es n) else none)
  unfolding indegrees
  degree-indegrees n = ground (arith, degree-foldl-increment es (zeros ids) n, degree-zeros ids n)

  keys-indegrees : keys (indegrees ids es) ≡ ids
  unfolding indegrees
  keys-indegrees = keys-foldl-increment es (zeros ids) ∙ keys-zeros ids

  pub roots-IsNodup : IsNodup ids → IsNodup (roots_of (indegrees ids es))
  roots-IsNodup h = roots_of-IsNodup (indegrees ids es) (rw keys-indegrees h)

  pub contains-roots :
      (n : String)
      → IsNodup ids
      → contains (roots_of (indegrees ids es)) n ≡ (contains ids n && nat_eq (arrivals es n) 0)
  contains-roots n h =
      ground
        (arith, contains-roots_of (indegrees ids es) n (rw keys-indegrees h), degree-indegrees n)
