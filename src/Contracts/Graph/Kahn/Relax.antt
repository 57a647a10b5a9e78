-- ===== src/Contracts/Graph/Kahn/Relax.antt =====
-- The inner loop: the degrees fall by the edges seen, and what falls to zero is queued once.
use ae_cwap.Prelude.{
  ℕ, ◌-◌, ◌≤◌, String, Bool, true, false, ◌==◌, ◌&&◌, ◌||◌, ◌≡◌, Option, none, some, List, [], ◌∷◌,
  arith, eq_iff, contains, IsNodup, ltb, nat_eq, if◌then◌else◌, Option-cases, inl, inr,
}
use ae_cwap.Contracts.Graph.{WorkflowEdge}
use ae_cwap.Contracts.Graph.Kahn.{degree, Frontier, relax, relax_all}
use ae_cwap.Contracts.Graph.Kahn.Inner.{arrivals, over, degree-assign}

degree-relax :
    (f : Frontier) (e : WorkflowEdge) (n : String)
    → degree (relax f e).degrees n
      ≡ (if e.target == n then over (λ d. d - 1) (degree f.degrees n) else degree f.degrees n)
unfolding relax
degree-relax f e n = elim (Option-cases (degree f.degrees e.target)) [
  | inl p ↦ rw (p, relax) (ground (arith, p, eq_iff e.target n))
  | inr (d, p) ↦
      rw (p, relax)
        (ground (arith, p, degree-assign f.degrees e.target n (d - 1), eq_iff e.target n))
]

pub degree-relax_all :
    (es : List WorkflowEdge) (f : Frontier) (n : String)
    → degree (relax_all f es).degrees n ≡ over (λ d. d - arrivals es n) (degree f.degrees n)
unfolding relax_all
degree-relax_all [] f n = ground arith
degree-relax_all (e ∷ es) f n =
    ground (arith, degree-relax_all es (relax f e) n, degree-relax f e n)

-- whether `a` arrivals bring a degree to zero
abbrev pub hits : Option ℕ → ℕ → Bool
hits none a = false
hits (some d) a = ltb 0 a && nat_eq d a

abbrev pub AtMost : ℕ → Option ℕ → Type 0
AtMost a none = Unit
AtMost a (some d) = a ≤ d

contains-relax :
    (f : Frontier) (e : WorkflowEdge) (n : String)
    → contains (relax f e).queue n
      ≡ ((e.target == n && hits (degree f.degrees n) 1) || contains f.queue n)
unfolding relax
contains-relax f e n = elim (Option-cases (degree f.degrees e.target)) [
  | inl p ↦ rw (p, relax) (ground (arith, p, eq_iff e.target n))
  | inr (d, p) ↦ rw (p, relax) (ground (arith, p, eq_iff e.target n))
]

-- The queue gains exactly the nodes whose degree the edges bring to zero.
pub contains-relax_all :
    (es : List WorkflowEdge) (f : Frontier) (n : String)
    → AtMost (arrivals es n) (degree f.degrees n)
    → contains (relax_all f es).queue n
      ≡ (hits (degree f.degrees n) (arrivals es n) || contains f.queue n)
unfolding relax_all
contains-relax_all [] f n h = ground arith
contains-relax_all (e ∷ es) f n h = elim (Option-cases (degree f.degrees n)) [
  | inl p ↦
      ground
        (arith, contains-relax_all es (relax f e) n, contains-relax f e n, degree-relax f e n, p)
  | inr (d, p) ↦
      ground
        (arith, contains-relax_all es (relax f e) n, contains-relax f e n, degree-relax f e n, p)
]

relax-IsNodup :
    (f : Frontier) (e : WorkflowEdge)
    → contains f.queue e.target ≡ false
    → IsNodup f.queue
    → IsNodup (relax f e).queue
unfolding relax
relax-IsNodup f e new u = elim (Option-cases (degree f.degrees e.target)) [
  | inl p ↦ rw (p, relax) u
  | inr (d, p) ↦ rw (p, relax) (ground arith)
]

-- No node is queued twice, if no edge leads to a node that waits already.
pub relax_all-IsNodup :
    (es : List WorkflowEdge) (f : Frontier)
    → ((n : String) → AtMost (arrivals es n) (degree f.degrees n))
    → ((n : String) → contains f.queue n ≡ true → arrivals es n ≡ 0)
    → IsNodup f.queue
    → IsNodup (relax_all f es).queue
unfolding relax_all
relax_all-IsNodup [] f h w u = u
relax_all-IsNodup (e ∷ es) f h w u =
    relax_all-IsNodup es (relax f e) (λ n. ground (arith, h n, degree-relax f e n))
      (λ n m. ground (arith, h n, w n, contains-relax f e n))
      (relax-IsNodup f e (ground (arith, w e.target, eq_iff e.target e.target)) u)
