-- ===== src/Contracts/Graph/Validation/Checks.antt =====
-- The checks of `_validate_structure` of packages/cwap_contracts/v4/graph.py, one by one: what each
-- says of the graph.
use ae_cwap.Prelude.{
  ◌⊎◌, count-pos, inr, count-eq-zero, eq_self, inl, ◌≤◌, ◌≢◌, ◌<◌, eq_iff, Bool-cases, All, IsNodup,
  arith, suc, String, Bool, true, false, ◌≡◌, refl, Option, some, List, [], ◌∷◌, map, length, any,
  contains, count, ltb, ok,
}
use ae_cwap.Contracts.Graph.{WorkflowEdge, WorkflowGraph, node_ids}
use ae_cwap.Contracts.Graph.Kahn.{accepts_order}
use ae_cwap.Contracts.Graph.Validation.{
  conditions, is_choice, insert_condition, sort_conditions, count_pairs, validate_structure,
  check_ends, validate_branches, is_empty, has_repeats, repeats_pair, roots,
}

-- the checks, each with its outcome
pub record Passed (g : WorkflowGraph) : Type 0 where
  pub inhabited : is_empty g.nodes ≡ false
  pub nodes : has_repeats (node_ids g.nodes) ≡ false
  pub edges : has_repeats (map (λ (e : WorkflowEdge). e.id) g.edges) ≡ false
  pub ends : check_ends (node_ids g.nodes) g.edges ≡ ok tt
  pub pairs : repeats_pair g.edges ≡ false
  pub entry : length (roots g) ≡ 1
  pub order : accepts_order g ≡ some true
  pub branches : validate_branches g g.nodes ≡ ok tt

pub Passed-of_ok : (g : WorkflowGraph) → validate_structure g ≡ ok tt → Passed g
unfolding validate_structure
Passed-of_ok g h = ground arith

pub ok_of_Passed : (g : WorkflowGraph) → Passed g → validate_structure g ≡ ok tt
unfolding validate_structure
ok_of_Passed g h = ground arith

-- Texts: no repeats means that each stands once.
count-le_of_any :
    (xs ys : List String) (a : String)
    → any (λ x. ltb 1 (count xs x)) ys ≡ false
    → contains ys a ≡ true
    → count xs a ≤ 1
count-le_of_any xs [] a h m = cc
count-le_of_any xs (y ∷ ys) a h m = ground (arith, count-le_of_any xs ys a, eq_iff y a)

IsNodup-of_count : (xs : List String) → ((a : String) → count xs a ≤ 1) → IsNodup xs
IsNodup-of_count [] h = tt
IsNodup-of_count (x ∷ xs) h =
    (ground (arith, h x, eq_self x, count-pos xs x), IsNodup-of_count xs (λ a. ground (arith, h a)))

pub IsNodup-of_unrepeated : (xs : List String) → has_repeats xs ≡ false → IsNodup xs
IsNodup-of_unrepeated xs h = IsNodup-of_count xs (λ a. elim (Bool-cases (contains xs a)) [
  | inl m ↦ count-le_of_any xs xs a h m
  | inr m ↦ omega (arith, count-eq-zero xs a m)
])

count-le_of_IsNodup : (xs : List String) (a : String) → IsNodup xs → count xs a ≤ 1
count-le_of_IsNodup [] a h = omega arith
count-le_of_IsNodup (x ∷ xs) a h =
    ground (arith, count-le_of_IsNodup xs a, count-eq-zero xs x, eq_iff x a)

pub any-eq-false {ℓ} :
    {A : Type ℓ} (test : A → Bool) (xs : List A) → ((x : A) → test x ≡ false) → any test xs ≡ false
any-eq-false test [] h = refl
any-eq-false test (x ∷ xs) h = ground (arith, h x, any-eq-false test xs h)

pub unrepeated_of_nodup : (xs : List String) → IsNodup xs → has_repeats xs ≡ false
unrepeated_of_nodup xs h = any-eq-false _ xs (λ a. ground (arith, count-le_of_IsNodup xs a h))

-- Pairs.
count_pairs-le_of_any :
    (es fs : List WorkflowEdge) (a b : String)
    → any (λ (e : WorkflowEdge). ltb 1 (count_pairs es e.source e.target)) fs ≡ false
    → 0 < count_pairs fs a b
    → count_pairs es a b ≤ 1
count_pairs-le_of_any es [] a b h m = absurd (omega arith)
count_pairs-le_of_any es (f ∷ fs) a b h m =
    ground (arith, count_pairs-le_of_any es fs a b, eq_iff f.source a, eq_iff f.target b)

pub pairs_once :
    (es : List WorkflowEdge) → repeats_pair es ≡ false → (a b : String) → count_pairs es a b ≤ 1
pairs_once es h a b = elim (Bool-cases (ltb 0 (count_pairs es a b))) [
  | inl m ↦ count_pairs-le_of_any es es a b h (ground arith)
  | inr m ↦ ground arith
]

-- The ends of the edges.
abbrev pub IsJoined : List String → WorkflowEdge → Type 0
IsJoined ids e =
    (contains ids e.source ≡ true) × (contains ids e.target ≡ true) × (e.source ≢ e.target)

pub IsJoined-of_checked :
    (ids : List String) (es : List WorkflowEdge) → check_ends ids es ≡ ok tt → All (IsJoined ids) es
unfolding check_ends
IsJoined-of_checked ids [] h = tt
IsJoined-of_checked ids (e ∷ es) h =
    ground (arith, IsJoined-of_checked ids es, eq_iff e.source e.target)

pub checked_of_joined :
    (ids : List String) (es : List WorkflowEdge) → All (IsJoined ids) es → check_ends ids es ≡ ok tt
unfolding check_ends
checked_of_joined ids [] h = refl
checked_of_joined ids (e ∷ es) h =
    ground (arith, checked_of_joined ids es h.1, eq_iff e.source e.target)

-- Branches: two paths, one for each decision.
length-insert_condition :
    (c : Option Bool) (cs : List (Option Bool)) → length (insert_condition c cs) ≡ suc (length cs)
length-insert_condition c [] = refl
length-insert_condition c (d ∷ ds) = ground (arith, length-insert_condition c ds)

length-sort_conditions : (cs : List (Option Bool)) → length (sort_conditions cs) ≡ length cs
length-sort_conditions [] = refl
length-sort_conditions (c ∷ cs) =
    omega (arith, length-insert_condition c (sort_conditions cs), length-sort_conditions cs)

length_of_choice : (cs : List (Option Bool)) → is_choice cs ≡ true → length cs ≡ 2
length_of_choice cs h = ground arith

-- one edge for each decision, in either order
abbrev pub IsChoice : List WorkflowEdge → Type 0
IsChoice (a ∷ b ∷ []) =
    (a.condition ≡ some false) × (b.condition ≡ some true)
    ⊎ (a.condition ≡ some true) × (b.condition ≡ some false)
IsChoice _ = ⊥

pub IsChoice-of_sorted :
    (out : List WorkflowEdge) → is_choice (sort_conditions (conditions out)) ≡ true → IsChoice out
IsChoice-of_sorted [] h = cc
IsChoice-of_sorted (a ∷ []) h =
    absurd (ground (arith, length_of_choice (sort_conditions (conditions (a ∷ [])))))
IsChoice-of_sorted (a ∷ b ∷ []) h = ground arith
IsChoice-of_sorted (a ∷ b ∷ c ∷ out) h = absurd (
    omega (
      arith,
      length_of_choice (sort_conditions (conditions (a ∷ b ∷ c ∷ out))) h,
      length-sort_conditions (conditions (a ∷ b ∷ c ∷ out)),
    ))

pub sorted_of_choice :
    (out : List WorkflowEdge) → IsChoice out → is_choice (sort_conditions (conditions out)) ≡ true
sorted_of_choice [] h = absurd h
sorted_of_choice (a ∷ []) h = absurd h
sorted_of_choice (a ∷ b ∷ []) h = ground arith
sorted_of_choice (a ∷ b ∷ c ∷ out) h = absurd h
