-- ===== src/Contracts/Graph/Kahn.antt =====
-- `WorkflowGraph._reject_cycles` of packages/cwap_contracts/v4/graph.py: Kahn's algorithm.
-- `indegree` is a dict; the Python list `queue` is popped at its end, which is the head here.
-- Each round pops one node and no node is queued twice, so one round for each node is enough fuel.
pub mod Inner
pub mod Relax
pub mod Loop
pub mod Correct
use ae_cwap.Prelude.{
  ℕ, zero, suc, ◌+◌, ◌-◌, String, Bool, true, false, ◌==◌, Option, none, some, List, [], ◌∷◌, map,
  foldl, reverse, length, nat_eq, if◌then◌else◌,
}
use ae_cwap.Contracts.Graph.{WorkflowEdge, WorkflowGraph, edges_from, node_ids}

abbrev pub Degrees : Type 0
Degrees = List (String × ℕ)

pub degree : Degrees → String → Option ℕ
degree [] k = none
degree ((j, d) ∷ ds) k = if j == k then some d else degree ds k

-- `indegree[k] = v` on a key that is there; on another key nothing changes
pub assign : Degrees → String → ℕ → Degrees
assign [] k v = []
assign ((j, d) ∷ ds) k v = if j == k then (j, v) ∷ ds else (j, d) ∷ assign ds k v

-- `dict.fromkeys(node_ids, 0)`
abbrev pub zeros : List String → Degrees
zeros = map (λ (id : String). (id, ℕ.zero))

-- `indegree[edge.target] += 1`; the validator has checked that every target is a key
pub increment : Degrees → WorkflowEdge → Degrees
increment ds e = elim (degree ds e.target) [ none ↦ ds | some d ↦ assign ds e.target (suc d) ]

pub indegrees : List String → List WorkflowEdge → Degrees
indegrees ids es = foldl increment (zeros ids) es

-- the keys of degree 0, in the dict's order
pub roots_of : Degrees → List String
roots_of [] = []
roots_of ((j, d) ∷ ds) = let rest = roots_of ds in if nat_eq d 0 then j ∷ rest else rest

pub record Frontier : Type 0 where
  pub degrees : Degrees
  pub queue : List String

-- the body of the inner loop: one edge out of the popped node. The new degree is 0 exactly if the
-- old one is 1; a degree of 0 is never met here, so the truncated `-` is exact.
pub relax : Frontier → WorkflowEdge → Frontier
relax f e = elim (degree f.degrees e.target) [
  | none ↦ f
  | some d ↦ record {
    degrees = assign f.degrees e.target (d - 1);
    queue = if nat_eq d 1 then e.target ∷ f.queue else f.queue;
  }
]

pub relax_all : Frontier → List WorkflowEdge → Frontier
relax_all = foldl relax

-- the `while` loop: how many nodes were visited; `none` is the end of the fuel
pub visit_all : List WorkflowEdge → ℕ → Frontier → ℕ → Option ℕ
visit_all es zero f visited = elim f.queue [ [] ↦ some visited | _ ∷ _ ↦ none ]
visit_all es (suc fuel) f visited = elim f.queue [
  | [] ↦ some visited
  | current ∷ rest ↦
      visit_all es fuel
        (relax_all (record { degrees = f.degrees; queue = rest }) (edges_from es current))
        (suc visited)
]

pub start : List String → List WorkflowEdge → Frontier
start ids es = let ds = indegrees ids es in record { degrees = ds; queue = reverse (roots_of ds) }

-- whether every node was visited
unfoldable pub accepts_order : WorkflowGraph → Option Bool
unfolding degree assign increment indegrees roots_of relax relax_all visit_all start
accepts_order g =
    let ids = node_ids g.nodes in
    elim (visit_all g.edges (length ids) (start ids g.edges) 0) [
      | none ↦ none
      | some visited ↦ some (nat_eq visited (length ids))
    ]
