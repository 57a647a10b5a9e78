-- ===== src/Orchestrator/Branch.antt =====
-- The decision nodes of services/orchestrator/executors.py: `COMPARATORS`, `evaluate_branch`,
-- `_coerce`, `_numeric` and `_preview`. Floating-point numbers and Python's text conversions are
-- the parameter `Python`.
use ae_cwap.Prelude.{
  Result-cases, subst, >>=-eq-ok, inr, arith, inl, Option-cases, ◌≡◌, ℕ, zero, suc, String, Bool,
  not, Option, none, some, Result, ok, err, ◌>>=◌, ltb, if◌then◌else◌, ◌==◌,
}
use ae_cwap.Value.{Value, Fields, bool, text, end, field}
use ae_cwap.Value.Dict.{get}
use ae_cwap.Contracts.Graph.{WorkflowNode}
use ae_cwap.Orchestrator.Variables.{RunContext, resolve_value}

-- What `_coerce` makes of a value: a text becomes a number if it reads as one.
pub data Coerced (Number : Type 0) : Type 0 where
  number : Number → Coerced Number
  lowered : String → Coerced Number
  other : Value → Coerced Number

-- Python's numbers and conversions. `float` of a value and `parse` of a text are `none` where
-- Python raises; `equal` is `==` of the values that `_coerce` returns.
pub record Python : Type 1 where
  pub Number : Type 0
  pub str : Value → String
  pub lower : String → String
  pub strip : String → String
  pub in_text : String → String → Bool
  pub float : Value → Option Number
  pub parse : String → Option Number
  pub lt : Number → Number → Bool
  pub le : Number → Number → Bool
  pub equal : Coerced Number → Coerced Number → Bool

pub data Operator : Type 0 where
  eq ne gt ge lt le contains not_contains is_empty is_not_empty : Operator

-- the keys of `COMPARATORS`
unfoldable pub operator_named : String → Option Operator
operator_named s =
    if s == "=="
    then some Operator.eq
    else if s == "!="
    then some Operator.ne
    else if s == ">"
    then some Operator.gt
    else if s == ">="
    then some Operator.ge
    else if s == "<"
    then some Operator.lt
    else if s == "<="
    then some Operator.le
    else if s == "contains"
    then some Operator.contains
    else if s == "not_contains"
    then some Operator.not_contains
    else if s == "is_empty"
    then some Operator.is_empty
    else if s == "is_not_empty"
    then some Operator.is_not_empty
    else none

-- Why a node fails, and what the planner cannot do. `missing_node` is the KeyError of `node`.
pub data NodeExecutionError : Type 0 where
  unknown_operator binding not_numeric : String → NodeExecutionError
  too_many_branches missing_node : String → NodeExecutionError
  no_edge : String → Bool → NodeExecutionError
  terminal_step : NodeExecutionError
  raised : String → NodeExecutionError

abbrev text_length : String → ℕ
text_length String.[] = 0
text_length (String.◌∷◌ c s) = suc (text_length s)

-- `s[:n] + "…"`
abbrev cut : ℕ → String → String
cut zero s = "…"
cut (suc n) String.[] = "…"
cut (suc n) (String.◌∷◌ c s) = String.◌∷◌ c (cut n s)

abbrev preview_limit : ℕ
preview_limit = 200

unfoldable pub preview : Value → Value
preview (text s) = if ltb preview_limit (text_length s) then text (cut preview_limit s) else text s
preview v = v

abbrev get_or : Fields → String → Value → Value
get_or d key default = elim (get d key) [ none ↦ default | some v ↦ v ]

pub record BranchOutcome : Type 0 where
  pub output : Fields
  pub derived_context : Fields
  pub decision : Bool

-- `resolve` inside the `try`
unfoldable pub resolve_param : String → Value → RunContext → Result NodeExecutionError Value
resolve_param id v c = elim (resolve_value v c) [
  | ok r ↦ ok r
  | err e ↦ err (NodeExecutionError.binding id)
]

-- What a decision's own data may cause: nothing that the graph's validator rules out.
abbrev pub IsRunFault : NodeExecutionError → Type 0
IsRunFault (NodeExecutionError.missing_node _) = ⊥
IsRunFault (NodeExecutionError.no_edge _ _) = ⊥
IsRunFault NodeExecutionError.terminal_step = ⊥
IsRunFault (NodeExecutionError.raised _) = ⊥
IsRunFault _ = Unit

resolve_param_error :
    (id : String) (v : Value) (c : RunContext) (x : NodeExecutionError)
    → resolve_param id v c ≡ err x
    → IsRunFault x
unfolding resolve_param
resolve_param_error id v c x h = elim (Result-cases (resolve_value v c)) [
  | inl (e, q) ↦
      let same : NodeExecutionError.binding id ≡ x = ground (arith, q, h) in
      subst IsRunFault same tt
  | inr (r, q) ↦ absurd (ground (arith, q, h))
]

module _ (py : Python) where
  open py use {
    Number, str, lower, strip, in_text, float, parse, lt as lt_number, le as le_number, equal,
  }

  coerce_text : String → Option Number → Coerced Number
  coerce_text s (some n) = number n
  coerce_text s none = lowered (lower s)

  coerce_value : Value → Coerced Number
  unfolding coerce_text
  coerce_value (text s) = coerce_text (strip s) (parse (strip s))
  coerce_value v = other v

  -- a comparison by size raises unless both sides are numbers
  by_size : (Number → Number → Bool) → Option Number → Option Number → Option Bool
  by_size test (some a) (some b) = some (test a b)
  by_size test _ _ = none

  unfoldable pub apply : Operator → Value → Value → Option Bool
  unfolding coerce_value by_size
  apply Operator.eq a b = some (equal (coerce_value a) (coerce_value b))
  apply Operator.ne a b = some (not (equal (coerce_value a) (coerce_value b)))
  apply Operator.gt a b = by_size (λ m n. lt_number n m) (float a) (float b)
  apply Operator.ge a b = by_size (λ m n. le_number n m) (float a) (float b)
  apply Operator.lt a b = by_size lt_number (float a) (float b)
  apply Operator.le a b = by_size le_number (float a) (float b)
  apply Operator.contains a b = some (in_text (lower (str b)) (lower (str a)))
  apply Operator.not_contains a b = some (not (in_text (lower (str b)) (lower (str a))))
  apply Operator.is_empty a b = some (strip (str a) == "")
  apply Operator.is_not_empty a b = some (not (strip (str a) == ""))

  unfoldable pub decide :
      String → String → Operator → Value → Value → Result NodeExecutionError BranchOutcome
  unfolding apply preview
  decide id name op left right = elim (apply op left right) [
    | none ↦ err (NodeExecutionError.not_numeric id)
    | some b ↦ ok (record {
      output = field "decision" (bool b) (field "evaluated" (preview left) end);
      derived_context = field "operator" (text name) end;
      decision = b;
    })
  ]

  unfoldable pub evaluate_branch :
      WorkflowNode → RunContext → Result NodeExecutionError BranchOutcome
  evaluate_branch node context =
      let name = lower (str (get_or node.params "operator" (text "=="))) in
      elim (operator_named name) [
        | none ↦ err (NodeExecutionError.unknown_operator node.id)
        | some op ↦ (do
          left ← resolve_param node.id (get_or node.params "left" (text "")) context
          right ← resolve_param node.id (get_or node.params "right" (text "")) context
          decide node.id name op left right)
      ]

  decide_recorded :
      (id name : String) (op : Operator) (left right : Value) (outcome : BranchOutcome)
      → decide id name op left right ≡ ok outcome
      → get outcome.output "decision" ≡ some (bool outcome.decision)
  unfolding decide get
  decide_recorded id name op left right outcome h = elim (Option-cases (apply op left right)) [
    | inl e ↦ absurd (ground (arith, e))
    | inr (b, e) ↦ ground (arith, e)
  ]

  -- The decision that is returned is the one that the output records for the run's state.
  pub decision_recorded :
      (node : WorkflowNode) (context : RunContext) (outcome : BranchOutcome)
      → evaluate_branch node context ≡ ok outcome
      → get outcome.output "decision" ≡ some (bool outcome.decision)
  unfolding evaluate_branch
  decision_recorded node context outcome h =
      let name = lower (str (get_or node.params "operator" (text "=="))) in
      elim (Option-cases (operator_named name)) [
        | inl e ↦ absurd (ground (arith, e))
        | inr (op, e) ↦
            let (l, _, h₁) =
              >>=-eq-ok (resolve_param node.id (get_or node.params "left" (text "")) context)
                (λ left.
                  resolve_param node.id (get_or node.params "right" (text "")) context
                  >>= decide node.id name op left)
                (rw (e, evaluate_branch) at h) in
            let (r, _, h₂) =
              >>=-eq-ok (resolve_param node.id (get_or node.params "right" (text "")) context)
                (decide node.id name op l) h₁ in
            decide_recorded node.id name op l r outcome h₂
      ]

  decide_error :
      (id name : String) (op : Operator) (left right : Value) (x : NodeExecutionError)
      → decide id name op left right ≡ err x
      → IsRunFault x
  unfolding decide
  decide_error id name op left right x h = elim (Option-cases (apply op left right)) [
    | inl e ↦
        let same : NodeExecutionError.not_numeric id ≡ x = ground (arith, e, h) in
        subst IsRunFault same tt
    | inr (b, e) ↦ absurd (ground (arith, e, h))
  ]

  pub evaluate_branch_error :
      (node : WorkflowNode) (context : RunContext) (x : NodeExecutionError)
      → evaluate_branch node context ≡ err x
      → IsRunFault x
  unfolding evaluate_branch
  evaluate_branch_error node context x h =
      let name = lower (str (get_or node.params "operator" (text "=="))) in
      let l = get_or node.params "left" (text "") in
      let r = get_or node.params "right" (text "") in
      elim (Option-cases (operator_named name)) [
        | inl e ↦
            let same : NodeExecutionError.unknown_operator node.id ≡ x = ground (arith, e, h) in
            subst IsRunFault same tt
        | inr (op, e) ↦ elim (Result-cases (resolve_param node.id l context)) [
          | inl (y, p) ↦
              subst IsRunFault (ground (arith, e, p, h)) (resolve_param_error node.id l context y p)
          | inr (left, p) ↦ elim (Result-cases (resolve_param node.id r context)) [
            | inl (y, q) ↦
                subst IsRunFault (ground (arith, e, p, q, h))
                  (resolve_param_error node.id r context y q)
            | inr (right, q) ↦
                decide_error node.id name op left right x (ground (arith, e, p, q, h))
          ]
        ]
      ]
