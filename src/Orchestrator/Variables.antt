-- ===== src/Orchestrator/Variables.antt =====
-- services/orchestrator/variables.py: how an edge's bindings are resolved against a run's state. An
-- error is the kind of the failure; `isdigit` and `int` read ASCII digits.
pub mod Texts
pub mod Resolve
use ae_cwap.Prelude.{
  ℕ, zero, suc, ◌+◌, ◌*◌, String, Option, none, some, List, [], ◌∷◌, Result, ok, err, ◌>>=◌, lookup,
  insert, if◌then◌else◌, ◌==◌,
}
use ae_cwap.Value.{Value, Items, Fields, null, bool, num, text, arr, obj, nil, cons, end, field}
use ae_cwap.Value.Dict.{get}
use ae_cwap.Orchestrator.Variables.Texts.{split_dots, strip_dollar, number}

pub data BindingError : Type 0 where
  bad_run_reference first_step bad_step_reference : BindingError
  not_completed no_value unknown_namespace : String → BindingError

pub record RunContext : Type 0 where
  pub run_id : String
  pub inputs : Fields
  pub steps : List (String × Fields)
  pub previous_node_id : Option String

-- `record`, which is a reserved word here
unfoldable pub record_step : RunContext → String → Fields → RunContext
record_step c node_id output = record c {
  steps = insert c.steps node_id output;
  previous_node_id = some node_id;
}

abbrev pub or_empty : Option Fields → Fields
or_empty none = end
or_empty (some d) = d

unfoldable pub previous_output : RunContext → Fields
previous_output c = elim c.previous_node_id [ none ↦ end | some id ↦ or_empty (lookup c.steps id) ]

-- the `n`-th item
item : Items → ℕ → Option Value
item nil n = none
item (cons v vs) zero = some v
item (cons v vs) (suc n) = item vs n

-- one step of `_dig`; no step leads into what is neither a dict nor a list
child : Value → String → Option Value
unfolding item
child (obj d) key = get d key
child (arr vs) key = elim (number key) [ none ↦ none | some n ↦ item vs n ]
child _ key = none

unfoldable pub dig : Value → List String → Result BindingError Value
unfolding child
dig current [] = ok current
dig current (key ∷ path) = elim (child current key) [
  | none ↦ err (BindingError.no_value key)
  | some v ↦ dig v path
]

-- `$run.input.<key>`, from what follows `run`
run_reference : List String → RunContext → Result BindingError Value
run_reference (kind ∷ key ∷ path) c =
    if kind == "input" then dig (obj c.inputs) (key ∷ path) else err BindingError.bad_run_reference
run_reference _ c = err BindingError.bad_run_reference

-- `$output.<key>`
output_reference : List String → RunContext → Result BindingError Value
output_reference path c = elim c.previous_node_id [
  | none ↦ err BindingError.first_step
  | some _ ↦ dig (obj (previous_output c)) path
]

-- `$steps.<node>.<key>`
step_reference : List String → RunContext → Result BindingError Value
step_reference (id ∷ key ∷ path) c = elim (lookup c.steps id) [
  | none ↦ err (BindingError.not_completed id)
  | some output ↦ dig (obj output) (key ∷ path)
]
step_reference _ c = err BindingError.bad_step_reference

-- the reference behind `$`, split at the dots; `split` never returns an empty list
unfoldable pub resolve_parts : List String → RunContext → Result BindingError Value
unfolding run_reference output_reference step_reference
resolve_parts [] c = err (BindingError.unknown_namespace "")
resolve_parts (root ∷ rest) c =
    if root == "run"
    then run_reference rest c
    else if root == "output"
    then output_reference rest c
    else if root == "steps"
    then step_reference rest c
    else err (BindingError.unknown_namespace root)

-- what does not start with `$` is a literal
unfoldable pub resolve : String → RunContext → Result BindingError Value
unfolding resolve_parts strip_dollar split_dots
resolve expression c = elim (strip_dollar expression) [
  | none ↦ ok (text expression)
  | some reference ↦ resolve_parts (split_dots reference) c
]

-- `resolve` of a param, which need not be a text
unfoldable pub resolve_value : Value → RunContext → Result BindingError Value
unfolding resolve
resolve_value (text expression) c = resolve expression c
resolve_value v c = ok v

-- a dict comprehension over a dict: the names are distinct, and their order is kept
unfoldable pub resolve_bindings : List (String × String) → RunContext → Result BindingError Fields
resolve_bindings [] c = ok end
resolve_bindings ((name, expression) ∷ rest) c = do
  v ← resolve expression c
  others ← resolve_bindings rest c
  ok (field name v others)
