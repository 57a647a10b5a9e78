-- ===== src/Orchestrator/Review.antt =====
-- services/orchestrator/review.py: the loop in which a reviewer criticises a draft and its author
-- revises it. The agents are the parameters `critique` and `revise`, given the round, since a model
-- may answer differently each time; what they raise is `E`. Briefs and log messages are left out.
-- `first_line` stands for `splitlines()[0]`.
pub mod Rounds
use Prim.Native.Char.{Char, code}
use ae_cwap.Contracts.Graph.{ReviewConfig}
use ae_cwap.Orchestrator.Branch.{Python}
use ae_cwap.Prelude.{
  ◌≡◌, ℕ, zero, suc, String, Bool, true, false, List, [], ◌∷◌, ◌++◌, ◌&&◌, ◌==◌, nat_eq, Result, ok,
  err, ◌>>=◌, if◌then◌else◌, length,
}

-- `text.startswith(prefix)`
unfoldable pub starts_with : String → String → Bool
starts_with text String.[] = true
starts_with String.[] (String.◌∷◌ d prefix) = false
starts_with (String.◌∷◌ c text) (String.◌∷◌ d prefix) =
    nat_eq (code c) (code d) && starts_with text prefix

unfoldable pub approves : Python → (String → String) → String → String → Bool
approves py first_line verdict phrase =
    let stripped = py.strip verdict in
    let first = if stripped == "" then "" else first_line stripped in
    starts_with (py.lower (py.strip first)) (py.lower (py.strip phrase))

pub data Note : Type 0 where
  approval : ℕ → Note
  changes : ℕ → String → Note

pub record ReviewOutcome : Type 0 where
  pub text : String
  pub rounds : ℕ
  pub approved : Bool
  pub notes : List Note
  pub events : List String

module _ (py : Python) (first_line : String → String) {E : Type 0} (phrase : String)
    (critique : ℕ → String → Result E String) (revise : ℕ → String → String → Result E String) where
  -- the rounds that are left, from the given round on
  unfoldable pub rounds_from : ℕ → ℕ → ReviewOutcome → Result E ReviewOutcome
  rounds_from zero round o = ok (record o { events = o.events ++ "review.unapproved" ∷ [] })
  rounds_from (suc left) round o = do
    verdict ← critique round o.text
    if approves py first_line verdict phrase
        then ok (record {
          text = o.text;
          rounds = round;
          approved = true;
          notes = o.notes ++ Note.approval round ∷ [];
          events = o.events ++ "review.started" ∷ "review.approved" ∷ [];
        })
        else (do
          revised ← revise round o.text verdict
          rounds_from left (suc round) (record {
            text = revised;
            rounds = round;
            approved = o.approved;
            notes = o.notes ++ Note.changes round verdict ∷ [];
            events = o.events ++ "review.started" ∷ "review.changes" ∷ [];
          }))

  unfoldable pub run_loop : ReviewConfig → String → Result E ReviewOutcome
  run_loop config draft =
      rounds_from config.max_rounds 1
        (record { text = draft; rounds = 0; approved = false; notes = []; events = [] })
