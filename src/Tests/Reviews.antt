-- ===== src/Tests/Reviews.antt =====
-- The review loop at a reviewer who is satisfied by the second draft.
use ae_cwap.Contracts.Graph.{ReviewConfig}
use ae_cwap.Orchestrator.Review.{ReviewOutcome, Note, approves, starts_with, rounds_from, run_loop}
use ae_cwap.Orchestrator.Review.Rounds.{IsReviewed, run_loop_lem, run_loop_ends}
use ae_cwap.Tests.Samples.{plain_python}
use ae_cwap.Prelude.{
  inr, arith, inl, ◌≤◌, Bool-cases, ◌≡◌, ℕ, String, true, [], ◌∷◌, Result, ok, refl, if◌then◌else◌,
  ◌==◌,
}

abbrev config : ReviewConfig
config = record { agent_id = "critic"; max_rounds = 3; approval_phrase = "APPROVED" }

abbrev verdict_on : ℕ → String → Result String String
verdict_on n draft = if draft == "second" then ok "APPROVED, well done" else ok "be concrete"

abbrev revision_of : ℕ → String → String → Result String String
revision_of n draft verdict = ok "second"

abbrev line : String → String
line s = s

abbrev accepted : ReviewOutcome
accepted = record {
  text = "second";
  rounds = 2;
  approved = true;
  notes = Note.changes 1 "be concrete" ∷ Note.approval 2 ∷ [];
  events = "review.started" ∷ "review.changes" ∷ "review.started" ∷ "review.approved" ∷ [];
}

loops : run_loop plain_python line "APPROVED" verdict_on revision_of config "first" ≡ ok accepted
unfolding run_loop rounds_from approves starts_with
loops = refl

run_loop_lem_example :
    IsReviewed plain_python line "APPROVED" verdict_on revision_of "first" 3 accepted
run_loop_lem_example =
    run_loop_lem plain_python line "APPROVED" verdict_on revision_of config "first" accepted loops

answers : (n : ℕ) (draft : String) → (v : String) × (verdict_on n draft ≡ ok v)
answers n draft = elim (Bool-cases (draft == "second")) [
  | inl b ↦ ("APPROVED, well done", ground (arith, b))
  | inr b ↦ ("be concrete", ground (arith, b))
]

revises : (n : ℕ) (draft v : String) → (t : String) × (revision_of n draft v ≡ ok t)
revises n draft v = ("second", refl)

run_loop_ends_example :
    (o : ReviewOutcome) × (run_loop plain_python line "APPROVED" verdict_on revision_of config
        "first"
      ≡ ok o)
    × (o.rounds ≤ 3)
run_loop_ends_example =
    run_loop_ends plain_python line "APPROVED" verdict_on revision_of config "first" answers revises
