-- ===== src/Orchestrator/Variables/Texts.antt =====
-- The text operations of services/orchestrator/variables.py: `startswith("$")`, `split(".")`,
-- `isdigit` with `int`.
use Prim.Native.Char.{Char, code}
use text.Mathlib.TextEquality.{Char-path}
use ae_cwap.Prelude.{
  append, ◌∙◌, nat_eq_iff, arith, inr, inl, Bool-cases, ℕ, ◌+◌, ◌*◌, ◌-◌, ◌≡◌, refl, ap, String,
  ◌&&◌, ◌==◌, Option, none, some, List, [], ◌∷◌, leb, nat_eq, if◌then◌else◌,
}

-- `s.split(".")`, which is never empty
unfoldable pub split_dots : String → List String
split_dots String.[] = "" ∷ []
split_dots (String.◌∷◌ c s) = elim (split_dots s) [
  | [] ↦ []
  | w ∷ ws ↦ if nat_eq (code c) b'.' then "" ∷ w ∷ ws else String.◌∷◌ c w ∷ ws
]

-- what follows a leading "$"
unfoldable pub strip_dollar : String → Option String
strip_dollar String.[] = none
strip_dollar (String.◌∷◌ c s) = if nat_eq (code c) b'$' then some s else none

digits : ℕ → String → Option ℕ
digits n String.[] = some n
digits n (String.◌∷◌ c s) =
    if leb b'0' (code c) && leb (code c) b'9' then digits (n * 10 + (code c - b'0')) s else none

-- `int(key)` if `key.isdigit()`
unfoldable pub number : String → Option ℕ
unfolding digits
number key = if key == "" then none else digits 0 key

-- `".".join(parts)`
pub join_dots : List String → String
join_dots [] = ""
join_dots (w ∷ []) = w
join_dots (w ∷ v ∷ ws) = append w (append "." (join_dots (v ∷ ws)))

split_dots_cons : (s : String) → (w : String) × (ws : List String) × (split_dots s ≡ w ∷ ws)
unfolding split_dots
split_dots_cons String.[] = ("", [], refl)
split_dots_cons (String.◌∷◌ c s) =
    let (w, ws, e) = split_dots_cons s in
    elim (Bool-cases (nat_eq (code c) b'.')) [
      | inl d ↦ ("", w ∷ ws, rw (e, d))
      | inr d ↦ (String.◌∷◌ c w, ws, rw (e, d))
    ]

join-cons :
    (c : Char) (w : String) (ws : List String)
    → join_dots (String.◌∷◌ c w ∷ ws) ≡ String.◌∷◌ c (join_dots (w ∷ ws))
unfolding join_dots append
join-cons c w [] = refl
join-cons c w (v ∷ ws) = refl

-- Splitting at the dots and joining by dots gives the text back.
pub join_dots-split_dots : (s : String) → join_dots (split_dots s) ≡ s
unfolding split_dots join_dots append
join_dots-split_dots String.[] = refl
join_dots-split_dots (String.◌∷◌ c s) =
    let (w, ws, e) = split_dots_cons s in
    elim (Bool-cases (nat_eq (code c) b'.')) [
      | inl d ↦
          rw (e, d)
            (cc (
              Char-path c "." (ground (arith, nat_eq_iff (code c) b'.')),
              rw e at (join_dots-split_dots s),
            ))
      | inr d ↦ rw (e, d) (join-cons c w ws ∙ ap (String.◌∷◌ c) (rw e at (join_dots-split_dots s)))
    ]
