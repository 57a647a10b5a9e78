-- ===== src/Prelude/Slices.antt =====
-- Python's slices of texts and lists, and what a Boolean filter keeps.
use Prim.Native.Nat.{ℕ, zero, suc, ◌≤◌, ◌-◌, min}
use Prim.Native.String.{String}
use mathlib.Core.Path.{◌≡◌, refl, sym, ap, ◌∙◌}
use mathlib.Core.Logic.{◌⊎◌, inl, inr}
use mathlib.Core.Bool.{Bool, true, false}
use mathlib.Core.List.{List, [], ◌∷◌, ◌++◌}
use native.Mathlib.Omega.{arith}
use ae_cwap.Prelude.Tests.{Bool-cases}
use ae_cwap.Prelude.Lists.{length, All, In, keep}

-- `s[:n]`
unfoldable pub take_text : ℕ → String → String
take_text zero s = String.[]
take_text (suc n) String.[] = String.[]
take_text (suc n) (String.◌∷◌ c s) = String.◌∷◌ c (take_text n s)

module _ {A : Type 0} where
  -- `xs[:n]`
  unfoldable pub take : ℕ → List A → List A
  take zero xs = []
  take (suc n) [] = []
  take (suc n) (x ∷ xs) = x ∷ take n xs

  -- `xs[n:]`
  abbrev pub drop : ℕ → List A → List A
  drop zero xs = xs
  drop (suc n) [] = []
  drop (suc n) (x ∷ xs) = drop n xs

  pub take-append-drop : (n : ℕ) (xs : List A) → take n xs ++ drop n xs ≡ xs
  unfolding take
  take-append-drop zero xs = refl
  take-append-drop (suc n) [] = refl
  take-append-drop (suc n) (x ∷ xs) = ap (λ l. x ∷ l) (take-append-drop n xs)

  pub length-drop : (n : ℕ) (xs : List A) → length (drop n xs) ≡ length xs - n
  length-drop zero xs = omega arith
  length-drop (suc n) [] = omega arith
  length-drop (suc n) (x ∷ xs) = omega (arith, length-drop n xs)

  pub length-take : (n : ℕ) (xs : List A) → length (take n xs) ≡ min n (length xs)
  unfolding take
  length-take zero xs = omega arith
  length-take (suc n) [] = omega arith
  length-take (suc n) (x ∷ xs) = omega (arith, length-take n xs)

  pub keep-append :
      (test : A → Bool) (xs ys : List A) → keep test (xs ++ ys) ≡ keep test xs ++ keep test ys
  keep-append test [] ys = refl
  keep-append test (x ∷ xs) ys = ground (arith, keep-append test xs ys)

  pub keep_swap : (p q : A → Bool) (xs : List A) → keep p (keep q xs) ≡ keep q (keep p xs)
  keep_swap p q [] = refl
  keep_swap p q (x ∷ xs) = ground (arith, keep_swap p q xs)

  pub keep-eq_nil :
      (test : A → Bool) (xs : List A) → All (λ x. test x ≡ false) xs → keep test xs ≡ []
  keep-eq_nil test [] h = refl
  keep-eq_nil test (x ∷ xs) h = rw h.0 (keep-eq_nil test xs h.1)

  pub keep-eq_self :
      (test : A → Bool) (xs : List A) → All (λ x. test x ≡ true) xs → keep test xs ≡ xs
  keep-eq_self test [] h = refl
  keep-eq_self test (x ∷ xs) h = rw h.0 (ap (λ l. x ∷ l) (keep-eq_self test xs h.1))

  pub length-keep-le : (test : A → Bool) (xs : List A) → length (keep test xs) ≤ length xs
  length-keep-le test [] = omega arith
  length-keep-le test (x ∷ xs) = ground (arith, length-keep-le test xs)

  -- what passes stays
  pub keep-In :
      (test : A → Bool) (xs : List A) (x : A) → In x xs → test x ≡ true → In x (keep test xs)
  keep-In test [] x m t = absurd m
  keep-In test (y ∷ xs) x (inl e) t = rw (ap test e ∙ t) (inl e)
  keep-In test (y ∷ xs) x (inr m) t = elim (Bool-cases (test y)) [
    | inl b ↦ rw b (inr (keep-In test xs x m t))
    | inr b ↦ rw b (keep-In test xs x m t)
  ]

  pub length-take-le : (n : ℕ) (xs : List A) → length (take n xs) ≤ n
  unfolding take
  length-take-le zero xs = omega arith
  length-take-le (suc n) [] = omega arith
  length-take-le (suc n) (x ∷ xs) = omega (arith, length-take-le n xs)

  pub In-take : (n : ℕ) (xs : List A) (x : A) → In x (take n xs) → In x xs
  unfolding take
  In-take zero xs x m = absurd m
  In-take (suc n) [] x m = absurd m
  In-take (suc n) (y ∷ xs) x (inl e) = inl e
  In-take (suc n) (y ∷ xs) x (inr m) = inr (In-take n xs x m)

  pub take_whole : (n : ℕ) (xs : List A) → length xs ≤ n → take n xs ≡ xs
  unfolding take
  take_whole zero [] h = refl
  take_whole zero (x ∷ xs) h = absurd (omega arith)
  take_whole (suc n) [] h = refl
  take_whole (suc n) (x ∷ xs) h = ap (λ l. x ∷ l) (take_whole n xs (omega arith))

  pub In-append : (xs ys : List A) (x : A) → In x (xs ++ ys) → In x xs ⊎ In x ys
  In-append [] ys x m = inr m
  In-append (y ∷ xs) ys x (inl e) = inl (inl e)
  In-append (y ∷ xs) ys x (inr m) = elim (In-append xs ys x m) [
    | inl k ↦ inl (inr k)
    | inr k ↦ inr k
  ]

  pub In-keep :
      (test : A → Bool) (xs : List A) (x : A) → In x (keep test xs) → In x xs × (test x ≡ true)
  In-keep test [] x m = absurd m
  In-keep test (y ∷ xs) x m = elim (Bool-cases (test y)) [
    | inr b ↦ let (i, t) = In-keep test xs x (rw b at m) in (inr i, t)
    | inl b ↦
        let m' : (y ≡ x) ⊎ In x (keep test xs) = rw b at m in
        elim m' [
          | inl e ↦ (inl e, ap test (sym e) ∙ b)
          | inr k ↦ let (i, t) = In-keep test xs x k in (inr i, t)
        ]
  ]
