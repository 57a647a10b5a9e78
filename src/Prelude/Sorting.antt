-- ===== src/Prelude/Sorting.antt =====
-- Python's `sorted`.
use Prim.Native.Nat.{suc}
use mathlib.Core.Path.{◌≡◌, refl, ap, ◌∙◌}
use mathlib.Core.Logic.{◌⊎◌, inl, inr}
use mathlib.Core.Bool.{Bool, true, false}
use mathlib.Core.List.{List, [], ◌∷◌, ◌++◌}
use native.Mathlib.Omega.{arith}
use ae_cwap.Prelude.Tests.{if◌then◌else◌, Bool-cases}
use ae_cwap.Prelude.Lists.{length, All, In, keep}

module _ {A : Type 0} (le : A → A → Bool) where
  -- an item goes before the first that it is not after, so that equal ones keep their order
  pub place : A → List A → List A
  place x [] = x ∷ []
  place x (y ∷ ys) = let rest = place x ys in if le x y then x ∷ y ∷ ys else y ∷ rest

  unfoldable pub sorted : List A → List A
  unfolding place
  sorted [] = []
  sorted (x ∷ xs) = place x (sorted xs)

  In-place : (x : A) (ys : List A) (a : A) → In a (place x ys) → (x ≡ a) ⊎ In a ys
  unfolding place
  In-place x [] a (inl e) = inl e
  In-place x [] a (inr m) = absurd m
  In-place x (y ∷ ys) a m = elim (Bool-cases (le x y)) [
    | inl b ↦ let m' : In a (x ∷ y ∷ ys) = rw b at m in m'
    | inr b ↦
        let m' : In a (y ∷ place x ys) = rw b at m in
        elim m' [
          | inl e ↦ inr (inl e)
          | inr k ↦ elim (In-place x ys a k) [ inl e ↦ inl e | inr j ↦ inr (inr j) ]
        ]
  ]

  pub In-sorted : (xs : List A) (a : A) → In a (sorted xs) → In a xs
  unfolding sorted
  In-sorted [] a m = absurd m
  In-sorted (x ∷ xs) a m = elim (In-place x (sorted xs) a m) [
    | inl e ↦ inl e
    | inr k ↦ inr (In-sorted xs a k)
  ]

  length-place : (x : A) (ys : List A) → length (place x ys) ≡ suc (length ys)
  unfolding place
  length-place x [] = refl
  length-place x (y ∷ ys) = ground (arith, length-place x ys)

  length-keep-place :
      (test : A → Bool) (x : A) (ys : List A)
      → length (keep test (place x ys)) ≡ length (keep test (x ∷ ys))
  unfolding place
  length-keep-place test x [] = refl
  length-keep-place test x (y ∷ ys) = ground (arith, length-keep-place test x ys)

  -- as many pass after sorting as before
  pub length-keep-sorted :
      (test : A → Bool) (xs : List A) → length (keep test (sorted xs)) ≡ length (keep test xs)
  unfolding sorted
  length-keep-sorted test [] = refl
  length-keep-sorted test (x ∷ xs) =
      ground (arith, length-keep-place test x (sorted xs), length-keep-sorted test xs)

  place_In : (x : A) (ys : List A) (a : A) → (x ≡ a) ⊎ In a ys → In a (place x ys)
  unfolding place
  place_In x [] a m = m
  place_In x (y ∷ ys) a m = elim (Bool-cases (le x y)) [
    | inl b ↦ rw b m
    | inr b ↦ rw b (elim m [
      | inl e ↦ inr (place_In x ys a (inl e))
      | inr (inl e) ↦ inl e
      | inr (inr k) ↦ inr (place_In x ys a (inr k))
    ])
  ]

  pub sorted_In : (xs : List A) (a : A) → In a xs → In a (sorted xs)
  unfolding sorted
  sorted_In [] a m = absurd m
  sorted_In (x ∷ xs) a (inl e) = place_In x (sorted xs) a (inl e)
  sorted_In (x ∷ xs) a (inr m) = place_In x (sorted xs) a (inr (sorted_In xs a m))

  pub length-sorted : (xs : List A) → length (sorted xs) ≡ length xs
  unfolding sorted
  length-sorted [] = refl
  length-sorted (x ∷ xs) = omega (arith, length-place x (sorted xs), length-sorted xs)

  -- each item is in order with each later one
  abbrev pub IsSorted : List A → Type 0
  IsSorted [] = Unit
  IsSorted (x ∷ xs) = All (λ y. le x y ≡ true) xs × IsSorted xs

  place_snoc :
      (x m : A) (ys : List A) → le x m ≡ true → place x (ys ++ m ∷ []) ≡ place x ys ++ m ∷ []
  unfolding place
  place_snoc x m [] h = ground (arith, h)
  place_snoc x m (y ∷ ys) h = ground (arith, place_snoc x m ys h)

  pub sorted_snoc :
      (xs : List A) (m : A)
      → All (λ x. le x m ≡ true) xs
      → sorted (xs ++ m ∷ []) ≡ sorted xs ++ m ∷ []
  unfolding sorted
  sorted_snoc [] m h = refl
  sorted_snoc (x ∷ xs) m h = ap (place x) (sorted_snoc xs m h.1) ∙ place_snoc x m (sorted xs) h.0

  -- what is before all goes to the front
  pub sorted_lowest :
      (xs : List A) (m : A) → All (λ x. le x m ≡ false) xs → sorted (xs ++ m ∷ []) ≡ m ∷ sorted xs
  unfolding sorted place
  sorted_lowest [] m h = refl
  sorted_lowest (x ∷ xs) m h = rw (sorted_lowest xs m h.1) (rw h.0 refl)

  -- what is in order stays as it is
  pub sorted_self : (xs : List A) → IsSorted xs → sorted xs ≡ xs
  unfolding sorted place
  sorted_self [] h = refl
  sorted_self (x ∷ []) h = refl
  sorted_self (x ∷ y ∷ ys) h = rw (sorted_self (y ∷ ys) h.1) (ground (arith, h.0.0))

module _ {A : Type 0} (le : A → A → Bool)
    (le_trans : (x y z : A) → le x y ≡ true → le y z ≡ true → le x z ≡ true)
    (le_total : (x y : A) → le x y ≡ false → le y x ≡ true) where
  place-All :
      (w x : A) (ys : List A)
      → le w x ≡ true
      → All (λ y. le w y ≡ true) ys
      → All (λ y. le w y ≡ true) (place le x ys)
  unfolding place
  place-All w x [] h k = (h, tt)
  place-All w x (y ∷ ys) h k = elim (Bool-cases (le x y)) [
    | inl b ↦ rw b (h, k)
    | inr b ↦ rw b (k.0, place-All w x ys h k.1)
  ]

  before-All :
      (w x : A) (ys : List A)
      → le w x ≡ true
      → All (λ y. le x y ≡ true) ys
      → All (λ y. le w y ≡ true) ys
  before-All w x [] h k = tt
  before-All w x (y ∷ ys) h k = (le_trans w x y h k.0, before-All w x ys h k.1)

  place-IsSorted : (x : A) (ys : List A) → IsSorted le ys → IsSorted le (place le x ys)
  unfolding place
  place-IsSorted x [] h = (tt, tt)
  place-IsSorted x (y ∷ ys) h = elim (Bool-cases (le x y)) [
    | inl b ↦ rw b ((b, before-All x y ys b h.0), h)
    | inr b ↦ rw b (place-All y x ys (le_total x y b) h.0, place-IsSorted x ys h.1)
  ]

  -- where `le` is a total order, `sorted` puts in order
  pub sorted-IsSorted : (xs : List A) → IsSorted le (sorted le xs)
  unfolding sorted
  sorted-IsSorted [] = tt
  sorted-IsSorted (x ∷ xs) = place-IsSorted x (sorted le xs) (sorted-IsSorted xs)
