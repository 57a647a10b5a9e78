-- ===== src/Prelude/Members.antt =====
-- Membership in lists of texts by the Boolean test `contains`, and counting by it.
use Prim.Native.Nat.{suc, ◌≤◌, ◌<◌}
use Prim.Native.String.{String}
use mathlib.Core.Path.{◌≡◌, refl, ap, ◌∙◌}
use mathlib.Core.Logic.{inl, inr}
use mathlib.Core.Bool.{true, false, ◌||◌}
use mathlib.Core.List.{List, [], ◌∷◌, ◌++◌, map, reverse, reverse-append}
use native.Mathlib.Omega.{arith}
use text.Mathlib.Text.{◌==◌}
use text.Mathlib.TextEquality.{eq_iff}
use ae_cwap.Prelude.Tests.{Bool-cases, if◌then◌else◌}
use ae_cwap.Prelude.Lists.{length, contains, count, IsNodup, In}

pub eq_self : (a : String) → (a == a) ≡ true
eq_self a = (eq_iff a a).1 refl

pub contains-snoc :
    (xs : List String) (a b : String) → contains (xs ++ b ∷ []) a ≡ (b == a || contains xs a)
contains-snoc [] a b = refl
contains-snoc (x ∷ xs) a b = ground (arith, contains-snoc xs a b)

pub snoc-IsNodup :
    (xs : List String) (a : String) → IsNodup xs → contains xs a ≡ false → IsNodup (xs ++ a ∷ [])
snoc-IsNodup [] a h n = (refl, tt)
snoc-IsNodup (x ∷ xs) a h n = (
  ground (arith, contains-snoc xs x a, eq_iff a x, eq_iff x a),
  snoc-IsNodup xs a h.1 (ground arith),
)

pub contains-reverse : (xs : List String) (a : String) → contains (reverse xs) a ≡ contains xs a
contains-reverse [] a = refl
contains-reverse (x ∷ xs) a =
    ap (λ l. contains l a) (reverse-append (x ∷ []) xs)
    ∙ contains-snoc (reverse xs) a x
    ∙ ap (λ b. (x == a) || b) (contains-reverse xs a)

pub reverse-IsNodup : (xs : List String) → IsNodup xs → IsNodup (reverse xs)
reverse-IsNodup [] h = tt
reverse-IsNodup (x ∷ xs) h =
    rw (reverse-append (x ∷ []) xs)
      (snoc-IsNodup (reverse xs) x (reverse-IsNodup xs h.1) (contains-reverse xs x ∙ h.0))

-- `xs` without the first `a`
abbrev erase : List String → String → List String
erase [] a = []
erase (x ∷ xs) a = let rest = erase xs a in if x == a then xs else x ∷ rest

length-erase :
    (xs : List String) (a : String) → contains xs a ≡ true → suc (length (erase xs a)) ≡ length xs
length-erase [] a h = cc
length-erase (x ∷ xs) a h = ground (arith, length-erase xs a)

contains-erase :
    (xs : List String) (a b : String)
    → (a == b) ≡ false
    → contains xs b ≡ true
    → contains (erase xs a) b ≡ true
contains-erase [] a b n h = h
contains-erase (x ∷ xs) a b n h = ground (arith, contains-erase xs a b, eq_iff x a, eq_iff x b)

-- A list without repetition that lies within another is no longer than it.
pub length-le-length :
    (xs ys : List String)
    → IsNodup xs
    → ((a : String) → contains xs a ≡ true → contains ys a ≡ true)
    → length xs ≤ length ys
length-le-length [] ys n h = omega arith
length-le-length (x ∷ xs) ys n h =
    let x_in : contains ys x ≡ true = h x (rw eq_self) in
    let within : (a : String) → contains xs a ≡ true → contains (erase ys x) a ≡ true =
      λ a m. contains-erase ys x a (ground (arith, eq_iff x a, n.0)) (h a (ground arith)) in
    omega (arith, length-le-length xs (erase ys x) n.1 within, length-erase ys x x_in)

-- If it is as long as the other, the other lies within it.
pub contains_of_length :
    (xs ys : List String)
    → IsNodup xs
    → ((a : String) → contains xs a ≡ true → contains ys a ≡ true)
    → length xs ≡ length ys
    → (a : String) → contains ys a ≡ true
    → contains xs a ≡ true
contains_of_length xs ys n h l a m = elim (Bool-cases (contains xs a)) [
  | inl p ↦ p
  | inr p ↦ absurd (
      omega
        (arith, l, length-le-length (a ∷ xs) ys (p, n) (λ b mb. ground (arith, eq_iff a b, h b))))
]

pub count-pos : (xs : List String) (a : String) → contains xs a ≡ true → 0 < count xs a
count-pos [] a h = cc
count-pos (x ∷ xs) a h = ground (arith, count-pos xs a)

pub count-eq-zero : (xs : List String) (a : String) → contains xs a ≡ false → count xs a ≡ 0
count-eq-zero [] a h = refl
count-eq-zero (x ∷ xs) a h = ground (arith, count-eq-zero xs a)

module _ {A : Type 0} (f : A → String) where
  pub contains-map :
      (xs : List A) (a : String) → contains (map f xs) a ≡ true → (x : A) × In x xs × (f x ≡ a)
  contains-map [] a h = absurd cc
  contains-map (x ∷ xs) a h = elim (Bool-cases (f x == a)) [
    | inl b ↦ (x, inl refl, (eq_iff (f x) a).0 b)
    | inr b ↦ let (y, m, e) = contains-map xs a (ground (arith, b, h)) in (y, inr m, e)
  ]

  pub contains_of_In : (xs : List A) (x : A) → In x xs → contains (map f xs) (f x) ≡ true
  contains_of_In [] x m = absurd m
  contains_of_In (y ∷ xs) x (inl e) = ground (arith, eq_iff (f y) (f x), ap f e)
  contains_of_In (y ∷ xs) x (inr m) = ground (arith, contains_of_In xs x m)
