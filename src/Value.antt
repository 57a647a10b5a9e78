-- ===== src/Value.antt =====
-- JSON values, as node params, run inputs and step outputs hold them. A dict is a list of entries
-- in insertion order. Numbers are integers: floating-point values are not represented.
pub mod Dict
use ae_cwap.Prelude.{ℕ, String, Bool, true, false, not, ◌==◌, Option, none, some, ◌≡◌}

-- `negsuc n` is -(n + 1)
pub data ℤ : Type 0 where
  pos : ℕ → ℤ
  negsuc : ℕ → ℤ

mutual
  pub data Fields : Type 0 where
    end : Fields
    field : String → Value → Fields → Fields

  pub data Items : Type 0 where
    nil : Items
    cons : Value → Items → Items

  pub data Value : Type 0 where
    null : Value
    bool : Bool → Value
    num : ℤ → Value
    text : String → Value
    arr : Items → Value
    obj : Fields → Value

-- what `bool(value)` says in Python
abbrev pub truthy : Value → Bool
truthy null = false
truthy (bool b) = b
truthy (num (ℤ.pos n)) = elim n [ ℕ.zero ↦ false | ℕ.suc _ ↦ true ]
truthy (num (ℤ.negsuc n)) = true
truthy (text s) = not (s == "")
truthy (arr nil) = false
truthy (arr (cons _ _)) = true
truthy (obj end) = false
truthy (obj (field _ _ _)) = true
