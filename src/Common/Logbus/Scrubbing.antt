-- ===== src/Common/Logbus/Scrubbing.antt =====
-- `_scrub` of packages/cwap_common/logbus.py.
use ae_cwap.Value.{end, nil, null}
use ae_cwap.Prelude.{
  String, ◌≡◌, true, Bool-cases, inl, if◌then◌else◌, inr, arith, ap, refl, ◌↔◌, subst,
}
use ae_cwap.Common.Logbus.{
  scrub, Value, Fields, scrub_value, is_sensitive, scrub_items, field, obj, arr, redacted, bool,
  num, text, Items, cons,
}

-- each sensitive key is redacted, also in dicts inside and in dicts that stand in lists
mutual
  pub IsClean : (String → String) → Fields → Type 0
  IsClean lower end = Unit
  IsClean lower (field k v d) =
      (is_sensitive lower k ≡ true → v ≡ redacted) × IsCleanValue lower v × IsClean lower d

  pub IsCleanValue : (String → String) → Value → Type 0
  IsCleanValue lower (obj d) = IsClean lower d
  IsCleanValue lower (arr xs) = IsCleanItems lower xs
  IsCleanValue lower null = Unit
  IsCleanValue lower (bool b) = Unit
  IsCleanValue lower (num n) = Unit
  IsCleanValue lower (text s) = Unit

  pub IsCleanItems : (String → String) → Items → Type 0
  IsCleanItems lower nil = Unit
  IsCleanItems lower (cons (obj d) xs) = IsClean lower d × IsCleanItems lower xs
  IsCleanItems lower (cons v xs) = IsCleanItems lower xs

redacted-IsClean :
    (lower : String → String) (k : String) (v : Value)
    → IsCleanValue lower v
    → (is_sensitive lower k ≡ true → (if is_sensitive lower k then redacted else v) ≡ redacted)
      × IsCleanValue lower (if is_sensitive lower k then redacted else v)
unfolding IsCleanValue
redacted-IsClean lower k v h = elim (Bool-cases (is_sensitive lower k)) [
  | inl b ↦ rw b ((λ _. refl), tt)
  | inr b ↦ rw b ((λ e. absurd cc), h)
]

mutual
  unfolding scrub scrub_value scrub_items IsClean IsCleanValue IsCleanItems

  fields-IsClean : (lower : String → String) (d : Fields) → IsClean lower (scrub lower d)
  fields-IsClean lower end = tt
  fields-IsClean lower (field k v d) =
      let (a, b) = redacted-IsClean lower k (scrub_value lower v) (value-IsClean lower v) in
      (a, b, fields-IsClean lower d)

  value-IsClean : (lower : String → String) (v : Value) → IsCleanValue lower (scrub_value lower v)
  value-IsClean lower (obj d) = fields-IsClean lower d
  value-IsClean lower (arr xs) = items-IsClean lower xs
  value-IsClean lower null = tt
  value-IsClean lower (bool b) = tt
  value-IsClean lower (num n) = tt
  value-IsClean lower (text s) = tt

  items-IsClean : (lower : String → String) (xs : Items) → IsCleanItems lower (scrub_items lower xs)
  items-IsClean lower nil = tt
  items-IsClean lower (cons (obj d) xs) = (fields-IsClean lower d, items-IsClean lower xs)
  items-IsClean lower (cons (arr ys) xs) = items-IsClean lower xs
  items-IsClean lower (cons null xs) = items-IsClean lower xs
  items-IsClean lower (cons (bool b) xs) = items-IsClean lower xs
  items-IsClean lower (cons (num n) xs) = items-IsClean lower xs
  items-IsClean lower (cons (text s) xs) = items-IsClean lower xs

mutual
  unfolding scrub scrub_value scrub_items IsClean IsCleanValue IsCleanItems

  fields_kept : (lower : String → String) (d : Fields) → IsClean lower d → scrub lower d ≡ d
  fields_kept lower end h = refl
  fields_kept lower (field k v d) (s, c, h) = elim (Bool-cases (is_sensitive lower k)) [
    | inl b ↦ ground (arith, b, s b, fields_kept lower d h)
    | inr b ↦ ground (arith, b, value_kept lower v c, fields_kept lower d h)
  ]

  value_kept :
      (lower : String → String) (v : Value) → IsCleanValue lower v → scrub_value lower v ≡ v
  value_kept lower (obj d) h = ap (λ x. obj x) (fields_kept lower d h)
  value_kept lower (arr xs) h = ap (λ x. arr x) (items_kept lower xs h)
  value_kept lower null h = refl
  value_kept lower (bool b) h = refl
  value_kept lower (num n) h = refl
  value_kept lower (text s) h = refl

  items_kept :
      (lower : String → String) (xs : Items) → IsCleanItems lower xs → scrub_items lower xs ≡ xs
  items_kept lower nil h = refl
  items_kept lower (cons (obj d) xs) (f, h) =
      ground (arith, fields_kept lower d f, items_kept lower xs h)
  items_kept lower (cons (arr ys) xs) h = ap (λ x. cons (arr ys) x) (items_kept lower xs h)
  items_kept lower (cons null xs) h = ap (λ x. cons null x) (items_kept lower xs h)
  items_kept lower (cons (bool b) xs) h = ap (λ x. cons (bool b) x) (items_kept lower xs h)
  items_kept lower (cons (num n) xs) h = ap (λ x. cons (num n) x) (items_kept lower xs h)
  items_kept lower (cons (text s) xs) h = ap (λ x. cons (text s) x) (items_kept lower xs h)

-- Whatever the details of an event: after scrubbing, the value of every key that is sensitive is
-- redacted, in the details, in dicts inside them and in dicts that stand in their lists; and
-- details are left as they are exactly if that holds of them already.
pub scrub_lem :
    (lower : String → String) (d : Fields)
    → IsClean lower (scrub lower d) × (IsClean lower d ↔ (scrub lower d ≡ d))
scrub_lem lower d = (
  fields-IsClean lower d,
  (fields_kept lower d, λ e. subst (IsClean lower) e (fields-IsClean lower d)),
)
