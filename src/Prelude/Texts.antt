-- ===== src/Prelude/Texts.antt =====
-- Concatenation of texts.
use Prim.Native.String.{String}
use mathlib.Core.Path.{◌≡◌}
use mathlib.Core.List.{List, [], ◌∷◌}

-- `s + t`
unfoldable pub append : String → String → String
append String.[] t = t
append (String.◌∷◌ c s) t = String.◌∷◌ c (append s t)

-- texts that are equal after the same prefix are equal
pub append_cancel : (s t u : String) → append s t ≡ append s u → t ≡ u
unfolding append
append_cancel String.[] t u h = h
append_cancel (String.◌∷◌ c s) t u h = append_cancel s t u cc

-- `between.join(texts)`
unfoldable pub join : String → List String → String
unfolding append
join between [] = ""
join between (s ∷ []) = s
join between (s ∷ t ∷ texts) = append s (append between (join between (t ∷ texts)))
