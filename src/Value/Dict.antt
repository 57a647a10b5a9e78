-- ===== src/Value/Dict.antt =====
-- Python's dict operations on `Fields`.
use ae_cwap.Prelude.{String, ◌==◌, eq_iff, Option, none, some, ◌≡◌, refl, arith, if◌then◌else◌}
use ae_cwap.Value.{Value, Fields, end, field}

-- `d.get(k)`; a null that is stored is `some null`
unfoldable pub get : Fields → String → Option Value
get end k = none
get (field j v d) k = if j == k then some v else get d k

-- `d[k] = v`: an old key keeps its place, a new one goes to the end
unfoldable pub put : Fields → String → Value → Fields
put end k v = field k v end
put (field j w d) k v = if j == k then field j v d else field j w (put d k v)

-- `{**a, **b}`
unfoldable pub merge : Fields → Fields → Fields
merge a end = a
merge a (field k v b) = merge (put a k v) b

pub get-put :
    (d : Fields) (k j : String) (v : Value)
    → get (put d k v) j ≡ (if k == j then some v else get d j)
unfolding get put
get-put end k j v = refl
get-put (field i w d) k j v = ground (arith, eq_iff k j, eq_iff i k, eq_iff i j, get-put d k j v)
