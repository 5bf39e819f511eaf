-- ===== src/Base/Folds.antt =====
-- Dict items written one by one onto another dict, where the value written may depend on the old one.
use mathlib.Core.Path.{◌≡◌, refl}
use mathlib.Core.Option.{Option, none, some}
use mathlib.Core.List.{[], ◌∷◌}
use native.Mathlib.Omega.{arith}
use orcastork.Base.Equality.{Eq}
use orcastork.Base.Dict.{Dict, get, put, IsDistinct, get-put, put-IsDistinct}

-- The entry that one item leaves, from the item and the entry before.
abbrev pub written : {V E : Type 0} → (V → Option E → E) → Option V → Option E → Option E
written step none old = old
written step (some v) old = some (step v old)

module _ {K V E : Type 0} ⦃e : Eq K⦄ (step : V → Option E → E) where
  unfoldable pub put_each : Dict K V → Dict K E → Dict K E
  put_each [] base = base
  put_each ((k, v) ∷ items) base = put_each items (put k (step v (get k base)) base)

  pub get-put_each :
      (k : K) (items : Dict K V) (base : Dict K E)
      → IsDistinct items
      → get k (put_each items base) ≡ written step (get k items) (get k base)
  unfolding put_each get
  get-put_each k [] base h = refl
  get-put_each k ((j, v) ∷ items) base h = ground (
    arith,
    e.beq_iff j k,
    get-put j k (step v (get j base)) base,
    get-put_each k items (put j (step v (get j base)) base) h.1,
  )

  pub put_each-IsDistinct :
      (items : Dict K V) (base : Dict K E) → IsDistinct base → IsDistinct (put_each items base)
  unfolding put_each
  put_each-IsDistinct [] base h = h
  put_each-IsDistinct ((k, v) ∷ items) base h =
      put_each-IsDistinct items (put k (step v (get k base)) base)
        (put-IsDistinct k (step v (get k base)) base h)
