-- ===== src/Scheduling/Readiness.antt =====
-- The gate and its explanation agree.
use mathlib.Core.Path.{ap₂}
use orcastork.Base.{
  Bool, List, [], all, arith, false, filter, is_empty, not, refl, ◌&&◌, ◌∙◌, ◌∷◌, ◌≡◌,
}
use orcastork.DataPoint.{Class}
use orcastork.Classes.{Classes, any_subclass}
use orcastork.Scheduling.{
  is_ready, readiness_gap, sort_by_name, insert_by_name, deps_reachable, caps_available,
}

module _ (c : Classes) where
  insert-nonempty : (t : Class) (ts : List Class) → is_empty (insert_by_name c t ts) ≡ false
  unfolding insert_by_name is_empty
  insert-nonempty t [] = refl
  insert-nonempty t (u ∷ us) = ground arith

  sort-empty : (ts : List Class) → is_empty (sort_by_name c ts) ≡ is_empty ts
  unfolding sort_by_name is_empty
  sort-empty [] = refl
  sort-empty (t ∷ ts) = insert-nonempty t (sort_by_name c ts)

  filter-empty :
      (p : Class → Bool) (ts : List Class) → is_empty (filter (λ t. not (p t)) ts) ≡ all p ts
  unfolding filter all is_empty
  filter-empty p [] = refl
  filter-empty p (t ∷ ts) = ground (arith, filter-empty p ts)

  -- An operator is ready exactly when every type that it depends on has a present subtype, and every
  -- capability that it requires has an available one: the gap it reports is empty in that case only.
  pub is_ready-covered :
      (operator : Class) (present_types available : List Class)
      → is_ready c operator present_types available
        ≡ (deps_reachable c operator present_types && caps_available c operator available)
  unfolding is_ready readiness_gap
  is_ready-covered operator present_types available =
      ap₂ ◌&&◌ (sort-empty _ ∙ filter-empty (any_subclass c present_types) (c.depends_on operator))
        (sort-empty _ ∙ filter-empty (any_subclass c available) (c.requires operator))
