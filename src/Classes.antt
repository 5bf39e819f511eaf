-- ===== src/Classes.antt =====
-- The classes of a flow, as orcastork/datapoints/base.py, orcastork/operators/base.py,
-- orcastork/capabilities/base.py and orcastork/graph/builder.py use them. Which classes a flow
-- declares is its own: a table of them is a parameter.
use orcastork.Base.{
  and-intro, and-true, refl, Bool, List, String, [], all, any, contains, filter, if◌then◌else◌,
  true, ◌++◌, ◌∷◌, ◌≡◌,
}
use orcastork.Base.{nat_eq, contains_of_any, any_of_contains}
use orcastork.DataPoint.{Class}

-- The class variables of a flow's data point, operator and capability classes.
pub record Classes : Type 0 where
  pub issubclass : Class → Class → Bool
  pub name : Class → String
  -- the concrete leaves of `_REGISTRY`, in the order of registration, and `_ABSTRACT_TYPES`
  pub registry : List Class
  pub is_abstract : Class → Bool
  pub depends_on : Class → List Class
  pub uses : Class → List Class
  pub produces : Class → List Class
  pub requires : Class → List Class
  pub operator_id : Class → String
  pub capability_id : Class → String

module _ (c : Classes) where
  unfoldable pub subtypes_of : Class → List Class
  subtypes_of data_point_type = filter (λ leaf. c.issubclass leaf data_point_type) c.registry

  abbrev pub produced_by : Class → List Class
  produced_by declared = if c.is_abstract declared then subtypes_of declared else declared ∷ []

  abbrev pub produced_by_each : List Class → List Class
  produced_by_each [] = []
  produced_by_each (declared ∷ more) = produced_by declared ++ produced_by_each more

  unfoldable pub effective_produces : Class → List Class
  unfolding subtypes_of
  effective_produces operator = produced_by_each (c.produces operator)

  -- `any(issubclass(present, required) for present in present_types)`
  abbrev pub any_subclass : List Class → Class → Bool
  any_subclass present_types required = any (λ present. c.issubclass present required) present_types

  -- More types satisfy more.
  pub any_subclass_weaken :
      (xs ys : List Class) (required : Class)
      → ((t : Class) → contains t xs ≡ true → contains t ys ≡ true)
      → any_subclass xs required ≡ true
      → any_subclass ys required ≡ true
  any_subclass_weaken xs ys required h k =
      let (t, here, sub) = contains_of_any (λ present. c.issubclass present required) xs k in
      any_of_contains (λ present. c.issubclass present required) t ys (h t here) sub

  pub all-any_subclass_weaken :
      (xs ys needs : List Class)
      → ((t : Class) → contains t xs ≡ true → contains t ys ≡ true)
      → all (any_subclass xs) needs ≡ true
      → all (any_subclass ys) needs ≡ true
  unfolding all
  all-any_subclass_weaken xs ys [] h k = refl
  all-any_subclass_weaken xs ys (required ∷ needs) h k =
      let (x, y) = and-true _ _ k in
      and-intro _ _ (any_subclass_weaken xs ys required h x)
        (all-any_subclass_weaken xs ys needs h y)
