-- ===== src/Scheduling.antt =====
-- orcastork/scheduling/readiness.py and orcastork/scheduling/quiescence.py: which operators may run
-- now, and which may still come to run.
pub mod Readiness
pub mod Futures
pub mod Plans
use orcastork.Base.{
  string_eq, Bool, List, String, [], all, contains, filter, if◌then◌else◌, is_empty, length, not,
  suc, ◌&&◌, ◌++◌, ◌∷◌,
}
use orcastork.Base.{nat_eq}
use orcastork.DataPoint.{Class}
use orcastork.DataPoint.Hashing.{text_leb}
use orcastork.Classes.{Classes, any_subclass, effective_produces}
use orcastork.Fixpoint.{loop}

pub record ReadinessGap : Type 0 where
  pub missing_data_points : List Class
  pub missing_capabilities : List Class

abbrev pub is_ready_gap : ReadinessGap → Bool
is_ready_gap gap = is_empty gap.missing_data_points && is_empty gap.missing_capabilities

module _ (c : Classes) where
  -- `sorted(…, key=lambda leaf: leaf.__name__)`, which is stable
  unfoldable pub insert_by_name : Class → List Class → List Class
  insert_by_name t [] = t ∷ []
  insert_by_name t (u ∷ us) =
      let rest = insert_by_name t us in
      if text_leb (c.name t) (c.name u) then t ∷ u ∷ us else u ∷ rest

  unfoldable pub sort_by_name : List Class → List Class
  unfolding insert_by_name
  sort_by_name [] = []
  sort_by_name (t ∷ ts) = insert_by_name t (sort_by_name ts)

  unfoldable pub readiness_gap : Class → List Class → List Class → ReadinessGap
  unfolding sort_by_name
  readiness_gap operator present_types available = record {
    missing_data_points =
        sort_by_name (
          filter (λ required. not (any_subclass c present_types required)) (c.depends_on operator));
    missing_capabilities =
        sort_by_name
          (filter (λ required. not (any_subclass c available required)) (c.requires operator));
  }

  unfoldable pub is_ready : Class → List Class → List Class → Bool
  unfolding readiness_gap
  is_ready operator present_types available =
      is_ready_gap (readiness_gap operator present_types available)

  unfoldable pub ready_operators : List Class → List Class → List Class → List String → List Class
  unfolding is_ready
  ready_operators operators present_types available already_run =
      filter
        (λ operator.
          not (contains (c.operator_id operator) already_run)
          && is_ready operator present_types available)
        operators

  abbrev pub deps_reachable : Class → List Class → Bool
  deps_reachable operator producible = all (any_subclass c producible) (c.depends_on operator)

  abbrev pub caps_available : Class → List Class → Bool
  caps_available operator available = all (any_subclass c available) (c.requires operator)

-- The loop's state: the operators found, and what is present or may be produced by them.
pub record Reach : Type 0 where
  pub reachable : List Class
  pub producible : List Class

module _ (c : Classes) (available : List Class) where
  abbrev pub reached : Class → Reach → Bool
  reached operator r = contains operator r.reachable

  abbrev pub can_reach : Class → Reach → Bool
  can_reach operator r =
      deps_reachable c operator r.producible && caps_available c operator available

  abbrev pub reach : Class → Reach → Reach
  reach operator r = record {
    reachable = operator ∷ r.reachable;
    producible = effective_produces c operator ++ r.producible;
  }

  unfoldable pub reach_all : List Class → List Class → Reach
  unfolding loop effective_produces
  reach_all pending present_types =
      loop reached can_reach reach (suc (length pending)) pending
        (record { reachable = []; producible = present_types })

  unfoldable pub reachable_pending : List Class → List Class → List Class
  unfolding reach_all
  reachable_pending pending present_types = (reach_all pending present_types).reachable

  unfoldable pub is_quiescent : List Class → List Class → Bool
  unfolding reachable_pending
  is_quiescent pending present_types = is_empty (reachable_pending pending present_types)
