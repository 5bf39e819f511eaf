-- ===== src/Completion.antt =====
-- orcastork/scheduling/completion.py: when a session is complete.
pub mod Presence
use orcastork.Base.{
  Result, invalid_completion_condition, ok, raise, Bool, List, Option, [], false, is_empty, none,
  not, some, true, ◌&&◌, ◌++◌, ◌||◌, ◌∷◌,
}
use orcastork.DataPoint.{DataPoint, Class}
use orcastork.Classes.{Classes}
use orcastork.View.{of_type}

-- The condition's tree; `custom` is a condition of the flow's own, by its `is_satisfied`.
mutual
  pub data Condition : Type 0 where
    type_present : Class → Condition
    all_of : Conditions → Condition
    any_of : Conditions → Condition
    custom : (List DataPoint → Bool) → Condition

  pub data Conditions : Type 0 where
    no_more : Conditions
    also : Condition → Conditions → Conditions

module _ (c : Classes) where
  abbrev pub is_present : Class → List DataPoint → Bool
  is_present data_point_type view = not (is_empty (of_type c data_point_type view))

  unfoldable mutual
    unfolding of_type

    pub is_satisfied : Condition → List DataPoint → Bool
    is_satisfied (type_present data_point_type) view = is_present data_point_type view
    is_satisfied (all_of children) view = all_satisfied children view
    is_satisfied (any_of children) view = any_satisfied children view
    is_satisfied (custom check) view = check view

    pub all_satisfied : Conditions → List DataPoint → Bool
    all_satisfied no_more view = true
    all_satisfied (also child children) view =
        is_satisfied child view && all_satisfied children view

    pub any_satisfied : Conditions → List DataPoint → Bool
    any_satisfied no_more view = false
    any_satisfied (also child children) view =
        is_satisfied child view || any_satisfied children view

abbrev pub joined : Option (List Class) → Option (List Class) → Option (List Class)
joined none _ = none
joined (some ts) none = none
joined (some ts) (some us) = some (ts ++ us)

unfoldable mutual
  pub types_of : Condition → Option (List Class)
  types_of (type_present data_point_type) = some (data_point_type ∷ [])
  types_of (all_of children) = types_of_each children
  types_of (any_of children) = types_of_each children
  types_of (custom check) = none

  pub types_of_each : Conditions → Option (List Class)
  types_of_each no_more = some []
  types_of_each (also child children) = joined (types_of child) (types_of_each children)

-- `referenced_types`; `None` is no condition
unfoldable pub referenced_types : Option Condition → Option (List Class)
unfolding types_of
referenced_types none = some []
referenced_types (some condition) = types_of condition

-- What a flow may give where a condition is expected: a class, with whether it is one of data points, a
-- condition, or anything else.
pub data Item : Type 0 where
  a_class : Class → Bool → Item
  a_condition : Condition → Item
  anything_else : Item

-- `_normalize_item`
unfoldable pub normalize_item : Item → Result Condition
normalize_item (a_class cls true) = ok (type_present cls)
normalize_item (a_class cls false) = raise invalid_completion_condition
normalize_item (a_condition condition) = ok condition
normalize_item anything_else = raise invalid_completion_condition

abbrev also_ok : Result Condition → Result Conditions → Result Conditions
also_ok (raise e) _ = raise e
also_ok (ok child) (raise e) = raise e
also_ok (ok child) (ok children) = ok (also child children)

unfoldable pub normalize_items : List Item → Result Conditions
unfolding normalize_item
normalize_items [] = ok no_more
normalize_items (item ∷ items) = also_ok (normalize_item item) (normalize_items items)

abbrev pub combined : (Conditions → Condition) → Result Conditions → Result Condition
combined make (ok children) = ok (make children)
combined make (raise e) = raise e

-- The functions `all_of` and `any_of`
unfoldable pub combine_all : List Item → Result Condition
unfolding normalize_items
combine_all items = combined all_of (normalize_items items)

unfoldable pub combine_any : List Item → Result Condition
unfolding normalize_items
combine_any items = combined any_of (normalize_items items)

abbrev pub present_condition : Result Condition → Result (Option Condition)
present_condition (ok condition) = ok (some condition)
present_condition (raise e) = raise e

unfoldable pub normalize_completion : Option Item → Result (Option Condition)
unfolding normalize_item
normalize_completion none = ok none
normalize_completion (some item) = present_condition (normalize_item item)
