-- ===== src/Availability.antt =====
-- orcastork/capabilities/availability.py: which of the registered capabilities a session may use.
pub mod Monotone
pub mod Activation
pub mod Refresh
pub mod Layers
use orcastork.Base.Dict.{Dict, get}
use orcastork.Base.{
  Bool, List, Option, String, [], all, any, contains, false, length, none, some, suc, ◌&&◌, ◌∷◌,
  nat_eq, string_eq,
}
use orcastork.DataPoint.{Class}
use orcastork.Classes.{Classes, any_subclass}
use orcastork.Fixpoint.{loop}

abbrev pub Registered : Type 0
Registered = Dict String Class

module _ (c : Classes) where
  -- `_deps_present`
  abbrev pub deps_present : List Class → List Class → Bool
  deps_present depends_on present_types = all (any_subclass c present_types) depends_on

  abbrev pub is_sub : Option Class → Class → Bool
  is_sub none required = false
  is_sub (some capability) required = c.issubclass capability required

  -- `_requires_available`
  abbrev pub requires_available : List Class → List String → Registered → Bool
  requires_available requires available registered =
      all
        (λ required. any (λ available_id. is_sub (get available_id registered) required) available)
        requires

  module _ (registered : Registered) (permitted : List String) (present_types : List Class) where
    abbrev pub is_available : String × Class → List String → Bool
    is_available item available = contains item.0 available

    -- The guards of the loop's body, but the one on what is available already.
    abbrev pub may_activate : String × Class → List String → Bool
    may_activate item available =
        contains item.0 permitted
        && (deps_present (c.depends_on item.1) present_types
            && requires_available (c.requires item.1) available registered)

    abbrev pub make_available : String × Class → List String → List String
    make_available item available = item.0 ∷ available

    unfoldable pub compute_available : List String
    unfolding loop
    compute_available =
        loop is_available may_activate make_available (suc (length registered)) registered []
