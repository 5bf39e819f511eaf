-- ===== src/Catalog.antt =====
-- orcastork/adapters/memory/catalog.py: what each namespace permits, prefers and has credentials for.
use orcastork.DataPoint.Hashing.{Value}
use orcastork.Base.Dict.{Dict, get, put, get-put}
use orcastork.Base.{
  string_eq, pair_eq, String, if◌then◌else◌, List, Option, some, none, [], ◌==◌, ◌≡◌,
}

-- `Settings` is what one capability needs: credentials by their name.
abbrev pub Settings : Type 0
Settings = Dict String Value

-- `InMemoryCapabilityCatalog`; a frozenset is a list of its members.
pub record Catalog : Type 0 where
  pub permitted : Dict String (List String)
  pub stored : Dict (String × String) Settings
  pub preferred : Dict String (List String)
  pub operators : Dict String (List String)

-- A constructor's argument that is left out is an empty mapping.
abbrev pub or_empty : {A : Type 0} → Option (List A) → List A
or_empty none = []
or_empty (some xs) = xs

unfoldable pub new_catalog :
    Option (Dict String (List String))
    → Option (Dict (String × String) Settings)
    → Option (Dict String (List String))
    → Option (Dict String (List String))
    → Catalog
new_catalog permitted credentials preferred permitted_operators = record {
  permitted = or_empty permitted;
  stored = or_empty credentials;
  preferred = or_empty preferred;
  operators = or_empty permitted_operators;
}

unfoldable pub permitted_capabilities : String → Catalog → List String
permitted_capabilities namespace_id c = or_empty (get namespace_id c.permitted)

-- `none` is a namespace without a restriction; an empty list runs nothing.
unfoldable pub permitted_operators : String → Catalog → Option (List String)
permitted_operators namespace_id c = get namespace_id c.operators

unfoldable pub credentials : String → String → Catalog → Option Settings
credentials namespace_id capability_id c = get (namespace_id, capability_id) c.stored

unfoldable pub preferred_order : String → Catalog → List String
preferred_order namespace_id c = or_empty (get namespace_id c.preferred)

unfoldable pub set_permitted : String → List String → Catalog → Catalog
set_permitted namespace_id capabilities c = record c {
  permitted = put namespace_id capabilities c.permitted;
}

unfoldable pub set_preferred_order : String → List String → Catalog → Catalog
set_preferred_order namespace_id order c = record c {
  preferred = put namespace_id order c.preferred;
}

unfoldable pub set_permitted_operators : String → List String → Catalog → Catalog
set_permitted_operators namespace_id operators c = record c {
  operators = put namespace_id operators c.operators;
}

unfoldable pub set_credentials : String → String → Settings → Catalog → Catalog
set_credentials namespace_id capability_id given c = record c {
  stored = put (namespace_id, capability_id) given c.stored;
}

-- Gating one namespace's operators lifts no other namespace's gate and sets none.
permitted_operators-set_permitted_operators :
    (m n : String) (operators : List String) (c : Catalog)
    → permitted_operators n (set_permitted_operators m operators c)
      ≡ (if m == n then some operators else permitted_operators n c)
unfolding permitted_operators set_permitted_operators
permitted_operators-set_permitted_operators m n operators c = get-put m n operators c.operators

-- Credentials are kept by the pair of the namespace and the capability.
credentials-set_credentials :
    (m n a b : String) (given : Settings) (c : Catalog)
    → credentials n b (set_credentials m a given c)
      ≡ (if ◌==◌ {A = String × String} (m, a) (n, b) then some given else credentials n b c)
unfolding credentials set_credentials
credentials-set_credentials m n a b given c = get-put (m, a) (n, b) given c.stored
