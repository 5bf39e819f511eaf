-- ===== src/Graph.antt =====
-- orcastork/graph: the dependency edges of builder.py, the closure of reachability.py and the counter of
-- circuit_breaker.py. A node is an operator or a capability class.
pub mod Needed
pub mod Links
pub mod Cycles
use orcastork.Base.Dict.{Dict, get, put}
use orcastork.Base.{
  string_eq, Bool, List, Option, String, [], any, contains, false, filter, if◌then◌else◌, leb,
  length, map, nat_beq, none, not, some, suc, true, ℕ, ◌&&◌, ◌++◌, ◌+◌, ◌∷◌, nat_eq,
}
use orcastork.DataPoint.{Class}
use orcastork.Classes.{Classes, any_subclass, effective_produces}
use orcastork.Fixpoint.{loop}

abbrev pub Edges : Type 0
Edges = Dict Class (List Class)

abbrev pub targets : Option (List Class) → List Class
targets none = []
targets (some ts) = ts

-- `edges[source].add(target)`
abbrev pub add_edge : Class → Class → Edges → Edges
add_edge source target edges =
    let ts = targets (get source edges) in
    put source (if contains target ts then ts else target ∷ ts) edges

abbrev pub no_edges : List Class → Edges
no_edges [] = []
no_edges (node ∷ nodes) = put node [] (no_edges nodes)

-- The three nested loops: `for consumer in consumers: for required in needs(consumer): for producer in
-- producers: if test(consumer, required, producer): edges[producer].add(consumer)`.
abbrev pub link_from : (Class → Bool) → Class → List Class → Edges → Edges
link_from test consumer [] edges = edges
link_from test consumer (producer ∷ producers) edges =
    let rest = link_from test consumer producers in
    if test producer then rest (add_edge producer consumer edges) else rest edges

abbrev pub link_needs : (Class → Class → Bool) → Class → List Class → List Class → Edges → Edges
link_needs test consumer [] producers edges = edges
link_needs test consumer (required ∷ needs) producers edges =
    link_needs test consumer needs producers (link_from (test required) consumer producers edges)

abbrev pub link_all :
    (Class → Class → Class → Bool) → (Class → List Class) → List Class → List Class → Edges → Edges
link_all test needs [] producers edges = edges
link_all test needs (consumer ∷ consumers) producers edges =
    link_all test needs consumers producers
      (link_needs (test consumer) consumer (needs consumer) producers edges)

module _ (c : Classes) where
  abbrev pub produces_for : Class → Class → Class → Bool
  produces_for consumer required producer = any_subclass c (effective_produces c producer) required

  abbrev pub provides_for : Class → Class → Class → Bool
  provides_for requirer required provider = c.issubclass provider required

  abbrev pub used_by : Class → Class → Class → Bool
  used_by consumer used producer =
      not (nat_beq producer consumer) && any_subclass c (effective_produces c producer) used

  unfoldable pub build_graph : List Class → List Class → Edges
  unfolding effective_produces
  build_graph operators capabilities =
      let nodes = operators ++ capabilities in
      link_all provides_for c.requires nodes capabilities
        (link_all produces_for c.depends_on nodes operators (no_edges nodes))

  unfoldable pub build_uses_edges : List Class → Edges
  unfolding effective_produces
  build_uses_edges operators = link_all used_by c.uses operators operators (no_edges operators)

  -- `keep`; `is_capability` is `issubclass(node, Capability)`
  abbrev pub keep : (Class → Bool) → List String → Class → Bool
  keep is_capability permitted node =
      if is_capability node then contains (c.capability_id node) permitted else true

  unfoldable pub restrict_to_permitted : (Class → Bool) → List String → Edges → Edges
  restrict_to_permitted is_capability permitted edges =
      map (λ e. (e.0, filter (keep is_capability permitted) e.1))
        (filter (λ e. keep is_capability permitted e.0) edges)

-- The state of the first loop of `backward_reachable`.
pub record Kept : Type 0 where
  pub operators : List Class
  pub needed : List Class

module _ (c : Classes) where
  abbrev pub is_kept : Class → Kept → Bool
  is_kept operator k = contains operator k.operators

  -- `any(issubclass(produced, need) for produced in … for need in needed)`
  abbrev pub feeds : Class → List Class → Bool
  feeds operator needed = any (λ need. any_subclass c (effective_produces c operator) need) needed

  abbrev pub is_needed : Class → Kept → Bool
  is_needed operator k = feeds operator k.needed

  abbrev pub keep_operator : Class → Kept → Kept
  keep_operator operator k = record {
    operators = operator ∷ k.operators;
    needed = c.depends_on operator ++ k.needed;
  }

  unfoldable pub keep_operators : List Class → List Class → Kept
  unfolding loop effective_produces
  keep_operators operators sinks =
      loop is_kept is_needed keep_operator (suc (length operators)) operators
        (record { operators = []; needed = sinks })

-- `CircuitBreaker`
pub record CircuitBreaker : Type 0 where
  pub caps : Dict String ℕ
  pub counts : Dict String ℕ

abbrev pub or_none : Option ℕ → ℕ
or_none none = 0
or_none (some n) = n

unfoldable pub runs : String → CircuitBreaker → ℕ
runs operator_id b = or_none (get operator_id b.counts)

unfoldable pub record_run : String → CircuitBreaker → CircuitBreaker
record_run operator_id b = record b {
  counts = put operator_id (or_none (get operator_id b.counts) + 1) b.counts;
}

abbrev pub reaches : ℕ → Option ℕ → Bool
reaches n none = false
reaches n (some cap) = leb cap n

unfoldable pub is_tripped : String → CircuitBreaker → Bool
is_tripped operator_id b = reaches (or_none (get operator_id b.counts)) (get operator_id b.caps)
