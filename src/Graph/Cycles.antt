-- ===== src/Graph/Cycles.antt =====
-- orcastork/graph/cycles.py: Tarjan's search for the cycles of a dependency graph, and the rule that each
-- must be bounded.
use orcastork.Base.{
  ◌&&◌, true, false, Bool, List, Option, Result, [], any, contains, filter, if◌then◌else◌, is_empty,
  length, ltb, nat_beq, nat_eq, none, not, ok, pair_eq, raise, some, unbounded_cycle, ℕ, zero, suc,
  ◌+◌, ◌∷◌, ◌||◌,
}
use Prim.Native.Nat.{min}
use orcastork.Base.Dict.{Dict, get, has, keys, put}
use orcastork.DataPoint.{Class}
use orcastork.Graph.{Edges, targets}

-- The variables of `find_cycles`; the members of the stack are `on_stack`.
pub record Search : Type 0 where
  pub index_counter : ℕ
  pub indices : Dict Class ℕ
  pub lowlinks : Dict Class ℕ
  pub stack : List Class
  pub cycles : List (List Class)

abbrev pub or_zero : Option ℕ → ℕ
or_zero none = 0
or_zero (some n) = n

abbrev pub enter : Class → Search → Search
enter node t = record t {
  index_counter = t.index_counter + 1;
  indices = put node t.index_counter t.indices;
  lowlinks = put node t.index_counter t.lowlinks;
  stack = node ∷ t.stack;
}

-- `lowlinks[node] = min(lowlinks[node], …)`
abbrev pub lower : Class → ℕ → Search → Search
lower node index t = record t {
  lowlinks = put node (min (or_zero (get node t.lowlinks)) index) t.lowlinks;
}

-- The pops of a component, up to `node`: the component, and what is left of the stack.
unfoldable pub pop_until : Class → List Class → List Class × List Class
pop_until node [] = ([], [])
pop_until node (member ∷ stack) =
    let (component, rest) = pop_until node stack in
    if nat_beq member node then (member ∷ [], stack) else (member ∷ component, rest)

module _ (edges : Edges) where
  abbrev pub is_cycle : Class → List Class → Bool
  is_cycle node component = ltb 1 (length component) || contains node (targets (get node edges))

  abbrev pub close : Class → Search → Search
  close node t =
      if nat_beq (or_zero (get node t.lowlinks)) (or_zero (get node t.indices))
      then (let (component, rest) = pop_until node t.stack in
          record t {
            stack = rest;
            cycles = if is_cycle node component then component ∷ t.cycles else t.cycles;
          })
      else t

  -- One successor of the loop; `visit` is `strongconnect`.
  abbrev pub follow : (Class → Search → Search) → Class → Class → Search → Search
  follow visit node successor t =
      if not (has successor t.indices)
      then (let u = visit successor t in lower node (or_zero (get successor u.lowlinks)) u)
      else if contains successor t.stack
      then lower node (or_zero (get successor t.indices)) t
      else t

  abbrev pub follow_each : (Class → Search → Search) → Class → List Class → Search → Search
  follow_each visit node [] t = t
  follow_each visit node (successor ∷ successors) t =
      follow_each visit node successors (follow visit node successor t)

  -- the depth of the recursion is at most the number of nodes, which is the fuel
  unfoldable pub strongconnect : ℕ → Class → Search → Search
  unfolding pop_until
  strongconnect zero node t = t
  strongconnect (suc fuel) node t =
      close node (follow_each (strongconnect fuel) node (targets (get node edges)) (enter node t))

  unfoldable pub search_each : List Class → Search → Search
  unfolding strongconnect
  search_each [] t = t
  search_each (node ∷ nodes) t =
      search_each nodes
        (if has node t.indices then t else strongconnect (length (keys edges)) node t)

  unfoldable pub find_cycles : List (List Class)
  unfolding search_each
  find_cycles =
      (search_each (keys edges)
        (record { index_counter = 0; indices = []; lowlinks = []; stack = []; cycles = [] })).cycles

module _ (is_operator : Class → Bool) (max_cycles : Class → Option ℕ) where
  abbrev pub has_no_cap : Option ℕ → Bool
  has_no_cap none = true
  has_no_cap (some cap) = false

  abbrev pub is_bounded : List Class → Bool
  is_bounded cycle =
      not (is_empty (filter is_operator cycle))
      && not (any (λ op. has_no_cap (max_cycles op)) (filter is_operator cycle))

  abbrev pub all_bounded : List (List Class) → Result (Unit {0})
  all_bounded [] = ok tt
  all_bounded (cycle ∷ cycles) =
      if is_bounded cycle then all_bounded cycles else raise unbounded_cycle

  unfoldable pub validate_acyclic_or_bounded : Edges → Result (Unit {0})
  unfolding find_cycles
  validate_acyclic_or_bounded edges = all_bounded (find_cycles edges)
