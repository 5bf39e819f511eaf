-- ===== src/Graph/Links.antt =====
-- Which edges `build_graph` and `build_uses_edges` draw.
use orcastork.Base.Dict.{get, get-put, get-put_other, get-put_self}
use orcastork.Base.{
  any, ap, not, true, ◌++◌, Bool, Bool-cases, List, [], arith, contains, eq_of_beq, false,
  if◌then◌else◌, inl, inr, nat_beq, refl, sym, ◌&&◌, ◌||◌, ◌∙◌, ◌∷◌, ◌≡◌, nat_eq,
}
use orcastork.DataPoint.{Class}
use orcastork.Classes.{Classes, any_subclass, effective_produces}
use orcastork.Graph.{
  Edges, targets, add_edge, no_edges, link_from, link_needs, link_all, build_graph,
  build_uses_edges, produces_for, provides_for, used_by,
}

-- Whether the graph has an edge.
abbrev pub has_edge : Class → Class → Edges → Bool
has_edge source target edges = contains target (targets (get source edges))

abbrev with_target : Class → List Class → List Class
with_target t ts = if contains t ts then ts else t ∷ ts

contains-with_target :
    (q t : Class) (ts : List Class) → contains q (with_target t ts) ≡ (contains q ts || nat_beq t q)
unfolding contains
contains-with_target q t ts = ground (arith, nat_eq.beq_iff t q)

settled :
    (t q : Class) (there : Bool) (s : Class)
    → (there || nat_beq t q) ≡ (there || (nat_beq s s && nat_beq t q))
settled t q there s = ground arith

has_edge-add :
    (p q s t : Class) (edges : Edges)
    → has_edge p q (add_edge s t edges) ≡ (has_edge p q edges || (nat_beq s p && nat_beq t q))
has_edge-add p q s t edges = elim (Bool-cases (nat_beq s p)) [
  | inr ne ↦
      rw (get-put_other s p (with_target t (targets (get s edges))) edges ne, ne) (ground arith)
  | inl same ↦
      rw (sym (eq_of_beq s p same), get-put_self s (with_target t (targets (get s edges))) edges)
        (contains-with_target q t (targets (get s edges))
          ∙ settled t q (contains q (targets (get s edges))) s)
]

no_edges-none : (nodes : List Class) (p q : Class) → has_edge p q (no_edges nodes) ≡ false
unfolding get contains
no_edges-none [] p q = refl
no_edges-none (node ∷ nodes) p q =
    ground (arith, get-put node p [] (no_edges nodes), no_edges-none nodes p q)

same_test : (test : Class → Bool) (a b : Class) → nat_beq a b ≡ true → test a ≡ test b
same_test test a b h = ap test (eq_of_beq a b h)

module _ (p q : Class) where
  link_from-edge :
      (test : Class → Bool) (consumer : Class) (producers : List Class) (edges : Edges)
      → has_edge p q (link_from test consumer producers edges)
        ≡ (has_edge p q edges || (nat_beq consumer q && (contains p producers && test p)))
  unfolding contains
  link_from-edge test consumer [] edges = ground arith
  link_from-edge test consumer (producer ∷ producers) edges = ground (
    arith,
    link_from-edge test consumer producers edges,
    link_from-edge test consumer producers (add_edge producer consumer edges),
    has_edge-add p q producer consumer edges,
    same_test test producer p,
  )

  link_needs-edge :
      (test : Class → Class → Bool) (consumer : Class) (needs producers : List Class)
      (edges : Edges)
      → has_edge p q (link_needs test consumer needs producers edges) ≡ (
          has_edge p q edges
          || (nat_beq consumer q
              && (contains p producers && any (λ required. test required p) needs)))
  unfolding any
  link_needs-edge test consumer [] producers edges = ground arith
  link_needs-edge test consumer (required ∷ needs) producers edges = ground (
    arith,
    link_needs-edge test consumer needs producers
        (link_from (test required) consumer producers edges),
    link_from-edge (test required) consumer producers edges,
  )

  link_all-edge :
      (test : Class → Class → Class → Bool) (needs : Class → List Class)
      (consumers producers : List Class) (edges : Edges)
      → has_edge p q (link_all test needs consumers producers edges) ≡ (
          has_edge p q edges
          || (contains q consumers
              && (contains p producers && any (λ required. test q required p) (needs q))))
  unfolding contains
  link_all-edge test needs [] producers edges = ground arith
  link_all-edge test needs (consumer ∷ consumers) producers edges = ground (
    arith,
    link_all-edge test needs consumers producers
        (link_needs (test consumer) consumer (needs consumer) producers edges),
    link_needs-edge (test consumer) consumer (needs consumer) producers edges,
    same_test (λ k. any (λ required. test k required p) (needs k)) consumer q,
  )

module _ (c : Classes) (p q : Class) where
  -- The graph has an edge exactly from an operator to a node that depends on a type with a subtype
  -- among those it may produce, and from a capability to a node that requires it or a base of it.
  pub build_graph-edge :
      (operators capabilities : List Class)
      → has_edge p q (build_graph c operators capabilities) ≡ (
          (contains q (operators ++ capabilities)
            && (contains p operators
                && any
                    (λ required. any_subclass c (effective_produces c p) required)
                    (c.depends_on q)))
          || (contains q (operators ++ capabilities)
              && (contains p capabilities
                  && any (λ required. c.issubclass p required) (c.requires q))))
  unfolding build_graph
  build_graph-edge operators capabilities =
      let nodes = operators ++ capabilities in
      link_all-edge p q (provides_for c) c.requires nodes capabilities
        (link_all (produces_for c) c.depends_on nodes operators (no_edges nodes))
      ∙ rw
          (
            link_all-edge p q (produces_for c) c.depends_on nodes operators (no_edges nodes),
            no_edges-none nodes p q,
          )
          refl

  -- The weaker links have no edge from an operator to itself, and one from an operator to another
  -- exactly if that one uses a type with a subtype among those the first may produce.
  pub build_uses_edges-edge :
      (operators : List Class)
      → has_edge p q (build_uses_edges c operators) ≡ (
          contains q operators
          && (contains p operators
              && any
                  (λ used. not (nat_beq p q) && any_subclass c (effective_produces c p) used)
                  (c.uses q)))
  unfolding build_uses_edges
  build_uses_edges-edge operators =
      link_all-edge p q (used_by c) c.uses operators operators (no_edges operators)
      ∙ rw (no_edges-none operators p q) refl
