-- ===== src/Graph/Needed.antt =====
-- Which operators `backward_reachable` keeps.
use orcastork.Base.{
  all-contains, not, ◌||◌, ◌↔◌, List, [], arith, contains, inl, inr, length, suc, sym, true, ◌++◌,
  ◌≡◌, ◌⊎◌, nat_eq, contains-append, contains_of_any, any_of_contains,
}
use orcastork.DataPoint.{Class}
use orcastork.Classes.{Classes, any_subclass, effective_produces}
use orcastork.Fixpoint.{any_item, closed, loop-closed, loop_induction}
use orcastork.Graph.{Kept, is_kept, feeds, is_needed, keep_operator, keep_operators}
use orcastork.Scheduling.Futures.{
  Sub-left, Sub-right, contains_cons, contains_each, Sub-left, Sub-right,
}

module _ (c : Classes) (operators sinks : List Class) where
  -- An operator whose output reaches a sink: it produces a type that is a sink, or that such an
  -- operator depends on.
  pub data Feeds : Class → Type 0 where
    to_sink :
        (operator : Class)
        → contains operator operators ≡ true
        → feeds c operator sinks ≡ true
        → Feeds operator
    to_operator :
        (operator consumer : Class)
        → contains operator operators ≡ true
        → Feeds consumer
        → feeds c operator (c.depends_on consumer) ≡ true
        → Feeds operator

  abbrev kept : Kept
  kept = keep_operators c operators sinks

  -- Every need is a sink, or an input of an operator that feeds one.
  record Grounded (k : Kept) : Type 0 where
    each : (operator : Class) → contains operator k.operators ≡ true → Feeds operator
    source :
        (need : Class)
        → contains need k.needed ≡ true
        → (contains need sinks ≡ true)
          ⊎ ((consumer : Class) × Feeds consumer × (contains need (c.depends_on consumer) ≡ true))

  Feeds-now :
      (operator : Class) (k : Kept)
      → contains operator operators ≡ true
      → is_needed c operator k ≡ true
      → Grounded k
      → Feeds operator
  Feeds-now operator k here h g =
      let (need, there, sub) =
        contains_of_any (λ need. any_subclass c (effective_produces c operator) need) k.needed h in
      elim (g.source need there) [
        | inl sink ↦ to_sink operator here (
            any_of_contains (λ need. any_subclass c (effective_produces c operator) need) need sinks
              sink sub)
        | inr (consumer, f, dep) ↦ to_operator operator consumer here f (
            any_of_contains (λ need. any_subclass c (effective_produces c operator) need) need
              (c.depends_on consumer) dep sub)
      ]

  append_cases :
      (t : Class) (xs ys : List Class)
      → contains t (xs ++ ys) ≡ true
      → (contains t xs ≡ true) ⊎ (contains t ys ≡ true)
  append_cases t xs ys h = ground (arith, contains-append t xs ys)

  keep-Grounded :
      (operator : Class) (k : Kept)
      → contains operator operators ≡ true
      → is_needed c operator k ≡ true
      → Grounded k
      → Grounded (keep_operator c operator k)
  keep-Grounded operator k here h g =
      let now = Feeds-now operator k here h g in
      record {
        each = λ o there. elim (contains_cons o operator k.operators there) [
          | inl same ↦ rw (sym same) now
          | inr old ↦ g.each o old
        ];
        source = λ need there. elim (append_cases need (c.depends_on operator) k.needed there) [
          | inl dep ↦ inr (operator, now, dep)
          | inr old ↦ g.source need old
        ];
      }

  kept-Grounded : Grounded kept
  unfolding keep_operators contains
  kept-Grounded =
      loop_induction (is_kept c) (is_needed c) (keep_operator c) Grounded
        (λ o. contains o operators) (λ o k here h g. keep-Grounded o k here h g)
        (suc (length operators)) operators (record { operators = []; needed = sinks })
        (contains_each operators operators (λ t h. h))
        (record { each = λ o h. absurd (ground arith); source = λ need h. inl h })

  kept-closed : closed (is_kept c) (is_needed c) (keep_operator c) operators kept ≡ true
  unfolding keep_operators contains
  kept-closed =
      loop-closed (is_kept c) (is_needed c) (keep_operator c)
        (λ o k. ground (arith, nat_eq.beq_iff o o)) (λ o q k h. ground arith) operators
        (record { operators = []; needed = sinks })

  record Carries (k : Kept) : Type 0 where
    sinks_in : (t : Class) → contains t sinks ≡ true → contains t k.needed ≡ true
    inputs_in :
        (operator t : Class)
        → contains operator k.operators ≡ true
        → contains t (c.depends_on operator) ≡ true
        → contains t k.needed ≡ true

  keep-Carries : (operator : Class) (k : Kept) → Carries k → Carries (keep_operator c operator k)
  keep-Carries operator k h = record {
    sinks_in = λ t there. Sub-right (c.depends_on operator) k.needed t (h.sinks_in t there);
    inputs_in = λ o t there dep. elim (contains_cons o operator k.operators there) [
      | inl same ↦ Sub-left (c.depends_on operator) k.needed t (rw (sym same) at dep)
      | inr old ↦ Sub-right (c.depends_on operator) k.needed t (h.inputs_in o t old dep)
    ];
  }

  kept-Carries : Carries kept
  unfolding keep_operators contains
  kept-Carries =
      loop_induction (is_kept c) (is_needed c) (keep_operator c) Carries (λ _. true)
        (λ o k _ _ h. keep-Carries o k h) (suc (length operators)) operators
        (record { operators = []; needed = sinks }) (any_item operators)
        (record { sinks_in = λ t h. h; inputs_in = λ o t h d. absurd (ground arith) })

  kept_now :
      (operator : Class) (k : Kept)
      → (is_kept c operator k || not (is_needed c operator k)) ≡ true
      → is_needed c operator k ≡ true
      → contains operator k.operators ≡ true
  kept_now operator k h j = ground arith

  kept_of_need :
      (operator : Class) (needs : List Class)
      → contains operator operators ≡ true
      → ((t : Class) → contains t needs ≡ true → contains t kept.needed ≡ true)
      → feeds c operator needs ≡ true
      → contains operator kept.operators ≡ true
  kept_of_need operator needs here sub h =
      let (need, there, s) =
        contains_of_any (λ need. any_subclass c (effective_produces c operator) need) needs h in
      kept_now operator kept (all-contains _ operator operators kept-closed here) (
        any_of_contains (λ need. any_subclass c (effective_produces c operator) need) need
          kept.needed (sub need there) s)

  kept_of_Feeds : (operator : Class) → Feeds operator → contains operator kept.operators ≡ true
  kept_of_Feeds _ (to_sink operator here h) =
      kept_of_need operator sinks here kept-Carries.sinks_in h
  kept_of_Feeds _ (to_operator operator consumer here f h) =
      kept_of_need operator (c.depends_on consumer) here
        (λ t d. kept-Carries.inputs_in consumer t (kept_of_Feeds consumer f) d) h

  -- `backward_reachable` keeps exactly the operators whose output reaches a sink, directly or as the
  -- input of another such operator.
  pub kept-exact :
      (operator : Class)
      → (contains operator (keep_operators c operators sinks).operators ≡ true) ↔ Feeds operator
  kept-exact operator = (kept-Grounded.each operator, kept_of_Feeds operator)
