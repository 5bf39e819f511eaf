-- ===== src/Scheduling/Futures.antt =====
-- What may still run: the fixpoint of orcastork/scheduling/quiescence.py against the runs that a
-- session may take.
use orcastork.Base.{
  and-intro, refl, ◌⊎◌, Bool, List, [], all, arith, contains, true, ◌&&◌, ◌++◌, ◌∷◌, ◌≡◌, nat_eq,
  contains-append,
}
use orcastork.DataPoint.{Class}
use orcastork.Classes.{Classes, effective_produces}
use orcastork.Scheduling.{is_ready, Reach, reach_all}

-- One run of an operator, and the types that it emits.
pub record Turn : Type 0 where
  pub operator : Class
  pub emitted : List Class

abbrev pub play : List Turn → List Class → List Class
play [] present = present
play (turn ∷ turns) present = play turns (turn.emitted ++ present)

abbrev pub Sub : List Class → List Class → Type 0
Sub xs ys = (t : Class) → contains t xs ≡ true → contains t ys ≡ true

pub Sub-append : (xs ys zs : List Class) → Sub xs zs → Sub ys zs → Sub (xs ++ ys) zs
Sub-append xs ys zs f g t h = ground (arith, contains-append t xs ys, f t, g t)

pub Sub-left : (xs ys : List Class) → Sub xs (xs ++ ys)
Sub-left xs ys t h = ground (arith, contains-append t xs ys)

pub Sub-right : (xs ys : List Class) → Sub ys (xs ++ ys)
Sub-right xs ys t h = ground (arith, contains-append t xs ys)

pub contains_cons :
    (a b : Class) (xs : List Class) → contains a (b ∷ xs) ≡ true → (b ≡ a) ⊎ (contains a xs ≡ true)
unfolding contains
contains_cons a b xs h = ground (arith, nat_eq.beq_iff b a)

pub contains_each : (xs ys : List Class) → Sub xs ys → all (λ t. contains t ys) xs ≡ true
unfolding all contains
contains_each [] ys h = refl
contains_each (x ∷ xs) ys h =
    and-intro _ _ (h x (ground (arith, nat_eq.beq_iff x x)))
      (contains_each xs ys (λ t here. h t (ground arith)))

module _ (c : Classes) (available pending : List Class) where
  -- Pending operators run one after the other, each ready when it runs, and each emitting some of the
  -- types that it may produce.
  abbrev pub may_take : Turn → List Class → Bool
  may_take turn present =
      contains turn.operator pending
      && is_ready c turn.operator present available
      && all (λ t. contains t (effective_produces c turn.operator)) turn.emitted

  abbrev pub allowed : List Turn → List Class → Bool
  allowed [] present = true
  allowed (turn ∷ turns) present = may_take turn present && allowed turns (turn.emitted ++ present)

  record Bound (start : List Class) (r : Reach) : Type 0 where
    begins : Sub start r.producible
    follows :
        (operator : Class)
        → contains operator r.reachable ≡ true
        → Sub (effective_produces c operator) r.producible

  module _ (start : List Class) where
    abbrev result : Reach
    result = reach_all c available pending start
