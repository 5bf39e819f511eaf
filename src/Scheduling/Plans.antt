-- ===== src/Scheduling/Plans.antt =====
-- Each operator that the fixpoint of orcastork/scheduling/quiescence.py reaches can indeed come to run.
use orcastork.Base.{
  Bool, all, List, [], and-intro, and-true, arith, contains, inl, inr, length, refl, suc, sym, true,
  ◌++◌, ◌∙◌, ◌∷◌, ◌≡◌, nat_eq,
}
use orcastork.DataPoint.{Class}
use orcastork.Classes.{Classes, effective_produces, all-any_subclass_weaken}
use orcastork.Fixpoint.{loop_induction}
use orcastork.Scheduling.{
  is_ready, deps_reachable, Reach, reached, can_reach, reach, reach_all, reachable_pending,
}
use orcastork.Scheduling.Readiness.{is_ready-covered}
use orcastork.Scheduling.Futures.{
  Turn, play, allowed, may_take, Sub, Sub-append, Sub-left, Sub-right, contains_cons, contains_each,
}

all_each :
    (p : Class → Bool) (xs : List Class)
    → ((t : Class) → contains t xs ≡ true → p t ≡ true)
    → all p xs ≡ true
unfolding all contains
all_each p [] h = refl
all_each p (x ∷ xs) h =
    and-intro _ _ (h x (ground (arith, nat_eq.beq_iff x x)))
      (all_each p xs (λ t here. h t (ground arith)))

module _ (c : Classes) (available pending start : List Class) where
  -- A run that produces all that a reachable state holds, and the readiness of the operators in it.
  record Witnessed (r : Reach) : Type 0 where
    turns : List Turn
    permitted : allowed c available pending turns start ≡ true
    produces : Sub r.producible (play turns start)
    ready :
        (operator : Class)
        → contains operator r.reachable ≡ true
        → can_reach c available operator r ≡ true

  allowed-append :
      (turns more : List Turn) (present : List Class)
      → allowed c available pending turns present ≡ true
      → allowed c available pending more (play turns present) ≡ true
      → allowed c available pending (turns ++ more) present ≡ true
  allowed-append [] more present h k = k
  allowed-append (turn ∷ turns) more present h k =
      let (x, y) = and-true (may_take c available pending turn present) _ h in
      and-intro _ _ x (allowed-append turns more (turn.emitted ++ present) y k)

  play-append :
      (turns more : List Turn) (present : List Class)
      → play (turns ++ more) present ≡ play more (play turns present)
  play-append [] more present = refl
  play-append (turn ∷ turns) more present = play-append turns more (turn.emitted ++ present)

  can_reach-weaken :
      (operator : Class) (r r' : Reach)
      → Sub r.producible r'.producible
      → can_reach c available operator r ≡ true
      → can_reach c available operator r' ≡ true
  can_reach-weaken operator r r' sub h =
      let (d, k) = and-true (deps_reachable c operator r.producible) _ h in
      and-intro _ _
        (all-any_subclass_weaken c r.producible r'.producible (c.depends_on operator) sub d) k

  ready_of_reach :
      (operator : Class) (r : Reach) (present : List Class)
      → Sub r.producible present
      → can_reach c available operator r ≡ true
      → is_ready c operator present available ≡ true
  ready_of_reach operator r present sub h =
      is_ready-covered c operator present available
      ∙ can_reach-weaken operator r (record { reachable = []; producible = present }) sub h

  abbrev full_turn : Class → Turn
  full_turn operator = record { operator = operator; emitted = effective_produces c operator }

  ready_before :
      (o operator : Class) (r : Reach)
      → can_reach c available operator r ≡ true
      → ((q : Class) → contains q r.reachable ≡ true → can_reach c available q r ≡ true)
      → contains o (operator ∷ r.reachable) ≡ true
      → can_reach c available o r ≡ true
  ready_before o operator r can old h = elim (contains_cons o operator r.reachable h) [
    | inl same ↦ rw (sym same) can
    | inr there ↦ old o there
  ]

  takes :
      (operator : Class) (present : List Class)
      → contains operator pending ≡ true
      → is_ready c operator present available ≡ true
      → may_take c available pending (full_turn operator) present ≡ true
  takes operator present here ready =
      and-intro _ _ (and-intro _ _ here ready)
        (contains_each (effective_produces c operator) (effective_produces c operator) (λ t h. h))

  reach-Witnessed :
      (operator : Class) (r : Reach)
      → contains operator pending ≡ true
      → can_reach c available operator r ≡ true
      → Witnessed r
      → Witnessed (reach c available operator r)
  reach-Witnessed operator r here can w =
      let grown = Sub-right (effective_produces c operator) r.producible in
      record {
        turns = w.turns ++ full_turn operator ∷ [];
        permitted = allowed-append w.turns (full_turn operator ∷ []) start w.permitted (
            and-intro _ _
              (takes operator (play w.turns start) here
                (ready_of_reach operator r (play w.turns start) w.produces can))
              refl);
        produces = rw (play-append w.turns (full_turn operator ∷ []) start) (
            Sub-append (effective_produces c operator) r.producible
              (effective_produces c operator ++ play w.turns start)
              (Sub-left (effective_produces c operator) (play w.turns start))
              (λ t h.
                Sub-right (effective_produces c operator) (play w.turns start) t (w.produces t h)));
        ready = λ o h.
            can_reach-weaken o r (reach c available operator r) grown
              (ready_before o operator r can w.ready h);
      }

  result-Witnessed : Witnessed (reach_all c available pending start)
  unfolding reach_all contains
  result-Witnessed =
      loop_induction (reached c available) (can_reach c available) (reach c available) Witnessed
        (λ o. contains o pending) (λ o r here can w. reach-Witnessed o r here can w)
        (suc (length pending)) pending (record { reachable = []; producible = start })
        (contains_each pending pending (λ t h. h))
        (record {
          turns = [];
          permitted = refl;
          produces = λ t h. h;
          ready = λ o h. absurd (ground arith);
        })

  -- The fixpoint claims nothing too much: there are runs, allowed from the present types, after which
  -- every operator in `reachable_pending` is ready.
  pub reachable_pending_sound :
      (turns : List Turn) × (allowed c available pending turns start ≡ true)
      × (all
            (λ operator. is_ready c operator (play turns start) available)
            (reachable_pending c available pending start)
          ≡ true)
  unfolding reachable_pending
  reachable_pending_sound =
      let w = result-Witnessed in
      let r = reach_all c available pending start in
      (
        w.turns,
        w.permitted,
        all_each (λ operator. is_ready c operator (play w.turns start) available) r.reachable
            (λ o h. ready_of_reach o r (play w.turns start) w.produces (w.ready o h)),
      )
