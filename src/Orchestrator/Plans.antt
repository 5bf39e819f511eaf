-- ===== src/Orchestrator/Plans.antt =====
-- A plan launches what may be launched, and leaves out only what has nothing to do.
use orcastork.Orchestrator.Planning.{armed, plan_ready, launch, consider, rerun}
use orcastork.Orchestrator.Launching.{armed-IsArmed, armed-scheduled, launchable}
use orcastork.Rerun.{DebounceController}
use orcastork.Orchestrator.Planning.{defers}
use orcastork.Orchestrator.Planning.{within_window, has_relevant_new_data, has_run}
use orcastork.Orchestrator.Launching.{settled, idle, waiting}
use orcastork.Base.{
  sym, Bool-cases, string_eq, Bool, List, Option-cases, Result, String, [], arith, continue, false,
  inl, inr, ok, pure, raise, some, true, ℕ, ◌++◌, ◌∷◌, ◌≡◌, refl,
}
use orcastork.Base.Dict.{get, has}
use orcastork.DataPoint.{Class}
use orcastork.Rerun.{DebounceController, InvocationDelta, is_due, is_scheduled, due_at}
use orcastork.Graph.{is_tripped}
use orcastork.Orchestrator.State.{Flow, Settings, Session}
use orcastork.Orchestrator.Planning.{
  CapabilityView, Runnable, Scan, delta_for, armed, id_of, plan_ready, launch, within_window,
  consider, rerun, has_run, has_relevant_new_data, defers,
}
use orcastork.Orchestrator.Launching.{
  Outcome, idle, launched, waiting, IsArmed, IsArmed-refl, armed-IsArmed, delta_for-same,
  launchable, settled, is_ready_now,
}

due_at-scheduled :
    (i : String) (d : DebounceController)
    → is_scheduled i d ≡ true
    → (due : ℕ) × (due_at i d ≡ some due)
unfolding is_scheduled due_at
due_at-scheduled i d h = elim (Option-cases (get i d.due)) [
  | inl gone ↦ absurd (ground arith)
  | inr (due, e) ↦ (due, e)
]

module _ (f : Flow) (self : Settings) (capabilities : CapabilityView) (completion_satisfied : Bool)
    (present_types : List Class) where
  -- What a step of the plan that returns has done.
  abbrev pub Good : Class → Scan → Session → Result Scan × Session → Type 0
  Good operator scan s (ok scan', t) =
      IsArmed f self capabilities s t
      × Outcome f self capabilities completion_satisfied present_types operator scan scan' t
  Good operator scan s (raise e, t) = Unit

  launch_at :
      (operator : Class) (is_rerun is_retry : Bool) (scan : Scan) (s : Session)
      (p : Result InvocationDelta × Session)
      → p.1 ≡ s
      → ((delta : InvocationDelta)
          → p.0 ≡ ok delta
          → launchable f self capabilities completion_satisfied present_types s (record {
            operator = operator;
            delta = delta;
            is_rerun = is_rerun;
            is_retry = is_retry;
          })
            ≡ true)
      → Good operator scan s (
          continue p.0
            (λ delta. pure (record scan {
              runnable =
                  scan.runnable
                  ++ record {
                    operator = operator;
                    delta = delta;
                    is_rerun = is_rerun;
                    is_retry = is_retry;
                  }
                    ∷ [];
            }))
            p.1)
  launch_at operator is_rerun is_retry scan s (ok delta, t) e k = rw e (
    IsArmed-refl f self capabilities s,
    launched
        (record { operator = operator; delta = delta; is_rerun = is_rerun; is_retry = is_retry })
        refl refl refl (k delta refl),
  )
  launch_at operator is_rerun is_retry scan s (raise x, t) e k = tt

  launch-Good :
      (operator : Class) (is_rerun is_retry : Bool) (scan : Scan) (s : Session)
      → ((delta : InvocationDelta)
          → launchable f self capabilities completion_satisfied present_types s (record {
            operator = operator;
            delta = delta;
            is_rerun = is_rerun;
            is_retry = is_retry;
          })
            ≡ true)
      → Good operator scan s (launch f self capabilities operator is_rerun is_retry scan s)
  launch-Good operator is_rerun is_retry scan s k =
      launch_at operator is_rerun is_retry scan s (delta_for f self capabilities operator s)
        (delta_for-same f self capabilities operator s) (λ delta _. k delta)

  -- The facts of an operator that is ready and that nothing runs or has tripped.
  abbrev pub IsOpen : Class → Session → Type 0
  IsOpen operator s =
      (has (id_of f self operator) s.running ≡ false)
      × (is_tripped (id_of f self operator) s.breaker ≡ false)
      × (is_ready_now f self capabilities completion_satisfied present_types operator ≡ true)

  abbrev pub IsSettled : Class → Session → Type 0
  IsSettled operator s =
      settled f self capabilities completion_satisfied present_types s operator ≡ true

  abbrev pub IsLaunchable : Session → Runnable → Type 0
  IsLaunchable s r = launchable f self capabilities completion_satisfied present_types s r ≡ true

  module _ (operator : Class) (scan : Scan) (s t : Session) (open_now : IsOpen operator t)
      (no_retry : is_scheduled (id_of f self operator) t.retries ≡ false)
      (ran : has_run f self operator t ≡ true)
      (reruns : (f.policy operator).rerun_on_new_data ≡ true)
      (a : IsArmed f self capabilities s t) where
    quiet-IsSettled :
        (delta : InvocationDelta)
        → (delta_for f self capabilities operator t).0 ≡ ok delta
        → has_relevant_new_data f self operator delta ≡ false
        → IsSettled operator t
    quiet-IsSettled delta e h = rw (e, h) (ground arith)

    deferred-IsSettled :
        is_scheduled (id_of f self operator) t.debounce ≡ true
        → defers f self capabilities completion_satisfied operator ≡ true
        → IsSettled operator t
    deferred-IsSettled sch df = ground arith

    rerun-IsLaunchable :
        (delta : InvocationDelta)
        → has_relevant_new_data f self operator delta ≡ true
        → is_due (id_of f self operator) t.now t.debounce ≡ true
        → IsLaunchable t
            (record { operator = operator; delta = delta; is_rerun = true; is_retry = false })
    rerun-IsLaunchable delta news due = ground arith

    window-Good :
        (delta : InvocationDelta)
        → is_scheduled (id_of f self operator) t.debounce ≡ true
        → has_relevant_new_data f self operator delta ≡ true
        → Good operator scan s
            (within_window f self capabilities completion_satisfied operator delta scan t)
    window-Good delta sch news =
        elim (Bool-cases (is_due (id_of f self operator) t.now t.debounce)) [
          | inl due ↦ rw due (
            a,
            launched
                (record { operator = operator; delta = delta; is_rerun = true; is_retry = false })
                refl refl refl (rerun-IsLaunchable delta news due),
          )
          | inr early ↦
              elim (Bool-cases (defers f self capabilities completion_satisfied operator)) [
                | inl df ↦ rw (early, df) (a, idle refl refl (deferred-IsSettled sch df))
                | inr nf ↦
                    let (due, e) = due_at-scheduled (id_of f self operator) t.debounce sch in
                    rw (early, nf, e) (a, waiting due refl refl)
              ]
        ]

  module _ (operator : Class) (scan : Scan) (s : Session) (open_now : IsOpen operator s)
      (no_retry : is_scheduled (id_of f self operator) s.retries ≡ false)
      (ran : has_run f self operator s ≡ true)
      (reruns : (f.policy operator).rerun_on_new_data ≡ true) where
    consider-Good :
        (delta : InvocationDelta)
        → (delta_for f self capabilities operator s).0 ≡ ok delta
        → Good operator scan s
            (consider f self capabilities completion_satisfied operator scan delta s)
    consider-Good delta e = elim (Bool-cases (has_relevant_new_data f self operator delta)) [
      | inl news ↦
          rw (reruns, news)
            (window-Good operator scan s (armed f self capabilities operator s) open_now no_retry
              ran reruns (armed-IsArmed f self capabilities operator s) delta
              (armed-scheduled f self capabilities operator s) news)
      | inr quiet ↦
          rw (reruns, quiet)
            (
              IsArmed-refl f self capabilities s,
              idle refl refl (
                  quiet-IsSettled operator scan s s open_now no_retry ran reruns
                    (IsArmed-refl f self capabilities s) delta e quiet),
            )
    ]

    consider_at :
        (p : Result InvocationDelta × Session)
        → p.1 ≡ s
        → p.0 ≡ (delta_for f self capabilities operator s).0
        → Good operator scan s
            (continue p.0 (consider f self capabilities completion_satisfied operator scan) p.1)
    consider_at (ok delta, t) e h = rw e (consider-Good delta (sym h))
    consider_at (raise x, t) e h = tt

    rerun-Good :
        Good operator scan s (rerun f self capabilities completion_satisfied operator scan s)
    rerun-Good =
        consider_at (delta_for f self capabilities operator s)
          (delta_for-same f self capabilities operator s) refl

  module _ (operator : Class) (scan : Scan) (s : Session) (open_now : IsOpen operator s) where
    retry-IsLaunchable :
        is_due (id_of f self operator) s.now s.retries ≡ true
        → (delta : InvocationDelta)
        → IsLaunchable s
            (record { operator = operator; delta = delta; is_rerun = false; is_retry = true })
    retry-IsLaunchable due delta = ground arith

    first-IsLaunchable :
        is_scheduled (id_of f self operator) s.retries ≡ false
        → has_run f self operator s ≡ false
        → (delta : InvocationDelta)
        → IsLaunchable s
            (record { operator = operator; delta = delta; is_rerun = false; is_retry = false })
    first-IsLaunchable no_retry new delta = ground arith

    once-IsSettled :
        is_scheduled (id_of f self operator) s.retries ≡ false
        → has_run f self operator s ≡ true
        → (f.policy operator).rerun_on_new_data ≡ false
        → IsSettled operator s
    once-IsSettled no_retry ran once = ground arith

    ready_retry :
        is_scheduled (id_of f self operator) s.retries ≡ true
        → Good operator scan s
            (plan_ready f self capabilities completion_satisfied present_types operator scan s)
    ready_retry sch = elim (Bool-cases (is_due (id_of f self operator) s.now s.retries)) [
      | inl due ↦ rw (sch, due) (launch-Good operator false true scan s (retry-IsLaunchable due))
      | inr early ↦
          let (due, e) = due_at-scheduled (id_of f self operator) s.retries sch in
          rw (sch, early, e) (IsArmed-refl f self capabilities s, waiting due refl refl)
    ]

    ready_ran :
        is_scheduled (id_of f self operator) s.retries ≡ false
        → has_run f self operator s ≡ true
        → Good operator scan s
            (plan_ready f self capabilities completion_satisfied present_types operator scan s)
    ready_ran no_retry ran = elim (Bool-cases (f.policy operator).rerun_on_new_data) [
      | inl reruns ↦
          rw (no_retry, ran, reruns) (rerun-Good operator scan s open_now no_retry ran reruns)
      | inr once ↦
          rw (no_retry, ran, once)
            (IsArmed-refl f self capabilities s, idle refl refl (once-IsSettled no_retry ran once))
    ]

    pub ready-Good :
        Good operator scan s
          (plan_ready f self capabilities completion_satisfied present_types operator scan s)
    ready-Good = elim (Bool-cases (is_scheduled (id_of f self operator) s.retries)) [
      | inl sch ↦ ready_retry sch
      | inr no_retry ↦ elim (Bool-cases (has_run f self operator s)) [
        | inl ran ↦ ready_ran no_retry ran
        | inr new ↦
            rw (no_retry, new)
              (launch-Good operator false false scan s (first-IsLaunchable no_retry new))
      ]
    ]
