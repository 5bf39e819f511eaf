-- ===== src/Orchestrator/Passes.antt =====
-- What the plan of a pass of the gathering loop launches, and what it leaves out.
use orcastork.Orchestrator.Planning.{as_plan, no_scan, wait_until, GatherPlan, plan}
use orcastork.DataPoint.{DataPoint}
use orcastork.Orchestrator.State.{Method}
use orcastork.Orchestrator.Planning.{plan_one, plan_all, noted, sooner}
use orcastork.Orchestrator.Plans.{Good, IsOpen, IsSettled, ready-Good}
use orcastork.Orchestrator.Launching.{launchable_later, settled_later, IsArmed-trans}
use orcastork.Orchestrator.Planning.{plan_ready}
use orcastork.Orchestrator.Launching.{launchable}
use orcastork.Orchestrator.Planning.{has_run}
use orcastork.Orchestrator.Launching.{settled, idle, waiting}
use orcastork.Base.{
  map, Option, all, and-intro, and-true, none, ◌≢◌, >>=-eq-ok, ap, if◌then◌else◌, ok-inj, ◌>>=◌,
  ◌||◌, ◌∙◌, sym, Bool-cases, string_eq, Bool, List, Result, [], arith, false, inl, inr, ok, raise,
  some, true, ℕ, ◌++◌, ◌∷◌, ◌≡◌, refl,
}
use orcastork.Base.Dict.{has}
use orcastork.DataPoint.{Class}
use orcastork.Graph.{is_tripped}
use orcastork.Orchestrator.State.{Flow, Settings, Session}
use orcastork.Orchestrator.Planning.{CapabilityView, Runnable, Scan, id_of, plan_ready, has_run}
use orcastork.Orchestrator.Launching.{
  Outcome, idle, launched, waiting, IsArmed, IsArmed-refl, launchable, settled, is_ready_now,
}

no_room : (rs : List Runnable) (r : Runnable) → rs ++ r ∷ [] ≢ []
no_room [] r h = absurd (ground arith)
no_room (x ∷ rs) r h = absurd (ground arith)

some_wait : (due : ℕ) (soonest : Option ℕ) → sooner (some due) soonest ≢ none
some_wait due none h = absurd (ground arith)
some_wait due (some soonest) h = absurd (ground arith)

module _ (f : Flow) (self : Settings) (capabilities : CapabilityView) (completion_satisfied : Bool)
    (present_types : List Class) where
  abbrev noted_scan : Class → Scan → Session → Scan
  noted_scan = noted f self capabilities completion_satisfied present_types

  noted_same :
      (operator : Class) (scan : Scan) (s : Session)
      → ((noted_scan operator scan s).runnable ≡ scan.runnable)
        × ((noted_scan operator scan s).soonest_due ≡ scan.soonest_due)
  noted_same operator scan s = elim (Bool-cases (has_run f self operator s)) [
    | inl ran ↦ rw ran (refl, refl)
    | inr new ↦ rw new (refl, refl)
  ]

  same_outcome :
      (operator : Class) (scan next scan' : Scan) (t : Session)
      → next.runnable ≡ scan.runnable
      → next.soonest_due ≡ scan.soonest_due
      → Outcome f self capabilities completion_satisfied present_types operator next scan' t
      → Outcome f self capabilities completion_satisfied present_types operator scan scan' t
  same_outcome operator scan next scan' t e d (idle x y z) = idle (x ∙ e) (y ∙ d) z
  same_outcome operator scan next scan' t e d (launched r o x y z) =
      launched r o (x ∙ ap (λ l. l ++ r ∷ []) e) (y ∙ d) z
  same_outcome operator scan next scan' t e d (waiting due x y) =
      waiting due (x ∙ e) (y ∙ ap (sooner (some due)) d)

  from_noted :
      (operator : Class) (scan : Scan) (s : Session) (r : Result Scan × Session)
      → Good f self capabilities completion_satisfied present_types operator
          (noted_scan operator scan s)
          s
          r
      → Good f self capabilities completion_satisfied present_types operator scan s r
  from_noted operator scan s (ok scan', t) (a, o) =
      let (e, d) = noted_same operator scan s in
      (a, same_outcome operator scan (noted_scan operator scan s) scan' t e d o)
  from_noted operator scan s (raise x, t) g = tt

  abbrev step : Class → Scan → Method Scan
  step = plan_one f self capabilities completion_satisfied present_types

  abbrev is_busy : Class → Session → Bool
  is_busy operator s =
      has (id_of f self operator) s.running || is_tripped (id_of f self operator) s.breaker

  plan_one_lem :
      (operator : Class) (scan : Scan) (s : Session)
      → step operator scan s ≡ (
          if is_busy operator s
          then (ok scan, s)
          else if is_ready_now f self capabilities completion_satisfied present_types operator
          then plan_ready f self capabilities completion_satisfied present_types operator
              (noted_scan operator scan s)
              s
          else (ok (noted_scan operator scan s), s))
  unfolding plan_one
  plan_one_lem operator scan s = refl

  busy-IsSettled :
      (operator : Class) (s : Session)
      → is_busy operator s ≡ true
      → IsSettled f self capabilities completion_satisfied present_types operator s
  busy-IsSettled operator s h = ground arith

  unready-IsSettled :
      (operator : Class) (s : Session)
      → is_ready_now f self capabilities completion_satisfied present_types operator ≡ false
      → IsSettled f self capabilities completion_satisfied present_types operator s
  unready-IsSettled operator s h = ground arith

  is_open :
      (operator : Class) (s : Session)
      → is_busy operator s ≡ false
      → is_ready_now f self capabilities completion_satisfied present_types operator ≡ true
      → IsOpen f self capabilities completion_satisfied present_types operator s
  is_open operator s h k = (ground arith, ground arith, k)

  plan_one-Good :
      (operator : Class) (scan : Scan) (s : Session)
      → Good f self capabilities completion_satisfied present_types operator scan s
          (step operator scan s)
  plan_one-Good operator scan s =
      rw (plan_one_lem operator scan s) (elim (Bool-cases (is_busy operator s)) [
        | inl busy ↦
            rw busy
              (IsArmed-refl f self capabilities s, idle refl refl (busy-IsSettled operator s busy))
        | inr free ↦
            elim (Bool-cases
              (is_ready_now f self capabilities completion_satisfied present_types operator)) [
                | inl now_ready ↦
                    rw (free, now_ready)
                      (from_noted operator scan s
                        (plan_ready f self capabilities completion_satisfied present_types operator
                          (noted_scan operator scan s) s)
                        (ready-Good f self capabilities completion_satisfied present_types operator
                          (noted_scan operator scan s) s (is_open operator s free now_ready)))
                | inr unready ↦
                    let (e, d) = noted_same operator scan s in
                    rw (free, unready)
                      (
                        IsArmed-refl f self capabilities s,
                        idle e d (unready-IsSettled operator s unready),
                      )
              ]
      ])

  good_ok :
      (operator : Class) (scan : Scan) (s : Session) {scan' : Scan} {t : Session}
      → step operator scan s ≡ (ok scan', t)
      → IsArmed f self capabilities s t
        × Outcome f self capabilities completion_satisfied present_types operator scan scan' t
  good_ok operator scan s h = rw h at (plan_one-Good operator scan s)

  abbrev steps : List Class → Scan → Method Scan
  steps = plan_all f self capabilities completion_satisfied present_types

  steps_nil : (scan : Scan) (s : Session) → steps [] scan s ≡ (ok scan, s)
  unfolding plan_all
  steps_nil scan s = refl

  steps_cons :
      (operator : Class) (operators : List Class) (scan : Scan) (s : Session)
      → steps (operator ∷ operators) scan s ≡ (step operator scan >>= steps operators) s
  unfolding plan_all
  steps_cons operator operators scan s = refl

  steps-IsArmed :
      (operators : List Class) (scan : Scan) (s : Session) {scan' : Scan} {t : Session}
      → steps operators scan s ≡ (ok scan', t)
      → IsArmed f self capabilities s t
  steps-IsArmed [] scan s h =
      let (_, e) = ok-inj (sym (steps_nil scan s) ∙ h) in
      rw (← e) (IsArmed-refl f self capabilities s)
  steps-IsArmed (operator ∷ operators) scan s {t = t} h =
      let (next, u, p, q) =
        >>=-eq-ok (step operator scan) (steps operators) s
          (sym (steps_cons operator operators scan s) ∙ h) in
      IsArmed-trans f self capabilities s u t (good_ok operator scan s p).0
        (steps-IsArmed operators next u q)

  any_launchable :
      (s t : Session) (rs : List Runnable)
      → IsArmed f self capabilities s t
      → all (launchable f self capabilities completion_satisfied present_types s) rs ≡ true
      → all (launchable f self capabilities completion_satisfied present_types t) rs ≡ true
  unfolding all
  any_launchable s t [] a h = refl
  any_launchable s t (r ∷ rs) a h =
      let (x, y) =
        and-true (launchable f self capabilities completion_satisfied present_types s r) _ h in
      and-intro _ _
        (launchable_later f self capabilities completion_satisfied present_types s t r a x)
        (any_launchable s t rs a y)

  one_more :
      (t : Session) (rs : List Runnable) (r : Runnable)
      → all (launchable f self capabilities completion_satisfied present_types t) rs ≡ true
      → launchable f self capabilities completion_satisfied present_types t r ≡ true
      → all (launchable f self capabilities completion_satisfied present_types t) (rs ++ r ∷ [])
        ≡ true
  unfolding all
  one_more t [] r h k = and-intro _ _ k refl
  one_more t (x ∷ rs) r h k =
      let (a, b) =
        and-true (launchable f self capabilities completion_satisfied present_types t x) _ h in
      and-intro _ _ a (one_more t rs r b k)

  outcome_launchable :
      (operator : Class) (scan next : Scan) (t : Session)
      → Outcome f self capabilities completion_satisfied present_types operator scan next t
      → all (launchable f self capabilities completion_satisfied present_types t) scan.runnable
        ≡ true
      → all (launchable f self capabilities completion_satisfied present_types t) next.runnable
        ≡ true
  outcome_launchable operator scan next t (idle x y z) h = rw x h
  outcome_launchable operator scan next t (launched r o x y z) h =
      rw x (one_more t scan.runnable r h z)
  outcome_launchable operator scan next t (waiting due x y) h = rw x h

  steps-launchable :
      (operators : List Class) (scan : Scan) (s : Session) {scan' : Scan} {t : Session}
      → steps operators scan s ≡ (ok scan', t)
      → all (launchable f self capabilities completion_satisfied present_types s) scan.runnable
        ≡ true
      → all (launchable f self capabilities completion_satisfied present_types t) scan'.runnable
        ≡ true
  steps-launchable [] scan s h k =
      let (d, e) = ok-inj (sym (steps_nil scan s) ∙ h) in rw (← d) (rw (← e) k)
  steps-launchable (operator ∷ operators) scan s h k =
      let (next, u, p, q) =
        >>=-eq-ok (step operator scan) (steps operators) s
          (sym (steps_cons operator operators scan s) ∙ h) in
      let (a, o) = good_ok operator scan s p in
      steps-launchable operators next u q
        (outcome_launchable operator scan next u o (any_launchable s u scan.runnable a k))

  -- An operator of a scan that ends with nothing to launch and nothing to wait for.
  outcome_settled :
      (operator : Class) (scan next : Scan) (t : Session)
      → Outcome f self capabilities completion_satisfied present_types operator scan next t
      → next.runnable ≡ []
      → next.soonest_due ≡ none
      → (scan.runnable ≡ [])
        × (scan.soonest_due ≡ none)
        × (settled f self capabilities completion_satisfied present_types t operator ≡ true)
  outcome_settled operator scan next t (idle x y z) e d = (sym x ∙ e, sym y ∙ d, z)
  outcome_settled operator scan next t (launched r o x y z) e d =
      absurd (no_room scan.runnable r (sym x ∙ e))
  outcome_settled operator scan next t (waiting due x y) e d =
      absurd (some_wait due scan.soonest_due (sym y ∙ d))

  steps-settled :
      (operators : List Class) (scan : Scan) (s : Session) {scan' : Scan} {t : Session}
      → steps operators scan s ≡ (ok scan', t)
      → scan'.runnable ≡ []
      → scan'.soonest_due ≡ none
      → (scan.runnable ≡ [])
        × (scan.soonest_due ≡ none)
        × (all (settled f self capabilities completion_satisfied present_types t) operators ≡ true)
  unfolding all
  steps-settled [] scan s h e d =
      let (x, _) = ok-inj (sym (steps_nil scan s) ∙ h) in
      (ap (λ n. n.runnable) x ∙ e, ap (λ n. n.soonest_due) x ∙ d, refl)
  steps-settled (operator ∷ operators) scan s {t = t} h e d =
      let (next, u, p, q) =
        >>=-eq-ok (step operator scan) (steps operators) s
          (sym (steps_cons operator operators scan s) ∙ h) in
      let (a, o) = good_ok operator scan s p in
      let (e', d', rest) = steps-settled operators next u q e d in
      let (x, y, z) = outcome_settled operator scan next u o e' d' in
      (
        x,
        y,
        and-intro _ _
            (settled_later f self capabilities completion_satisfied present_types u t operator
              (steps-IsArmed operators next u q) z)
            rest,
      )

module _ (f : Flow) (self : Settings) (capabilities : CapabilityView) where
  scanned :
      (view : List DataPoint) (completion_satisfied : Bool) (s : Session) {p : GatherPlan}
      {t : Session}
      → plan f self capabilities view completion_satisfied s ≡ (ok p, t)
      → (scan : Scan) × (plan_all f self capabilities completion_satisfied
            (map (λ d. d.cls) view)
            s.gathering
            (no_scan f self capabilities)
            s
          ≡ (ok scan, t))
        × (scan.runnable ≡ p.runnable)
        × (wait_until t.now scan.soonest_due ≡ p.next_due_in)
  unfolding plan
  scanned view completion_satisfied s h =
      let (scan, u, x, y) =
        >>=-eq-ok
          (plan_all f self capabilities completion_satisfied (map (λ d. d.cls) view) s.gathering
            (no_scan f self capabilities))
          (as_plan f self capabilities view) s h in
      let (e, d) = ok-inj y in
      (
        scan,
        x ∙ ap (λ (v : Session). (ok scan, v)) d,
        ap (λ q. q.runnable) e,
        ap (λ (v : Session). wait_until v.now scan.soonest_due) (sym d) ∙ ap (λ q. q.next_due_in) e,
      )

  no_wait : (now : ℕ) (soonest : Option ℕ) → wait_until now soonest ≡ none → soonest ≡ none
  no_wait now none h = refl
  no_wait now (some due) h = absurd (ground arith)

  -- Every operator that a plan launches runs nowhere, is below its circuit breaker's cap and is ready;
  -- and it has an armed retry that is due, or no armed retry and either has not run, or reruns on the
  -- relevant news of its delta after its window has come due. The plan itself only arms windows.
  pub plan-launchable :
      (view : List DataPoint) (completion_satisfied : Bool) (s : Session) {p : GatherPlan}
      {t : Session}
      → plan f self capabilities view completion_satisfied s ≡ (ok p, t)
      → (all
            (launchable f self capabilities completion_satisfied (map (λ d. d.cls) view) t)
            p.runnable
          ≡ true)
        × (t ≡ record s { debounce = t.debounce })
  unfolding all
  plan-launchable view completion_satisfied s {t = t} h =
      let (scan, x, e, d) = scanned view completion_satisfied s h in
      (
        ap (all (launchable f self capabilities completion_satisfied (map (λ d. d.cls) view) t))
              (sym e)
            ∙ steps-launchable f self capabilities completion_satisfied (map (λ d. d.cls) view)
                s.gathering (no_scan f self capabilities) s x refl,
        (steps-IsArmed f self capabilities completion_satisfied (map (λ d. d.cls) view) s.gathering
            (no_scan f self capabilities) s x).same,
      )

  -- A plan with nothing to launch and nothing to wait for: every operator of the gathering runs, is
  -- tripped or is not ready; or it has run, has no retry armed, and does not rerun, or has no relevant
  -- news, or has its armed refold left to the finalize pass.
  pub plan-settled :
      (view : List DataPoint) (completion_satisfied : Bool) (s : Session) {p : GatherPlan}
      {t : Session}
      → plan f self capabilities view completion_satisfied s ≡ (ok p, t)
      → p.runnable ≡ []
      → p.next_due_in ≡ none
      → all (settled f self capabilities completion_satisfied (map (λ d. d.cls) view) t) s.gathering
        ≡ true
  plan-settled view completion_satisfied s {t = t} h k w =
      let (scan, x, e, d) = scanned view completion_satisfied s h in
      (steps-settled f self capabilities completion_satisfied (map (λ d. d.cls) view) s.gathering
        (no_scan f self capabilities) s x (e ∙ k) (no_wait t.now scan.soonest_due (d ∙ w))).2
