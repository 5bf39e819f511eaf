-- ===== src/Orchestrator/Launching.antt =====
-- Which operators a plan launches.
use orcastork.Base.Dict.{get-put_self}
use orcastork.Orchestrator.Planning.{Scan, Runnable, has_relevant_new_data, defers, sooner}
use orcastork.Rerun.{InvocationDelta}
use orcastork.Graph.{is_tripped}
use orcastork.Orchestrator.Planning.{has_run, ready}
use orcastork.Base.Dict.{has}
use orcastork.Rerun.{effective}
use orcastork.Orchestrator.Planning.{or_none, watermark_of}
use orcastork.DataPoint.{Class}
use orcastork.Rerun.{DebounceController}
use orcastork.Base.{
  Bool, Result, [], if◌then◌else◌, not, ok, raise, ◌&&◌, ◌++◌, ◌||◌, ◌∷◌, string_eq, Bool-cases,
  eq_iff, false, inl, inr, ◌+◌, List, Option, String, ap, arith, none, some, true, ℕ, ◌∙◌, ◌≡◌,
  refl,
}
use orcastork.Base.Dict.{get, keys, get-put}
use orcastork.Mirror.{World, guard_read, require_hydrated}
use orcastork.Mirror.Reads
use orcastork.Rerun.{operator_delta, is_due, is_scheduled, schedule, DebounceController}
use orcastork.Rerun.Deltas.{mirror_reader}
use orcastork.DataPoint.{Class}
use orcastork.Orchestrator.State.{Flow, Settings, Session}
use orcastork.Orchestrator.Planning.{CapabilityView, delta_for, arm, armed, id_of}

-- The mirror's reads leave the world as it is.
guard_read-same : (session_id : String) (w : World) → (guard_read session_id w).1 ≡ w
unfolding guard_read require_hydrated
guard_read-same session_id w = ground arith

read_delta-same :
    (session_id : String) (watermark : Option ℕ) (available previous : List String) (w : World)
    → (operator_delta mirror_reader session_id watermark available previous w).1 ≡ w
unfolding operator_delta Reads.snapshot Reads.change_set_since
read_delta-same session_id none available previous w = ground (arith, guard_read-same session_id w)
read_delta-same session_id (some watermark) available previous w =
    ground (arith, guard_read-same session_id w)

is_due-schedule :
    (i j : String) (window : Option ℕ) (now : ℕ) (d : DebounceController)
    → is_scheduled j d ≡ false
    → is_due i now d ≡ true
    → is_due i now (schedule j window now d) ≡ true
unfolding is_due is_scheduled schedule
is_due-schedule i j window now d new h =
    ground (arith, get-put j i (now + effective d.default_window window) d.due, eq_iff j i)

is_scheduled-schedule :
    (i j : String) (window : Option ℕ) (now : ℕ) (d : DebounceController)
    → is_scheduled i d ≡ true
    → is_scheduled i (schedule j window now d) ≡ true
unfolding is_scheduled schedule
is_scheduled-schedule i j window now d h =
    ground (arith, get-put j i (now + effective d.default_window window) d.due)

scheduled_self :
    (i : String) (window : Option ℕ) (now : ℕ) (d : DebounceController)
    → is_scheduled i (schedule i window now d) ≡ true
unfolding is_scheduled schedule
scheduled_self i window now d =
    rw (get-put_self i (now + effective d.default_window window) d.due) refl

module _ (f : Flow) (self : Settings) (capabilities : CapabilityView) where
  pub delta_for-same :
      (operator : Class) (s : Session) → (delta_for f self capabilities operator s).1 ≡ s
  unfolding delta_for
  delta_for-same operator s = λ i. record s {
    world =
        read_delta-same self.session_id (watermark_of f self (id_of f self operator) s)
          (keys capabilities) (or_none (get (id_of f self operator) s.prev_caps)) s.world i;
  }

  -- A session that differs in windows armed since.
  pub record IsArmed (s t : Session) : Type 0 where
    pub same : t ≡ record s { debounce = t.debounce }
    pub due : (i : String) → is_due i s.now s.debounce ≡ true → is_due i t.now t.debounce ≡ true
    pub scheduled :
        (i : String) → is_scheduled i s.debounce ≡ true → is_scheduled i t.debounce ≡ true

  pub IsArmed-refl : (s : Session) → IsArmed s s
  IsArmed-refl s = record { same = refl; due = λ i h. h; scheduled = λ i h. h }

  pub IsArmed-trans : (s t u : Session) → IsArmed s t → IsArmed t u → IsArmed s u
  IsArmed-trans s t u p q = record {
    same = q.same ∙ ap (λ (x : Session). record x { debounce = u.debounce }) p.same;
    due = λ i h. q.due i (p.due i h);
    scheduled = λ i h. q.scheduled i (p.scheduled i h);
  }

  if_armed :
      (operator : Class) (s : Session) (P : DebounceController → Type 0)
      → P s.debounce
      → (is_scheduled (id_of f self operator) s.debounce ≡ false
          → P (schedule (id_of f self operator) (f.policy operator).debounce s.now s.debounce))
      → P (arm f self capabilities operator s)
  if_armed operator s P h k = elim (Bool-cases (is_scheduled (id_of f self operator) s.debounce)) [
    | inl old ↦ rw old h
    | inr new ↦ rw new (k new)
  ]

  pub armed-IsArmed :
      (operator : Class) (s : Session) → IsArmed s (armed f self capabilities operator s)
  armed-IsArmed operator s = record {
    same = refl;
    due = λ i h.
        if_armed operator s (λ d. is_due i s.now d ≡ true) h
          (λ new.
            is_due-schedule i (id_of f self operator) (f.policy operator).debounce s.now s.debounce
              new h);
    scheduled = λ i h.
        if_armed operator s (λ d. is_scheduled i d ≡ true) h
          (λ _.
            is_scheduled-schedule i (id_of f self operator) (f.policy operator).debounce s.now
              s.debounce h);
  }

  pub armed-scheduled :
      (operator : Class) (s : Session)
      → is_scheduled (id_of f self operator) (arm f self capabilities operator s) ≡ true
  armed-scheduled operator s = elim (Bool-cases (is_scheduled (id_of f self operator) s.debounce)) [
    | inl old ↦ rw old old
    | inr new ↦
        rw new
          (scheduled_self (id_of f self operator) (f.policy operator).debounce s.now s.debounce)
  ]

  module _ (completion_satisfied : Bool) (present_types : List Class) where
    abbrev pub is_ready_now : Class → Bool
    is_ready_now = ready f self capabilities completion_satisfied present_types

    -- Why an operator may be launched: an armed retry has come due, or it has not run, or it reruns on
    -- what its delta holds and its window has come due.
    abbrev pub cause : Session → Runnable → Bool
    cause s r =
        if r.is_retry
        then is_due (id_of f self r.operator) s.now s.retries
        else not (is_scheduled (id_of f self r.operator) s.retries)
          && (if r.is_rerun
              then has_run f self r.operator s
                && ((f.policy r.operator).rerun_on_new_data
                    && has_relevant_new_data f self r.operator r.delta)
              else not (has_run f self r.operator s))

    abbrev pub may_launch : Session → Runnable → Bool
    may_launch s r =
        not (has (id_of f self r.operator) s.running)
        && (not (is_tripped (id_of f self r.operator) s.breaker)
            && (is_ready_now r.operator && cause s r))

    abbrev pub window_over : Session → Runnable → Bool
    window_over s r = not r.is_rerun || is_due (id_of f self r.operator) s.now s.debounce

    abbrev pub launchable : Session → Runnable → Bool
    launchable s r = may_launch s r && window_over s r

    abbrev pub is_news : Class → Result InvocationDelta → Bool
    is_news operator (ok delta) = has_relevant_new_data f self operator delta
    is_news operator (raise e) = true

    abbrev pub is_armed_refold : Bool → Class → Bool
    is_armed_refold scheduled operator =
        scheduled && defers f self capabilities completion_satisfied operator

    abbrev pub settled_with : Bool → Session → Class → Bool
    settled_with scheduled s operator =
        has (id_of f self operator) s.running
        || (is_tripped (id_of f self operator) s.breaker
            || (not (is_ready_now operator)
                || (has_run f self operator s
                    && (not (is_scheduled (id_of f self operator) s.retries)
                        && (not (f.policy operator).rerun_on_new_data
                            || (not (is_news operator (delta_for f self capabilities operator s).0)
                                || is_armed_refold scheduled operator))))))

    -- Why an operator needs no launch and no wait: it runs, is tripped or is not ready; or it has run,
    -- has no retry armed, and does not rerun, or has no news, or has its refold deferred.
    abbrev pub settled : Session → Class → Bool
    settled s operator = settled_with (is_scheduled (id_of f self operator) s.debounce) s operator

    pub data Outcome (operator : Class) (scan scan' : Scan) (t : Session) : Type 0 where
      idle :
          scan'.runnable ≡ scan.runnable
          → scan'.soonest_due ≡ scan.soonest_due
          → settled t operator ≡ true
          → Outcome operator scan scan' t
      launched :
          (r : Runnable)
          → r.operator ≡ operator
          → scan'.runnable ≡ scan.runnable ++ r ∷ []
          → scan'.soonest_due ≡ scan.soonest_due
          → launchable t r ≡ true
          → Outcome operator scan scan' t
      waiting :
          (due : ℕ)
          → scan'.runnable ≡ scan.runnable
          → scan'.soonest_due ≡ sooner (some due) scan.soonest_due
          → Outcome operator scan scan' t

    pub launchable_later :
        (s t : Session) (r : Runnable) → IsArmed s t → launchable s r ≡ true → launchable t r ≡ true
    launchable_later s t r a h =
        let e = ap (λ x. may_launch x r) a.same in
        ground (arith, e, a.due (id_of f self r.operator))

    settled_with-armed :
        (b : Bool) (operator : Class) (s : Session) (d : DebounceController)
        → settled_with b (record s { debounce = d }) operator ≡ settled_with b s operator
    unfolding delta_for
    settled_with-armed b operator s d = refl

    settled_more :
        (b b' : Bool) (operator : Class) (s : Session)
        → (b ≡ true → b' ≡ true)
        → settled_with b s operator ≡ true
        → settled_with b' s operator ≡ true
    settled_more true b' operator s k h = rw (k refl) h
    settled_more false true operator s k h = ground arith
    settled_more false false operator s k h = h

    pub settled_later :
        (s t : Session) (operator : Class)
        → IsArmed s t
        → settled s operator ≡ true
        → settled t operator ≡ true
    settled_later s t operator a h =
        let b = is_scheduled (id_of f self operator) t.debounce in
        ap (λ (x : Session). settled_with b x operator) a.same
        ∙ (settled_with-armed b operator s t.debounce
            ∙ settled_more (is_scheduled (id_of f self operator) s.debounce) b operator s
                (a.scheduled (id_of f self operator)) h)
