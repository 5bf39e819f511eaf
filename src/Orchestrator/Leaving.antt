-- ===== src/Orchestrator/Leaving.antt =====
-- The way out of a run: every run gives its lock back, and a status keeps what it says.
use orcastork.Base.{
  Bool-cases, inl, inr, Error, Exec, List, Option, Result, none, raise, some, ◌⊎◌, ◌∙◌, ◌+◌, ℕ,
  false, arith, ok, refl, ◌≡◌,
}
use orcastork.DataPoint.{Class, DataPoint}
use orcastork.Inbox.{Parsers}
use orcastork.Rerun.{InvocationDelta}
use orcastork.Orchestrator.State.{Flow, Method, Session, Settings, ValueCipher}
use orcastork.Orchestrator.Planning.{CapabilityView}
use orcastork.Orchestrator.Setup.{cipher_or_none, flush_write_behind}
use orcastork.Orchestrator.Gathering.{Trace, leave}
use orcastork.Orchestrator.Aggregating.{Reach}
use orcastork.Orchestrator.Running.{
  SessionStatus, OrchestratorResult, completed, superseded, parked, run_session, supersede,
  backstop, clean_up, exit, guarded, run,
}
use orcastork.Archive
use orcastork.Lock
use orcastork.Lock.{LockState}
use orcastork.Orchestrator.Completing.{IsFinished, IsDone, Finishes, session-Finishes}

released : (epoch : ℕ) (l : LockState) → Lock.holds epoch (Lock.release epoch l).1 ≡ false
unfolding Lock.release Lock.holds
released epoch l = ground arith

release_keeps : (epoch : ℕ) (l : LockState) → (Lock.release epoch l).1.complete ≡ l.complete
unfolding Lock.release Lock.holds
release_keeps epoch l = ground arith

module _ (f : Flow) (self : Settings) where
  module _ (p : Parsers)
      (perform : Class
        → List DataPoint
        → CapabilityView
        → InvocationDelta
        → ℕ
        → Exec Reach Unit) where
    -- What the way out promises, from the state in which the session was left.
    abbrev pub IsLeft : List Trace → ℕ → Result (Option OrchestratorResult) × Session → Type 0
    IsLeft traces epoch (ok none, t) = Unit
    IsLeft traces epoch (ok (some result), t) =
        (Lock.holds epoch t.lock ≡ false) × IsDone traces result.status t
    IsLeft traces epoch (raise e, t) = Lock.holds epoch t.lock ≡ false

    clean_up_releases :
        (epoch : ℕ) (s : Session)
        → Lock.holds epoch (clean_up f self p perform epoch s).1.lock ≡ false
    unfolding clean_up
    clean_up_releases epoch s = released epoch (backstop f self p perform s).1.lock

    backstop_keeps :
        (traces : List Trace) (s : Session)
        → IsFinished traces s
        → IsFinished traces (backstop f self p perform s).1
    unfolding flush_write_behind Archive.flush
    backstop_keeps traces s (m, b, c) = elim (Bool-cases s.flushed) [
      | inl done ↦ rw (done) (m, b, c)
      | inr open_yet ↦ rw (open_yet) (m, refl, c)
    ]

    clean_up_keeps :
        (traces : List Trace) (epoch : ℕ) (s : Session)
        → IsFinished traces s
        → IsFinished traces (clean_up f self p perform epoch s).1
    unfolding clean_up
    clean_up_keeps traces epoch s h =
        let (m, b, c) = backstop_keeps traces s h in
        (m, b, release_keeps epoch (backstop f self p perform s).1.lock ∙ c)

    IsDone-keeps :
        (traces : List Trace) (status : SessionStatus) (epoch : ℕ) (s : Session)
        → IsDone traces status s
        → IsDone traces status (clean_up f self p perform epoch s).1
    IsDone-keeps traces completed epoch s h = clean_up_keeps traces epoch s h
    IsDone-keeps traces superseded epoch s h = tt
    IsDone-keeps traces parked epoch s h = tt

    IsLeft-with :
        (traces : List Trace) (epoch : ℕ) (result : OrchestratorResult) (c : Result (Unit {0}))
        (t : Session)
        → Lock.holds epoch t.lock ≡ false
        → IsDone traces result.status t
        → IsLeft traces epoch (leave (ok (some result)) c, t)
    IsLeft-with traces epoch result (ok _) t h d = (h, d)
    IsLeft-with traces epoch result (raise e) t h d = h

    IsLeft-raising :
        (traces : List Trace) (epoch : ℕ) (e : Error) (c : Result (Unit {0})) (t : Session)
        → Lock.holds epoch t.lock ≡ false
        → IsLeft traces epoch (leave (raise e) c, t)
    IsLeft-raising traces epoch e (ok _) t h = h
    IsLeft-raising traces epoch e (raise e') t h = h

    exit-IsLeft :
        (traces : List Trace) (epoch : ℕ) (r : Result (Option SessionStatus)) (s : Session)
        → ((status : SessionStatus) → r ≡ ok (some status) → IsDone traces status s)
        → IsLeft traces epoch (exit f self p perform epoch r s)
    exit-IsLeft traces epoch (ok none) s h = tt
    exit-IsLeft traces epoch (ok (some status)) s h =
        IsLeft-with traces epoch _ (clean_up f self p perform epoch s).0
          (clean_up f self p perform epoch s).1 (clean_up_releases epoch s)
          (IsDone-keeps traces status epoch s (h status refl))
    exit-IsLeft traces epoch (raise e) s h =
        IsLeft-raising traces epoch e (clean_up f self p perform epoch s).0
          (clean_up f self p perform epoch s).1 (clean_up_releases epoch s)

    superseded-IsDone :
        (traces : List Trace) (r : Result (Option SessionStatus)) (s : Session)
        → ((status : SessionStatus) → r ≡ ok (some status) → IsDone traces status s)
        → (status : SessionStatus) → supersede f self p perform r ≡ ok (some status)
        → IsDone traces status s
    superseded-IsDone traces (ok o) s h status e = h status e
    superseded-IsDone traces (raise x) s h completed e = absurd (ground arith)
    superseded-IsDone traces (raise x) s h superseded e = tt
    superseded-IsDone traces (raise x) s h parked e = tt

    every-IsDone :
        (traces : List Trace) (m : Method (Option SessionStatus)) (s : Session)
        → Finishes traces m
        → (status : SessionStatus) → (m s).0 ≡ ok (some status)
        → IsDone traces status (m s).1
    every-IsDone traces m s g completed h = g s (m s).1 (λ i. (h i, (m s).1))
    every-IsDone traces m s g superseded h = tt
    every-IsDone traces m s g parked h = tt

    guarded-IsLeft :
        (traces : List Trace) (epoch : ℕ) (s : Session)
        → IsLeft traces epoch (guarded f self p perform traces epoch s)
    guarded-IsLeft traces epoch s =
        let start = record s { flushed = false } in
        exit-IsLeft traces epoch
          (supersede f self p perform (run_session f self p perform traces epoch start).0)
          (run_session f self p perform traces epoch start).1
          (superseded-IsDone traces (run_session f self p perform traces epoch start).0
            (run_session f self p perform traces epoch start).1
            (every-IsDone traces (run_session f self p perform traces epoch) start
              (session-Finishes f self p perform traces epoch)))

    -- A run over a lock that nobody holds, along any trace of its waits, of what others deliver during
    -- them, while it finalizes and after its last check of the inbox, of the signals of its tasks and of
    -- its aggregators: if it raises or returns, it does not hold the lock any more under its epoch; and
    -- if it returns COMPLETED, then the inbox holds what came after a check of it that found it empty,
    -- and nothing else, no row waits in the archive's buffer, and the session is marked complete.
    pub run-IsLeft :
        (provided : Option ValueCipher ⊎ Error) (traces : List Trace) (s : Session)
        → Lock.is_live s.now s.lock ≡ false
        → IsLeft traces (s.lock.epoch_counter + 1) (run f self p perform provided traces s)
    unfolding run Lock.acquire
    run-IsLeft provided traces s h = rw (h) (
        guarded-IsLeft traces (s.lock.epoch_counter + 1) (record s {
          lock = record s.lock {
            epoch_counter = s.lock.epoch_counter + 1;
            lease =
                some (record {
                  epoch = s.lock.epoch_counter + 1;
                  expires_at = s.now + self.lease_ttl;
                });
          };
          audit_cipher = cipher_or_none f self provided;
        }))
