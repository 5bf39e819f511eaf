-- ===== src/Orchestrator/Completing.antt =====
-- What the body of a run leaves, if it comes to the status COMPLETED.
use mathlib.Core.Path.{subst}
use mathlib.Core.List.{append-nil, append_assoc}
use orcastork.Base.{
  String, ◌++◌, ◌⊎◌, >>=-eq-ok, ok-inj, ap, Bool-cases, Exec, List, Option, Result, inl, inr, none,
  pure, some, sym, true, ◌>>◌, ◌∷◌, ◌∙◌, ℕ, false, Bool, [], arith, ltb, ok, refl, length, ◌≡◌,
}
use orcastork.DataPoint.{Class, DataPoint}
use orcastork.Inbox.{Message, Parsers}
use orcastork.Rerun.{InvocationDelta}
use orcastork.Orchestrator.State.{Flow, Method, Session, Settings, on_inbox, on_lock, on_mirror}
use orcastork.Orchestrator.Merging.{append_coalesced_audits}
use orcastork.Orchestrator.Planning.{CapabilityView}
use orcastork.Mirror
use orcastork.Orchestrator.Setup.{
  exclude_unpermitted_operators, detect_flow_drift, audit_session_parked, flush_write_behind,
  prepare_redrive,
}
use orcastork.Orchestrator.Gathering.{Trace, deliver_each, gather}
use orcastork.Orchestrator.Aggregating.{Reach, aggregate}
use orcastork.Orchestrator.Running.{
  SessionStatus, completed, superseded, parked, set_flushed, park, conclude, check_inbox,
  new_activator, seed_merged, build_circuit_breaker, finalize, after_gather, run_loop, run_session,
}
use orcastork.Archive
use orcastork.Inbox
use orcastork.Lock
use orcastork.Lock.{LockState}

-- The messages that appending entries leaves in an inbox without any.
abbrev pub arrivals : List (String × String) → List Message
arrivals [] = []
arrivals ((entry_id, payload) ∷ entries) =
    record { entry_id = entry_id; payload = payload; delivery_count = 0; claimed = false }
    ∷ arrivals entries

-- What is in the inbox has arrived in one of the windows between a last check and the release, and nothing
-- that has is missing.
abbrev pub HoldsLate : List Trace → List Message → Type 0
HoldsLate [] messages = ⊥
HoldsLate (trace ∷ traces) messages = (messages ≡ arrivals trace.late) ⊎ HoldsLate traces messages

-- Nothing is left to do but for what came late: none of the archive's rows is in the buffer, and the
-- session is marked.
abbrev pub IsFinished : List Trace → Session → Type 0
IsFinished traces s =
    HoldsLate traces s.inbox.messages × (s.archive.buffer ≡ []) × (s.lock.complete ≡ true)

-- What the status says of the session.
abbrev pub IsDone : List Trace → SessionStatus → Session → Type 0
IsDone traces completed s = IsFinished traces s
IsDone traces superseded s = Unit
IsDone traces parked s = Unit

-- A part of the run that leaves the session finished if it comes to the status COMPLETED.
abbrev pub Finishes : List Trace → Method (Option SessionStatus) → Type 0
Finishes traces m = (s t : Session) → m s ≡ (ok (some completed), t) → IsFinished traces t

pub delivered :
    (entries : List (String × String)) (s t : Session) {u : Unit}
    → deliver_each entries s ≡ (ok u, t)
    → (t.inbox.messages ≡ s.inbox.messages ++ arrivals entries)
      × (t.archive ≡ s.archive)
      × (t.lock ≡ s.lock)
unfolding deliver_each Inbox.append_serialized
delivered [] s t h =
    let e = (ok-inj h).1 in
    (
      ap (λ x. x.inbox.messages) (sym e) ∙ sym (append-nil s.inbox.messages),
      ap (λ x. x.archive) (sym e),
      ap (λ x. x.lock) (sym e),
    )
delivered ((entry_id, payload) ∷ entries) s t h =
    let (m, a, l) =
      delivered entries (on_inbox (Inbox.append_serialized entry_id payload) s).1 t h in
    (m ∙ append_assoc s.inbox.messages _ (arrivals entries), a, l)

no_messages : (ms : List Message) → ltb 0 (length ms) ≡ false → ms ≡ []
no_messages [] h = refl
no_messages (m ∷ ms) h = absurd (ground arith)

marked :
    (epoch : ℕ) (s t : Session)
    → on_lock (Lock.mark_complete epoch) s ≡ (ok tt, t)
    → (t.lock.complete ≡ true) × (t.inbox ≡ s.inbox) × (t.archive ≡ s.archive)
unfolding Lock.mark_complete
marked epoch s t h = (ground arith, ground arith, ground arith)

finished :
    (traces : List Trace) (s u t : Session)
    → HoldsLate traces s.inbox.messages
    → s.archive.buffer ≡ []
    → u.lock.complete ≡ true
    → u.inbox ≡ s.inbox
    → u.archive ≡ s.archive
    → ◌≡◌ {A = Result (Option SessionStatus) × Session}
        (ok (some completed), u)
        (ok (some completed), t)
    → IsFinished traces t
finished traces s u t m b c i a h =
    let e = (ok-inj h).1 in
    (
      subst (HoldsLate traces) (sym (ap (λ x. x.inbox.messages) (sym e) ∙ ap (λ x. x.messages) i))
          m,
      ap (λ x. x.archive.buffer) (sym e) ∙ (ap (λ x. x.buffer) a ∙ b),
      ap (λ x. x.lock.complete) (sym e) ∙ c,
    )

module _ (f : Flow) (self : Settings) where
  flushed_out :
      (s t : Session) {u : Unit}
      → flush_write_behind f self s ≡ (ok u, t)
      → (t.archive.buffer ≡ []) × (t.inbox ≡ s.inbox) × (t.lock ≡ s.lock)
  unfolding flush_write_behind Archive.flush
  flushed_out s t h = (ground arith, ground arith, ground arith)

  counted :
      (s t : Session) {n : ℕ}
      → on_inbox Inbox.pending_count s ≡ (ok n, t)
      → (n ≡ length s.inbox.messages) × (t ≡ s)
  unfolding Inbox.pending_count
  counted s t h = (ground arith, ground arith)

  module _ (p : Parsers)
      (perform : Class
        → List DataPoint
        → CapabilityView
        → InvocationDelta
        → ℕ
        → Exec Reach Unit) where
    -- `ms` are the messages that the check has counted.
    conclude_finishes :
        (trace : Trace) (traces : List Trace) (epoch : ℕ) (again : Method (Option SessionStatus))
        (pending : ℕ) (ms : List Message) (s t : Session)
        → Finishes traces again
        → s.archive.buffer ≡ []
        → pending ≡ length ms
        → s.inbox.messages ≡ ms ++ arrivals trace.late
        → conclude f self p perform epoch again pending s ≡ (ok (some completed), t)
        → IsFinished (trace ∷ traces) t
    conclude_finishes trace traces epoch again pending ms s t g b n l h =
        elim (Bool-cases (ltb 0 pending)) [
          | inl waits ↦
              let (_, u, _, k) =
                >>=-eq-ok (prepare_redrive f self) (λ _. again) s (rw (waits) at h) in
              let (m, b', c) = g u t k in (inr m, b', c)
          | inr empty ↦
              let (_, u, m, k) =
                >>=-eq-ok (on_lock (Lock.mark_complete epoch)) (λ _. pure (some completed)) s
                  (rw (empty) at h) in
              let (c, i, a) = marked epoch s u m in
              let none_left = no_messages ms (ap (ltb 0) (sym n) ∙ empty) in
              finished (trace ∷ traces) s u t
                (inl (l ∙ ap (λ xs. xs ++ arrivals trace.late) none_left)) b c i a k
        ]

    checked :
        (trace : Trace) (traces : List Trace) (epoch : ℕ) (again : Method (Option SessionStatus))
        → Finishes traces again
        → (s t : Session) → s.archive.buffer ≡ []
        → check_inbox f self p perform trace epoch again s ≡ (ok (some completed), t)
        → IsFinished (trace ∷ traces) t
    checked trace traces epoch again g s t b h =
        let (n, s1, e1, h1) =
          >>=-eq-ok (on_inbox Inbox.pending_count)
            (λ pending. deliver_each trace.late >> conclude f self p perform epoch again pending) s
            h in
        let (counts, same) = counted s s1 e1 in
        let (_, s2, e2, h2) =
          >>=-eq-ok (deliver_each trace.late) (λ _. conclude f self p perform epoch again n) s1
            h1 in
        let (m, a, _) = delivered trace.late s1 s2 e2 in
        conclude_finishes trace traces epoch again n s.inbox.messages s2 t g
          (ap (λ x. x.buffer) a ∙ (ap (λ x. x.archive.buffer) same ∙ b)) counts
          (m ∙ ap (λ x. x.inbox.messages ++ arrivals trace.late) same) h2

    finalize-Finishes :
        (trace : Trace) (traces : List Trace) (epoch : ℕ) (again : Method (Option SessionStatus))
        → Finishes traces again
        → Finishes (trace ∷ traces) (finalize f self p perform trace epoch again)
    finalize-Finishes trace traces epoch again g s t h =
        let (_, s1, _, h1) = >>=-eq-ok (aggregate f self perform epoch) _ s h in
        let (_, s2, _, h2) = >>=-eq-ok (append_coalesced_audits f self epoch) _ s1 h1 in
        let (_, s3, e3, h3) = >>=-eq-ok (flush_write_behind f self) _ s2 h2 in
        let (_, s4, e4, h4) =
          >>=-eq-ok (set_flushed f self p perform true)
            (λ _. deliver_each trace.closing >> check_inbox f self p perform trace epoch again) s3
            h3 in
        let (_, s5, e5, h5) =
          >>=-eq-ok (deliver_each trace.closing)
            (λ _. check_inbox f self p perform trace epoch again) s4 h4 in
        let (_, a, _) = delivered trace.closing s4 s5 e5 in
        checked trace traces epoch again g s5 t
          (ap (λ x. x.buffer) a
            ∙ (ap (λ x. x.archive.buffer) (sym ((ok-inj e4).1)) ∙ (flushed_out s2 s3 e3).0))
          h5

    park-Finishes :
        (traces : List Trace) (epoch : ℕ) → Finishes traces (park f self p perform epoch)
    park-Finishes traces epoch s t h =
        let (_, s1, _, h1) = >>=-eq-ok (append_coalesced_audits f self epoch) _ s h in
        let (_, s2, _, h2) = >>=-eq-ok (audit_session_parked f self epoch) _ s1 h1 in
        absurd (ground (arith, (ok-inj h2).0))

    gather-Finishes :
        (trace : Trace) (traces : List Trace) (epoch : ℕ) (again : Method (Option SessionStatus))
        (parks : Option Bool)
        → Finishes traces again
        → Finishes (trace ∷ traces) (after_gather f self p perform trace epoch again parks)
    gather-Finishes trace traces epoch again none g s t = λ h. absurd (ground (arith, (ok-inj h).0))
    gather-Finishes trace traces epoch again (some true) g s t =
        park-Finishes (trace ∷ traces) epoch s t
    gather-Finishes trace traces epoch again (some false) g s t =
        finalize-Finishes trace traces epoch again g s t

    loop-Finishes :
        (traces : List Trace) (epoch : ℕ) → Finishes traces (run_loop f self p perform traces epoch)
    unfolding run_loop
    loop-Finishes [] epoch s t h = absurd (ground (arith, (ok-inj h).0))
    loop-Finishes (trace ∷ traces) epoch s t h =
        let (parks, u, _, k) = >>=-eq-ok (gather f self p trace epoch) _ s h in
        gather-Finishes trace traces epoch (run_loop f self p perform traces epoch) parks
          (loop-Finishes traces epoch) u t k

    then-Finishes :
        {A : Type 0} (traces : List Trace) (m : Method A) (next : Method (Option SessionStatus))
        → Finishes traces next
        → Finishes traces (m >> next)
    then-Finishes traces m next g s t h = let (_, u, _, k) = >>=-eq-ok m (λ _. next) s h in g u t k

    -- The rests of the body of the `try`.
    abbrev from_breaker : List Trace → ℕ → Method (Option SessionStatus)
    from_breaker traces epoch =
        build_circuit_breaker f self >> run_loop f self p perform traces epoch

    abbrev from_seed : List Trace → ℕ → Method (Option SessionStatus)
    from_seed traces epoch =
        seed_merged f self p perform self.seed epoch >> from_breaker traces epoch

    abbrev from_rehydrate : List Trace → ℕ → Method (Option SessionStatus)
    from_rehydrate traces epoch = on_mirror Mirror.rehydrate >> from_seed traces epoch

    abbrev from_start : List Trace → ℕ → Method (Option SessionStatus)
    from_start traces epoch = new_activator f self p perform >> from_rehydrate traces epoch

    abbrev from_drift : List Trace → ℕ → Method (Option SessionStatus)
    from_drift traces epoch = detect_flow_drift f self epoch >> from_start traces epoch

    pub session-Finishes :
        (traces : List Trace) (epoch : ℕ)
        → Finishes traces (run_session f self p perform traces epoch)
    unfolding run_session
    session-Finishes traces epoch =
        then-Finishes traces (exclude_unpermitted_operators f self) (from_drift traces epoch) (
          then-Finishes traces (detect_flow_drift f self epoch) (from_start traces epoch) (
            then-Finishes traces (new_activator f self p perform) (from_rehydrate traces epoch) (
              then-Finishes traces (on_mirror Mirror.rehydrate) (from_seed traces epoch) (
                then-Finishes traces (seed_merged f self p perform self.seed epoch)
                  (from_breaker traces epoch)
                  (then-Finishes traces (build_circuit_breaker f self)
                    (run_loop f self p perform traces epoch) (loop-Finishes traces epoch))))))
