-- ===== src/Orchestrator/Dispositions.antt =====
-- The disposition of a finished run, `_record_completion` of orcastork/orchestrator/orchestrator.py.
use orcastork.Orchestrator.State.{Method}
use orcastork.Orchestrator.Completions.{count_run}
use orcastork.Orchestrator.Merging.{or_zero}
use orcastork.Orchestrator.Completions.{record_completion, settle_attempt, run_entry, unless}
use orcastork.Audit
use orcastork.Orchestrator.Retries.{settle_success, settle_failure, IsOver, Settles}
use orcastork.DataPoint.{Class}
use orcastork.Base.Sessions.{or_fresh}
use orcastork.Base.{◌>>=◌, ◌>>◌, Error, inl, inr, refl, ◌⊎◌, not, is_some, ◌||◌}
use orcastork.Base.{◌∙◌, Result}
use orcastork.Mirror.Agreement.{stored-put}
use orcastork.Orchestrator.Completions.{error_text}
use orcastork.Base.{
  string_eq, >>=-eq-ok, Bool, Option, String, ap, arith, false, is_some, none, not, ok, ok-inj,
  some, sym, true, ℕ, ◌+◌, ◌||◌, ◌≡◌, ◌≢◌,
}
use orcastork.Base.Dict.{get, put, delete, get-put_self}
use orcastork.Base.Sessions.{at_session}
use orcastork.Store
use orcastork.Store.{set_watermark, Op}
use orcastork.Mirror.{World, call}
use orcastork.Mirror.Agreement.{stored}
use orcastork.Graph.{record_run, is_tripped}
use orcastork.Orchestrator.State.{Flow, Settings, Session, Running, on_mirror}
use orcastork.Orchestrator.Ports.{on_audit-eq-ok, on_mirror-eq-ok}
use orcastork.Orchestrator.Merging.{count_one}
use orcastork.Orchestrator.Completions.{
  error_text, Completed, audit_operator_run, advance_watermark, delay_of, is_terminal, pop_running,
  outcome_of,
}
use orcastork.Orchestrator.Retries.{IsRetrying, IsFinished, policy_of, tried}

stored-call :
    {A : Type 0} (op : Op A) (w : World) {a : A} {w' : World}
    → call op w ≡ (ok a, w')
    → (op (stored w) ≡ (ok a, stored w')) × (w'.mirror ≡ w.mirror)
unfolding call at_session
stored-call {A} op w {a} {w'} h =
    let r : (op (stored w)).0 ≡ ok a = ap (λ (p : Result A × World). p.0) h in
    let e : record w { sessions = put w.mirror.session_id (op (stored w)).1 w.sessions } ≡ w' =
      ap (λ (p : Result A × World). p.1) h in
    let q = sym (ap (or_fresh Store.fresh) (stored-put w (op (stored w)).1)) ∙ ap stored e in
    (λ i. (r i, q i), ap (λ x. x.mirror) (sym e))

marked :
    (i : String) (revision epoch : ℕ) (s : Store.SessionState) {s' : Store.SessionState}
    → set_watermark i revision epoch s ≡ (ok tt, s')
    → get i s'.watermarks ≡ some revision
unfolding set_watermark Store.guard_epoch
marked i revision epoch s h = ground (arith, get-put_self i revision s.watermarks)

module _ (f : Flow) (self : Settings) where
  -- The run failed and is launched again: its delta is kept, for the watermark stays.
  pub record IsRetried (c : Completed) (s t : Session) : Type 0 where
    pub failed : c.error ≢ none
    pub counted : get c.operator_id t.failed_attempts ≡ some (tried f self c.operator_id s + 1)
    pub armed :
        get c.operator_id t.retries.due
        ≡ some (
            s.now
            + delay_of f self
                (policy_of f self c.operator_id)
                c.operator_id
                (tried f self c.operator_id s + 1))
    pub within :
        is_terminal f self
          (policy_of f self c.operator_id)
          (tried f self c.operator_id s + 1)
          (is_tripped c.operator_id t.breaker)
        ≡ false
    pub watermarks : t.watermarks ≡ s.watermarks
    pub world : t.world ≡ s.world

  abbrev pub ends : Completed → Session → Session → Bool
  ends c s t =
      not (is_some c.error)
      || is_terminal f self (policy_of f self c.operator_id) (tried f self c.operator_id s + 1)
          (is_tripped c.operator_id t.breaker)

  -- The run succeeded, or failed for the last time: what it observed is its watermark, in the store too.
  pub record IsAdvanced (c : Completed) (run : Running) (s t : Session) : Type 0 where
    pub ended : ends c s t ≡ true
    pub forgotten : get c.operator_id t.failed_attempts ≡ none
    pub retries : t.retries ≡ s.retries
    pub watermark : get c.operator_id t.watermarks ≡ some (some run.observed_revision)
    pub kept_watermark : get c.operator_id (stored t.world).watermarks ≡ some run.observed_revision

  popped :
      (i : String) (o : Option Running) (s : Session) {run : Running} {t : Session}
      → pop_running f self i o s ≡ (ok run, t)
      → (o ≡ some run) × (t ≡ record s { running = delete i s.running })
  popped i none s h = absurd (ground arith)
  popped i (some run) s h = let (x, y) = ok-inj h in (ap some x, sym y)

  audit_run-same :
      (c : Completed) (epoch count attempt : ℕ) (s : Session) {t : Session}
      → audit_operator_run f self c.operator_id epoch
          (outcome_of f self c.error)
          count
          attempt
          (some c.run_seconds)
          (error_text f self c.error)
          s
        ≡ (ok tt, t)
      → t ≡ record s { audit = t.audit }
  unfolding audit_operator_run
  audit_run-same c epoch count attempt s h =
      (on_audit-eq-ok
        (Audit.append (
          run_entry f self c.operator_id epoch (outcome_of f self c.error) count attempt
            (some c.run_seconds) (error_text f self c.error) s.now))
        s h).1

  advanced :
      (i : String) (revision epoch : ℕ) (s : Session) {t : Session}
      → advance_watermark f self i revision epoch s ≡ (ok tt, t)
      → (get i t.watermarks ≡ some (some revision))
        × (get i (stored t.world).watermarks ≡ some revision)
        × (t ≡ record s { world = t.world; watermarks = t.watermarks })
  unfolding advance_watermark
  advanced i revision epoch s {t} h =
      let (_, u, p, q) = >>=-eq-ok (on_mirror (call (set_watermark i revision epoch))) _ s h in
      let (x, y) = on_mirror-eq-ok (call (set_watermark i revision epoch)) s p in
      let (_, z) = ok-inj q in
      let e : t ≡ record s { world = u.world; watermarks = put i (some revision) s.watermarks } =
        sym z
        ∙ ap (λ (v : Session). record v { watermarks = put i (some revision) v.watermarks }) y in
      (
        ap (λ x. get i x.watermarks) e ∙ get-put_self i (some revision) s.watermarks,
        ap (λ x. get i (stored x.world).watermarks) e
            ∙ marked i revision epoch (stored s.world)
                (stored-call (set_watermark i revision epoch) s.world x).0,
        e ∙ sym (ap (λ (v : Session). record s { world = v.world; watermarks = v.watermarks }) e),
      )

  -- What holds whatever the disposition is: the run is over, and has been counted.
  abbrev pub IsCounted : Completed → Running → Session → Session → Type 0
  IsCounted c run s t =
      (get c.operator_id s.running ≡ some run)
      × (t.running ≡ delete c.operator_id s.running)
      × (t.runs ≡ count_one c.operator_id s.runs)
      × (t.breaker ≡ record_run c.operator_id s.breaker)

  abbrev counted_state : Completed → Session → Session
  counted_state c s = record s {
    running = delete c.operator_id s.running;
    runs = count_one c.operator_id s.runs;
    breaker = record_run c.operator_id s.breaker;
  }

  module _ (c : Completed) (run : Running) (epoch : ℕ) (s u v t : Session)
      (found : get c.operator_id s.running ≡ some run)
      (audited : v ≡ record u { audit = v.audit }) where
    retried :
        c.error ≢ none
        → IsRetrying f self c.operator_id (counted_state c s) u
        → v ≡ t
        → IsCounted c run s t × IsRetried c s t
    retried e r d =
        let k : t ≡ record (counted_state c s) {
          failed_attempts = u.failed_attempts;
          retries = u.retries;
          audit = v.audit;
        } =
          sym d ∙ (audited ∙ ap (λ (x : Session). record x { audit = v.audit }) r.kept) in
        (
          (found, ap (λ x. x.running) k, ap (λ x. x.runs) k, ap (λ x. x.breaker) k),
          record {
            failed = e;
            counted = ap (λ x. get c.operator_id x.failed_attempts) k ∙ r.counted;
            armed = ap (λ x. get c.operator_id x.retries.due) k ∙ r.armed;
            within =
                ap
                  (λ x.
                    is_terminal f self (policy_of f self c.operator_id)
                      (tried f self c.operator_id s + 1) (is_tripped c.operator_id x.breaker))
                  k
                ∙ r.within;
            watermarks = ap (λ x. x.watermarks) k;
            world = ap (λ x. x.world) k;
          },
        )

    finished :
        ends c s (counted_state c s) ≡ true
        → IsFinished f self c.operator_id (counted_state c s) u
        → advance_watermark f self c.operator_id run.observed_revision epoch v ≡ (ok tt, t)
        → IsCounted c run s t × IsAdvanced c run s t
    finished e r h =
        let (x, y, z) = advanced c.operator_id run.observed_revision epoch v h in
        let k : t ≡ record (counted_state c s) {
          failed_attempts = u.failed_attempts;
          audit = v.audit;
          world = t.world;
          watermarks = t.watermarks;
        } =
          z
          ∙ (ap (λ (x : Session). record x { world = t.world; watermarks = t.watermarks }) audited
              ∙ ap
                  (λ (x : Session). record x {
                    audit = v.audit;
                    world = t.world;
                    watermarks = t.watermarks;
                  })
                  r.kept) in
        (
          (found, ap (λ x. x.running) k, ap (λ x. x.runs) k, ap (λ x. x.breaker) k),
          record {
            ended = ap (λ x. ends c s x) k ∙ e;
            forgotten = ap (λ x. get c.operator_id x.failed_attempts) k ∙ r.forgotten;
            retries = ap (λ x. x.retries) k;
            watermark = x;
            kept_watermark = y;
          },
        )

  success_ends : (c : Completed) (s t : Session) → c.error ≡ none → ends c s t ≡ true
  success_ends c s t e = rw e refl

  failure_ends :
      (c : Completed) (s : Session)
      → IsOver f self c.operator_id (counted_state c s)
      → ends c s (counted_state c s) ≡ true
  failure_ends c s h = ground (arith, h)

  -- What the attempt's settlement and the rest of the method come to.
  module _ (c : Completed) (run : Running) (epoch : ℕ) (s u v t : Session)
      (found : get c.operator_id s.running ≡ some run)
      (audited : v ≡ record u { audit = v.audit }) where
    by_error :
        (o : Option Error) (b : Bool)
        → c.error ≡ o
        → Settles f self c.operator_id o (counted_state c s) b u
        → unless f self b (advance_watermark f self c.operator_id run.observed_revision epoch) v
          ≡ (ok tt, t)
        → IsCounted c run s t × (IsRetried c s t ⊎ IsAdvanced c run s t)
    by_error none b e (k, r) h =
        let (x, y) =
          finished c run epoch s u v t found audited (success_ends c s (counted_state c s) e) r
            (rw k at h) in
        (x, inr y)
    by_error (some x) b e (inl (k, r)) h =
        let (_, d) = ok-inj (rw k at h) in
        let (p, q) = retried c run epoch s u v t found audited (λ n. cc) r d in (p, inl q)
    by_error (some x) b e (inr (k, o, r)) h =
        let (p, q) =
          finished c run epoch s u v t found audited (failure_ends c s o) r (rw k at h) in
        (p, inr q)

  settles :
      (c : Completed) (o : Option Error) (s : Session) (op : Class) {b : Bool} {u : Session}
      → get c.operator_id self.operators_by_id ≡ some op
      → settle_attempt f self c.operator_id o s ≡ (ok b, u)
      → Settles f self c.operator_id o s b u
  settles c none s op k h = settle_success f self c.operator_id s h
  settles c (some e) s op k h = settle_failure f self c.operator_id e s op k h

  abbrev Recorded : Completed → Session → Session → Type 0
  Recorded c s t = (run : Running) × IsCounted c run s t × (IsRetried c s t ⊎ IsAdvanced c run s t)

  -- The parts of `_record_completion` from its audit on, and from its settlement on.
  abbrev audited_part : Completed → Running → ℕ → Session → Bool → Method Unit
  audited_part c run epoch s b u =
      (audit_operator_run f self c.operator_id epoch (outcome_of f self c.error)
            (or_zero (get c.operator_id u.runs)) (tried f self c.operator_id s + 1)
            (some c.run_seconds) (error_text f self c.error)
          >> unless f self b (advance_watermark f self c.operator_id run.observed_revision epoch))
        u

  module _ (c : Completed) (run : Running) (epoch : ℕ) (s : Session) (op : Class)
      (known : get c.operator_id self.operators_by_id ≡ some op)
      (found : get c.operator_id s.running ≡ some run) where
    after_settlement :
        (b : Bool) (u t : Session)
        → settle_attempt f self c.operator_id c.error (counted_state c s) ≡ (ok b, u)
        → audited_part c run epoch s b u ≡ (ok tt, t)
        → Recorded c s t
    after_settlement b u t q h =
        let (_, v, r, h') =
          >>=-eq-ok
            (audit_operator_run f self c.operator_id epoch (outcome_of f self c.error)
              (or_zero (get c.operator_id u.runs)) (tried f self c.operator_id s + 1)
              (some c.run_seconds) (error_text f self c.error))
            (λ _.
              unless f self b (advance_watermark f self c.operator_id run.observed_revision epoch))
            u h in
        let (x, y) =
          by_error c run epoch s u v t found
            (audit_run-same c epoch (or_zero (get c.operator_id u.runs))
              (tried f self c.operator_id s + 1) u {t = v} r)
            c.error b refl (settles c c.error (counted_state c s) op {b = b} {u = u} known q) h' in
        (run, x, y)

    after_count :
        (t : Session)
        → (settle_attempt f self c.operator_id c.error >>= audited_part c run epoch s)
            (counted_state c s)
          ≡ (ok tt, t)
        → Recorded c s t
    after_count t h =
        let (b, u, q, h') =
          >>=-eq-ok (settle_attempt f self c.operator_id c.error) (audited_part c run epoch s)
            (counted_state c s) h in
        after_settlement b u t q h'

  abbrev after_pop : Completed → ℕ → Session → Running → Method Unit
  after_pop c epoch s run =
      count_run f self c.operator_id
      >> (settle_attempt f self c.operator_id c.error >>= audited_part c run epoch s)

  record_lem :
      (c : Completed) (epoch : ℕ) (s : Session)
      → record_completion f self c epoch s
        ≡ (pop_running f self c.operator_id (get c.operator_id s.running) >>= after_pop c epoch s) s
  unfolding record_completion
  record_lem c epoch s = refl

  -- A finished run of a known operator, when its record returns, is over and counted, and it either
  -- failed with an attempt left below the circuit breaker: the retry is armed on its backoff, and the
  -- watermarks and the store are as they were; or it succeeded or failed for the last time: the attempts
  -- are forgotten, no retry is armed, and the revision that it observed at its launch is its watermark,
  -- also in the store.
  pub record_completion-disposed :
      (c : Completed) (epoch : ℕ) (s : Session) (op : Class) {t : Session}
      → get c.operator_id self.operators_by_id ≡ some op
      → record_completion f self c epoch s ≡ (ok tt, t)
      → (run : Running) × IsCounted c run s t × (IsRetried c s t ⊎ IsAdvanced c run s t)
  record_completion-disposed c epoch s op {t} k h =
      let (run, s₁, p, h₁) =
        >>=-eq-ok (pop_running f self c.operator_id (get c.operator_id s.running))
          (after_pop c epoch s) s (sym (record_lem c epoch s) ∙ h) in
      let (found, e₁) = popped c.operator_id (get c.operator_id s.running) s p in
      after_count c run epoch s op k found t (sym (ap (after_pop c epoch s run) e₁) ∙ h₁)
