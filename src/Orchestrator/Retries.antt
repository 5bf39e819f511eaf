-- ===== src/Orchestrator/Retries.antt =====
-- What a finished run leaves behind: a retry that is armed, or an attempt sequence that has ended.
use orcastork.Orchestrator.Completions.{
  unless, forget_attempts, maybe_schedule_retry, is_terminal, delay_of,
}
use orcastork.Orchestrator.Merging.{or_zero}
use orcastork.Rerun.{effective, DebounceController}
use orcastork.Base.{
  Bool-cases, ap, if◌then◌else◌, inl, inr, pure, ◌>>=◌, ◌>>◌, ◌∙◌, string_eq, Bool, Error, Option,
  String, arith, eq_iff, false, none, ok, ok-inj, some, sym, true, ℕ, ◌+◌, ◌≡◌, ◌⊎◌, refl,
}
use orcastork.Base.Dict.{Dict, get, put, delete, get-put_self, get-delete}
use orcastork.DataPoint.{Class}
use orcastork.Graph.{is_tripped}
use orcastork.Rerun.{effective, DebounceController, schedule}
use orcastork.Orchestrator.State.{Flow, Settings, Session, RetryPolicy}
use orcastork.Orchestrator.Completions.{
  settle_attempt, maybe_schedule_retry, attempts_of, is_terminal, delay_of,
}

module _ (f : Flow) (self : Settings) where
  abbrev pub policy_at : Option Class → Option RetryPolicy
  policy_at none = none
  policy_at (some op) = (f.policy op).retry

  -- The retry policy of the operator with an id.
  abbrev pub policy_of : String → Option RetryPolicy
  policy_of i = policy_at (get i self.operators_by_id)

  abbrev pub tried : String → Session → ℕ
  tried = attempts_of f self

  -- The run failed with attempts left: the count has grown, and the retry is armed on its backoff.
  pub record IsRetrying (i : String) (s t : Session) : Type 0 where
    pub counted : get i t.failed_attempts ≡ some (tried i s + 1)
    pub armed : get i t.retries.due ≡ some (s.now + delay_of f self (policy_of i) i (tried i s + 1))
    pub within : is_terminal f self (policy_of i) (tried i s + 1) (is_tripped i s.breaker) ≡ false
    pub kept : t ≡ record s { failed_attempts = t.failed_attempts; retries = t.retries }

  -- No attempt is left, or the circuit breaker has tripped.
  abbrev pub IsOver : String → Session → Type 0
  IsOver i s = is_terminal f self (policy_of i) (tried i s + 1) (is_tripped i s.breaker) ≡ true

  -- The attempt sequence has ended.
  pub record IsFinished (i : String) (s t : Session) : Type 0 where
    pub forgotten : get i t.failed_attempts ≡ none
    pub kept : t ≡ record s { failed_attempts = t.failed_attempts }

  armed_at :
      (i : String) (window : Option ℕ) (now : ℕ) (d : DebounceController)
      → get i (schedule i window now d).due ≡ some (now + effective d.default_window window)
  unfolding schedule
  armed_at i window now d = get-put_self i (now + effective d.default_window window) d.due

  deleted : (i : String) (d : Dict String ℕ) → get i (delete i d) ≡ none
  deleted i d = ground (arith, get-delete i i d, eq_iff i i)

  abbrev pub Settles : String → Option Error → Session → Bool → Session → Type 0
  Settles i none s b t = (b ≡ false) × IsFinished i s t
  Settles i (some e) s b t =
      ((b ≡ true) × IsRetrying i s t) ⊎ ((b ≡ false) × IsOver i s × IsFinished i s t)

  pub settle_success :
      (i : String) (s : Session) {b : Bool} {t : Session}
      → settle_attempt f self i none s ≡ (ok b, t)
      → Settles i none s b t
  unfolding settle_attempt
  settle_success i s h =
      let (x, y) = ok-inj h in
      (sym x, rw (← y) (record { forgotten = deleted i s.failed_attempts; kept = refl }))

  abbrev noted : String → Session → Session
  noted i s = record s { failed_attempts = put i (tried i s + 1) s.failed_attempts }

  tried-noted : (i : String) (s : Session) → tried i (noted i s) ≡ tried i s + 1
  tried-noted i s = ap or_zero (get-put_self i (tried i s + 1) s.failed_attempts)

  abbrev window_of : String → Session → Option ℕ
  window_of i s = some (delay_of f self (policy_of i) i (tried i s))

  abbrev rearmed : String → Session → Session
  rearmed i s = record s { retries = schedule i (window_of i s) s.now s.retries }

  maybe_lem :
      (i : String) (op : Class) (s : Session)
      → get i self.operators_by_id ≡ some op
      → maybe_schedule_retry f self i s ≡ (
          if is_terminal f self (policy_of i) (tried i s) (is_tripped i s.breaker)
          then (ok false, s)
          else (ok true, rearmed i s))
  unfolding maybe_schedule_retry
  maybe_lem i op s k = rw k refl

  settle_lem :
      (i : String) (e : Error) (s : Session)
      → settle_attempt f self i (some e) s
        ≡ (do
          retrying ← maybe_schedule_retry f self i
          unless f self retrying (forget_attempts f self i)
          pure retrying)
            (noted i s)
  unfolding settle_attempt
  settle_lem i e s = refl

  ended :
      (i : String) (s : Session)
      → IsFinished i s (record s { failed_attempts = delete i (noted i s).failed_attempts })
  ended i s = record { forgotten = deleted i (noted i s).failed_attempts; kept = refl }

  IsRetrying-at :
      (i : String) (s : Session)
      → is_terminal f self (policy_of i) (tried i (noted i s)) (is_tripped i s.breaker) ≡ false
      → IsRetrying i s (rearmed i (noted i s))
  IsRetrying-at i s live = record {
    counted = get-put_self i (tried i s + 1) s.failed_attempts;
    armed =
        armed_at i (window_of i (noted i s)) s.now s.retries
        ∙ ap (λ n. some (s.now + delay_of f self (policy_of i) i n)) (tried-noted i s);
    within =
        ap (λ n. is_terminal f self (policy_of i) n (is_tripped i s.breaker))
          (sym (tried-noted i s))
        ∙ live;
    kept = refl;
  }

  pub settle_failure :
      (i : String) (e : Error) (s : Session) (op : Class) {b : Bool} {t : Session}
      → get i self.operators_by_id ≡ some op
      → settle_attempt f self i (some e) s ≡ (ok b, t)
      → Settles i (some e) s b t
  settle_failure i e s op k h =
      let g = rw (settle_lem i e s) at h in
      let g' = rw (maybe_lem i op (noted i s) k) at g in
      elim (Bool-cases
        (is_terminal f self (policy_of i) (tried i (noted i s)) (is_tripped i s.breaker))) [
          | inl over ↦
              let (x, y) = ok-inj (rw over at g') in
              inr (
                sym x,
                ap (λ n. is_terminal f self (policy_of i) n (is_tripped i s.breaker))
                      (sym (tried-noted i s))
                    ∙ over,
                rw (← y) (ended i s),
              )
          | inr live ↦
              let (x, y) = ok-inj (rw live at g') in inl (sym x, rw (← y) (IsRetrying-at i s live))
        ]
