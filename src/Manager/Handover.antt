-- ===== src/Manager/Handover.antt =====
-- The supervisor hands back a session that is drained: the loop of orcastork/manager/manager.py that spawns
-- again for what came between a run's last check of its inbox and the release of its lock.
use orcastork.Base.{
  >>=-eq-ok, Bool, Bool-cases, Error, Exec, List, Option, Result, String, [], ap, arith, false, inl,
  inr, length, nat_beq, ok, ok-inj, pure, raise, refl, some, sym, true, ℕ, ◌+◌, ◌>>=◌, ◌>>◌, ◌∙◌,
  ◌∷◌, ◌≡◌, ◌⊎◌,
}
use mathlib.Core.Path.{subst}
use orcastork.DataPoint.{Class, DataPoint}
use orcastork.Inbox.{Message, Parsers}
use orcastork.Lock
use orcastork.Rerun.{InvocationDelta}
use orcastork.Orchestrator.State.{Flow, Session, Settings, ValueCipher, on_lock}
use orcastork.Orchestrator.Planning.{CapabilityView}
use orcastork.Orchestrator.Setup.{clear_contributions}
use orcastork.Orchestrator.Gathering.{Trace, deliver_each}
use orcastork.Orchestrator.Aggregating.{Reach}
use orcastork.Orchestrator.Running.{
  OrchestratorResult, SessionStatus, completed, superseded, parked, run,
}
use orcastork.Orchestrator.Completing.{IsDone, delivered}
use orcastork.Orchestrator.Leaving.{IsLeft, run-IsLeft}
use orcastork.Manager.{
  Spawn, is_completed, new_orchestrator, run_if, validated, spawn, overtake, own_aggregators,
  respawn_to_drain,
}

-- What a run that is COMPLETED leaves but for its inbox.
abbrev pub IsMarked : OrchestratorResult → Session → Type 0
IsMarked result s =
    is_completed result.status ≡ true → (s.archive.buffer ≡ []) × (s.lock.complete ≡ true)

marked_of :
    (traces : List Trace) (status : SessionStatus) (s : Session)
    → is_completed status ≡ true
    → IsDone traces status s
    → (s.archive.buffer ≡ []) × (s.lock.complete ≡ true)
marked_of traces completed s c (_, b, m) = (b, m)
marked_of traces superseded s c d = absurd (ground arith)
marked_of traces parked s c d = absurd (ground arith)

pub not_both : {A : Type 0} {b : Bool} → b ≡ true → b ≡ false → A
not_both p q = absurd (ground arith)

pub counted_none : (ms : List Message) → nat_beq (length ms) 0 ≡ true → ms ≡ []
counted_none [] h = refl
counted_none (m ∷ ms) h = absurd (ground arith)

module _ (f : Flow) (p : Parsers)
    (perform : Class
      → List DataPoint
      → CapabilityView
      → InvocationDelta
      → ℕ
      → Exec Reach Unit) where
  left-IsMarked :
      (traces : List Trace) (epoch : ℕ) (self : Settings)
      (outcome : Result (Option OrchestratorResult) × Session) (result : OrchestratorResult)
      (t : Session)
      → IsLeft f self p perform traces epoch outcome
      → outcome ≡ (ok (some result), t)
      → IsMarked result t
  left-IsMarked traces epoch self outcome result t l e c =
      marked_of traces result.status t c (subst (IsLeft f self p perform traces epoch) e l).1

  -- A run that returns had acquired the lock.
  run-IsMarked :
      (self : Settings) (provided : Option ValueCipher ⊎ Error) (traces : List Trace) (s : Session)
      (result : OrchestratorResult) (t : Session)
      → run f self p perform provided traces s ≡ (ok (some result), t)
      → IsMarked result t
  unfolding run Lock.acquire
  run-IsMarked self provided traces s result t e = elim (Bool-cases (Lock.is_live s.now s.lock)) [
    | inl live ↦ absurd (ground (arith, live))
    | inr free ↦
        left-IsMarked traces (s.lock.epoch_counter + 1) self
          (run f self p perform provided traces s) result t
          (run-IsLeft f self p perform provided traces s free) e
  ]

module _ (f : Flow) (self : Settings) (p : Parsers) (consumes : Class → List Class)
    (perform : Class
      → List DataPoint
      → CapabilityView
      → InvocationDelta
      → ℕ
      → Exec Reach Unit) where
  abbrev Returned : Result (Option OrchestratorResult) × Session → Type 0
  Returned (r, t) = (result : OrchestratorResult) → r ≡ ok (some result) → IsMarked result t

  run_if-IsMarked :
      (checks : Result (Unit {0})) (given : Spawn) (seed : List DataPoint) (s : Session)
      (result : OrchestratorResult) (t : Session)
      → run_if f self p consumes perform checks given seed s ≡ (ok (some result), t)
      → IsMarked result t
  run_if-IsMarked (ok _) given seed s result t e =
      run-IsMarked f p perform (record self { seed = seed }) given.provided given.traces s result t
        e
  run_if-IsMarked (raise x) given seed s result t e = absurd (ground (arith, e))

  pub spawn-IsMarked :
      (given : Spawn) (seed : List DataPoint) (fresh_deadline : Bool) (s : Session)
      (result : OrchestratorResult) (t : Session)
      → spawn f self p consumes perform given seed fresh_deadline s ≡ (ok (some result), t)
      → IsMarked result t
  unfolding spawn
  spawn-IsMarked given seed fresh_deadline s result t e =
      let (_, u, _, k) =
        >>=-eq-ok (overtake f self p consumes perform given.overtaken)
          (λ _ u.
            run_if f self p consumes perform
              (validated f self p consumes perform
                (new_orchestrator f self p consumes perform fresh_deadline u))
              given seed (new_orchestrator f self p consumes perform fresh_deadline u))
          s e in
      run_if-IsMarked _ given seed (new_orchestrator f self p consumes perform fresh_deadline u)
        result t k

  respawn-IsMarked :
      (given : Spawn) (s : Session) (result : OrchestratorResult) (t : Session)
      → respawn_to_drain f self p consumes perform given s ≡ (ok (some result), t)
      → IsMarked result t
  unfolding respawn_to_drain
  respawn-IsMarked given s result t e =
      let (_, u, _, k) =
        >>=-eq-ok (on_lock Lock.clear_complete)
          (λ _.
            clear_contributions f self (own_aggregators f self p consumes perform)
            >> spawn f self p consumes perform given [] true)
          s e in
      let (_, v, _, h) =
        >>=-eq-ok (clear_contributions f self (own_aggregators f self p consumes perform))
          (λ _. spawn f self p consumes perform given [] true) u k in
      spawn-IsMarked given [] true v result t h

  -- A respawn, and what others append after it.
  abbrev pub respawn_with : Spawn → Session → Result (Option OrchestratorResult) × Session
  respawn_with given = do
    outcome ← respawn_to_drain f self p consumes perform given
    deliver_each given.stragglers
    pure outcome

  delivery-IsMarked :
      (entries : List (String × String)) (outcome : Option OrchestratorResult)
      (result : OrchestratorResult) (s t : Session)
      → (deliver_each entries >> pure outcome) s ≡ (ok (some result), t)
      → (outcome ≡ some result) × (t.archive ≡ s.archive) × (t.lock ≡ s.lock)
  delivery-IsMarked entries outcome result s t e =
      let (_, u, d, k) = >>=-eq-ok (deliver_each entries) (λ _. pure outcome) s e in
      let (_, a, l) = delivered entries s u d in
      let (same, st) = ok-inj k in
      (same, ap (λ x. x.archive) (sym st) ∙ a, ap (λ x. x.lock) (sym st) ∙ l)

  pub kept-IsMarked :
      (result : OrchestratorResult) (s t : Session)
      → t.archive ≡ s.archive
      → t.lock ≡ s.lock
      → IsMarked result s
      → IsMarked result t
  kept-IsMarked result s t a l m c =
      let (b, k) = m c in (ap (λ x. x.buffer) a ∙ b, ap (λ x. x.complete) l ∙ k)

  pub respawn_with-IsMarked :
      (given : Spawn) (s : Session) (result : OrchestratorResult) (t : Session)
      → respawn_with given s ≡ (ok (some result), t)
      → IsMarked result t
  respawn_with-IsMarked given s result t e =
      let (outcome, u, d, k) =
        >>=-eq-ok (respawn_to_drain f self p consumes perform given)
          (λ outcome. deliver_each given.stragglers >> pure outcome) s e in
      let (same, a, l) = delivery-IsMarked given.stragglers outcome result u t k in
      kept-IsMarked result u t a l
        (respawn-IsMarked given s result u (d ∙ ap (λ o. (ok o, u)) same))
