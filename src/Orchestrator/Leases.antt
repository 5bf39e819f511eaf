-- ===== src/Orchestrator/Leases.antt =====
-- The lease during a wait for the inbox, and how the wait ends.
use orcastork.Base.{
  if◌then◌else◌, ap, ◌∙◌, ◌>>=◌, is_empty, inl, inr, Bool-cases, Result, suc, zero, Bool, Option,
  false, leb, true, ◌⊎◌, arith, ltb, ok, refl, some, ℕ, ◌+◌, ◌-◌, ◌<◌, ◌≤◌, ◌≡◌,
}
use orcastork.Inbox
use orcastork.Lock
use orcastork.Lock.{Lease, LockState}
use orcastork.Orchestrator.State.{Method, Session, Settings}
use orcastork.Orchestrator.Waiting.{
  wait_for_inbox, bound, InboxWait, wait_loop, has_come, race, renew_lease_if_due,
}
use orcastork.Orchestrator.Races.{
  finish, parks_at, is_waiting, open_waits, opened, closed, idled, bound_fair, starved, HasRaced,
  race_fair,
}

module _ (self : Settings) (epoch : ℕ) where
  -- The lease is the one that the renewal at `last_renew` has set, and it is live.
  abbrev pub IsLeased : ℕ → Session → Type 0
  IsLeased last_renew s =
      (s.lock.lease ≡ some (record { epoch = epoch; expires_at = last_renew + self.lease_ttl }))
      × (last_renew ≤ s.now)
      × (s.now < last_renew + self.lease_ttl)

  renewed_lock :
      (now expires : ℕ) (l : LockState)
      → l.lease ≡ some (record { epoch = epoch; expires_at = expires })
      → now < expires
      → Lock.renew now self.lease_ttl epoch l ≡ (
        ok tt,
        record l { lease = some (record { epoch = epoch; expires_at = now + self.lease_ttl }) },
      )
  unfolding Lock.renew Lock.holds Lock.is_live
  renewed_lock now expires l h k = ground (arith, h)

  abbrev renewed_at : Session → Session
  renewed_at s = record s {
    lock = record s.lock {
      lease = some (record { epoch = epoch; expires_at = s.now + self.lease_ttl });
    };
  }

  pub renew_step :
      (last_renew : ℕ) (s : Session)
      → 0 < self.lease_renew_interval
      → 0 < self.lease_ttl
      → IsLeased last_renew s
      → (renewed : ℕ) × (t : Session) × (renew_lease_if_due self epoch last_renew s
          ≡ (ok renewed, t))
        × IsLeased renewed t
        × (t.now ≡ s.now)
        × (t.now < renewed + self.lease_renew_interval)
  unfolding renew_lease_if_due
  renew_step last_renew s i l (h, a, b) =
      elim (Bool-cases (ltb (s.now - last_renew) self.lease_renew_interval)) [
        | inl early ↦ rw (early) (last_renew, s, refl, (h, a, b), refl, ground arith)
        | inr due ↦
            rw (due, renewed_lock s.now (last_renew + self.lease_ttl) s.lock h b)
              (s.now, renewed_at s, refl, (refl, omega arith, omega arith), refl, omega arith)
      ]

module _ (self : Settings) (epoch deadline : ℕ) (park arrival : Option ℕ)
    (eager : 0 < self.lease_renew_interval)
    (often : self.lease_renew_interval < self.lease_ttl) where
  -- The outcome of a wait that was entered at `now`.
  abbrev IsWaited : ℕ → Result (Option InboxWait) × Session → Type 0
  IsWaited now r =
      (wait : InboxWait) × (t : Session) × (r ≡ (ok (some wait), t))
      × IsLeased self epoch wait.last_renew t
      × (t.now ≡ finish deadline park arrival now)
      × (wait.parked ≡ parks_at deadline park arrival park)

  abbrev IsDueSoon : ℕ → ℕ → Session → Type 0
  IsDueSoon fuel last_renew s =
      (deadline + 1 < s.now + fuel) ⊎ (s.now < last_renew + self.lease_renew_interval)

  abbrev more_of : ℕ → Session → ℕ
  more_of last_renew s = self.lease_renew_interval - (s.now - last_renew)

  still-IsLeased :
      (last_renew now : ℕ) (s : Session)
      → IsLeased self epoch last_renew s
      → s.now ≤ now
      → now ≤ s.now + more_of last_renew s
      → IsLeased self epoch last_renew (record s { now = now })
  still-IsLeased last_renew now s (h, a, b) k m = (h, omega arith, omega arith)

  abbrev LoopEnds : ℕ → Type 0
  LoopEnds fuel =
      (last_renew : ℕ) (s : Session)
      → IsLeased self epoch last_renew s
      → is_waiting deadline park arrival s.now ≡ true
      → deadline < s.now + fuel
      → IsDueSoon fuel last_renew s
      → IsWaited s.now (wait_loop self epoch deadline park arrival fuel false last_renew s)

  abbrev next_round : ℕ → Bool → ℕ → Method (Option InboxWait)
  next_round fuel done last_renew =
      renew_lease_if_due self epoch last_renew
      >>= wait_loop self epoch deadline park arrival fuel done

  fuel_left :
      (fuel last_renew : ℕ) (s : Session) (now later : ℕ)
      → deadline < s.now + suc fuel
      → IsDueSoon (suc fuel) last_renew s
      → (more_of last_renew s ≡ 0) ⊎ (s.now < now)
      → later ≡ now
      → s.now ≤ now
      → deadline < later + fuel
  fuel_left fuel last_renew s now later f d p e k = ground arith

  IsWaited-from :
      (now now' : ℕ) (r : Result (Option InboxWait) × Session)
      → finish deadline park arrival now ≡ finish deadline park arrival now'
      → IsWaited now r
      → IsWaited now' r
  IsWaited-from now now' r e (w, t, h, l, n, p) = (w, t, h, l, n ∙ e, p)

  after_race :
      (fuel last_renew : ℕ) (s : Session) (r : Bool × ℕ)
      → LoopEnds fuel
      → IsLeased self epoch last_renew s
      → deadline < s.now + suc fuel
      → IsDueSoon (suc fuel) last_renew s
      → HasRaced deadline park s.now arrival (more_of last_renew s) r
      → IsWaited s.now (next_round fuel r.0 last_renew (record s { now = r.1 }))
  after_race fuel last_renew s r rest l f d (a, b, c) =
      let (renewed, t, e, l', n, soon) =
        renew_step self epoch last_renew (record s { now = r.1 }) eager (omega arith)
          (still-IsLeased last_renew r.1 s l a b) in
      elim c [
        | inl (g, at_end, p) ↦
            rw (g, e)
              (
                record { last_renew = renewed; parked = false },
                t,
                unfold wait_loop in refl,
                l',
                n ∙ at_end,
                p,
              )
        | inr (g, w, same, progress) ↦
            rw (g, e)
              (IsWaited-from t.now s.now _ (ap (finish deadline park arrival) n ∙ same) (
                rest renewed t l' (ap (is_waiting deadline park arrival) n ∙ w)
                  (fuel_left fuel last_renew s r.1 t.now f d progress n a) (inr soon)))
      ]

  loop_ends :
      (fuel last_renew : ℕ) (s : Session)
      → IsLeased self epoch last_renew s
      → is_waiting deadline park arrival s.now ≡ true
      → deadline < s.now + fuel
      → IsDueSoon fuel last_renew s
      → IsWaited s.now (wait_loop self epoch deadline park arrival fuel false last_renew s)
  unfolding wait_loop
  loop_ends zero last_renew s l w f d = absurd (starved deadline park arrival s.now w f)
  loop_ends (suc fuel) last_renew s l w f d = elim (Bool-cases (leb deadline s.now)) [
    | inl over ↦
        let (e, p) = closed deadline park arrival s.now w over in
        rw (over) (record { last_renew = last_renew; parked = false }, s, refl, l, e, p)
    | inr early ↦ elim (Bool-cases (has_come park s.now)) [
      | inl idle ↦
          let (e, p) = idled deadline park arrival s.now w early idle in
          rw (early, idle) (record { last_renew = last_renew; parked = true }, s, refl, l, e, p)
      | inr busy ↦
          let (b, c, e) =
            bound_fair deadline park arrival s.now (more_of last_renew s)
              (opened deadline park arrival s.now early busy) in
          rw (early, busy)
            (after_race fuel last_renew s
              (race arrival s.now (bound self epoch deadline park arrival last_renew s))
              (loop_ends fuel) l f d
              (race_fair deadline park s.now arrival (more_of last_renew s)
                (bound self epoch deadline park arrival last_renew s) b c e))
    ]
  ]

module _ (self : Settings) (epoch deadline : ℕ) (park arrival : Option ℕ) where
  -- When the waiter is done: at once if the inbox holds a message.
  abbrev pub wakes_at : Session → Option ℕ
  wakes_at s = if is_empty s.inbox.messages then arrival else some s.now

  begun :
      (fuel last_renew : ℕ) (s : Session)
      → (t : Session) × (wait_for_inbox self arrival fuel epoch deadline last_renew park s
          ≡ wait_loop self epoch deadline park (wakes_at s) fuel false last_renew t)
        × (t.now ≡ s.now)
        × (t.lock ≡ s.lock)
  unfolding wait_for_inbox Inbox.begin_wait
  begun fuel last_renew s = elim (Bool-cases (is_empty s.inbox.messages)) [
    | inl empty ↦
        rw (empty) (record s { inbox = record s.inbox { arrival = false } }, refl, refl, refl)
    | inr full ↦ rw (full) (s, refl, refl, refl)
  ]

  -- A wait that is entered under a live lease, before the deadline and the end of the idle window, with
  -- a renewal interval shorter than the lease, ends, on fuel for the ticks until the deadline: at the
  -- first of the deadline, the end of the idle window and the arrival of an entry; it parks exactly if
  -- the idle window ends first; and it still holds the live lease, renewed at the instant it returns.
  pub wait_for_inbox-IsLeased :
      (fuel last_renew : ℕ) (s : Session)
      → 0 < self.lease_renew_interval
      → self.lease_renew_interval < self.lease_ttl
      → IsLeased self epoch last_renew s
      → s.now < deadline
      → has_come park s.now ≡ false
      → deadline + 1 < s.now + fuel
      → (wait : InboxWait) × (t : Session) × (wait_for_inbox self arrival fuel epoch deadline
            last_renew park s
          ≡ (ok (some wait), t))
        × IsLeased self epoch wait.last_renew t
        × (t.now ≡ finish deadline park (wakes_at s) s.now)
        × (wait.parked ≡ parks_at deadline park (wakes_at s) park)
  wait_for_inbox-IsLeased fuel last_renew s eager often (l, a, b) early busy fueled =
      let (t, begin, n, k) = begun fuel last_renew s in
      rw (begin) (
        IsWaited-from self epoch deadline park (wakes_at s) eager often t.now s.now _
          (ap (finish deadline park (wakes_at s)) n)
          (loop_ends self epoch deadline park (wakes_at s) eager often fuel last_renew t
            (ap (λ x. x.lease) k ∙ l, omega arith, omega arith)
            (ap (is_waiting deadline park (wakes_at s)) n
              ∙ open_waits deadline park (wakes_at s) s.now (ground arith))
            (omega arith) (inl (omega arith))))
