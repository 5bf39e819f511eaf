-- ===== src/Orchestrator/Waiting.antt =====
-- How orcastork/orchestrator/orchestrator.py waits: the renewal of its lease, the idle window and the
-- deadline of the session, and the wait for the inbox.
use Prim.Native.Nat.{min}
use orcastork.Base.{
  Bool, Option, false, if◌then◌else◌, leb, ltb, none, ok, pure, some, true, ℕ, ◌+◌, ◌-◌, ◌>>=◌,
  ◌>>◌, zero, suc, max,
}
use orcastork.Lock
use orcastork.Inbox
use orcastork.Store
use orcastork.Mirror.{call}
use orcastork.Orchestrator.State.{Method, Session, Settings, on_inbox, on_lock, on_mirror}

-- `_InboxWait`
pub record InboxWait : Type 0 where
  pub last_renew : ℕ
  pub parked : Bool

-- `None` never comes.
abbrev pub has_come : Option ℕ → ℕ → Bool
has_come none now = false
has_come (some instant) now = leb instant now

-- `min` with the time until an instant, if there is one
abbrev pub at_most_until : Option ℕ → ℕ → ℕ → ℕ
at_most_until none now bound = bound
at_most_until (some instant) now bound = min bound (instant - now)

-- `asyncio.wait({waiter, timer}, FIRST_COMPLETED)`: the earlier one of the waiter's instant and the
-- timer's; whether the waiter is done, and the clock then.
abbrev pub race : Option ℕ → ℕ → ℕ → Bool × ℕ
race none now bound = (false, now + bound)
race (some arrival) now bound =
    if leb arrival (now + bound) then (true, max now arrival) else (false, now + bound)

module _ (self : Settings) where
  -- `_renew_lease_if_due`; the clock is never behind `last_renew`
  unfoldable pub renew_lease_if_due : ℕ → ℕ → Method ℕ
  renew_lease_if_due epoch last_renew s =
      if ltb (s.now - last_renew) self.lease_renew_interval
      then (ok last_renew, s)
      else (do on_lock (Lock.renew s.now self.lease_ttl epoch); pure s.now) s

  abbrev after_idle : Option ℕ → ℕ → Option ℕ
  after_idle none now = none
  after_idle (some park_after) now = some (now + park_after)

  -- `_park_at`
  unfoldable pub park_at : Session → Option ℕ
  park_at s = after_idle self.park_after s.now

  abbrev full_budget : ℕ → Method ℕ
  full_budget epoch s =
      (do
        on_mirror (call (Store.set_session_deadline (s.now + self.session_deadline) epoch))
        pure self.session_deadline)
        s

  abbrev budget_of : ℕ → Option ℕ → Method ℕ
  budget_of epoch none s = full_budget epoch s
  budget_of epoch (some stored) s =
      if s.fresh_deadline then full_budget epoch s else (ok (stored - s.now), s)

  -- `_remaining_session_budget`; an exhausted budget, which may be negative, is 0 here: either way the
  -- loop `while monotonic() < deadline` is not entered
  unfoldable pub remaining_session_budget : ℕ → Method ℕ
  remaining_session_budget epoch = do
    stored ← on_mirror (call Store.get_session_deadline)
    budget_of epoch stored

  module _ (epoch deadline : ℕ) (park : Option ℕ) (arrival : Option ℕ) where
    -- The `bound` of the timer.
    abbrev pub bound : ℕ → Session → ℕ
    bound last_renew s =
        at_most_until park s.now
          (min (self.lease_renew_interval - (s.now - last_renew)) (deadline - s.now))

    -- The loop `while not waiter.done()`; out of fuel, it has no answer
    unfoldable pub wait_loop : ℕ → Bool → ℕ → Method (Option InboxWait)
    unfolding renew_lease_if_due
    wait_loop fuel true last_renew s =
        (ok (some (record { last_renew = last_renew; parked = false })), s)
    wait_loop zero false last_renew s = (ok none, s)
    wait_loop (suc fuel) false last_renew s =
        if leb deadline s.now
        then (ok (some (record { last_renew = last_renew; parked = false })), s)
        else if has_come park s.now
        then (ok (some (record { last_renew = last_renew; parked = true })), s)
        else let (done, now) = race arrival s.now (bound last_renew s) in
          (do renewed ← renew_lease_if_due epoch last_renew; wait_loop fuel done renewed)
            (record s { now = now })

  -- The waiter is done at once if the inbox is not empty.
  abbrev first_arrival : Bool → Option ℕ → ℕ → Option ℕ
  first_arrival true arrival now = some now
  first_arrival false arrival now = arrival

  -- `_wait_for_inbox`; `arrival` is when the next entry comes, if one comes
  unfoldable pub wait_for_inbox : Option ℕ → ℕ → ℕ → ℕ → ℕ → Option ℕ → Method (Option InboxWait)
  unfolding wait_loop
  wait_for_inbox arrival fuel epoch deadline last_renew park = do
    ready ← on_inbox Inbox.begin_wait
    λ s. wait_loop epoch deadline park (first_arrival ready arrival s.now) fuel false last_renew s
