-- ===== src/Lock/Exclusion.antt =====
-- One holder at a time: until the lease expires or is released, nobody else is granted the lock.
use orcastork.Base.{lock_held, ok, raise, List, [], arith, true, ℕ, ◌+◌, ◌<◌, ◌∷◌, ◌≡◌, ◌≢◌, ◌≤◌}
use orcastork.Lock.{LockState, is_live, holds, acquire}
use orcastork.Lock.Epochs.{
  Call, acquire_at, renew_at, release_of, mark_of, clear, perform, perform_all,
}

-- `epoch` holds the lease up to a time, and is the last epoch minted.
pub record HeldBy (epoch until : ℕ) (s : LockState) : Type 0 where
  pub mine : holds epoch s ≡ true
  pub live : (now : ℕ) → now < until → is_live now s ≡ true
  pub last : s.epoch_counter ≡ epoch

-- Calls on a clock that has read `start`: acquisitions before the lease's end, and no release by the
-- holder.
abbrev pub Within : ℕ → ℕ → ℕ → Call → Type 0
Within start until epoch (acquire_at now) = now < until
Within start until epoch (renew_at now other) = start ≤ now
Within start until epoch (release_of other) = other ≢ epoch
Within start until epoch (mark_of other) = Unit
Within start until epoch clear = Unit

abbrev pub AllWithin : ℕ → ℕ → ℕ → List Call → Type 0
AllWithin start until epoch [] = Unit
AllWithin start until epoch (c ∷ calls) =
    Within start until epoch c × AllWithin start until epoch calls

module _ (ttl start epoch : ℕ) where
  perform-HeldBy :
      (c : Call) (s : LockState)
      → HeldBy epoch (start + ttl) s
      → Within start (start + ttl) epoch c
      → HeldBy epoch (start + ttl) (perform ttl c s)
  unfolding perform
  perform-HeldBy (acquire_at now) s h within = record {
    mine = ground (arith, h.mine, h.live now within);
    live = λ t before. ground (arith, h.live t before, h.live now within);
    last = ground (arith, h.last, h.live now within);
  }
  perform-HeldBy (renew_at now other) s h within = record {
    mine = ground (arith, h.mine);
    live = λ t before. ground (arith, h.live t before, h.mine);
    last = ground (arith, h.last);
  }
  perform-HeldBy (release_of other) s h within = record {
    mine = ground (arith, h.mine);
    live = λ t before. ground (arith, h.live t before, h.mine);
    last = ground (arith, h.last);
  }
  perform-HeldBy (mark_of other) s h within = record {
    mine = ground (arith, h.mine);
    live = λ t before. ground (arith, h.live t before);
    last = ground (arith, h.last);
  }
  perform-HeldBy clear s h within = record { mine = h.mine; live = h.live; last = h.last }

  perform_all-HeldBy :
      (calls : List Call) (s : LockState)
      → HeldBy epoch (start + ttl) s
      → AllWithin start (start + ttl) epoch calls
      → HeldBy epoch (start + ttl) (perform_all ttl calls s)
  unfolding perform_all
  perform_all-HeldBy [] s h within = h
  perform_all-HeldBy (c ∷ calls) s h within =
      perform_all-HeldBy calls (perform ttl c s) (perform-HeldBy c s h within.0) within.1

  acquire-HeldBy :
      (s : LockState)
      → (acquire start ttl s).0 ≡ ok epoch
      → HeldBy epoch (start + ttl) (acquire start ttl s).1
  unfolding acquire holds is_live
  acquire-HeldBy s granted = record {
    mine = ground arith;
    live = λ t before. ground arith;
    last = ground arith;
  }

  -- After a grant, and while the lease lasts, every other acquisition is refused and changes nothing,
  -- whatever calls are made by others and whenever the holder renews.
  pub exclusive :
      (now : ℕ) (calls : List Call) (s : LockState)
      → (acquire start ttl s).0 ≡ ok epoch
      → AllWithin start (start + ttl) epoch calls
      → now < start + ttl
      → acquire now ttl (perform_all ttl calls (acquire start ttl s).1)
        ≡ (raise lock_held, perform_all ttl calls (acquire start ttl s).1)
  unfolding acquire
  exclusive now calls s granted within before = rw (
      (perform_all-HeldBy calls (acquire start ttl s).1 (acquire-HeldBy s granted) within).live now
        before)
