-- ===== src/Lock/Epochs.antt =====
-- Epochs over any sequence of calls by any processes.
use orcastork.Base.{raise, stale_epoch, true, ◌⊎◌, List, [], arith, none, ok, ℕ, ◌<◌, ◌∷◌, ◌≡◌, ◌≤◌}
use orcastork.Lock.{holds, LockState, acquire, renew, release, mark_complete, clear_complete}

-- The calls that change the lock's state, each with the time at which it is made.
pub data Call : Type 0 where
  acquire_at : ℕ → Call
  renew_at : ℕ → ℕ → Call
  release_of : ℕ → Call
  mark_of : ℕ → Call
  clear : Call

module _ (ttl : ℕ) where
  unfoldable pub perform : Call → LockState → LockState
  unfolding acquire renew release mark_complete clear_complete
  perform (acquire_at now) s = (acquire now ttl s).1
  perform (renew_at now epoch) s = (renew now ttl epoch s).1
  perform (release_of epoch) s = (release epoch s).1
  perform (mark_of epoch) s = (mark_complete epoch s).1
  perform clear s = (clear_complete s).1

  unfoldable pub perform_all : List Call → LockState → LockState
  perform_all [] s = s
  perform_all (c ∷ calls) s = perform_all calls (perform c s)

  -- The lease, while there is one, belongs to the last epoch that was minted.
  pub record IsValid (s : LockState) : Type 0 where
    pub of_last : (s.lease ≡ none) ⊎ (holds s.epoch_counter s ≡ true)

  pub perform-monotone : (c : Call) (s : LockState) → s.epoch_counter ≤ (perform c s).epoch_counter
  unfolding perform
  perform-monotone (acquire_at now) s = ground arith
  perform-monotone _ s = ground arith

  pub perform_all-monotone :
      (calls : List Call) (s : LockState) → s.epoch_counter ≤ (perform_all calls s).epoch_counter
  unfolding perform_all
  perform_all-monotone [] s = omega arith
  perform_all-monotone (c ∷ calls) s =
      omega (arith, perform-monotone c s, perform_all-monotone calls (perform c s))

  -- A grant mints an epoch above every epoch minted before it, whatever happened in between.
  pub acquire-fresh :
      (now later first second : ℕ) (calls : List Call) (s : LockState)
      → (acquire now ttl s).0 ≡ ok first
      → (acquire later ttl (perform_all calls (acquire now ttl s).1)).0 ≡ ok second
      → first < second
  unfolding acquire
  acquire-fresh now later first second calls s granted again =
      ground (arith, perform_all-monotone calls (acquire now ttl s).1)

  perform-IsValid : (c : Call) (s : LockState) → IsValid s → IsValid (perform c s)
  unfolding perform
  perform-IsValid (acquire_at now) s h = record { of_last = ground (arith, h.of_last) }
  perform-IsValid _ s h = record { of_last = ground (arith, h.of_last) }

  pub perform_all-IsValid :
      (calls : List Call) (s : LockState) → IsValid s → IsValid (perform_all calls s)
  unfolding perform_all
  perform_all-IsValid [] s h = h
  perform_all-IsValid (c ∷ calls) s h =
      perform_all-IsValid calls (perform c s) (perform-IsValid c s h)

  -- An epoch below the last one minted can neither renew the lease, nor complete the session, nor
  -- release the lease: the first two raise, and none of the three changes anything.
  pub superseded :
      (now epoch : ℕ) (s : LockState)
      → IsValid s
      → epoch < s.epoch_counter
      → (renew now ttl epoch s ≡ (raise stale_epoch, s))
        × (mark_complete epoch s ≡ (raise stale_epoch, s))
        × (release epoch s ≡ (ok tt, s))
  unfolding renew mark_complete release
  superseded now epoch s h older =
      (ground (arith, h.of_last), ground (arith, h.of_last), ground (arith, h.of_last))
