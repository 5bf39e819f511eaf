-- ===== src/Tests/LockRuns.antt =====
-- Runs of orcastork/adapters/memory/lock.py, and of the lock and the store together.
use orcastork.Base.{List, [], arith, inr, lock_held, ok, raise, refl, stale_epoch, ◌∷◌, ◌≡◌}
use orcastork.Lock
use orcastork.Lock.{LockState, acquire, renew, release, mark_complete}
use orcastork.Lock.Epochs.{perform_all, acquire_at, release_of, renew_at, mark_of, superseded}
use orcastork.Lock.Exclusion.{exclusive}
use orcastork.Store.Fencing.{run, commit, set_deadline}
use orcastork.Ownership.{Step, new, take, take_all, lock_call, mutate, take_over}

-- The lease of the first epoch runs out, and a second epoch is granted.
abbrev once_held : LockState
once_held = (acquire 0 10 Lock.fresh).1

abbrev twice_held : LockState
twice_held = (acquire 20 10 once_held).1

superseded_example :
    (renew 21 10 1 twice_held ≡ (raise stale_epoch, twice_held))
    × (mark_complete 1 twice_held ≡ (raise stale_epoch, twice_held))
    × (release 1 twice_held ≡ (ok tt, twice_held))
unfolding Lock.holds acquire
superseded_example = superseded 10 21 1 twice_held (record { of_last = inr refl }) (omega arith)

exclusive_example :
    acquire 9 10
      (perform_all 10 (acquire_at 4 ∷ renew_at 5 1 ∷ mark_of 1 ∷ []) (acquire 0 10 Lock.fresh).1)
    ≡ (
      raise lock_held,
      perform_all 10 (acquire_at 4 ∷ renew_at 5 1 ∷ mark_of 1 ∷ []) (acquire 0 10 Lock.fresh).1,
    )
unfolding acquire
exclusive_example =
    exclusive 10 0 1 9 (acquire_at 4 ∷ renew_at 5 1 ∷ mark_of 1 ∷ []) Lock.fresh refl
      (omega arith, (omega arith, (tt, tt))) (omega arith)

abbrev earlier : List Step
earlier = lock_call (acquire_at 0) ∷ mutate (set_deadline 9) 1 ∷ lock_call (release_of 1) ∷ []

take_over_example :
    let granted = record (take_all 10 earlier new) {
      lock = (acquire 2 10 (take_all 10 earlier new).lock).1;
    } in
    let written = take 10 (mutate (commit "mail") 2) granted in
    ((run (commit "mail") 2 granted.store).0 ≡ ok tt)
    × (run (set_deadline 7) 1 (take_all 10 (mutate (set_deadline 8) 2 ∷ []) written).store
        ≡ (raise stale_epoch, (take_all 10 (mutate (set_deadline 8) 2 ∷ []) written).store))
unfolding acquire take_all take
take_over_example =
    take_over 10 earlier (mutate (set_deadline 8) 2 ∷ []) 2 2 1 (commit "mail") (set_deadline 7)
      (tt, (omega arith, (tt, tt))) refl (omega arith)
