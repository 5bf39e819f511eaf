-- ===== src/Ownership.antt =====
-- A session's lock and its store together, as every orchestrator uses them: the lock mints the epoch
-- under which the store is then written (orcastork/adapters/memory/lock.py and store.py).
use native.Mathlib.Decide.{dec_lt}
use orcastork.Base.{◌+◌, List, [], arith, ok, raise, stale_epoch, ℕ, ◌<◌, ◌∷◌, ◌≡◌, ◌≤◌}
use orcastork.Lock.{LockState, acquire}
use orcastork.Lock.Epochs.{Call, perform, perform-monotone}
use orcastork.Lock
use orcastork.Store
use orcastork.Store.{SessionState}
use orcastork.Store.Fencing.{Mutation, run, run_stale, run-monotone, run_accepted}

pub record Session : Type 0 where
  pub lock : LockState
  pub store : SessionState

abbrev pub new : Session
new = record { lock = Lock.fresh; store = Store.fresh }

-- What any process may do next: call the lock, or write under an epoch.
pub data Step : Type 0 where
  lock_call : Call → Step
  mutate : Mutation → ℕ → Step

module _ (ttl : ℕ) where
  unfoldable pub take : Step → Session → Session
  unfolding perform run
  take (lock_call c) w = record w { lock = perform ttl c w.lock }
  take (mutate m epoch) w = record w { store = (run m epoch w.store).1 }

  unfoldable pub take_all : List Step → Session → Session
  take_all [] w = w
  take_all (step ∷ steps) w = take_all steps (take step w)

  -- A process writes only under an epoch that the lock has minted.
  abbrev pub IsMinted : Step → Session → Type 0
  IsMinted (lock_call c) w = Unit
  IsMinted (mutate m epoch) w = epoch ≤ w.lock.epoch_counter

  abbrev pub AllMinted : List Step → Session → Type 0
  AllMinted [] w = Unit
  AllMinted (step ∷ steps) w = IsMinted step w × AllMinted steps (take step w)

  -- The store has accepted no epoch that was not minted.
  abbrev pub IsOwned : Session → Type 0
  IsOwned w = w.store.max_epoch ≤ w.lock.epoch_counter

  take-IsOwned : (step : Step) (w : Session) → IsMinted step w → IsOwned w → IsOwned (take step w)
  unfolding take
  take-IsOwned (lock_call c) w minted h = omega (arith, perform-monotone ttl c w.lock)
  take-IsOwned (mutate m epoch) w minted h = elim (dec_lt epoch w.store.max_epoch) [
    | yes p ↦ rw (run_stale m epoch w.store p) h
    | no p ↦ omega (arith, (run_accepted m epoch w.store (omega arith)).1)
  ]

  take_all-IsOwned :
      (steps : List Step) (w : Session) → AllMinted steps w → IsOwned w → IsOwned (take_all steps w)
  unfolding take_all
  take_all-IsOwned [] w minted h = h
  take_all-IsOwned (step ∷ steps) w minted h =
      take_all-IsOwned steps (take step w) minted.1 (take-IsOwned step w minted.0 h)

  take-monotone : (step : Step) (w : Session) → w.store.max_epoch ≤ (take step w).store.max_epoch
  unfolding take
  take-monotone (lock_call c) w = omega arith
  take-monotone (mutate m epoch) w = run-monotone m epoch w.store

  take_all-monotone :
      (steps : List Step) (w : Session) → w.store.max_epoch ≤ (take_all steps w).store.max_epoch
  unfolding take_all
  take_all-monotone [] w = omega arith
  take_all-monotone (step ∷ steps) w =
      omega (arith, take-monotone step w, take_all-monotone steps (take step w))

  acquire_next :
      (now epoch : ℕ) (s : LockState)
      → (acquire now ttl s).0 ≡ ok epoch
      → epoch ≡ s.epoch_counter + 1
  unfolding acquire
  acquire_next now epoch s granted = ground arith

  -- Whatever happened before, a process that is granted the lock has its first write accepted, and
  -- from then on every write under an earlier epoch is rejected and changes nothing, in any further
  -- run of lock calls and writes under minted epochs.
  pub take_over :
      (before after : List Step) (now epoch old : ℕ) (m late : Mutation)
      → AllMinted before new
      → (acquire now ttl (take_all before new).lock).0 ≡ ok epoch
      → old < epoch
      → let granted = record (take_all before new) {
        lock = (acquire now ttl (take_all before new).lock).1;
      } in
        let written = take (mutate m epoch) granted in
        ((run m epoch granted.store).0 ≡ ok tt)
        × (run late old (take_all after written).store
            ≡ (raise stale_epoch, (take_all after written).store))
  take_over before after now epoch old m late minted granted older =
      let w = take_all before new in
      let next = acquire_next now epoch w.lock granted in
      let owned = take_all-IsOwned before new minted (omega arith) in
      let accepted = run_accepted m epoch w.store (omega (arith, owned, next)) in
      let written : Session = record {
        lock = (acquire now ttl w.lock).1;
        store = (run m epoch w.store).1;
      } in
      (
        accepted.0,
        unfold take in
            run_stale late old (take_all after written).store
              (omega (arith, accepted.1, take_all-monotone after written)),
      )
