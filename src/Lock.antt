-- ===== src/Lock.antt =====
-- orcastork/adapters/memory/lock.py: one session's lock, a lease that expires and an epoch that only
-- grows. `now` is what the injected clock reads, in ticks; `ttl` is the lease's length in ticks.
pub mod Epochs
pub mod Exclusion
use orcastork.Base.{
  Bool, Exec, Option, false, gets, if◌then◌else◌, lock_held, ltb, nat_beq, none, not, ok, raise,
  some, stale_epoch, true, ℕ, ◌+◌, ◌||◌,
}

pub record Lease : Type 0 where
  pub epoch : ℕ
  pub expires_at : ℕ

pub record LockState : Type 0 where
  pub epoch_counter : ℕ
  pub lease : Option Lease
  pub complete : Bool

abbrev pub fresh : LockState
fresh = record { epoch_counter = 0; lease = none; complete = false }

-- `_is_live`
unfoldable pub is_live : ℕ → LockState → Bool
is_live now s = elim s.lease [ none ↦ false | some lease ↦ ltb now lease.expires_at ]

unfoldable pub acquire : ℕ → ℕ → Exec LockState ℕ
unfolding is_live
acquire now ttl s = if is_live now s then (raise lock_held, s) else (
  ok (s.epoch_counter + 1),
  record s {
    epoch_counter = s.epoch_counter + 1;
    lease = some (record { epoch = s.epoch_counter + 1; expires_at = now + ttl });
  },
)

-- Whether `epoch` holds the lease, expired or not.
unfoldable pub holds : ℕ → LockState → Bool
holds epoch s = elim s.lease [ none ↦ false | some lease ↦ nat_beq lease.epoch epoch ]

unfoldable pub renew : ℕ → ℕ → ℕ → Exec LockState Unit
unfolding is_live holds
renew now ttl epoch s =
    if not (holds epoch s) || not (is_live now s)
    then (raise stale_epoch, s)
    else (ok tt, record s { lease = some (record { epoch = epoch; expires_at = now + ttl }) })

unfoldable pub release : ℕ → Exec LockState Unit
unfolding holds
release epoch s = if holds epoch s then (ok tt, record s { lease = none }) else (ok tt, s)

unfoldable pub current_epoch : Exec LockState ℕ
current_epoch = gets (λ s. s.epoch_counter)

unfoldable pub is_held : ℕ → Exec LockState Bool
unfolding is_live
is_held now = gets (is_live now)

unfoldable pub mark_complete : ℕ → Exec LockState Unit
mark_complete epoch s =
    if ltb epoch s.epoch_counter
    then (raise stale_epoch, s)
    else (ok tt, record s { complete = true })

unfoldable pub is_complete : Exec LockState Bool
is_complete = gets (λ s. s.complete)

unfoldable pub clear_complete : Exec LockState Unit
clear_complete s = (ok tt, record s { complete = false })
