-- ===== src/EffectGuard.antt =====
-- orcastork/operators/effects.py: the guard around a side effect that must not be repeated. Its body
-- is the caller's; it acts on the store and on whatever else (`O`) the effect changes.
pub mod Marks
pub mod Steps
pub mod Firings
pub mod Spending
pub mod Settling
pub mod Attempts
use orcastork.Base.{
  Bool, Exec, Result, String, continue, false, if◌then◌else◌, ok, pure, raise, true, ℕ, ◌>>=◌, ◌>>◌,
}
use Prim.Native.String.{◌++◌}
use orcastork.Store.{SessionState, Op}
use orcastork.Store.Effects.{
  EffectClaim, acquired, already_committed, pending_same_epoch, pending_stale_epoch, claim_effect,
  commit_effect, revert_effect,
}

pub data EffectRecovery : Type 0 where
  rerun skip : EffectRecovery

-- `EffectGuard`, but for the store
pub record EffectGuard : Type 0 where
  pub operator_id : String
  pub epoch : ℕ

abbrev pub namespaced : EffectGuard → String → String
namespaced g effect_key = g.operator_id ++ ":" ++ effect_key

abbrev pub is_acquired : EffectClaim → Bool
is_acquired acquired = true
is_acquired already_committed = false
is_acquired pending_same_epoch = false
is_acquired pending_stale_epoch = false

-- `_recover`; the state that it reads for the log is left out
unfoldable pub recover : EffectRecovery → String → ℕ → Op Bool
unfolding claim_effect
recover skip key epoch = pure false
recover rerun key epoch = do reclaim ← claim_effect key epoch true; pure (is_acquired reclaim)

abbrev pub claimed_or_recover : EffectRecovery → String → ℕ → EffectClaim → Op Bool
claimed_or_recover on_unknown key epoch acquired = pure true
claimed_or_recover on_unknown key epoch already_committed = pure false
claimed_or_recover on_unknown key epoch pending_same_epoch = pure false
claimed_or_recover on_unknown key epoch pending_stale_epoch = recover on_unknown key epoch

-- `_claim`
unfoldable pub enter : EffectRecovery → String → ℕ → Op Bool
unfolding claim_effect recover
enter on_unknown key epoch = do
  claim ← claim_effect key epoch false
  claimed_or_recover on_unknown key epoch claim

abbrev pub on_store : {O A : Type 0} → Op A → Exec (SessionState × O) A
on_store op w = let (r, s) = op w.0 in (r, (s, w.1))

module _ {O R : Type 0} where
  -- The exits: what the body did comes out, whatever the revert or the commit says.
  abbrev pub leave : String → ℕ → Result R → Exec (SessionState × O) R
  leave key epoch (ok x) w = (ok x, ((commit_effect key epoch w.0).1, w.1))
  leave key epoch (raise e) w = (raise e, ((revert_effect key epoch w.0).1, w.1))

  -- `async with guard.once(effect_key, on_unknown=…) as acquired: body`
  unfoldable pub once :
      EffectGuard
      → String
      → EffectRecovery
      → (Bool → Exec (SessionState × O) R)
      → Exec (SessionState × O) R
  unfolding enter commit_effect revert_effect
  once g effect_key on_unknown body = do
    owns ← on_store (enter on_unknown (namespaced g effect_key) g.epoch)
    λ w.
        if owns
        then (let (r, w') = body true w in leave (namespaced g effect_key) g.epoch r w')
        else body false w
