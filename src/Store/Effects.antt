-- ===== src/Store/Effects.antt =====
-- The effect marks of orcastork/adapters/memory/store.py: claim, commit and revert.
use orcastork.Base.{
  ℕ, String, Bool, true, false, ◌||◌, Option, none, some, nat_beq, if◌then◌else◌, string_eq, ok,
  gets, ◌>>◌,
}
use orcastork.Base.Dict.{get, put, delete}
use orcastork.Store.{EffectState, pending, committed, corrupt, Op, guard_epoch}

-- `effect_pending_epoch`
unfoldable pub effect_pending_epoch : EffectState → Option ℕ
effect_pending_epoch (pending epoch) = some epoch
effect_pending_epoch committed = none
effect_pending_epoch (corrupt _) = none

pub data EffectClaim : Type 0 where
  acquired already_committed pending_same_epoch pending_stale_epoch : EffectClaim

-- What a claim does on the state that it finds.
abbrev pub claim_on : Option EffectState → String → ℕ → Bool → Op EffectClaim
claim_on none key epoch reclaim_stale s =
    (ok acquired, record s { effects = put key (pending epoch) s.effects })
claim_on (some committed) key epoch reclaim_stale s = (ok already_committed, s)
claim_on (some (pending owner)) key epoch reclaim_stale s =
    if nat_beq owner epoch
    then (ok pending_same_epoch, s)
    else if reclaim_stale
    then (ok acquired, record s { effects = put key (pending epoch) s.effects })
    else (ok pending_stale_epoch, s)
claim_on (some (corrupt _)) key epoch reclaim_stale s =
    if reclaim_stale
    then (ok acquired, record s { effects = put key (pending epoch) s.effects })
    else (ok pending_stale_epoch, s)

unfoldable pub claim_effect : String → ℕ → Bool → Op EffectClaim
unfolding guard_epoch
claim_effect key epoch reclaim_stale = do
  guard_epoch epoch
  λ s. claim_on (get key s.effects) key epoch reclaim_stale s

-- Whether a stored state is the pending mark of `epoch`.
abbrev pub owned_by : ℕ → Option EffectState → Bool
owned_by epoch none = false
owned_by epoch (some (pending owner)) = nat_beq owner epoch
owned_by epoch (some committed) = false
owned_by epoch (some (corrupt _)) = false

abbrev pub is_committed : Option EffectState → Bool
is_committed none = false
is_committed (some (pending _)) = false
is_committed (some committed) = true
is_committed (some (corrupt _)) = false

unfoldable pub commit_effect : String → ℕ → Op Unit
unfolding guard_epoch
commit_effect key epoch = do
  guard_epoch epoch
  λ s.
      if owned_by epoch (get key s.effects) || is_committed (get key s.effects)
      then (ok tt, record s { effects = put key committed s.effects })
      else (ok tt, s)

unfoldable pub revert_effect : String → ℕ → Op Unit
unfolding guard_epoch
revert_effect key epoch = do
  guard_epoch epoch
  λ s.
      if owned_by epoch (get key s.effects)
      then (ok tt, record s { effects = delete key s.effects })
      else (ok tt, s)

unfoldable pub get_effect_state : String → Op (Option EffectState)
get_effect_state key = gets (λ s. get key s.effects)
