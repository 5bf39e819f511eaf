-- ===== src/EffectGuard/Attempts.antt =====
-- `_claim` of orcastork/operators/effects.py is the claim and the recovery of EffectGuard/Steps, one after
-- the other.
use orcastork.Base.Dict.{get, put}
use orcastork.Base.{
  Bool-cases, Option, String, arith, false, inl, inr, nat_beq, none, refl, some, string_eq, true, ℕ,
  ◌<◌, ◌≡◌, ◌≤◌,
}
use native.Mathlib.Decide.{dec_lt}
use orcastork.Store.{EffectState, SessionState, pending, committed, corrupt}
use orcastork.EffectGuard.{EffectRecovery, rerun, skip, enter, recover}
use orcastork.EffectGuard.Marks.{claim_live, claim_stale, under}
use orcastork.EffectGuard.Firings.{put-own}
use orcastork.EffectGuard.Steps.{Ledger, World, claims, recovers, happen, key, starts, verdict}

module _ (operator_id effect_key : String) where
  abbrev own : String
  own = key operator_id effect_key

  abbrev entered : EffectRecovery → ℕ → SessionState → Ledger → World
  entered policy x s l = let (r, t) = enter policy own x s in (t, starts x (verdict r) l)

  abbrev stepped : EffectRecovery → ℕ → SessionState → Ledger → World
  stepped policy x s l =
      happen operator_id effect_key (recovers policy x)
        (happen operator_id effect_key (claims x) (s, l))

  stale_stepped :
      (policy : EffectRecovery) (x : ℕ) (s : SessionState) (l : Ledger)
      → x < s.max_epoch
      → stepped policy x s l ≡ entered policy x s l
  unfolding happen enter recover
  stale_stepped skip x s l h = rw (claim_stale own x false s h) refl
  stale_stepped rerun x s l h = rw (claim_stale own x false s h, claim_stale own x true s h) refl

  same_epoch : (x : ℕ) → nat_beq x x ≡ true
  same_epoch x = ground arith

  live_stepped :
      (policy : EffectRecovery) (x : ℕ) (s : SessionState) (l : Ledger)
      → s.max_epoch ≤ x
      → (mark : Option EffectState) → get own s.effects ≡ mark
      → stepped policy x s l ≡ entered policy x s l
  unfolding happen enter recover
  live_stepped skip x s l h none m = rw (claim_live own x false s h, m) refl
  live_stepped skip x s l h (some committed) m = rw (claim_live own x false s h, m) refl
  live_stepped skip x s l h (some (pending owner)) m = elim (Bool-cases (nat_beq owner x)) [
    | inl same ↦ rw (claim_live own x false s h, m, same) refl
    | inr other ↦ rw (claim_live own x false s h, m, other) refl
  ]
  live_stepped skip x s l h (some (corrupt text)) m = rw (claim_live own x false s h, m) refl
  live_stepped rerun x s l h none m =
      rw
        (
          claim_live own x false s h,
          m,
          claim_live own x true
              (record s { max_epoch = x; effects = put own (pending x) s.effects }) (omega arith),
          put-own operator_id effect_key (pending x) s.effects,
          same_epoch x,
        )
        refl
  live_stepped rerun x s l h (some committed) m =
      rw (claim_live own x false s h, m, claim_live own x true (under x s) (omega arith), m) refl
  live_stepped rerun x s l h (some (corrupt text)) m =
      rw (claim_live own x false s h, m, claim_live own x true (under x s) (omega arith), m) refl
  live_stepped rerun x s l h (some (pending owner)) m = elim (Bool-cases (nat_beq owner x)) [
    | inl same ↦
        rw
          (
            claim_live own x false s h,
            m,
            same,
            claim_live own x true (under x s) (omega arith),
            m,
            same,
          )
          refl
    | inr other ↦
        rw
          (
            claim_live own x false s h,
            m,
            other,
            claim_live own x true (under x s) (omega arith),
            m,
            other,
          )
          refl
  ]

  -- Whatever mark and epoch the store holds, the two events do to it what `_claim` does, and the body
  -- starts exactly if `_claim` says so.
  claims-recovers :
      (policy : EffectRecovery) (x : ℕ) (s : SessionState) (l : Ledger)
      → stepped policy x s l ≡ entered policy x s l
  claims-recovers policy x s l = elim (dec_lt x s.max_epoch) [
    | yes p ↦ stale_stepped policy x s l p
    | no p ↦ live_stepped policy x s l (omega arith) (get own s.effects) refl
  ]
