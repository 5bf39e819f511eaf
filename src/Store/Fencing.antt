-- ===== src/Store/Fencing.antt =====
-- Fencing: every mutation of a session is guarded by the highest epoch that the store accepted.
use orcastork.Base.{
  [], arith, le→ltb_false, lt→ltb, stale_epoch, ◌<◌, ◌∷◌, ◌≡◌, ◌≤◌, ℕ, String, Bool, List, Result,
  ok, raise,
}
use native.Mathlib.Decide.{dec_lt}
use orcastork.DataPoint.{DataPoint}
use orcastork.Store.{
  SessionState, Op, guard_epoch, write, apply_resolved, set_watermark, set_session_deadline,
  set_flow_fingerprint,
}
use orcastork.Store.Effects.{claim_effect, commit_effect, revert_effect}

-- The mutating calls of the port, each with its arguments but the epoch.
pub data Mutation : Type 0 where
  write_points : List DataPoint → Mutation
  apply_points : List DataPoint → List DataPoint → Mutation
  move_watermark : String → ℕ → Mutation
  claim : String → Bool → Mutation
  commit : String → Mutation
  revert : String → Mutation
  set_deadline : ℕ → Mutation
  set_fingerprint : String → Mutation

-- What a caller learns: that the call returned, or that it raised.
abbrev pub void : {A : Type 0} → Result A → Result (Unit {0})
void (ok _) = ok tt
void (raise e) = raise e

abbrev pub forget : {A : Type 0} → Result A × SessionState → Result (Unit {0}) × SessionState
forget p = (void p.0, p.1)

unfoldable pub run : Mutation → ℕ → Op Unit
unfolding guard_epoch write apply_resolved set_watermark claim_effect commit_effect revert_effect
    set_session_deadline set_flow_fingerprint
run (write_points ds) epoch s = forget (write ds epoch s)
run (apply_points added updated) epoch s = forget (apply_resolved added updated epoch s)
run (move_watermark operator_id revision) epoch s =
    forget (set_watermark operator_id revision epoch s)
run (claim key reclaim_stale) epoch s = forget (claim_effect key epoch reclaim_stale s)
run (commit key) epoch s = forget (commit_effect key epoch s)
run (revert key) epoch s = forget (revert_effect key epoch s)
run (set_deadline deadline) epoch s = forget (set_session_deadline deadline epoch s)
run (set_fingerprint fingerprint) epoch s = forget (set_flow_fingerprint fingerprint epoch s)

-- A call under an epoch below the highest accepted one raises and changes nothing.
pub run_stale :
    (m : Mutation) (epoch : ℕ) (s : SessionState)
    → epoch < s.max_epoch
    → run m epoch s ≡ (raise stale_epoch, s)
unfolding run
run_stale (write_points ds) epoch s h = ground (arith, lt→ltb epoch s.max_epoch)
run_stale _ epoch s h = ground (arith, lt→ltb epoch s.max_epoch)

-- Any other call returns, and its epoch becomes the highest accepted one.
pub run_accepted :
    (m : Mutation) (epoch : ℕ) (s : SessionState)
    → s.max_epoch ≤ epoch
    → ((run m epoch s).0 ≡ ok tt) × ((run m epoch s).1.max_epoch ≡ epoch)
unfolding run
run_accepted (write_points ds) epoch s h = ground (arith, le→ltb_false epoch s.max_epoch)
run_accepted _ epoch s h = ground (arith, le→ltb_false epoch s.max_epoch)

pub run-monotone :
    (m : Mutation) (epoch : ℕ) (s : SessionState) → s.max_epoch ≤ (run m epoch s).1.max_epoch
run-monotone m epoch s = elim (dec_lt epoch s.max_epoch) [
  | yes p ↦ rw (run_stale m epoch s p) (omega arith)
  | no p ↦ omega (arith, (run_accepted m epoch s (omega arith)).1)
]

-- The calls of any writers, one after the other, each under its own epoch; errors stop nobody else.
unfoldable pub run_all : List (Mutation × ℕ) → SessionState → SessionState
run_all [] s = s
run_all ((m, epoch) ∷ calls) s = run_all calls (run m epoch s).1

run_all-monotone :
    (calls : List (Mutation × ℕ)) (s : SessionState) → s.max_epoch ≤ (run_all calls s).max_epoch
unfolding run_all
run_all-monotone [] s = omega arith
run_all-monotone ((m, epoch) ∷ calls) s =
    omega (arith, run-monotone m epoch s, run_all-monotone calls (run m epoch s).1)

-- Once a successor's call was accepted, and whatever calls follow, a predecessor with a lower epoch
-- is rejected and leaves no trace.
pub predecessor_fenced :
    (m late : Mutation) (epoch old : ℕ) (calls : List (Mutation × ℕ)) (s : SessionState)
    → s.max_epoch ≤ epoch
    → old < epoch
    → run late old (run_all calls (run m epoch s).1)
      ≡ (raise stale_epoch, run_all calls (run m epoch s).1)
predecessor_fenced m late epoch old calls s accepted older =
    run_stale late old (run_all calls (run m epoch s).1)
      (omega (arith, (run_accepted m epoch s accepted).1, run_all-monotone calls (run m epoch s).1))
