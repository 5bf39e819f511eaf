-- ===== src/EffectGuard/Steps.antt =====
-- Any number of attempts at one guarded effect of orcastork/operators/effects.py, in progress at once
-- under any epochs, as a sequence of their store calls: between two calls of one attempt there may be
-- any calls of the others.
use orcastork.Base.Dict.{get, get-delete, get-put}
use orcastork.Base.{
  continue, pure, Bool, Error, List, Option, Result, String, [], arith, false, if◌then◌else◌,
  le→ltb_false, ltb, nat_beq, not, ok, raise, refl, string_eq, true, ℕ, suc, ◌+◌, ◌<◌, ◌==◌, ◌∷◌,
  ◌≡◌, ◌≤◌, length,
}
use native.Mathlib.Decide.{dec_lt}
use orcastork.EffectGuard.Marks.{claim_live, claim_on-mark, under}
use orcastork.Store.{EffectState, SessionState, committed}
use orcastork.Store.Effects.{EffectClaim, claim_effect}
use orcastork.Store.Fencing.{write_points, run_stale, Mutation, run, claim, commit, revert}
use orcastork.EffectGuard.{rerun, EffectRecovery, namespaced, is_acquired, leave, recover}

-- The epochs of the attempts whose body runs, and of the firings that stand: those of a body that
-- returned, and those of a process that died after the effect. A body that raised is in neither.
pub record Ledger : Type 0 where
  pub running : List ℕ
  pub fired : List ℕ

abbrev pub World : Type 0
World = SessionState × Ledger

-- The store calls of an attempt under an epoch, and the ways in which its body ends.
pub data Event : Type 0 where
  claims : ℕ → Event
  recovers : EffectRecovery → ℕ → Event
  returns : ℕ → Event
  fails : Error → ℕ → Event
  dies : ℕ → Event
  elsewhere : Mutation → ℕ → Event

abbrev pub one_if : Bool → ℕ
one_if true = 1
one_if false = 0

abbrev pub count : ℕ → List ℕ → ℕ
count epoch [] = 0
count epoch (x ∷ xs) = one_if (nat_beq x epoch) + count epoch xs

unfoldable pub without_one : ℕ → List ℕ → List ℕ
without_one epoch [] = []
without_one epoch (x ∷ xs) =
    let rest = without_one epoch xs in if nat_beq x epoch then xs else x ∷ rest

abbrev pub starts : ℕ → Bool → Ledger → Ledger
starts epoch owns l = if owns then record l { running = epoch ∷ l.running } else l

abbrev pub answer : Result EffectClaim → Bool
answer (ok c) = is_acquired c
answer (raise e) = false

abbrev pub verdict : Result Bool → Bool
verdict (ok owns) = owns
verdict (raise e) = false

abbrev pub stops : ℕ → Ledger → Ledger
stops epoch l = record l { running = without_one epoch l.running }

abbrev pub fires : ℕ → Ledger → Ledger
fires epoch l = record l { running = without_one epoch l.running; fired = epoch ∷ l.fired }

module _ (operator_id effect_key : String) where
  abbrev pub key : String
  key = namespaced (record { operator_id = operator_id; epoch = 0 }) effect_key

  abbrev pub when_running : ℕ → World → World → World
  when_running epoch next w = if ltb 0 (count epoch w.1.running) then next else w

  -- An end of a body is only of an attempt that runs one. `recovers` may come at any time, so it covers
  -- the attempts that were answered PENDING_STALE_EPOCH.
  unfoldable pub happen : Event → World → World
  unfolding claim_effect recover without_one run
  happen (claims epoch) (s, l) =
      let (r, s') = claim_effect key epoch false s in (s', starts epoch (answer r) l)
  happen (recovers policy epoch) (s, l) =
      let (r, s') = recover policy key epoch s in (s', starts epoch (verdict r) l)
  happen (returns epoch) (s, l) =
      when_running epoch (leave {R = Unit {0}} key epoch (ok tt) (s, fires epoch l)).1 (s, l)
  happen (fails e epoch) (s, l) =
      when_running epoch (leave {R = Unit {0}} key epoch (raise e) (s, stops epoch l)).1 (s, l)
  happen (dies epoch) (s, l) = when_running epoch (s, fires epoch l) (s, l)
  happen (elsewhere m epoch) (s, l) = ((run m epoch s).1, l)

  unfoldable pub happen_all : List Event → World → World
  unfolding happen
  happen_all [] w = w
  happen_all (e ∷ es) w = happen_all es (happen e w)

  -- The other calls are on other marks.
  abbrev pub spares : Event → Bool
  spares (elsewhere (claim k _) _) = not (k == key)
  spares (elsewhere (commit k) _) = not (k == key)
  spares (elsewhere (revert k) _) = not (k == key)
  spares _ = true

  abbrev pub mark : World → Option EffectState
  mark w = get key w.0.effects

  other_mark : (k : String) → not (k == key) ≡ true → (k == key) ≡ false
  other_mark k h = ground arith

  accepted-mark :
      (m : Mutation) (epoch : ℕ) (s : SessionState)
      → s.max_epoch ≤ epoch
      → spares (elsewhere m epoch) ≡ true
      → get key (run m epoch s).1.effects ≡ get key s.effects
  unfolding run
  accepted-mark (write_points ds) epoch s a h = ground (arith, le→ltb_false epoch s.max_epoch)
  accepted-mark (claim k r) epoch s a h =
      rw (claim_live k epoch r s a)
        (claim_on-mark k key epoch r (under epoch s) (other_mark k h) (get k s.effects))
  accepted-mark (commit k) epoch s a h =
      ground (arith, le→ltb_false epoch s.max_epoch, get-put k key committed s.effects)
  accepted-mark (revert k) epoch s a h =
      ground (arith, le→ltb_false epoch s.max_epoch, get-delete k key s.effects)
  accepted-mark _ epoch s a h = ground (arith, le→ltb_false epoch s.max_epoch)

  -- A call on another mark leaves this one.
  pub run-mark :
      (m : Mutation) (epoch : ℕ) (s : SessionState)
      → spares (elsewhere m epoch) ≡ true
      → get key (run m epoch s).1.effects ≡ get key s.effects
  run-mark m epoch s h = elim (dec_lt epoch s.max_epoch) [
    | yes p ↦ rw (run_stale m epoch s p) refl
    | no p ↦ accepted-mark m epoch s (omega arith) h
  ]

answered :
    (epoch : ℕ) (l : Ledger) (p : Result EffectClaim × SessionState)
    → (let (r, s) = continue p.0 (λ c. pure (is_acquired c)) p.1 in
        ◌≡◌ {A = World} (s, starts epoch (verdict r) l) (p.1, starts epoch (answer p.0) l))
answered epoch l (ok c, s) = refl
answered epoch l (raise e, s) = refl

-- A recovery that runs the effect again is a second claim.
pub happen-recovers :
    (operator_id effect_key : String) (epoch : ℕ) (s : SessionState) (l : Ledger)
    → happen operator_id effect_key (recovers rerun epoch) (s, l) ≡ (
        let (r, s') = claim_effect (key operator_id effect_key) epoch true s in
        (s', starts epoch (answer r) l))
unfolding happen
happen-recovers operator_id effect_key epoch s l =
    unfold recover in answered epoch l (claim_effect (key operator_id effect_key) epoch true s)

pub count-without_one :
    (k epoch : ℕ) (xs : List ℕ)
    → 0 < count epoch xs
    → count k (without_one epoch xs) + one_if (nat_beq epoch k) ≡ count k xs
unfolding without_one
count-without_one k epoch [] h = absurd (omega arith)
count-without_one k epoch (x ∷ xs) h = ground (arith, count-without_one k epoch xs)

pub length-without_one :
    (epoch : ℕ) (xs : List ℕ) → 0 < count epoch xs → suc (length (without_one epoch xs)) ≡ length xs
unfolding without_one
length-without_one epoch [] h = absurd (omega arith)
length-without_one epoch (x ∷ xs) h = ground (arith, length-without_one epoch xs)
