-- ===== src/EffectGuard/Firings.antt =====
-- What the guard of orcastork/operators/effects.py promises, over whole histories of interleaved attempts.
use orcastork.Base.Dict.{Dict, delete, get, get-delete, get-put, put}
use orcastork.Base.{
  Bool, Bool-cases, List, Option, String, [], all, and-true, arith, beq_refl, false, inl, inr, ltb,
  ltb→lt, nat_beq, none, some, string_eq, sym, true, ℕ, ◌+◌, ◌<◌, ◌∷◌, ◌≡◌, ◌≤◌, ◌||◌,
}
use mathlib.Core.Path.{subst}
use orcastork.Store.{EffectState, SessionState, pending, committed, corrupt}
use orcastork.Store.Effects.{claim_effect, commit_effect, revert_effect, owned_by}
use orcastork.Store.Fencing.{run, run-monotone}
use orcastork.EffectGuard.{rerun, skip, recover}
use orcastork.EffectGuard.Marks.{
  Claimed, Committed, Reverted, Claimed-cases, Committed-cases, Reverted-cases, is_sealed,
}
use orcastork.EffectGuard.Steps.{
  Event, claims, recovers, returns, fails, dies, elsewhere, World, Ledger, count, count-without_one,
  one_if, happen, happen_all, spares, mark, key, run-mark, starts, stops, fires, happen-recovers,
  answer,
}

-- The epoch of a pending mark.
abbrev stamp : Option EffectState → ℕ
stamp none = 0
stamp (some (pending owner)) = owner
stamp (some committed) = 0
stamp (some (corrupt _)) = 0

-- Firings under `epoch`, beside a mark and the highest accepted epoch: there is at most one, and one
-- only where no further claim under the epoch is granted.
abbrev Fits : ℕ → ℕ → Option EffectState → ℕ → Type 0
Fits epoch n mark max = (n ≤ one_if (is_sealed epoch mark || ltb epoch max)) × (stamp mark ≤ max)

module _ (epoch n : ℕ) where
  raised-Fits :
      (mark : Option EffectState) (max x : ℕ)
      → max ≤ x
      → Fits epoch n mark max
      → Fits epoch n mark x
  raised-Fits none max x a (p, q) = (ground arith, omega arith)
  raised-Fits (some (pending owner)) max x a (p, q) = (ground arith, omega arith)
  raised-Fits (some committed) max x a (p, q) = (ground arith, omega arith)
  raised-Fits (some (corrupt text)) max x a (p, q) = (ground arith, omega arith)

  claimed-Fits :
      (mark : Option EffectState) (max x : ℕ)
      → max ≤ x
      → is_sealed x mark ≡ false
      → Fits epoch n mark max
      → Fits epoch (one_if (nat_beq x epoch) + n) (some (pending x)) x
  claimed-Fits none max x a o (p, q) = (ground arith, omega arith)
  claimed-Fits (some (pending owner)) max x a o (p, q) = (ground arith, omega arith)
  claimed-Fits (some committed) max x a o (p, q) = (ground arith, omega arith)
  claimed-Fits (some (corrupt text)) max x a o (p, q) = (ground arith, omega arith)

  committed-Fits :
      (mark : Option EffectState) (max x : ℕ)
      → Fits epoch n mark max
      → Fits epoch n (some committed) x
  committed-Fits mark max x (p, q) = (ground arith, omega arith)

  freed-Fits :
      (mark : Option EffectState) (max x : ℕ)
      → max ≤ x
      → owned_by x mark ≡ true
      → Fits epoch (n + one_if (nat_beq x epoch)) mark max
      → Fits epoch n none x
  freed-Fits none max x a o (p, q) = absurd (ground arith)
  freed-Fits (some (pending owner)) max x a o (p, q) = (ground arith, omega arith)
  freed-Fits (some committed) max x a o (p, q) = absurd (ground arith)
  freed-Fits (some (corrupt text)) max x a o (p, q) = absurd (ground arith)

  fewer-Fits :
      (more : ℕ) (mark : Option EffectState) (max : ℕ)
      → Fits epoch (n + more) mark max
      → Fits epoch n mark max
  fewer-Fits more mark max (p, q) = (omega arith, q)

regrouped : (a b c : ℕ) → a + b + c ≡ a + (b + c)
regrouped a b c = omega arith

module _ (operator_id effect_key : String) where
  abbrev own : String
  own = key operator_id effect_key

  pub put-own :
      (x : EffectState) (effects : Dict String EffectState) → get own (put own x effects) ≡ some x
  put-own x effects = ground (arith, get-put own own x effects, beq_refl own)

  pub gone : (effects : Dict String EffectState) → get own (delete own effects) ≡ none
  gone effects = ground (arith, get-delete own own effects, beq_refl own)

  -- The attempts under `epoch` that run their body or have fired.
  abbrev pub firings : ℕ → Ledger → ℕ
  firings epoch l = count epoch l.running + count epoch l.fired

  pub firings-fires :
      (epoch x : ℕ) (l : Ledger)
      → 0 < count x l.running
      → firings epoch (fires x l) ≡ firings epoch l
  firings-fires epoch x l h = omega (arith, count-without_one epoch x l.running h)

  pub firings-stops :
      (epoch x : ℕ) (l : Ledger)
      → 0 < count x l.running
      → firings epoch (stops x l) + one_if (nat_beq x epoch) ≡ firings epoch l
  firings-stops epoch x l h = omega (arith, count-without_one epoch x l.running h)

  module _ (epoch : ℕ) where
    abbrev Guarded : World → Type 0
    Guarded (s, l) = Fits epoch (firings epoch l) (get own s.effects) s.max_epoch

    claimed-Guarded :
        (x : ℕ) (reclaim_stale : Bool) (s : SessionState) (l : Ledger)
        → Guarded (s, l)
        → let (r, s') = claim_effect own x reclaim_stale s in Guarded (s', starts x (answer r) l)
    claimed-Guarded x reclaim_stale s l g = elim (Claimed-cases own x s reclaim_stale) [
      | Claimed.refused e ↦ rw (e) g
      | Claimed.kept c o a e ↦
          rw (e, o) (raised-Fits epoch (firings epoch l) (get own s.effects) s.max_epoch x a g)
      | Claimed.granted e a o _ ↦
          rw
            (
              e,
              put-own (pending x) s.effects,
              regrouped (one_if (nat_beq x epoch)) (count epoch l.running) (count epoch l.fired),
            )
            (claimed-Fits epoch (firings epoch l) (get own s.effects) s.max_epoch x a o g)
    ]

    committed-Guarded :
        (x : ℕ) (s : SessionState) (l : Ledger)
        → Guarded (s, l)
        → Guarded ((commit_effect own x s).1, l)
    committed-Guarded x s l g = elim (Committed-cases own x s) [
      | Committed.refused _ e ↦ rw (e) g
      | Committed.kept a o e ↦
          rw (e) (raised-Fits epoch (firings epoch l) (get own s.effects) s.max_epoch x a g)
      | Committed.landed a o e ↦
          rw (e, put-own committed s.effects)
            (committed-Fits epoch (firings epoch l) (get own s.effects) s.max_epoch x g)
    ]

    reverted-Guarded :
        (x : ℕ) (s : SessionState) (l l' : Ledger)
        → firings epoch l' + one_if (nat_beq x epoch) ≡ firings epoch l
        → Guarded (s, l)
        → Guarded ((revert_effect own x s).1, l')
    reverted-Guarded x s l l' h g =
        let g' : Fits epoch (firings epoch l' + one_if (nat_beq x epoch)) (get own s.effects)
            s.max_epoch =
          rw (h) g in
        let fewer =
          fewer-Fits epoch (firings epoch l') (one_if (nat_beq x epoch)) (get own s.effects)
            s.max_epoch g' in
        elim (Reverted-cases own x s) [
          | Reverted.refused e ↦ rw (e) fewer
          | Reverted.kept a e ↦
              rw (e)
                (raised-Fits epoch (firings epoch l') (get own s.effects) s.max_epoch x a fewer)
          | Reverted.freed a o e ↦
              rw (e, gone s.effects)
                (freed-Fits epoch (firings epoch l') (get own s.effects) s.max_epoch x a o g')
        ]

    same-Guarded :
        (s : SessionState) (l l' : Ledger)
        → firings epoch l' ≡ firings epoch l
        → Guarded (s, l)
        → Guarded (s, l')
    same-Guarded s l l' h g = rw (h) g

    happen-Guarded :
        (e : Event) (w : World)
        → spares operator_id effect_key e ≡ true
        → Guarded w
        → Guarded (happen operator_id effect_key e w)
    unfolding happen
    happen-Guarded (claims x) (s, l) h g = claimed-Guarded x false s l g
    happen-Guarded (recovers skip x) (s, l) h g = unfold recover in g
    happen-Guarded (recovers rerun x) (s, l) h g =
        subst Guarded (sym (happen-recovers operator_id effect_key x s l))
          (claimed-Guarded x true s l g)
    happen-Guarded (returns x) (s, l) h g = elim (Bool-cases (ltb 0 (count x l.running))) [
      | inl runs ↦ rw (runs) (
          same-Guarded (commit_effect own x s).1 l (fires x l)
            (firings-fires epoch x l (ltb→lt 0 (count x l.running) runs))
            (committed-Guarded x s l g))
      | inr idle ↦ rw (idle) g
    ]
    happen-Guarded (fails e x) (s, l) h g = elim (Bool-cases (ltb 0 (count x l.running))) [
      | inl runs ↦ rw (runs) (
          reverted-Guarded x s l (stops x l)
            (firings-stops epoch x l (ltb→lt 0 (count x l.running) runs)) g)
      | inr idle ↦ rw (idle) g
    ]
    happen-Guarded (dies x) (s, l) h g = elim (Bool-cases (ltb 0 (count x l.running))) [
      | inl runs ↦ rw (runs) (
          same-Guarded s l (fires x l) (firings-fires epoch x l (ltb→lt 0 (count x l.running) runs))
            g)
      | inr idle ↦ rw (idle) g
    ]
    happen-Guarded (elsewhere m x) (s, l) h g = rw (run-mark operator_id effect_key m x s h) (
        raised-Fits epoch (firings epoch l) (get own s.effects) s.max_epoch (run m x s).1.max_epoch
          (run-monotone m x s) g)

    happen_all-Guarded :
        (es : List Event) (w : World)
        → all (spares operator_id effect_key) es ≡ true
        → Guarded w
        → Guarded (happen_all operator_id effect_key es w)
    unfolding happen_all all
    happen_all-Guarded [] w h g = g
    happen_all-Guarded (e ∷ es) w h g =
        let (x, y) = and-true _ _ h in
        happen_all-Guarded es (happen operator_id effect_key e w) y (happen-Guarded e w x g)

  one_if-bound : (b : Bool) → one_if b ≤ 1
  one_if-bound b = ground arith

  -- Over any interleaving of the store calls of any attempts, under any epochs, policies and ends of
  -- their bodies, with any store calls that leave the effect's own mark alone, from a store without a
  -- mark: under each epoch there is at most one attempt that runs its body, has returned or has died
  -- in it, also where a commit or a revert is fenced. Bodies that raised are not counted.
  pub fires_once_per_epoch :
      (epoch : ℕ) (es : List Event) (s : SessionState)
      → all (spares operator_id effect_key) es ≡ true
      → get own s.effects ≡ none
      → let l = (happen_all operator_id effect_key es (s, record { running = []; fired = [] })).1 in
        count epoch l.running + count epoch l.fired ≤ 1
  fires_once_per_epoch epoch es s h n =
      let start : World = (s, record { running = []; fired = [] }) in
      omega (
        arith,
        (happen_all-Guarded epoch es start h (rw (n) (omega arith, omega arith))).0,
        one_if-bound (
            is_sealed epoch
              (mark operator_id effect_key (happen_all operator_id effect_key es start))
            || ltb epoch (happen_all operator_id effect_key es start).0.max_epoch),
      )
