-- ===== src/EffectGuard/Settling.antt =====
-- A committed effect never fires again: what a clean exit of the guard's body is worth.
use mathlib.Core.Path.{subst}
use orcastork.Base.Dict.{get}
use orcastork.Base.{
  Bool, Bool-cases, List, Option, String, [], all, and-true, arith, inl, inr, ltb, ltb→lt, lt→ltb,
  nat_beq, refl, some, string_eq, sym, true, false, ℕ, ◌+◌, ◌∙◌, ◌<◌, ◌∷◌, ◌≡◌, ◌≤◌,
}
use orcastork.Store.{EffectState, SessionState, pending, committed}
use orcastork.Store.Effects.{claim_effect, commit_effect, revert_effect, owned_by}
use orcastork.EffectGuard.{rerun, skip, recover}
use orcastork.EffectGuard.Marks.{
  Claimed, Committed, Reverted, Claimed-cases, Committed-cases, Reverted-cases, is_sealed,
}
use orcastork.EffectGuard.Steps.{
  Event, claims, recovers, returns, fails, dies, elsewhere, World, Ledger, count, happen,
  happen_all, spares, mark, key, run-mark, starts, stops, fires, happen-recovers, answer,
}
use orcastork.EffectGuard.Firings.{firings, put-own, firings-fires, firings-stops}

module _ (operator_id effect_key : String) where
  abbrev own : String
  own = key operator_id effect_key

  abbrev fired : ℕ → Ledger → ℕ
  fired k l = firings operator_id effect_key k l

  not_both : {A : Type 0} {b : Bool} → b ≡ true → b ≡ false → A
  not_both p q = absurd (ground arith)

  sealed_committed : (x : ℕ) (m : Option EffectState) → m ≡ some committed → is_sealed x m ≡ true
  sealed_committed x m h = rw (h) refl

  not_owned : (x : ℕ) (m : Option EffectState) → m ≡ some committed → owned_by x m ≡ false
  not_owned x m h = rw (h) refl

  module _ (k bound : ℕ) where
    abbrev IsSettled : World → Type 0
    IsSettled (s, l) = (get own s.effects ≡ some committed) × (fired k l ≤ bound)

    claimed-IsSettled :
        (x : ℕ) (reclaim_stale : Bool) (s : SessionState) (l : Ledger)
        → IsSettled (s, l)
        → let (r, s') = claim_effect own x reclaim_stale s in IsSettled (s', starts x (answer r) l)
    claimed-IsSettled x reclaim_stale s l (m, n) = elim (Claimed-cases own x s reclaim_stale) [
      | Claimed.refused e ↦ rw (e) (m, n)
      | Claimed.kept c o a e ↦ rw (e, o) (m, n)
      | Claimed.granted e a o _ ↦ not_both (sealed_committed x (get own s.effects) m) o
    ]

    committed-IsSettled :
        (x : ℕ) (s : SessionState) (l : Ledger)
        → IsSettled (s, l)
        → IsSettled ((commit_effect own x s).1, l)
    committed-IsSettled x s l (m, n) = elim (Committed-cases own x s) [
      | Committed.refused _ e ↦ rw (e) (m, n)
      | Committed.kept a o e ↦ rw (e) (m, n)
      | Committed.landed a o e ↦ rw (e) (put-own operator_id effect_key committed s.effects, n)
    ]

    reverted-IsSettled :
        (x : ℕ) (s : SessionState) (l : Ledger)
        → IsSettled (s, l)
        → IsSettled ((revert_effect own x s).1, l)
    reverted-IsSettled x s l (m, n) = elim (Reverted-cases own x s) [
      | Reverted.refused e ↦ rw (e) (m, n)
      | Reverted.kept a e ↦ rw (e) (m, n)
      | Reverted.freed a o e ↦ not_both o (not_owned x (get own s.effects) m)
    ]

    fewer-IsSettled :
        (s : SessionState) (l l' : Ledger)
        → fired k l' ≤ fired k l
        → IsSettled (s, l)
        → IsSettled (s, l')
    fewer-IsSettled s l l' h (m, n) = (m, omega arith)

    happen-IsSettled :
        (e : Event) (w : World)
        → spares operator_id effect_key e ≡ true
        → IsSettled w
        → IsSettled (happen operator_id effect_key e w)
    unfolding happen
    happen-IsSettled (claims x) (s, l) h g = claimed-IsSettled x false s l g
    happen-IsSettled (recovers skip x) (s, l) h g = unfold recover in g
    happen-IsSettled (recovers rerun x) (s, l) h g =
        subst IsSettled (sym (happen-recovers operator_id effect_key x s l))
          (claimed-IsSettled x true s l g)
    happen-IsSettled (returns x) (s, l) h g = elim (Bool-cases (ltb 0 (count x l.running))) [
      | inl runs ↦ rw (runs) (
          fewer-IsSettled (commit_effect own x s).1 l (fires x l)
            (omega (
              arith,
              firings-fires operator_id effect_key k x l (ltb→lt 0 (count x l.running) runs),
            ))
            (committed-IsSettled x s l g))
      | inr idle ↦ rw (idle) g
    ]
    happen-IsSettled (fails e x) (s, l) h g = elim (Bool-cases (ltb 0 (count x l.running))) [
      | inl runs ↦ rw (runs) (
          fewer-IsSettled (revert_effect own x s).1 l (stops x l)
            (omega (
              arith,
              firings-stops operator_id effect_key k x l (ltb→lt 0 (count x l.running) runs),
            ))
            (reverted-IsSettled x s l g))
      | inr idle ↦ rw (idle) g
    ]
    happen-IsSettled (dies x) (s, l) h g = elim (Bool-cases (ltb 0 (count x l.running))) [
      | inl runs ↦ rw (runs) (
          fewer-IsSettled s l (fires x l)
            (omega (
              arith,
              firings-fires operator_id effect_key k x l (ltb→lt 0 (count x l.running) runs),
            ))
            g)
      | inr idle ↦ rw (idle) g
    ]
    happen-IsSettled (elsewhere m x) (s, l) h (p, n) =
        (run-mark operator_id effect_key m x s h ∙ p, n)

    happen_all-IsSettled :
        (es : List Event) (w : World)
        → all (spares operator_id effect_key) es ≡ true
        → IsSettled w
        → IsSettled (happen_all operator_id effect_key es w)
    unfolding happen_all all
    happen_all-IsSettled [] w h g = g
    happen_all-IsSettled (e ∷ es) w h g =
        let (x, y) = and-true _ _ h in
        happen_all-IsSettled es (happen operator_id effect_key e w) y (happen-IsSettled e w x g)

  nat_refl : (n : ℕ) → nat_beq n n ≡ true
  nat_refl n = ground arith

  sealed_own : (x : ℕ) (m : Option EffectState) → m ≡ some (pending x) → is_sealed x m ≡ true
  sealed_own x m h = rw (h, nat_refl x) refl

  -- The clean exit itself.
  returned-IsSettled :
      (k x : ℕ) (s : SessionState) (l : Ledger)
      → 0 < count x l.running
      → get own s.effects ≡ some (pending x)
      → s.max_epoch ≤ x
      → IsSettled k (fired k l) (happen operator_id effect_key (returns x) (s, l))
  unfolding happen
  returned-IsSettled k x s l r m a =
      rw (lt→ltb 0 (count x l.running) r) (elim (Committed-cases own x s) [
        | Committed.refused late e ↦ absurd (omega arith)
        | Committed.kept _ o e ↦ not_both (sealed_own x (get own s.effects) m) o
        | Committed.landed _ o e ↦ rw (e) (
          put-own operator_id effect_key committed s.effects,
          omega (arith, firings-fires operator_id effect_key k x l r),
        )
      ])

  -- The body of an attempt that holds the mark, under an epoch that is not fenced, returns, and any
  -- interleaving of events of any attempts follows, with store calls that leave the effect's own mark
  -- alone: the mark is committed, and under no epoch are there more attempts that run their body, have
  -- returned or have died in it than when that body returned.
  pub settled_fires_no_more :
      (k x : ℕ) (es : List Event) (s : SessionState) (l : Ledger)
      → all (spares operator_id effect_key) es ≡ true
      → 0 < count x l.running
      → get own s.effects ≡ some (pending x)
      → s.max_epoch ≤ x
      → let w = happen_all operator_id effect_key (returns x ∷ es) (s, l) in
        (mark operator_id effect_key w ≡ some committed)
        × (count k w.1.running + count k w.1.fired ≤ count k l.running + count k l.fired)
  unfolding happen_all
  settled_fires_no_more k x es s l h r m a =
      happen_all-IsSettled k (fired k l) es (happen operator_id effect_key (returns x) (s, l)) h
        (returned-IsSettled k x s l r m a)
