-- ===== src/EffectGuard/Spending.antt =====
-- What the SKIP policy and a commit add to the guard's promise.
use orcastork.Base.Dict.{get}
use orcastork.Base.{
  Bool-cases, List, Option, String, all, and-true, arith, inl, inr, length, ltb, ltb→lt, none, refl,
  string_eq, some, true, false, Bool, ℕ, suc, ◌+◌, ◌<◌, ◌∷◌, [], ◌≡◌, ◌≤◌,
}
use orcastork.Store.{EffectState, SessionState, pending, committed}
use orcastork.Store.Effects.{claim_effect, commit_effect, revert_effect}
use orcastork.EffectGuard.{rerun, skip, recover}
use orcastork.EffectGuard.Marks.{
  Claimed, Committed, Reverted, Claimed-cases, Committed-cases, Reverted-cases, is_sealed,
}
use orcastork.EffectGuard.Steps.{
  Event, claims, recovers, returns, fails, dies, elsewhere, World, Ledger, count,
  length-without_one, happen, happen_all, spares, mark, key, run-mark, starts, stops, fires, answer,
}
use orcastork.EffectGuard.Firings.{put-own, gone}

module _ (operator_id effect_key : String) where
  abbrev own : String
  own = key operator_id effect_key

  -- No attempt of the history runs the effect again over a stale mark.
  abbrev pub skips : Event → Bool
  skips (recovers rerun _) = false
  skips _ = true

  abbrev taken : Option EffectState → ℕ
  taken none = 0
  taken (some _) = 1

  abbrev pub all_firings : Ledger → ℕ
  all_firings l = length l.running + length l.fired

  abbrev Spent : World → Type 0
  Spent (s, l) = all_firings l ≤ taken (get own s.effects)

  taken-bound : (m : Option EffectState) → taken m ≤ 1
  taken-bound m = ground arith

  sealed-taken : (x : ℕ) (m : Option EffectState) → is_sealed x m ≡ true → taken m ≡ 1
  sealed-taken x m h = ground arith

  fires-all : (x : ℕ) (l : Ledger) → 0 < count x l.running → all_firings (fires x l) ≡ all_firings l
  fires-all x l h = omega (arith, length-without_one x l.running h)

  stops-all :
      (x : ℕ) (l : Ledger) → 0 < count x l.running → suc (all_firings (stops x l)) ≡ all_firings l
  stops-all x l h = omega (arith, length-without_one x l.running h)

  same-Spent :
      (s : SessionState) (l l' : Ledger)
      → all_firings l' ≡ all_firings l
      → Spent (s, l)
      → Spent (s, l')
  same-Spent s l l' h t = rw (h) t

  claimed-Spent :
      (x : ℕ) (s : SessionState) (l : Ledger)
      → Spent (s, l)
      → let (r, s') = claim_effect own x false s in Spent (s', starts x (answer r) l)
  claimed-Spent x s l t = elim (Claimed-cases own x s false) [
    | Claimed.refused e ↦ rw (e) t
    | Claimed.kept c o a e ↦ rw (e, o) t
    | Claimed.granted e a o free ↦
        rw (e, put-own operator_id effect_key (pending x) s.effects)
          (omega (arith, rw (free refl) at t))
  ]

  committed-Spent :
      (x : ℕ) (s : SessionState) (l : Ledger) → Spent (s, l) → Spent ((commit_effect own x s).1, l)
  committed-Spent x s l t = elim (Committed-cases own x s) [
    | Committed.refused _ e ↦ rw (e) t
    | Committed.kept a o e ↦ rw (e) t
    | Committed.landed a o e ↦
        rw (e, put-own operator_id effect_key committed s.effects)
          (omega (arith, taken-bound (get own s.effects)))
  ]

  reverted-Spent :
      (x : ℕ) (s : SessionState) (l l' : Ledger)
      → suc (all_firings l') ≡ all_firings l
      → Spent (s, l)
      → Spent ((revert_effect own x s).1, l')
  reverted-Spent x s l l' h t = elim (Reverted-cases own x s) [
    | Reverted.refused e ↦ rw (e) (omega arith)
    | Reverted.kept a e ↦ rw (e) (omega arith)
    | Reverted.freed a o e ↦
        rw (e, gone operator_id effect_key s.effects)
          (omega (arith, taken-bound (get own s.effects)))
  ]

  happen-Spent :
      (e : Event) (w : World)
      → spares operator_id effect_key e ≡ true
      → skips e ≡ true
      → Spent w
      → Spent (happen operator_id effect_key e w)
  unfolding happen
  happen-Spent (claims x) (s, l) h k t = claimed-Spent x s l t
  happen-Spent (recovers skip x) (s, l) h k t = unfold recover in t
  happen-Spent (recovers rerun x) (s, l) h k t = absurd (ground arith)
  happen-Spent (returns x) (s, l) h k t = elim (Bool-cases (ltb 0 (count x l.running))) [
    | inl runs ↦ rw (runs) (
        same-Spent (commit_effect own x s).1 l (fires x l)
          (fires-all x l (ltb→lt 0 (count x l.running) runs)) (committed-Spent x s l t))
    | inr idle ↦ rw (idle) t
  ]
  happen-Spent (fails e x) (s, l) h k t = elim (Bool-cases (ltb 0 (count x l.running))) [
    | inl runs ↦
        rw (runs)
          (reverted-Spent x s l (stops x l) (stops-all x l (ltb→lt 0 (count x l.running) runs)) t)
    | inr idle ↦ rw (idle) t
  ]
  happen-Spent (dies x) (s, l) h k t = elim (Bool-cases (ltb 0 (count x l.running))) [
    | inl runs ↦
        rw (runs) (same-Spent s l (fires x l) (fires-all x l (ltb→lt 0 (count x l.running) runs)) t)
    | inr idle ↦ rw (idle) t
  ]
  happen-Spent (elsewhere m x) (s, l) h k t = rw (run-mark operator_id effect_key m x s h) t

  happen_all-Spent :
      (es : List Event) (w : World)
      → all (spares operator_id effect_key) es ≡ true
      → all skips es ≡ true
      → Spent w
      → Spent (happen_all operator_id effect_key es w)
  unfolding happen_all all
  happen_all-Spent [] w h k t = t
  happen_all-Spent (e ∷ es) w h k t =
      let (x, y) = and-true _ _ h in
      let (a, b) = and-true _ _ k in
      happen_all-Spent es (happen operator_id effect_key e w) y b (happen-Spent e w x a t)

  -- Over any interleaving of attempts of which none recovers with RERUN, under any epochs and ends of
  -- their bodies, with any store calls that leave the effect's own mark alone, from a store without a
  -- mark: over all epochs there is at most one attempt that runs its body, has returned or has died in
  -- it. Bodies that raised are not counted.
  pub skip_fires_once :
      (es : List Event) (s : SessionState)
      → all (spares operator_id effect_key) es ≡ true
      → all skips es ≡ true
      → get own s.effects ≡ none
      → let l = (happen_all operator_id effect_key es (s, record { running = []; fired = [] })).1 in
        length l.running + length l.fired ≤ 1
  skip_fires_once es s h k n =
      let start : World = (s, record { running = []; fired = [] }) in
      omega (
        arith,
        happen_all-Spent es start h k (rw (n) (omega arith)),
        taken-bound (mark operator_id effect_key (happen_all operator_id effect_key es start)),
      )
