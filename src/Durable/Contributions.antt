-- ===== src/Durable/Contributions.antt =====
-- Contribution marks: a session's operator contributes at most once.
use orcastork.Base.{
  and-intro, contains-filter, pair_beq, ◌∙◌, Bool, List, String, [], all, and-true, arith, beq_refl,
  contains, not, ok, true, ℕ, ◌∷◌, ◌≡◌, ◌≢◌, pair_eq, string_eq,
}
use orcastork.Durable.{
  DurableState, guard_epoch, add_to_set, mark_contribution, clear_contribution, upsert, replace,
}
use orcastork.Durable.Versions.{Call, upserts, adds, marks, clears, perform, perform_all}

module _ (session_id operator_id : String) where
  abbrev pub is_marked : DurableState → Bool
  is_marked s = contains (session_id, operator_id) s.contributions

  -- The calls but the clearing of this mark.
  abbrev pub keeps_mark : Call → Bool
  keeps_mark (clears s o) = not (pair_beq (session_id, operator_id) (s, o))
  keeps_mark _ = true

  mark_true :
      (epoch : ℕ) (s : DurableState)
      → (mark_contribution session_id operator_id epoch s).0 ≡ ok true
      → is_marked (mark_contribution session_id operator_id epoch s).1 ≡ true
  unfolding mark_contribution guard_epoch contains
  mark_true epoch s h = ground (arith, beq_refl session_id, beq_refl operator_id)

  perform-marked :
      (c : Call) (s : DurableState)
      → keeps_mark c ≡ true
      → is_marked s ≡ true
      → is_marked (perform c s) ≡ true
  unfolding perform upsert replace add_to_set mark_contribution clear_contribution guard_epoch
      contains
  perform-marked (upserts t k document expected epoch status at) s h m = ground arith
  perform-marked (adds t k field value epoch) s h m = ground arith
  perform-marked (marks x o epoch) s h m = ground arith
  perform-marked (clears x o) s h m =
      contains-filter (λ k. not (pair_beq k (x, o))) (session_id, operator_id) s.contributions
      ∙ and-intro _ _ m h

  perform_all-marked :
      (cs : List Call) (s : DurableState)
      → all keeps_mark cs ≡ true
      → is_marked s ≡ true
      → is_marked (perform_all cs s) ≡ true
  unfolding perform_all all
  perform_all-marked [] s h m = m
  perform_all-marked (c ∷ cs) s h m =
      let (x, y) = and-true _ _ h in perform_all-marked cs (perform c s) y (perform-marked c s x m)

  mark_old :
      (epoch : ℕ) (s : DurableState)
      → is_marked s ≡ true
      → (mark_contribution session_id operator_id epoch s).0 ≢ ok true
  unfolding mark_contribution guard_epoch
  mark_old epoch s m h = absurd (ground arith)

  -- A contribution counts once: after `mark_contribution` returned true, and whatever calls but a
  -- `clear_contribution` of the same mark follow, under any epochs, it does not return true again.
  pub contributes_once :
      (epoch epoch' : ℕ) (cs : List Call) (s : DurableState)
      → (mark_contribution session_id operator_id epoch s).0 ≡ ok true
      → all keeps_mark cs ≡ true
      → (mark_contribution session_id operator_id epoch'
          (perform_all cs (mark_contribution session_id operator_id epoch s).1)).0
        ≢ ok true
  contributes_once epoch epoch' cs s h k =
      mark_old epoch' (perform_all cs (mark_contribution session_id operator_id epoch s).1) (
        perform_all-marked cs (mark_contribution session_id operator_id epoch s).1 k
          (mark_true epoch s h))
