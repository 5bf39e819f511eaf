-- ===== src/Mirror/Views.antt =====
-- What a mirror in step with the store answers, and that a rehydration brings it in step.
use orcastork.Base.Dict.{Dict, values}
use mathlib.Core.Path.{ap₂}
use orcastork.Base.{beq_refl, leb, ok, true, [], arith, filter, map, refl, ℕ, ◌∷◌, ◌≡◌, ◌≤◌}
use orcastork.DataPoint.{Key, key_eq}
use orcastork.Store
use orcastork.Store.{Entry, SessionState, ChangeSet, data_points}
use orcastork.Mirror.{MirrorEntry, World, require_hydrated, guard_read}
use orcastork.Mirror.Reads
use orcastork.Mirror.Aligned.{Aligned}
use orcastork.Mirror.Agreement.{stored, InStep}

module _ (at : ℕ) where
  values-Aligned :
      (l : Dict Key MirrorEntry) (d : Dict Key Entry)
      → Aligned at l d
      → map (λ e. e.data_point) (values l) ≡ data_points d
  values-Aligned [] [] a = refl
  values-Aligned [] (q ∷ d) a = absurd a
  values-Aligned (p ∷ l) [] a = absurd a
  values-Aligned ((j, m) ∷ l) ((k, e) ∷ d) a = ap₂ ◌∷◌ a.1.points (values-Aligned l d a.2)

  module _ (since : ℕ) (late : at ≤ since) where
    added-Aligned :
        (l : Dict Key MirrorEntry) (d : Dict Key Entry)
        → Aligned at l d
        → map (λ e. e.data_point) (filter (Reads.is_added since) (values l))
          ≡ map (λ e. e.data_point) (filter (Store.is_added since) (values d))
    unfolding filter
    added-Aligned [] [] a = refl
    added-Aligned [] (q ∷ d) a = absurd a
    added-Aligned (p ∷ l) [] a = absurd a
    added-Aligned ((j, m) ∷ l) ((k, e) ∷ d) a =
        ground (arith, a.1.points, a.1.added_stamps since late, added-Aligned l d a.2)

    updated-Aligned :
        (l : Dict Key MirrorEntry) (d : Dict Key Entry)
        → Aligned at l d
        → map (λ e. e.data_point) (filter (Reads.is_updated since) (values l))
          ≡ map (λ e. e.data_point) (filter (Store.is_updated since) (values d))
    unfolding filter
    updated-Aligned [] [] a = refl
    updated-Aligned [] (q ∷ d) a = absurd a
    updated-Aligned (p ∷ l) [] a = absurd a
    updated-Aligned ((j, m) ∷ l) ((k, e) ∷ d) a = ground (
      arith,
      a.1.points,
      a.1.added_stamps since late,
      a.1.updated_stamps since late,
      updated-Aligned l d a.2,
    )

guard_read-own :
    (w : World) → w.mirror.hydrated ≡ true → guard_read w.mirror.session_id w ≡ (ok tt, w)
unfolding guard_read require_hydrated
guard_read-own w hydrated = simp (hydrated, beq_refl)

module _ (w : World) (h : InStep w) where
  snapshot-InStep : Reads.snapshot w.mirror.session_id w ≡ ((Store.snapshot (stored w)).0, w)
  unfolding Reads.snapshot Store.snapshot
  snapshot-InStep = rw (
    guard_read-own w h.hydrated,
    values-Aligned w.mirror.rehydrated_at w.mirror.entries (stored w).entries h.aligned,
  )

  revision-InStep : Reads.revision w.mirror.session_id w ≡ ((Store.revision (stored w)).0, w)
  unfolding Reads.revision Store.revision
  revision-InStep = rw (guard_read-own w h.hydrated, h.revisions)

  change_set-InStep :
      (since : ℕ)
      → w.mirror.rehydrated_at ≤ since
      → Reads.change_set_since w.mirror.session_id since w
        ≡ ((Store.change_set_since since (stored w)).0, w)
  unfolding Reads.change_set_since Store.change_set_since Reads.local_change_set
  change_set-InStep since late =
      let test : leb w.mirror.rehydrated_at since ≡ true = ground arith in
      rw (
        guard_read-own w h.hydrated,
        test,
        added-Aligned w.mirror.rehydrated_at since late w.mirror.entries (stored w).entries
            h.aligned,
        updated-Aligned w.mirror.rehydrated_at since late w.mirror.entries (stored w).entries
            h.aligned,
      )

-- The reads of a mirror in step with the store are the store's own: the snapshot, the revision, and
-- the changes since any revision from the rehydration point on. They leave everything as it is.
pub InStep-reads :
    (w : World) (since : ℕ)
    → InStep w
    → w.mirror.rehydrated_at ≤ since
    → (Reads.snapshot w.mirror.session_id w ≡ ((Store.snapshot (stored w)).0, w))
      × (Reads.revision w.mirror.session_id w ≡ ((Store.revision (stored w)).0, w))
      × (Reads.change_set_since w.mirror.session_id since w
          ≡ ((Store.change_set_since since (stored w)).0, w))
InStep-reads w since h late =
    (snapshot-InStep w h, revision-InStep w h, change_set-InStep w h since late)
