-- ===== src/Mirror/Agreement.antt =====
-- The mirror never diverges from the store: after a rehydration, and after any writes, accepted or
-- fenced, its reads are the store's.
use orcastork.Base.Sessions.{at_session, state_of}
use orcastork.Base.Dict.{get, get-put, values, put}
use orcastork.Base.{
  Bool-cases, arith, beq_refl, inl, inr, refl, some, ◌∙◌, string_eq, ltb, raise, stale_epoch, false,
  List, ok, true, ℕ, ◌≡◌, ◌≤◌,
}
use orcastork.Mirror.Forward.{resolved}
use orcastork.Mirror.Landing.{apply-Aligned, IsValid-EntriesKeyed, stamped, land, land-revision}
use orcastork.DataPoint.{DataPoint, key_eq}
use orcastork.Store
use orcastork.Store.{
  Entry, SessionState, guard_epoch, land_added, land_updated, land_batch, apply_resolved,
}
use orcastork.Store.Invariant.{land_batch-IsValid, IsValid}
use orcastork.Mirror.{forward, apply, call, require_hydrated, write, resolve, World, Resolution}
use orcastork.Mirror.Aligned.{Aligned-SamePoints, Aligned}

-- The state of the mirror's session in the store.
abbrev pub stored : World → SessionState
stored w = state_of Store.fresh w.mirror.session_id w.sessions

pub record InStep (w : World) : Type 0 where
  pub hydrated : w.mirror.hydrated ≡ true
  pub valid : IsValid (stored w)
  pub past : w.mirror.rehydrated_at ≤ (stored w).revision
  pub revisions : w.mirror.revision ≡ (stored w).revision
  pub aligned : Aligned w.mirror.rehydrated_at w.mirror.entries (stored w).entries

-- The world after a write that was fenced, and after one that was accepted.
abbrev after_stale : World → World
after_stale w = record w { sessions = put w.mirror.session_id (stored w) w.sessions }

abbrev accepted : ℕ → World → SessionState
accepted epoch w = record (stored w) { max_epoch = epoch }

abbrev resolution : List DataPoint → World → Resolution
resolution ds w = resolve w.mirror.entries ds

abbrev landed_state : List DataPoint → ℕ → World → SessionState
landed_state ds epoch w = (land (resolution ds w) (accepted epoch w)).1

abbrev after_accepted : List DataPoint → ℕ → World → World
after_accepted ds epoch w = record w {
  sessions = put w.mirror.session_id (landed_state ds epoch w) w.sessions;
  mirror = record w.mirror {
    entries = (stamped (resolution ds w) w.mirror.entries (landed_state ds epoch w)).1;
    revision = (landed_state ds epoch w).revision;
  };
}

module _ (ds : List DataPoint) (epoch : ℕ) (w : World) where
  write-hydrated : w.mirror.hydrated ≡ true → write ds epoch w ≡ forward ds epoch w
  unfolding write require_hydrated
  write-hydrated hydrated = simp hydrated

  forward-stale :
      ltb epoch (stored w).max_epoch ≡ true
      → forward ds epoch w ≡ (raise stale_epoch, after_stale w)
  unfolding forward call apply_resolved guard_epoch at_session
  forward-stale stale = rw stale

  forward-accepted :
      ltb epoch (stored w).max_epoch ≡ false
      → (stamped (resolution ds w) w.mirror.entries (landed_state ds epoch w)).0 ≡ ok tt
      → forward ds epoch w ≡ (
        ok ((landed_state ds epoch w).revision, (resolution ds w).outcomes),
        after_accepted ds epoch w,
      )
  unfolding forward call apply_resolved guard_epoch at_session apply
  forward-accepted current done =
      rw (current, (land-revision (resolution ds w) (accepted epoch w)).0, done)

pub InStep-of_stored :
    (w : World) (s : SessionState)
    → stored w ≡ s
    → w.mirror.hydrated ≡ true
    → IsValid s
    → w.mirror.rehydrated_at ≤ s.revision
    → w.mirror.revision ≡ s.revision
    → Aligned w.mirror.rehydrated_at w.mirror.entries s.entries
    → InStep w
InStep-of_stored w s e hydrated valid past revisions aligned = record {
  hydrated = hydrated;
  valid = rw e valid;
  past = rw e past;
  revisions = rw e revisions;
  aligned = rw e aligned;
}

pub stored-put :
    (w : World) (s : SessionState)
    → get w.mirror.session_id (put w.mirror.session_id s w.sessions) ≡ some s
stored-put w s =
    get-put w.mirror.session_id w.mirror.session_id s w.sessions ∙ rw (beq_refl w.mirror.session_id)

-- Whatever is written through the mirror, accepted or fenced, it stays in step with the store.
pub write-InStep :
    (ds : List DataPoint) (epoch : ℕ) (w : World) → InStep w → InStep (write ds epoch w).1
write-InStep ds epoch w h =
    rw (write-hydrated ds epoch w h.hydrated) (elim (Bool-cases (ltb epoch (stored w).max_epoch)) [
      | inl stale ↦ rw (forward-stale ds epoch w stale) (
          InStep-of_stored (after_stale w) (stored w) (rw (stored-put w (stored w))) h.hydrated
            h.valid h.past h.revisions h.aligned)
      | inr current ↦
          let r =
            (resolved w.mirror.entries (accepted epoch w) ds
              (Aligned-SamePoints w.mirror.rehydrated_at w.mirror.entries (stored w).entries
                h.aligned)
              (IsValid-EntriesKeyed (accepted epoch w) h.valid)).0 in
          let (done, aligned) =
            apply-Aligned w.mirror.rehydrated_at (resolution ds w) w.mirror.entries
              (accepted epoch w) r h.aligned in
          rw (forward-accepted ds epoch w current done) (
            InStep-of_stored (after_accepted ds epoch w) (landed_state ds epoch w)
              (rw (stored-put w (landed_state ds epoch w))) h.hydrated
              (land_batch-IsValid (values (resolution ds w).added)
                (values (resolution ds w).updated) (accepted epoch w) h.valid)
              (omega (arith, h.past, (land-revision (resolution ds w) (accepted epoch w)).1)) refl
              aligned)
    ])
