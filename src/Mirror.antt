-- ===== src/Mirror.antt =====
-- orcastork/orchestrator/mirror.py: the orchestrator's local copy of one session's data points. Its
-- calls run in a `World`, which holds the store that it reads from and forwards to.
pub mod Reads
pub mod Resolve
pub mod Parts
pub mod Forward
pub mod Aligned
pub mod Landing
pub mod Agreement
pub mod Views
pub mod Rehydration
use orcastork.Base.Sessions.{at_session}
use orcastork.Base.Dict.{Dict, get, has, put, values}
use orcastork.Base.{
  string_eq, nat_eq, Bool, Exec, List, Option, String, [], continue, if◌then◌else◌, key_error, leb,
  ltb, none, ok, pure, raise, some, state_mirror, true, ℕ, ◌++◌, ◌==◌, ◌>>=◌, ◌>>◌, ◌||◌, ◌∷◌,
}
use orcastork.DataPoint.{DataPoint, Key, key_eq, identity_key, reobserved}
use orcastork.DataPoint.Collection.{MergeKind, MergeResult}
use orcastork.Store
use orcastork.Store.{SessionState, Op, ChangeSet, snapshot, apply_resolved, change_set_since}

pub record MirrorEntry : Type 0 where
  pub data_point : DataPoint
  pub added_rev : ℕ
  pub updated_rev : ℕ

pub record Resolution : Type 0 where
  pub outcomes : List MergeResult
  pub added : Dict Key DataPoint
  pub updated : Dict Key DataPoint

pub record Mirror : Type 0 where
  pub session_id : String
  pub entries : Dict Key MirrorEntry
  pub baselines : Dict ℕ (Dict Key MergeKind)
  pub revision : ℕ
  pub rehydrated_at : ℕ
  pub hydrated : Bool

pub record World : Type 0 where
  pub sessions : Dict String SessionState
  pub mirror : Mirror

abbrev pub Act : Type 0 → Type 0
Act = Exec World

-- `await self._store.op(self._session_id, …)`
unfoldable pub call : {A : Type 0} → Op A → Act A
unfolding at_session
call op w =
    let (r, sessions) = at_session Store.fresh w.mirror.session_id op w.sessions in
    (r, record w { sessions = sessions })

abbrev pub set_mirror : Mirror → Act Unit
set_mirror m w = (ok tt, record w { mirror = m })

abbrev unstamped : DataPoint → Option MirrorEntry → MirrorEntry
unstamped d _ = record { data_point = d; added_rev = 0; updated_rev = 0 }

unfoldable pub load : List DataPoint → Dict Key MirrorEntry → Dict Key MirrorEntry
load [] entries = entries
load (d ∷ ds) entries =
    load ds
      (put (identity_key d) (record { data_point = d; added_rev = 0; updated_rev = 0 }) entries)

unfoldable pub rehydrate : Act Unit
unfolding call load snapshot Store.revision
rehydrate = do
  view ← call snapshot
  revision ← call Store.revision
  λ w.
      set_mirror
        (record w.mirror {
          entries = load view [];
          revision = revision;
          rehydrated_at = revision;
          baselines = [];
          hydrated = true;
        })
        w

-- `_require_hydrated` and `_guard_read`
unfoldable pub require_hydrated : Act Unit
require_hydrated w = if w.mirror.hydrated then (ok tt, w) else (raise state_mirror, w)

unfoldable pub guard_read : String → Act Unit
unfolding require_hydrated
guard_read session_id = do
  require_hydrated
  λ w. if session_id == w.mirror.session_id then (ok tt, w) else (raise state_mirror, w)

unfoldable pub kinds : MergeKind → List DataPoint → Dict Key MergeKind → Dict Key MergeKind
kinds kind [] baseline = baseline
kinds kind (d ∷ ds) baseline = kinds kind ds (put (identity_key d) kind baseline)

unfoldable pub prime_change_baseline : ℕ → Act Unit
unfolding require_hydrated call change_set_since kinds
prime_change_baseline since = do
  require_hydrated
  λ w.
      if leb w.mirror.rehydrated_at since || has since w.mirror.baselines
      then (ok tt, w)
      else (do
        change ← call (change_set_since since)
        λ w'.
            set_mirror
              (record w'.mirror {
                baselines =
                    put since
                      (kinds MergeKind.updated change.updated
                        (kinds MergeKind.added change.added []))
                      w'.mirror.baselines;
              })
              w')
          w

-- The body of the loop of `_resolve`.
unfoldable pub resolve_one : Dict Key MirrorEntry → Resolution → DataPoint → Resolution
resolve_one entries r d =
    let k = identity_key d in
    elim (get k r.added) [
      | some seen ↦
          let d' = reobserved d.last_retrieved seen in
          record r {
            added = put k d' r.added;
            outcomes = r.outcomes ++ record { kind = MergeKind.updated; data_point = d' } ∷ [];
          }
      | none ↦ elim (get k r.updated) [
        | some seen ↦
            let d' = reobserved d.last_retrieved seen in
            record r {
              updated = put k d' r.updated;
              outcomes = r.outcomes ++ record { kind = MergeKind.updated; data_point = d' } ∷ [];
            }
        | none ↦ elim (get k entries) [
          | none ↦ record r {
            added = put k d r.added;
            outcomes = r.outcomes ++ record { kind = MergeKind.added; data_point = d } ∷ [];
          }
          | some existing ↦
              let merged = reobserved d.last_retrieved existing.data_point in
              let outcomes =
                r.outcomes ++ record { kind = MergeKind.updated; data_point = merged } ∷ [] in
              if ltb existing.data_point.last_retrieved d.last_retrieved
              then record r { updated = put k merged r.updated; outcomes = outcomes }
              else record r { outcomes = outcomes }
        ]
      ]
    ]

unfoldable pub resolve_from : Dict Key MirrorEntry → Resolution → List DataPoint → Resolution
unfolding resolve_one
resolve_from entries r [] = r
resolve_from entries r (d ∷ ds) = resolve_from entries (resolve_one entries r d) ds

abbrev pub nothing : Resolution
nothing = record { outcomes = []; added = []; updated = [] }

unfoldable pub resolve : Dict Key MirrorEntry → List DataPoint → Resolution
unfolding resolve_from
resolve entries = resolve_from entries nothing

-- The two loops of `_apply`; the second reads `self._entries[key]`.
unfoldable pub stamp_added : ℕ → Dict Key DataPoint → Dict Key MirrorEntry → Dict Key MirrorEntry
stamp_added rev [] entries = entries
stamp_added rev ((k, d) ∷ added) entries =
    stamp_added rev added
      (put k (record { data_point = d; added_rev = rev; updated_rev = rev }) entries)

unfoldable pub stamp_updated : ℕ → Dict Key DataPoint → Exec (Dict Key MirrorEntry) Unit
stamp_updated rev [] entries = (ok tt, entries)
stamp_updated rev ((k, d) ∷ updated) entries =
    let rest = λ (e : MirrorEntry).
      stamp_updated rev updated (put k (record e { data_point = d; updated_rev = rev }) entries) in
    elim (get k entries) [ none ↦ (raise key_error, entries) | some e ↦ rest e ]

unfoldable pub apply : Resolution → ℕ → Act Unit
unfolding stamp_added stamp_updated
apply r rev w =
    let (done, entries) = stamp_updated rev r.updated (stamp_added rev r.added w.mirror.entries) in
    continue done (λ _. set_mirror (record w.mirror { entries = entries; revision = rev }))
      (record w { mirror = record w.mirror { entries = entries } })

-- The body of `write` once the mirror is known to be hydrated.
unfoldable pub forward : List DataPoint → ℕ → Act (ℕ × List MergeResult)
unfolding resolve call apply_resolved apply
forward ds epoch w =
    (do
      revision ← call (
          apply_resolved (values (resolve w.mirror.entries ds).added)
            (values (resolve w.mirror.entries ds).updated) epoch)
      apply (resolve w.mirror.entries ds) revision
      pure (revision, (resolve w.mirror.entries ds).outcomes))
      w

unfoldable pub write : List DataPoint → ℕ → Act (ℕ × List MergeResult)
unfolding require_hydrated forward
write ds epoch = do require_hydrated; forward ds epoch
