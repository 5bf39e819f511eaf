-- ===== src/Store.antt =====
-- orcastork/adapters/memory/store.py, with the value types of orcastork/ports/datapoint_store.py and
-- orcastork/ports/change_set.py. An operation acts on one session's state; `at_session` finds it.
pub mod Effects
pub mod Fencing
pub mod Merge
pub mod Invariant
use orcastork.Base.{
  ℕ, ◌+◌, String, Bool, true, false, ◌&&◌, ◌||◌, Option, none, some, List, [], ◌∷◌, map, ltb, leb,
  nat_beq, if◌then◌else◌, is_empty, filter, string_eq, stale_epoch, ok, raise, Exec, gets, ◌>>◌,
}
use orcastork.Base.Dict.{Dict, get, put, delete, values}
use orcastork.DataPoint.{DataPoint, Key, key_eq, identity_key, reobserved}

pub record ChangeSet : Type 0 where
  pub added : List DataPoint
  pub updated : List DataPoint

-- The stored text of an effect: `pending:<epoch>`, `committed`, or anything else.
pub data EffectState : Type 0 where
  pending : ℕ → EffectState
  committed : EffectState
  corrupt : String → EffectState

pub record Entry : Type 0 where
  pub data_point : DataPoint
  pub added_rev : ℕ
  pub updated_rev : ℕ

pub record SessionState : Type 0 where
  pub entries : Dict Key Entry
  pub revision : ℕ
  pub max_epoch : ℕ
  pub watermarks : Dict String ℕ
  pub effects : Dict String EffectState
  pub deadline : Option ℕ
  pub flow_fingerprint : Option String

abbrev pub fresh : SessionState
fresh = record {
  entries = [];
  revision = 0;
  max_epoch = 0;
  watermarks = [];
  effects = [];
  deadline = none;
  flow_fingerprint = none;
}

abbrev pub Op : Type 0 → Type 0
Op = Exec SessionState

unfoldable pub guard_epoch : ℕ → Op Unit
guard_epoch epoch s =
    if ltb epoch s.max_epoch
    then (raise stale_epoch, s)
    else (ok tt, record s { max_epoch = epoch })

-- The body of the loop of `write`: the entries, and whether they changed.
unfoldable pub merge_one : ℕ → Dict Key Entry → DataPoint → Dict Key Entry × Bool
merge_one rev entries d = elim (get (identity_key d) entries) [
  | none ↦ (
    put (identity_key d) (record { data_point = d; added_rev = rev; updated_rev = rev }) entries,
    true,
  )
  | some e ↦
      if ltb e.data_point.last_retrieved d.last_retrieved
      then (
        put (identity_key d)
            (record e { data_point = reobserved d.last_retrieved e.data_point; updated_rev = rev })
            entries,
        true,
      )
      else (entries, false)
]

unfoldable pub merge_all : ℕ → Dict Key Entry → Bool → List DataPoint → Dict Key Entry × Bool
unfolding merge_one
merge_all rev entries changed [] = (entries, changed)
merge_all rev entries changed (d ∷ ds) =
    let (entries', now) = merge_one rev entries d in merge_all rev entries' (changed || now) ds

unfoldable pub merge_batch : List DataPoint → Op ℕ
unfolding merge_all
merge_batch ds s =
    let (entries, changed) = merge_all (s.revision + 1) s.entries false ds in
    let revision = if changed then s.revision + 1 else s.revision in
    (ok revision, record s { entries = entries; revision = revision })

unfoldable pub write : List DataPoint → ℕ → Op ℕ
unfolding guard_epoch merge_batch
write ds epoch = do guard_epoch epoch; merge_batch ds

unfoldable pub land_added : ℕ → Dict Key Entry → List DataPoint → Dict Key Entry
land_added rev entries [] = entries
land_added rev entries (d ∷ ds) =
    land_added rev
      (put (identity_key d) (record { data_point = d; added_rev = rev; updated_rev = rev }) entries)
      ds

abbrev pub added_stamp : Option Entry → ℕ
added_stamp none = 0
added_stamp (some e) = e.added_rev

unfoldable pub land_updated : ℕ → Dict Key Entry → List DataPoint → Dict Key Entry
land_updated rev entries [] = entries
land_updated rev entries (d ∷ ds) =
    land_updated rev
      (put (identity_key d)
        (record {
          data_point = d;
          added_rev = added_stamp (get (identity_key d) entries);
          updated_rev = rev;
        })
        entries)
      ds

unfoldable pub land_batch : List DataPoint → List DataPoint → Op ℕ
unfolding land_added land_updated
land_batch added updated s = if is_empty added && is_empty updated then (ok s.revision, s) else (
  ok (s.revision + 1),
  record s {
    entries = land_updated (s.revision + 1) (land_added (s.revision + 1) s.entries added) updated;
    revision = s.revision + 1;
  },
)

unfoldable pub apply_resolved : List DataPoint → List DataPoint → ℕ → Op ℕ
unfolding guard_epoch land_batch
apply_resolved added updated epoch = do guard_epoch epoch; land_batch added updated

abbrev pub data_points : Dict Key Entry → List DataPoint
data_points entries = map (λ e. e.data_point) (values entries)

-- `snapshot`; the view is the tuple of its items
unfoldable pub snapshot : Op (List DataPoint)
snapshot = gets (λ s. data_points s.entries)

unfoldable pub revision : Op ℕ
revision = gets (λ s. s.revision)

abbrev pub is_added : ℕ → Entry → Bool
is_added since e = ltb since e.added_rev

abbrev pub is_updated : ℕ → Entry → Bool
is_updated since e = leb e.added_rev since && ltb since e.updated_rev

unfoldable pub change_set_since : ℕ → Op ChangeSet
change_set_since since = gets (λ s. record {
  added = map (λ e. e.data_point) (filter (is_added since) (values s.entries));
  updated = map (λ e. e.data_point) (filter (is_updated since) (values s.entries));
})

unfoldable pub get_watermark : String → Op (Option ℕ)
get_watermark operator_id = gets (λ s. get operator_id s.watermarks)

unfoldable pub set_watermark : String → ℕ → ℕ → Op Unit
unfolding guard_epoch
set_watermark operator_id revision epoch = do
  guard_epoch epoch
  λ s. (ok tt, record s { watermarks = put operator_id revision s.watermarks })

unfoldable pub get_session_deadline : Op (Option ℕ)
get_session_deadline = gets (λ s. s.deadline)

unfoldable pub set_session_deadline : ℕ → ℕ → Op Unit
unfolding guard_epoch
set_session_deadline deadline epoch = do
  guard_epoch epoch
  λ s. (ok tt, record s { deadline = some deadline })

unfoldable pub get_flow_fingerprint : Op (Option String)
get_flow_fingerprint = gets (λ s. s.flow_fingerprint)

unfoldable pub set_flow_fingerprint : String → ℕ → Op Unit
unfolding guard_epoch
set_flow_fingerprint fingerprint epoch = do
  guard_epoch epoch
  λ s. (ok tt, record s { flow_fingerprint = some fingerprint })
