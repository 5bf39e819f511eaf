-- ===== src/Mirror/Reads.antt =====
-- The reads of orcastork/orchestrator/mirror.py, served from the local copy.
use orcastork.Base.Dict.{Dict, get, values}
use orcastork.DataPoint.{DataPoint, Key, key_eq}
use orcastork.DataPoint.Collection.{MergeKind}
use orcastork.Store.{ChangeSet}
use orcastork.Mirror.{MirrorEntry, Mirror, Act, guard_read}
use orcastork.Base.{
  Bool, List, Option, Result, String, false, filter, gets, if◌then◌else◌, leb, ltb, map, none, not,
  ok, raise, some, state_mirror, true, ℕ, ◌&&◌, ◌>>◌, ◌||◌, nat_eq,
}

unfoldable pub snapshot : String → Act (List DataPoint)
unfolding guard_read
snapshot session_id = do
  guard_read session_id
  gets (λ w. map (λ e. e.data_point) (values w.mirror.entries))

unfoldable pub revision : String → Act ℕ
unfolding guard_read
revision session_id = do guard_read session_id; gets (λ w. w.mirror.revision)

abbrev pub is_added : ℕ → MirrorEntry → Bool
is_added since e = ltb since e.added_rev

abbrev pub is_updated : ℕ → MirrorEntry → Bool
is_updated since e = leb e.added_rev since && ltb since e.updated_rev

unfoldable pub local_change_set : ℕ → Mirror → ChangeSet
local_change_set since m = record {
  added = map (λ e. e.data_point) (filter (is_added since) (values m.entries));
  updated = map (λ e. e.data_point) (filter (is_updated since) (values m.entries));
}

abbrev pub is_kind : MergeKind → Option MergeKind → Bool
is_kind MergeKind.added (some MergeKind.added) = true
is_kind MergeKind.updated (some MergeKind.updated) = true
is_kind _ _ = false

-- The two tests of the loop of `_baselined_change_set`.
abbrev pub baseline_added : Dict Key MergeKind → ℕ → Key × MirrorEntry → Bool
baseline_added baseline since (k, e) =
    ltb since e.added_rev || is_kind MergeKind.added (get k baseline)

abbrev pub baseline_updated : Dict Key MergeKind → ℕ → Key × MirrorEntry → Bool
baseline_updated baseline since (k, e) =
    not (baseline_added baseline since (k, e))
    && (is_kind MergeKind.updated (get k baseline) || ltb since e.updated_rev)

unfoldable pub baselined_change_set : ℕ → Mirror → Result ChangeSet
baselined_change_set since m = elim (get since m.baselines) [
  | none ↦ raise state_mirror
  | some baseline ↦ ok (record {
    added = map (λ p. p.1.data_point) (filter (baseline_added baseline since) m.entries);
    updated = map (λ p. p.1.data_point) (filter (baseline_updated baseline since) m.entries);
  })
]

unfoldable pub change_set_since : String → ℕ → Act ChangeSet
unfolding guard_read local_change_set baselined_change_set
change_set_since session_id since = do
  guard_read session_id
  λ w.
      if leb w.mirror.rehydrated_at since
      then (ok (local_change_set since w.mirror), w)
      else (baselined_change_set since w.mirror, w)
