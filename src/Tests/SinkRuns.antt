-- ===== src/Tests/SinkRuns.antt =====
-- Runs of orcastork/adapters/memory (archive, audit sink, gate), orcastork/scheduling (debounce,
-- watermark) and orcastork/aggregation/retry.py.
use orcastork.Base.{
  all, List, String, [], aggregator_dead_lettered, if◌then◌else◌, none, ok, other_error, raise,
  refl, some, stale_epoch, true, ℕ, ◌<◌, ◌∷◌, ◌≡◌, ◌≤◌, ◌⊎◌, string_eq,
}
use orcastork.DataPoint.Hashing.{Value, str}
use orcastork.Audit
use orcastork.Audit.{append_many}
use orcastork.Audit.Models.{AuditLogEntry, data_point_added, data_point}
use orcastork.Audit.Batches.{append_many-atomic}
use orcastork.Archive
use orcastork.Archive.{ArchivedDataPoint, Codec, seal, unseal, read}
use orcastork.Archive.Reading.{Event, archives, flushes, happen_all, unflushed, read-unflushed}
use orcastork.Rerun.{DebounceController, run_with_retry}
use orcastork.Rerun.Attempts.{scripted, succeeds, used, run_with_retry-outcome}

abbrev logged : String → AuditLogEntry
logged summary = record {
  session_id = "s";
  namespace_id = none;
  epoch = 2;
  timestamp = 1;
  operator_id = none;
  kind = data_point_added;
  info = data_point (record { data_point_type = "url"; summary = summary });
}

append_many-atomic_example :
    ((0 ≤ 2)
      × (append_many (logged "a" ∷ logged "b" ∷ []) Audit.fresh
          ≡ (ok tt, record { committed = logged "a" ∷ logged "b" ∷ []; max_epoch = 2 })))
    ⊎ ((2 < 0)
        × (append_many (logged "a" ∷ logged "b" ∷ []) Audit.fresh
            ≡ (raise stale_epoch, Audit.fresh)))
unfolding all
append_many-atomic_example = append_many-atomic 2 (logged "a") (logged "b" ∷ []) Audit.fresh refl

abbrev pub text_of : Value → String
text_of (str s) = s
text_of _ = ""

abbrev pub codec : Codec
codec = record {
  encrypt = λ s. s;
  decrypt = text_of;
  mac = λ s. s;
  sha256 = λ s. s;
  canonical_value = text_of;
  dumps = text_of;
  loads = str;
}

abbrev row : String → ℕ → ArchivedDataPoint
row v at = record {
  session_id = "s";
  namespace_id = "n";
  type = "url";
  value_hash = "";
  value = str v;
  retrieved_by = "op";
  first_retrieved = at;
  last_retrieved = at;
  is_pii = true;
  epoch = 1;
  schema_version = 1;
}

abbrev calls : List Event
calls = archives (row "a" 1) ∷ flushes ∷ archives (row "a" 5) ∷ archives (row "b" 2) ∷ []

read-unflushed_example :
    (read codec (some (9, 10)) (happen_all codec calls Archive.fresh)).0
    ≡ (read codec (some (9, 10)) (happen_all codec (unflushed codec calls) Archive.fresh)).0
read-unflushed_example = read-unflushed codec (some (9, 10)) calls Archive.fresh

abbrev windows : DebounceController
windows = record { default_window = 5; due = ("other", 3) ∷ [] }

run_with_retry-outcome_example :
    let outcomes = raise other_error ∷ ok tt ∷ raise other_error ∷ [] in
    ((run_with_retry scripted 2 (outcomes, 0)).0
      ≡ (if succeeds 2 outcomes then ok tt else raise aggregator_dead_lettered))
    × ((run_with_retry scripted 2 (outcomes, 0)).1.1 ≡ used 2 outcomes)
    × (used 2 outcomes ≤ 3)
run_with_retry-outcome_example =
    run_with_retry-outcome 2 (raise other_error ∷ ok tt ∷ raise other_error ∷ [])
