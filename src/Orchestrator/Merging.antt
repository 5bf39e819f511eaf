-- ===== src/Orchestrator/Merging.antt =====
-- The merge point of orcastork/orchestrator/orchestrator.py: a batch is written through the mirror, and
-- every data point of it is audited or counted, and archived.
use orcastork.Base.Dict.{Dict, get, put}
use orcastork.Base.{
  Bool, List, Option, String, [], any, contains, if◌then◌else◌, is_empty, key_error, map, none, not,
  ok, pure, raise, some, throw, value_error, ℕ, ◌++◌, ◌+◌, ◌>>=◌, ◌>>◌, ◌∷◌, pair_eq, string_eq,
  true, false,
}
use Prim.Native.String.{◌++◌ as text_append}
use orcastork.DataPoint.{Class, DataPoint}
use orcastork.DataPoint.Collection.{MergeKind, MergeResult}
use orcastork.DataPoint.Hashing.{Value, text_leb}
use orcastork.Mirror
use orcastork.Audit
use orcastork.Audit.Models.{AuditLogEntry, data_point, data_point_added, data_points_coalesced}
use orcastork.Archive
use orcastork.Archive.{ArchivedDataPoint}
use orcastork.Orchestrator.State.{
  Flow, Method, Session, Settings, ValueCipher, on_archive, on_audit, on_mirror,
}

-- `_Emitted`
pub record Emitted : Type 0 where
  pub operator_id : Option String
  pub data_point : DataPoint

-- `counter[key] += 1`
abbrev pub or_zero : Option ℕ → ℕ
or_zero none = 0
or_zero (some n) = n

unfoldable pub count_one : String → Dict String ℕ → Dict String ℕ
count_one key counter = put key (or_zero (get key counter) + 1) counter

-- `ArchivedDataPoint.from_data_point`
unfoldable pub from_data_point : String → String → ℕ → Bool → DataPoint → ArchivedDataPoint
from_data_point session_id namespace_id epoch is_pii d = record {
  session_id = session_id;
  namespace_id = namespace_id;
  type = d.type;
  value_hash = "";
  value = d.value;
  retrieved_by = d.retrieved_by;
  first_retrieved = d.first_retrieved;
  last_retrieved = d.last_retrieved;
  is_pii = is_pii;
  epoch = epoch;
  schema_version = 1;
}

abbrev pub is_updated : MergeKind → Bool
is_updated MergeKind.added = false
is_updated MergeKind.updated = true

-- `sorted(counter.items())`
unfoldable pub insert_item : String × ℕ → List (String × ℕ) → List (String × ℕ)
insert_item a [] = a ∷ []
insert_item a (b ∷ items) =
    let rest = insert_item a items in if text_leb a.0 b.0 then a ∷ b ∷ items else b ∷ rest

unfoldable pub sorted_items : Dict String ℕ → List (String × ℕ)
unfolding insert_item
sorted_items [] = []
sorted_items (a ∷ items) = insert_item a (sorted_items items)

module _ (f : Flow) (self : Settings) where
  abbrev pub seal_with : Option ValueCipher → Value → String
  seal_with none value = "<redacted>"
  seal_with (some cipher) value =
      if cipher.is_null then "<redacted>" else cipher.encrypt (f.str_value value)

  abbrev pub or_summary : Option String → String → String
  or_summary none text = text
  or_summary (some summary) text = summary

  -- The summary of `_data_point_audit_entry`.
  unfoldable pub summary_of : Option ValueCipher → DataPoint → String
  summary_of cipher d =
      or_summary (f.audit_summary d)
        (if (f.config d.cls).pii then seal_with cipher d.value else f.str_value d.value)

  unfoldable pub data_point_audit_entry : DataPoint → Option String → ℕ → Session → AuditLogEntry
  unfolding summary_of
  data_point_audit_entry d operator_id epoch s = record {
    session_id = self.session_id;
    namespace_id = some self.namespace_id;
    epoch = epoch;
    timestamp = s.now;
    operator_id = operator_id;
    kind = data_point_added;
    info = data_point (record { data_point_type = d.type; summary = summary_of s.audit_cipher d });
  }

  -- `_check_emission_declared`; `self._operators_by_id[operator_id]` raises on an unknown id
  abbrev pub note_undeclared : String → DataPoint → Class → Method Unit
  note_undeclared operator_id d operator s =
      if any (λ declared. f.classes.issubclass d.cls declared) (f.classes.produces operator)
      then (ok tt, s)
      else if contains (operator_id, d.type) s.undeclared_emissions
      then (ok tt, s)
      else (
        ok tt,
        record s { undeclared_emissions = (operator_id, d.type) ∷ s.undeclared_emissions },
      )

  abbrev pub check_of : String → DataPoint → Option Class → Method Unit
  check_of operator_id d none = throw key_error
  check_of operator_id d (some operator) = note_undeclared operator_id d operator

  abbrev pub check_signal : Option String → DataPoint → Method Unit
  check_signal none d = pure tt
  check_signal (some operator_id) d = check_of operator_id d (get operator_id self.operators_by_id)

  unfoldable pub check_emission_declared : Option String → DataPoint → Method Unit
  check_emission_declared operator_id d = check_signal operator_id d

  -- The body of the loop of `_merge_bookkeeping`: the rows for the audit, at most one.
  unfoldable pub audit_rows : Emitted → MergeResult → ℕ → Method (List AuditLogEntry)
  unfolding count_one data_point_audit_entry
  audit_rows signal outcome epoch s =
      if not (f.config signal.data_point.cls).audit_every_emission
      then (
        ok [],
        record s { coalesced_audits = count_one signal.data_point.type s.coalesced_audits },
      )
      else if is_updated outcome.kind
      then (
        ok [],
        record s { reobserved_audits = count_one signal.data_point.type s.reobserved_audits },
      )
      else (ok (data_point_audit_entry signal.data_point signal.operator_id epoch s ∷ []), s)

  abbrev pub archived_as : ℕ → DataPoint → ArchivedDataPoint
  archived_as epoch d =
      from_data_point self.session_id self.namespace_id epoch (f.config d.cls).pii d

  abbrev pub archive_rows : Emitted → ℕ → List ArchivedDataPoint
  archive_rows signal epoch =
      if (f.config signal.data_point.cls).ephemeral
      then []
      else archived_as epoch signal.data_point ∷ []

  -- `zip(emitted, result.outcomes, strict=True)`
  unfoldable pub account :
      List Emitted → List MergeResult → ℕ → Method (List AuditLogEntry × List ArchivedDataPoint)
  unfolding check_emission_declared audit_rows from_data_point
  account [] [] epoch s = (ok ([], []), s)
  account [] (o ∷ os) epoch s = (raise value_error, s)
  account (e ∷ es) [] epoch s = (raise value_error, s)
  account (e ∷ es) (o ∷ os) epoch s =
      (do
        check_emission_declared e.operator_id e.data_point
        rows ← audit_rows e o epoch
        rest ← account es os epoch
        pure (rows ++ rest.0, archive_rows e epoch ++ rest.1))
        s

  unfoldable pub append_audit_entries : List AuditLogEntry → Method Unit
  append_audit_entries [] = pure tt
  append_audit_entries (entry ∷ []) = on_audit (Audit.append entry)
  append_audit_entries (entry ∷ more ∷ entries) =
      on_audit (Audit.append_many (entry ∷ more ∷ entries))

  unfoldable pub archive_entries : List ArchivedDataPoint → Method Unit
  archive_entries [] = pure tt
  archive_entries (entry ∷ []) = on_archive (Archive.archive self.codec entry)
  archive_entries (entry ∷ more ∷ entries) =
      on_archive (Archive.archive_many self.codec (entry ∷ more ∷ entries))

  unfoldable pub merge_bookkeeping : List Emitted → List MergeResult → ℕ → Method Unit
  unfolding account append_audit_entries archive_entries
  merge_bookkeeping emitted outcomes epoch = do
    rows ← account emitted outcomes epoch
    append_audit_entries rows.0
    archive_entries rows.1

  abbrev pub points_of : List Emitted → List DataPoint
  points_of = map (λ signal. signal.data_point)

  unfoldable pub merge_emissions : List Emitted → ℕ → Method Unit
  unfolding merge_bookkeeping
  merge_emissions [] epoch = pure tt
  merge_emissions (e ∷ es) epoch = do
    result ← on_mirror (Mirror.write (points_of (e ∷ es)) epoch)
    merge_bookkeeping (e ∷ es) result.1 epoch

  abbrev pub from_operator : Option String → DataPoint → Emitted
  from_operator operator_id d = record { operator_id = operator_id; data_point = d }

  -- `_merge`
  unfoldable pub merge : List DataPoint → Option String → ℕ → Method Unit
  unfolding merge_emissions
  merge ds operator_id epoch = merge_emissions (map (from_operator operator_id) ds) epoch

  abbrev pub coalesced_row : ℕ → ℕ → String → String × ℕ → AuditLogEntry
  coalesced_row epoch now what (data_point_type, count) = record {
    session_id = self.session_id;
    namespace_id = some self.namespace_id;
    epoch = epoch;
    timestamp = now;
    operator_id = none;
    kind = data_points_coalesced;
    info = data_point (record {
      data_point_type = data_point_type;
      summary = text_append (f.str_count count) what;
    });
  }

  abbrev pub coalesced_rows : ℕ → Session → List AuditLogEntry
  coalesced_rows epoch s =
      map (coalesced_row epoch s.now " merged") (sorted_items s.coalesced_audits)
      ++ map (coalesced_row epoch s.now " re-observed") (sorted_items s.reobserved_audits)

  -- `_append_coalesced_audits`
  unfoldable pub append_coalesced_audits : ℕ → Method Unit
  unfolding append_audit_entries sorted_items
  append_coalesced_audits epoch s =
      if is_empty (coalesced_rows epoch s)
      then (ok tt, s)
      else append_audit_entries (coalesced_rows epoch s)
          (record s { coalesced_audits = []; reobserved_audits = [] })
