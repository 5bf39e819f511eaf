-- ===== src/Archive.antt =====
-- orcastork/adapters/memory/datapoint_archive.py and orcastork/archive/sealing.py: one session's archive.
-- The cipher, the hash and orjson are a parameter.
pub mod Buffering
pub mod Reading
use orcastork.Base.Dict.{Dict, get, put, values}
use Prim.Native.String.{◌++◌ as text_append}
use orcastork.Base.{
  Bool, Exec, List, Option, String, [], filter, gets, if◌then◌else◌, leb, length, ltb, map, max,
  none, ok, raise, some, stale_epoch, true, ℕ, ◌++◌, ◌-◌, ◌>>◌, ◌∷◌, pair_eq, string_eq,
}
use orcastork.DataPoint.Hashing.{Value, str}

-- `archive/models.py`
pub record ArchivedDataPoint : Type 0 where
  pub session_id : String
  pub namespace_id : String
  pub type : String
  pub value_hash : String
  pub value : Value
  pub retrieved_by : String
  pub first_retrieved : ℕ
  pub last_retrieved : ℕ
  pub is_pii : Bool
  pub epoch : ℕ
  pub schema_version : ℕ

-- `ValueCipher`, `canonical_value`, SHA-256 and orjson; `decrypt` takes what the row holds.
pub record Codec : Type 0 where
  pub encrypt : String → String
  pub decrypt : Value → String
  pub mac : String → String
  pub sha256 : String → String
  pub canonical_value : Value → String
  pub dumps : Value → String
  pub loads : String → Value

pub record ArchiveState : Type 0 where
  pub buffer : List ArchivedDataPoint
  pub committed : Dict (String × String) ArchivedDataPoint
  pub max_epoch : ℕ

abbrev pub fresh : ArchiveState
fresh = record { buffer = []; committed = []; max_epoch = 0 }

abbrev advance : ArchivedDataPoint → Option ArchivedDataPoint → ArchivedDataPoint
advance sealed none = sealed
advance sealed (some existing) = record existing {
  last_retrieved = max existing.last_retrieved sealed.last_retrieved;
  epoch = max existing.epoch sealed.epoch;
}

-- `_fold_in`
unfoldable pub fold_in :
    ArchivedDataPoint
    → Dict (String × String) ArchivedDataPoint
    → Dict (String × String) ArchivedDataPoint
fold_in sealed folded =
    put (sealed.type, sealed.value_hash)
      (advance sealed (get (sealed.type, sealed.value_hash) folded)) folded

abbrev pub fold_all :
    List ArchivedDataPoint
    → Dict (String × String) ArchivedDataPoint
    → Dict (String × String) ArchivedDataPoint
fold_all [] folded = folded
fold_all (sealed ∷ more) folded = fold_all more (fold_in sealed folded)

module _ (codec : Codec) where
  unfoldable pub value_hash : ArchivedDataPoint → String
  value_hash entry =
      if entry.is_pii
      then codec.mac
          (text_append entry.session_id (text_append "\0" (codec.canonical_value entry.value)))
      else codec.sha256 (codec.canonical_value entry.value)

  unfoldable pub seal : ArchivedDataPoint → ArchivedDataPoint
  seal entry =
      if entry.is_pii
      then record entry { value = str (codec.encrypt (codec.dumps entry.value)) }
      else entry

  unfoldable pub unseal : ArchivedDataPoint → ArchivedDataPoint
  unseal entry =
      if entry.is_pii
      then record entry { value = codec.loads (codec.decrypt entry.value) }
      else entry

  unfoldable pub archive : ArchivedDataPoint → Exec ArchiveState Unit
  unfolding value_hash seal
  archive entry s = if ltb entry.epoch s.max_epoch then (raise stale_epoch, s) else (
    ok tt,
    record s {
      max_epoch = entry.epoch;
      buffer = (s.buffer ++ (record (seal entry) { value_hash = value_hash entry } ∷ []));
    },
  )

  unfoldable pub archive_many : List ArchivedDataPoint → Exec ArchiveState Unit
  unfolding archive
  archive_many [] s = (ok tt, s)
  archive_many (entry ∷ entries) s = (archive entry >> archive_many entries) s

  unfoldable pub flush : Exec ArchiveState ℕ
  unfolding fold_in
  flush s =
      (ok (length s.buffer), record s { committed = fold_all s.buffer s.committed; buffer = [] })

  -- `_live`; the retention and the clock's reading are absent without a retention
  abbrev pub is_live : Option (ℕ × ℕ) → ArchivedDataPoint → Bool
  is_live none entry = true
  is_live (some (retention, now)) entry = leb (now - entry.last_retrieved) retention

  unfoldable pub read : Option (ℕ × ℕ) → Exec ArchiveState (List ArchivedDataPoint)
  unfolding fold_in unseal
  read retained =
      gets (λ s. map unseal (filter (is_live retained) (values (fold_all s.buffer s.committed))))

unfoldable pub buffered_count : Exec ArchiveState ℕ
buffered_count = gets (λ s. length s.buffer)
