-- ===== src/Durable/Helpers.antt =====
-- orcastork/aggregation/helpers.py: what an aggregator writes with.
use orcastork.Base.{
  Option, string_eq, Bool, String, false, if◌then◌else◌, none, not, ok, some, ℕ, ◌&&◌, ◌>>=◌,
}
use orcastork.Base.{string_eq, pair_eq, ◌==◌}
use orcastork.DataPoint.Hashing.{Value}
use orcastork.Durable.{StoredDocument, Op, version_of, read, upsert, add_to_set, mark_contribution}

-- `AggregationHelpers`: the identity that it writes under, and whether this is the finalize pass
pub record AggregationHelpers : Type 0 where
  pub session_id : String
  pub operator_id : String
  pub epoch : ℕ
  pub now : ℕ
  pub is_final : Bool

abbrev pub final : String
final = "final"

abbrev pub in_progress : String
in_progress = "in_progress"

abbrev is_final_text : Option String → Bool
is_final_text none = false
is_final_text (some text) = text == final

abbrev pub has_final_status : Option StoredDocument → Bool
has_final_status none = false
has_final_status (some d) = is_final_text d.status

-- The write that follows the read of `existing`.
unfoldable pub write_over :
    AggregationHelpers → String → String → Value → Option StoredDocument → Op ℕ
unfolding upsert
write_over h table key document existing s =
    if not h.is_final && has_final_status existing
    then (ok (version_of existing), s)
    else upsert table key document (version_of existing) h.epoch
        (some (if h.is_final then final else in_progress)) (some h.now) s

unfoldable pub upsert_document : AggregationHelpers → String → String → Value → Op ℕ
unfolding read write_over
upsert_document h table key document = do
  existing ← read table key
  write_over h table key document existing

abbrev pub add : AggregationHelpers → String → String → String → String → Op ℕ
add h table key field_name value = add_to_set table key field_name value h.epoch

abbrev pub mark : AggregationHelpers → Op Bool
mark h = mark_contribution h.session_id h.operator_id h.epoch
