-- ===== src/Tests/InboxRuns.antt =====
-- Runs of orcastork/adapters/memory/inbox.py, with parsers that read every payload as a text.
use orcastork.Base.{refl, Bool, String, [], false, inl, length, map, none, ok, true, ◌+◌, ◌∷◌, ◌≡◌}
use orcastork.DataPoint.{DataPoint}
use orcastork.DataPoint.Hashing.{str}
use orcastork.Inbox
use orcastork.Inbox.{
  InboxState, Message, Delivered, Parsers, inbox_entry, delivered_id, delivered_count, consume,
  reclaim, ack, quarantine, append_serialized,
}
use orcastork.Inbox.Delivery.{ids, unclaimed}
use orcastork.Inbox.Disposal.{others, disposal}
use orcastork.Inbox.Redelivery.{redelivery}

abbrev point : String → DataPoint
point text = record {
  cls = 1;
  type = "url";
  value = str text;
  retrieved_by = "inbox";
  first_retrieved = 0;
  last_retrieved = 0;
}

abbrev parsers : Parsers
parsers = record { Document = String; loads = inl; parse_data_point = λ text. ok (point text) }

abbrev message : String → String → Bool → Message
message entry_id payload claimed = record {
  entry_id = entry_id;
  payload = payload;
  delivery_count = 0;
  claimed = claimed;
}

-- the first entry is already claimed
abbrev filled : InboxState
filled = record Inbox.fresh { messages = message "a" "one" true ∷ message "b" "two" false ∷ [] }

redelivery_example :
    let ys = inbox_entry "a" (point "one") 1 ∷ inbox_entry "b" (point "two") 2 ∷ [] in
    (map delivered_id ys ≡ ids filled.messages)
    × (map delivered_count ys
        ≡ map (λ m. m.delivery_count + 1) (consume parsers none filled).1.messages)
unfolding consume reclaim
redelivery_example =
    redelivery parsers filled (inbox_entry "b" (point "two") 1 ∷ [])
      (inbox_entry "a" (point "one") 1 ∷ inbox_entry "b" (point "two") 2 ∷ []) refl refl

disposal_example :
    ((others "a" (ack "a" 1 filled).1.messages ≡ others "a" filled.messages)
      × (unclaimed (ack "a" 1 filled).1.messages ≡ unclaimed filled.messages))
    × ((others "a" (quarantine "a" "poison" 1 filled).1.messages ≡ others "a" filled.messages)
        × (unclaimed (quarantine "a" "poison" 1 filled).1.messages ≡ unclaimed filled.messages))
    × (length (quarantine "a" "poison" 1 filled).1.messages
          + length (quarantine "a" "poison" 1 filled).1.quarantined
        ≡ length filled.messages + length filled.quarantined)
disposal_example = disposal "a" "poison" 1 filled
