-- ===== src/Inbox.antt =====
-- orcastork/adapters/memory/inbox.py, with the delivery types of orcastork/ports/change_set.py: one
-- session's inbox. `orjson.loads` and the pydantic parser behind `parse_data_point` are parameters.
pub mod Delivery
pub mod Disposal
pub mod Redelivery
pub mod Covering
pub mod Pending
pub mod Disposing
use orcastork.Base.{
  string_eq, Bool, Exec, List, Option, Result, String, [], continue, false, gets, if◌then◌else◌,
  inl, inr, is_empty, length, ltb, none, ok, raise, some, stale_epoch, suc, true, zero, ℕ, ◌++◌,
  ◌+◌, ◌==◌, ◌>>=◌, ◌>>◌, ◌∷◌, ◌⊎◌,
}
use orcastork.DataPoint.{DataPoint}

pub record Message : Type 0 where
  pub entry_id : String
  pub payload : String
  pub delivery_count : ℕ
  pub claimed : Bool

pub record QuarantinedEntry : Type 0 where
  pub entry_id : String
  pub reason : String
  pub delivery_count : ℕ
  pub raw_payload : Option String

pub record InboxState : Type 0 where
  pub messages : List Message
  pub quarantined : List QuarantinedEntry
  pub max_epoch : ℕ
  pub arrival : Bool

abbrev pub fresh : InboxState
fresh = record { messages = []; quarantined = []; max_epoch = 0; arrival = false }

-- `DeliveredInboxEntry`: an `InboxEntry` or a `PoisonInboxEntry`
pub data Delivered : Type 0 where
  inbox_entry : String → DataPoint → ℕ → Delivered
  poison_entry : String → String → ℕ → Option String → Delivered

abbrev pub delivered_id : Delivered → String
delivered_id (inbox_entry entry_id _ _) = entry_id
delivered_id (poison_entry entry_id _ _ _) = entry_id

abbrev pub delivered_count : Delivered → ℕ
delivered_count (inbox_entry _ _ count) = count
delivered_count (poison_entry _ _ count _) = count

-- The two parsers: what a payload decodes to, or the text of its JSON error; and the data point of a
-- decoded document, or the error that the registry or the validation raises.
pub record Parsers : Type 1 where
  pub Document : Type 0
  pub loads : String → Document ⊎ String
  pub parse_data_point : Document → Result DataPoint

unfoldable pub guard_epoch : ℕ → Exec InboxState Unit
guard_epoch epoch s =
    if ltb epoch s.max_epoch
    then (raise stale_epoch, s)
    else (ok tt, record s { max_epoch = epoch })

-- `append_serialized`; `entry_id` is the fresh `uuid4`
unfoldable pub append_serialized : String → String → Exec InboxState String
append_serialized entry_id payload s = (
  ok entry_id,
  record s {
    messages =
        s.messages
        ++ record { entry_id = entry_id; payload = payload; delivery_count = 0; claimed = false }
          ∷ [];
    arrival = true;
  },
)

abbrev pub again : Message → Message
again m = record m { delivery_count = m.delivery_count + 1 }

abbrev pub claim : Message → Message
claim m = record m { claimed = true; delivery_count = m.delivery_count + 1 }

-- The loop of `consume`; `room` is how many more may be claimed, `none` for no limit.
abbrev pub no_room : Option ℕ → Bool
no_room none = false
no_room (some zero) = true
no_room (some (suc n)) = false

abbrev pub less_room : Option ℕ → Option ℕ
less_room none = none
less_room (some zero) = some zero
less_room (some (suc n)) = some n

module _ (p : Parsers) where
  abbrev parsed : Message → Result DataPoint → Result Delivered
  parsed m (ok d) = ok (inbox_entry m.entry_id d m.delivery_count)
  parsed m (raise e) = raise e

  abbrev decoded : Message → p.Document ⊎ String → Result Delivered
  decoded m (inl document) = parsed m (p.parse_data_point document)
  decoded m (inr error) = ok (poison_entry m.entry_id error m.delivery_count (some m.payload))

  unfoldable pub to_entry : Message → Result Delivered
  to_entry m = decoded m (p.loads m.payload)

  -- `claimed.append(self._to_entry(message))`, and the rest of the loop
  abbrev pub deliver :
      Result Delivered
      → Message
      → List Message
      → Result (List Delivered) × List Message
      → Result (List Delivered) × List Message
  deliver (raise e) m rest later = (raise e, m ∷ rest)
  deliver (ok x) m rest (ok xs, rest') = (ok (x ∷ xs), m ∷ rest')
  deliver (ok x) m rest (raise e, rest') = (raise e, m ∷ rest')

  unfoldable pub consume_from : Option ℕ → List Message → Result (List Delivered) × List Message
  unfolding to_entry
  consume_from room [] = (ok [], [])
  consume_from room (m ∷ ms) =
      let skipped = consume_from room ms in
      let later = consume_from (less_room room) ms in
      if no_room room
      then (ok [], m ∷ ms)
      else if m.claimed
      then (skipped.0, m ∷ skipped.1)
      else deliver (to_entry (claim m)) (claim m) ms later

  unfoldable pub consume : Option ℕ → Exec InboxState (List Delivered)
  unfolding consume_from
  consume max_entries s =
      if no_room max_entries
      then (ok [], s)
      else let (r, messages) = consume_from max_entries s.messages in
        (r, record s { messages = messages })

  unfoldable pub reclaim_from : List Message → Result (List Delivered) × List Message
  unfolding to_entry
  reclaim_from [] = (ok [], [])
  reclaim_from (m ∷ ms) =
      let later = reclaim_from ms in
      if m.claimed then deliver (to_entry (again m)) (again m) ms later else (later.0, m ∷ later.1)

  unfoldable pub reclaim : Exec InboxState (List Delivered)
  unfolding reclaim_from
  reclaim s = let (r, messages) = reclaim_from s.messages in (r, record s { messages = messages })

-- The search of `ack` and `quarantine`: the first message with the id, if it is claimed, and the
-- others; an unclaimed one ends the search.
unfoldable pub take_claimed : String → List Message → Option Message × List Message
take_claimed entry_id [] = (none, [])
take_claimed entry_id (m ∷ ms) =
    let (found, rest) = take_claimed entry_id ms in
    if m.entry_id == entry_id
    then (if m.claimed then (some m, ms) else (none, m ∷ ms))
    else (found, m ∷ rest)

unfoldable pub ack : String → ℕ → Exec InboxState Unit
unfolding guard_epoch take_claimed
ack entry_id epoch = do
  guard_epoch epoch
  λ s. (ok tt, record s { messages = (take_claimed entry_id s.messages).1 })

abbrev pub record_quarantine :
    String → Option Message → List QuarantinedEntry → List QuarantinedEntry
record_quarantine reason none q = q
record_quarantine reason (some m) q =
    q
    ++ record {
      entry_id = m.entry_id;
      reason = reason;
      delivery_count = m.delivery_count;
      raw_payload = some m.payload;
    }
      ∷ []

unfoldable pub quarantine : String → String → ℕ → Exec InboxState Unit
unfolding guard_epoch take_claimed
quarantine entry_id reason epoch = do
  guard_epoch epoch
  λ s. (
    ok tt,
    record s {
      messages = (take_claimed entry_id s.messages).1;
      quarantined = record_quarantine reason (take_claimed entry_id s.messages).0 s.quarantined;
    },
  )

unfoldable pub quarantined : Exec InboxState (List QuarantinedEntry)
quarantined = gets (λ s. s.quarantined)

unfoldable pub pending_count : Exec InboxState ℕ
pending_count = gets (λ s. length s.messages)

-- What `wait_for_entry` does before it waits: whether it returns at once, and the cleared event.
unfoldable pub begin_wait : Exec InboxState Bool
begin_wait s =
    if is_empty s.messages then (ok false, record s { arrival = false }) else (ok true, s)
