-- ===== src/Inbox/Disposal.antt =====
-- `ack` and `quarantine`: what leaves the inbox, and where it goes.
use native.Mathlib.Decide.{dec_lt}
use orcastork.Base.{
  length-append, Bool-cases, List, Option, String, [], ap, arith, false, filter, if_false, if_true,
  if◌then◌else◌, inl, inr, length, le→ltb_false, lt→ltb, none, not, refl, some, sym, true, ℕ, ◌+◌,
  ◌==◌, ◌∙◌, ◌∷◌, ◌≡◌, ◌⊎◌, string_eq,
}
use orcastork.Inbox.{
  QuarantinedEntry, InboxState, Message, take_claimed, ack, quarantine, record_quarantine,
  guard_epoch,
}
use orcastork.Inbox.Delivery.{unclaimed}

abbrev found_count : Option Message → ℕ
found_count none = 0
found_count (some _) = 1

abbrev pub others : String → List Message → List Message
others entry_id ms = filter (λ m. not (m.entry_id == entry_id)) ms

-- One round of the search.
pub take_match :
    (entry_id : String) (m : Message) (ms : List Message)
    → (m.entry_id == entry_id) ≡ true
    → take_claimed entry_id (m ∷ ms) ≡ (if m.claimed then (some m, ms) else (none, m ∷ ms))
unfolding take_claimed
take_match entry_id m ms h = if_true (m.entry_id == entry_id) _ _ h

pub take_pass :
    (entry_id : String) (m : Message) (ms : List Message)
    → (m.entry_id == entry_id) ≡ false
    → take_claimed entry_id (m ∷ ms)
      ≡ ((take_claimed entry_id ms).0, m ∷ (take_claimed entry_id ms).1)
unfolding take_claimed
take_pass entry_id m ms h = if_false (m.entry_id == entry_id) _ _ h

take_cases :
    (entry_id : String) (m : Message) (ms : List Message)
    → (((m.entry_id == entry_id) ≡ true)
        × (m.claimed ≡ true)
        × (take_claimed entry_id (m ∷ ms) ≡ (some m, ms)))
      ⊎ ((take_claimed entry_id (m ∷ ms) ≡ (none, m ∷ ms))
          ⊎ (take_claimed entry_id (m ∷ ms)
              ≡ ((take_claimed entry_id ms).0, m ∷ (take_claimed entry_id ms).1)))
take_cases entry_id m ms = elim (Bool-cases (m.entry_id == entry_id)) [
  | inr other ↦ inr (inr (take_pass entry_id m ms other))
  | inl same ↦ elim (Bool-cases m.claimed) [
    | inl old ↦ inl (same, old, take_match entry_id m ms same ∙ if_true m.claimed _ _ old)
    | inr new ↦ inr (inl (take_match entry_id m ms same ∙ if_false m.claimed _ _ new))
  ]
]

take_claimed-length :
    (entry_id : String) (ms : List Message)
    → found_count (take_claimed entry_id ms).0 + length (take_claimed entry_id ms).1 ≡ length ms
take_claimed-length entry_id [] = unfold take_claimed in refl
take_claimed-length entry_id (m ∷ ms) = elim (take_cases entry_id m ms) [
  | inl (_, _, e) ↦ rw (e) (omega arith)
  | inr (inl e) ↦ rw (e) (omega arith)
  | inr (inr e) ↦ rw (e) (omega (arith, take_claimed-length entry_id ms))
]

take_claimed-others :
    (entry_id : String) (ms : List Message)
    → others entry_id (take_claimed entry_id ms).1 ≡ others entry_id ms
unfolding filter
take_claimed-others entry_id [] = unfold take_claimed in refl
take_claimed-others entry_id (m ∷ ms) = elim (take_cases entry_id m ms) [
  | inl (same, _, e) ↦ rw (e) (sym (if_false (not (m.entry_id == entry_id)) _ _ (ap not same)))
  | inr (inl e) ↦ rw (e) refl
  | inr (inr e) ↦ rw (e, take_claimed-others entry_id ms) refl
]

take_claimed-unclaimed :
    (entry_id : String) (ms : List Message) → unclaimed (take_claimed entry_id ms).1 ≡ unclaimed ms
unfolding filter
take_claimed-unclaimed entry_id [] = unfold take_claimed in refl
take_claimed-unclaimed entry_id (m ∷ ms) = elim (take_cases entry_id m ms) [
  | inl (_, old, e) ↦ rw (e) (sym (if_false (not m.claimed) _ _ (ap not old)))
  | inr (inl e) ↦ rw (e) refl
  | inr (inr e) ↦ rw (e, take_claimed-unclaimed entry_id ms) refl
]

recorded-length :
    (reason : String) (found : Option Message) (q : List QuarantinedEntry)
    → length (record_quarantine reason found q) ≡ found_count found + length q
recorded-length reason none q = omega arith
recorded-length reason (some m) q = rw (length-append q) (omega arith)

-- Under any epoch, `ack` and `quarantine` of an entry leave the messages with other ids as they are,
-- and every message that no `consume` has presented; and `quarantine` loses none: what leaves the
-- messages is in the quarantine list, so the number of both together stays.
pub disposal :
    (entry_id reason : String) (epoch : ℕ) (s : InboxState)
    → ((others entry_id (ack entry_id epoch s).1.messages ≡ others entry_id s.messages)
        × (unclaimed (ack entry_id epoch s).1.messages ≡ unclaimed s.messages))
      × ((others entry_id (quarantine entry_id reason epoch s).1.messages
            ≡ others entry_id s.messages)
          × (unclaimed (quarantine entry_id reason epoch s).1.messages ≡ unclaimed s.messages))
      × (length (quarantine entry_id reason epoch s).1.messages
            + length (quarantine entry_id reason epoch s).1.quarantined
          ≡ length s.messages + length s.quarantined)
unfolding ack quarantine guard_epoch
disposal entry_id reason epoch s = elim (dec_lt epoch s.max_epoch) [
  | yes p ↦ rw (lt→ltb epoch s.max_epoch p) ((refl, refl), (refl, refl), refl)
  | no p ↦ rw (le→ltb_false epoch s.max_epoch (omega arith)) (
    (take_claimed-others entry_id s.messages, take_claimed-unclaimed entry_id s.messages),
    (take_claimed-others entry_id s.messages, take_claimed-unclaimed entry_id s.messages),
    omega (
      arith,
      take_claimed-length entry_id s.messages,
      recorded-length reason (take_claimed entry_id s.messages).0 s.quarantined,
    ),
  )
]
