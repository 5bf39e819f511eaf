-- ===== src/Inbox/Redelivery.antt =====
-- At-least-once delivery of the inbox: `consume` and `reclaim` as wholes.
use mathlib.Core.Path.{ap₂}
use orcastork.Base.{
  [], arith, ◌∷◌, List, Option, ap, map, none, ok, refl, some, suc, zero, ℕ, ◌+◌, ◌∙◌, ◌≡◌,
}
use orcastork.Inbox.{
  InboxState, Message, Delivered, Parsers, delivered_id, delivered_count, consume, reclaim,
}
use orcastork.Inbox.Delivery.{
  claimed_of, consume_from-payloads, reclaim_from-payloads, consume_from-unclaimed,
  consume_from-claims, reclaim_from-claimed, no_delivery, ids, payloads, take_room, unclaimed,
}

-- The ids are a part of the payloads.
same_ids : (ms ms' : List Message) → payloads ms ≡ payloads ms' → ids ms ≡ ids ms'
same_ids [] [] h = refl
same_ids [] (m ∷ ms) h = absurd (ground arith)
same_ids (m ∷ ms) [] h = absurd (ground arith)
same_ids (m ∷ ms) (m' ∷ ms') h = ap₂ ◌∷◌ (ground arith) (same_ids ms ms' (ground arith))

module _ (p : Parsers) where
  -- Neither `consume`, with or without a limit, nor `reclaim` drops, adds, reorders or alters an
  -- entry's id or payload, also when a payload's parse raises halfway, and neither touches the
  -- quarantine or the epoch.
  pub reads-keep :
      (room : Option ℕ) (s : InboxState)
      → ((payloads (consume p room s).1.messages ≡ payloads s.messages)
          × ((consume p room s).1.quarantined ≡ s.quarantined)
          × ((consume p room s).1.max_epoch ≡ s.max_epoch))
        × ((payloads (reclaim p s).1.messages ≡ payloads s.messages)
            × ((reclaim p s).1.quarantined ≡ s.quarantined)
            × ((reclaim p s).1.max_epoch ≡ s.max_epoch))
  unfolding consume reclaim
  reads-keep none s = (
    (consume_from-payloads p none s.messages, refl, refl),
    (reclaim_from-payloads p s.messages, refl, refl),
  )
  reads-keep (some zero) s = ((refl, refl, refl), (reclaim_from-payloads p s.messages, refl, refl))
  reads-keep (some (suc n)) s = (
    (consume_from-payloads p (some (suc n)) s.messages, refl, refl),
    (reclaim_from-payloads p s.messages, refl, refl),
  )

  -- A `consume` that succeeds presents the first unclaimed entries in their order, as many as the
  -- limit allows.
  pub consume-unclaimed :
      (room : Option ℕ) (s : InboxState) (xs : List Delivered)
      → (consume p room s).0 ≡ ok xs
      → map delivered_id xs ≡ ids (take_room room (unclaimed s.messages))
  unfolding consume
  consume-unclaimed none s xs h = consume_from-unclaimed p none s.messages xs h
  consume-unclaimed (some zero) s xs h = rw (no_delivery p xs h) refl
  consume-unclaimed (some (suc n)) s xs h = consume_from-unclaimed p (some (suc n)) s.messages xs h

  consume-claims :
      (s : InboxState) (xs : List Delivered)
      → (consume p none s).0 ≡ ok xs
      → claimed_of (consume p none s).1.messages ≡ (consume p none s).1.messages
  unfolding consume
  consume-claims s xs h = consume_from-claims p s.messages xs h

  reclaim-claimed :
      (s : InboxState) (xs : List Delivered)
      → (reclaim p s).0 ≡ ok xs
      → (map delivered_id xs ≡ ids (claimed_of s.messages))
        × (map delivered_count xs ≡ map (λ m. m.delivery_count + 1) (claimed_of s.messages))
  unfolding reclaim
  reclaim-claimed s xs h = reclaim_from-claimed p s.messages xs h

  -- After a `consume` without a limit, a `reclaim` presents every entry of the inbox again, in the
  -- inbox's order, when both succeed; each is presented with one delivery more than the inbox had counted after the `consume`.
  pub redelivery :
      (s : InboxState) (xs ys : List Delivered)
      → (consume p none s).0 ≡ ok xs
      → (reclaim p (consume p none s).1).0 ≡ ok ys
      → (map delivered_id ys ≡ ids s.messages)
        × (map delivered_count ys ≡ map (λ m. m.delivery_count + 1) (consume p none s).1.messages)
  redelivery s xs ys h k =
      let all = consume-claims s xs h in
      let (i, c) = reclaim-claimed (consume p none s).1 ys k in
      (
        i ∙ ap ids all ∙ same_ids (consume p none s).1.messages s.messages (reads-keep none s).0.0,
        c ∙ ap (map (λ m. m.delivery_count + 1)) all,
      )
