-- ===== src/Orchestrator/Deliveries.antt =====
-- How often a drain lets one entry of the inbox be delivered.
use orcastork.Base.{
  all_weaken, ltb, none, ◌∙◌, ◌&&◌, refl, map, Error, >>=-eq-ok, ok-inj, string_eq, any, false,
  Result, List, String, [], all, ap, arith, inl, inr, leb, ok, raise, sym, true, ℕ, ◌++◌, ◌∷◌, ◌≡◌,
  Bool-cases,
}
use mathlib.Core.Path.{subst}
use orcastork.DataPoint.{DataPoint}
use orcastork.DataPoint.Collection.{MergeResult}
use orcastork.Mirror.{Act}
use orcastork.Inbox
use orcastork.Audit
use orcastork.Inbox.{
  Message, InboxState, Delivered, Parsers, inbox_entry, poison_entry, delivered_id, delivered_count,
}
use orcastork.Inbox.Delivery.{payloads, reclaim_from-payloads, consume_from-payloads, ids}
use orcastork.Inbox.Covering.{drained-held, is_held, covered, covered-append}
use orcastork.Inbox.Pending.{IsDistinct, take-IsDistinct, is_pending, taken-pending, left-pending}
use orcastork.Inbox.Disposing.{ack-taken, quarantine-taken}
use orcastork.Orchestrator.State.{Flow, Session, Settings, on_inbox}
use orcastork.Orchestrator.Ports.{on_inbox-eq-ok, on_audit-eq-ok}
use orcastork.Orchestrator.Keeping.{apply_keeps}
use orcastork.Orchestrator.Draining.{
  drain_inbox, is_stale, quarantine_row, poisoned, valid, points_in, quarantine_inbox_entry,
  apply_inbox_data_points, after_apply, apply_inbox_entry, apply_each, ack_each, after_batch,
  apply_valid, quarantine_poison, quarantine_each,
}

covered-split :
    (es : List Delivered) (m : Message)
    → covered es m ≡ true
    → covered (poisoned es ++ valid es) m ≡ true
unfolding any
covered-split [] m h = h
covered-split (poison_entry i e n raw ∷ es) m h = ground (arith, covered-split es m)
covered-split (inbox_entry i d n ∷ es) m h = ground (
  arith,
  covered-split es m,
  covered-append (poisoned es) (inbox_entry i d n ∷ valid es) m,
  covered-append (poisoned es) (valid es) m,
)

ids-payloads : (ms : List Message) → ids ms ≡ map (λ x. x.0) (payloads ms)
ids-payloads [] = refl
ids-payloads (m ∷ ms) = ap (◌∷◌ m.entry_id) (ids-payloads ms)

same_ids : (ms ms' : List Message) → payloads ms ≡ payloads ms' → ids ms ≡ ids ms'
same_ids ms ms' h = ids-payloads ms ∙ ap (λ xs. map (λ x. x.0) xs) h ∙ sym (ids-payloads ms')

module _ (p : Parsers) where
  reclaimed_ids :
      (i j : InboxState) (xs : List Delivered)
      → Inbox.reclaim p i ≡ (ok xs, j)
      → ids j.messages ≡ ids i.messages
  unfolding Inbox.reclaim
  reclaimed_ids i j xs h =
      ap (λ r. ids r.1.messages) (sym h) ∙ same_ids _ _ (reclaim_from-payloads p i.messages)

  consumed_ids :
      (i j : InboxState) (xs : List Delivered)
      → Inbox.consume p none i ≡ (ok xs, j)
      → ids j.messages ≡ ids i.messages
  unfolding Inbox.consume
  consumed_ids i j xs h =
      ap (λ r. ids r.1.messages) (sym h) ∙ same_ids _ _ (consume_from-payloads p none i.messages)

  held :
      (i j k : InboxState) (xs ys : List Delivered)
      → Inbox.reclaim p i ≡ (ok xs, j)
      → Inbox.consume p none j ≡ (ok ys, k)
      → all (is_held p (xs ++ ys)) k.messages ≡ true
  held i j k xs ys a b =
      let step = drained-held p i xs ys (ap (λ r. r.0) a) in
      subst (λ u. all (is_held p (xs ++ ys)) u.messages ≡ true)
        (ap (λ r. (Inbox.consume p none r.1).1) a ∙ ap (λ r. r.1) b)
        (step (ap (λ r. (Inbox.consume p none r.1).0) a ∙ ap (λ r. r.0) b))

  held-pending :
      (cap : ℕ) (es : List Delivered) (m : Message)
      → is_held p es m ≡ true
      → is_pending cap (poisoned es ++ valid es) m ≡ true
  held-pending cap es m h = ground (arith, covered-split es m)

nothing_pending :
    (cap : ℕ) (m : Message)
    → is_pending cap [] m ≡ true
    → (m.claimed && ltb m.delivery_count cap) ≡ true
unfolding any
nothing_pending cap m h = ground arith

module _ (f : Flow) (self : Settings)
    (write : List DataPoint → ℕ → Act (ℕ × List MergeResult)) where
  -- What is left to do for the messages of the inbox.
  abbrev Remaining : List Delivered → List Message → Type 0
  Remaining es ms = IsDistinct (ids ms) × (all (is_pending self.max_inbox_deliveries es) ms ≡ true)

  raised :
      {e : Error} {s s' : Session}
      → ¬ (◌≡◌ {A = Result (Unit {0}) × Session} (raise e, s) (ok tt, s'))
  raised h = ground arith

  unmoved :
      (es : List Delivered) (s s' : Session)
      → ◌≡◌ {A = Result (Unit {0}) × Session} (ok tt, s) (ok tt, s')
      → Remaining es s.inbox.messages
      → Remaining es s'.inbox.messages
  unmoved es s s' h k = subst (λ u. Remaining es u.inbox.messages) (ok-inj h).1 k

  taken :
      (e : Delivered) (es : List Delivered) (ms ms' : List Message)
      → ms' ≡ (Inbox.take_claimed (delivered_id e) ms).1
      → Remaining (e ∷ es) ms
      → Remaining es ms'
  taken e es ms ms' h (d, k) =
      rw (h)
        (take-IsDistinct (delivered_id e) ms d, taken-pending self.max_inbox_deliveries e es ms d k)

  ack_step :
      (e : Delivered) (es : List Delivered) (epoch : ℕ) (s s' : Session)
      → on_inbox (Inbox.ack (delivered_id e) epoch) s ≡ (ok tt, s')
      → Remaining (e ∷ es) s.inbox.messages
      → Remaining es s'.inbox.messages
  ack_step e es epoch s s' h = taken e es s.inbox.messages s'.inbox.messages (
      ack-taken (delivered_id e) epoch s.inbox s'.inbox
        (on_inbox-eq-ok (Inbox.ack (delivered_id e) epoch) s h).0)

  quarantine_step :
      (e : Delivered) (es : List Delivered) (reason : String) (count epoch : ℕ) (s s' : Session)
      → quarantine_inbox_entry f self write (delivered_id e) reason count epoch s ≡ (ok tt, s')
      → Remaining (e ∷ es) s.inbox.messages
      → Remaining es s'.inbox.messages
  unfolding quarantine_inbox_entry
  quarantine_step e es reason count epoch s s' h k =
      let (_, t, a, b) =
        >>=-eq-ok (on_inbox (Inbox.quarantine (delivered_id e) reason epoch)) _ s h in
      let (_, c) =
        on_audit-eq-ok
          (Audit.append (quarantine_row f self write (delivered_id e) reason count epoch t.now)) t
          b in
      rw (ap (λ u. u.inbox.messages) c) (
        taken e es s.inbox.messages t.inbox.messages
          (quarantine-taken (delivered_id e) reason epoch s.inbox t.inbox
            (on_inbox-eq-ok (Inbox.quarantine (delivered_id e) reason epoch) s a).0)
          k)

  left :
      (e : Delivered) (es : List Delivered) (ms : List Message)
      → leb self.max_inbox_deliveries (delivered_count e) ≡ false
      → Remaining (e ∷ es) ms
      → Remaining es ms
  left e es ms h (d, k) = (d, left-pending self.max_inbox_deliveries e es ms (ground arith) k)

  after_apply_step :
      (i : String) (d : DataPoint) (n : ℕ) (es : List Delivered) (epoch : ℕ) (r : Result (Unit {0}))
      (s s' : Session)
      → after_apply f self write i n epoch r s ≡ (ok tt, s')
      → Remaining (inbox_entry i d n ∷ es) s.inbox.messages
      → Remaining es s'.inbox.messages
  after_apply_step i d n es epoch (ok _) s s' h k = ack_step (inbox_entry i d n) es epoch s s' h k
  after_apply_step i d n es epoch (raise e) s s' h k = elim (Bool-cases (is_stale e)) [
    | inl stale ↦ absurd (raised (rw (stale) at h))
    | inr other ↦ elim (Bool-cases (leb self.max_inbox_deliveries n)) [
      | inl often ↦
          quarantine_step (inbox_entry i d n) es (f.str_error e) n epoch s s'
            (rw (other, often) at h) k
      | inr seldom ↦
          unmoved es s s' (rw (other, seldom) at h)
            (left (inbox_entry i d n) es s.inbox.messages seldom k)
    ]
  ]

  apply_step :
      (i : String) (d : DataPoint) (n : ℕ) (es : List Delivered) (epoch : ℕ) (s s' : Session)
      → apply_inbox_entry f self write (inbox_entry i d n) epoch s ≡ (ok tt, s')
      → Remaining (inbox_entry i d n ∷ es) s.inbox.messages
      → Remaining es s'.inbox.messages
  unfolding apply_inbox_entry
  apply_step i d n es epoch s s' h k =
      after_apply_step i d n es epoch (apply_inbox_data_points f self write (d ∷ []) epoch s).0
        (apply_inbox_data_points f self write (d ∷ []) epoch s).1 s' h
        (subst (λ u. Remaining (inbox_entry i d n ∷ es) u.messages)
          (sym (apply_keeps f self write (d ∷ []) epoch s)) k)

  abbrev AreValid : List Delivered → Type 0
  AreValid [] = Unit
  AreValid (inbox_entry _ _ _ ∷ es) = AreValid es
  AreValid (poison_entry _ _ _ _ ∷ es) = ⊥

  valid-AreValid : (es : List Delivered) → AreValid (valid es)
  valid-AreValid [] = tt
  valid-AreValid (inbox_entry _ _ _ ∷ es) = valid-AreValid es
  valid-AreValid (poison_entry _ _ _ _ ∷ es) = valid-AreValid es

  apply_each_step :
      (es : List Delivered) (epoch : ℕ) (s s' : Session)
      → AreValid es
      → apply_each f self write es epoch s ≡ (ok tt, s')
      → Remaining es s.inbox.messages
      → Remaining [] s'.inbox.messages
  unfolding apply_each
  apply_each_step [] epoch s s' v h k = unmoved [] s s' h k
  apply_each_step (inbox_entry i d n ∷ es) epoch s s' v h k =
      let (_, t, a, b) =
        >>=-eq-ok (apply_inbox_entry f self write (inbox_entry i d n) epoch) _ s h in
      apply_each_step es epoch t s' v b (apply_step i d n es epoch s t a k)
  apply_each_step (poison_entry i e n raw ∷ es) epoch s s' v h k = absurd v

  ack_each_step :
      (es : List Delivered) (epoch : ℕ) (s s' : Session)
      → ack_each f self write es epoch s ≡ (ok tt, s')
      → Remaining es s.inbox.messages
      → Remaining [] s'.inbox.messages
  unfolding ack_each
  ack_each_step [] epoch s s' h k = unmoved [] s s' h k
  ack_each_step (e ∷ es) epoch s s' h k =
      let (_, t, a, b) = >>=-eq-ok (on_inbox (Inbox.ack (delivered_id e) epoch)) _ s h in
      ack_each_step es epoch t s' b (ack_step e es epoch s t a k)

  after_batch_step :
      (es : List Delivered) (epoch : ℕ) (r : Result (Unit {0})) (s s' : Session)
      → AreValid es
      → after_batch f self write es epoch r s ≡ (ok tt, s')
      → Remaining es s.inbox.messages
      → Remaining [] s'.inbox.messages
  after_batch_step es epoch (ok _) s s' v h = ack_each_step es epoch s s' h
  after_batch_step es epoch (raise e) s s' v h = elim (Bool-cases (is_stale e)) [
    | inl stale ↦ absurd (raised (rw (stale) at h))
    | inr other ↦ apply_each_step es epoch s s' v (rw (other) at h)
  ]

  apply_valid_step :
      (es : List Delivered) (epoch : ℕ) (s s' : Session)
      → AreValid es
      → apply_valid f self write es epoch s ≡ (ok tt, s')
      → Remaining es s.inbox.messages
      → Remaining [] s'.inbox.messages
  unfolding apply_valid
  apply_valid_step [] epoch s s' v h k = apply_each_step [] epoch s s' v h k
  apply_valid_step (e ∷ []) epoch s s' v h k = apply_each_step (e ∷ []) epoch s s' v h k
  apply_valid_step (e ∷ e' ∷ es) epoch s s' v h k =
      let (r, t) = apply_inbox_data_points f self write (points_in (e ∷ e' ∷ es)) epoch s in
      after_batch_step (e ∷ e' ∷ es) epoch r t s' v h (
        subst (λ u. Remaining (e ∷ e' ∷ es) u.messages)
          (sym (apply_keeps f self write (points_in (e ∷ e' ∷ es)) epoch s)) k)

  quarantine_each_step :
      (es later : List Delivered) (epoch : ℕ) (s s' : Session)
      → quarantine_each f self write (poisoned es) epoch s ≡ (ok tt, s')
      → Remaining (poisoned es ++ later) s.inbox.messages
      → Remaining later s'.inbox.messages
  unfolding quarantine_each
  quarantine_each_step [] later epoch s s' h k = unmoved later s s' h k
  quarantine_each_step (inbox_entry i d n ∷ es) later epoch s s' h k =
      quarantine_each_step es later epoch s s' h k
  quarantine_each_step (poison_entry i e n raw ∷ es) later epoch s s' h k =
      let (_, t, a, b) =
        >>=-eq-ok (quarantine_poison f self write (poison_entry i e n raw) epoch) _ s h in
      quarantine_each_step es later epoch t s' b
        (quarantine_step (poison_entry i e n raw) (poisoned es ++ later) e n epoch s t a k)

  module _ (p : Parsers) where
    presented :
        (xs ys : List Delivered) (i j k : InboxState)
        → Inbox.reclaim p i ≡ (ok xs, j)
        → Inbox.consume p none j ≡ (ok ys, k)
        → IsDistinct (ids i.messages)
        → Remaining (poisoned (xs ++ ys) ++ valid (xs ++ ys)) k.messages
    presented xs ys i j k a b d = (
      subst IsDistinct (sym (consumed_ids p j k ys b ∙ reclaimed_ids p i j xs a)) d,
      all_weaken (is_held p (xs ++ ys))
          (is_pending self.max_inbox_deliveries (poisoned (xs ++ ys) ++ valid (xs ++ ys)))
          k.messages (λ m. held-pending p self.max_inbox_deliveries (xs ++ ys) m)
          (held p i j k xs ys a b),
    )

    -- After a drain that returns, of an inbox whose ids are distinct and over any write of the mirror, every
    -- message that is still in the inbox is claimed, and has been delivered less often than
    -- `max_inbox_deliveries` times.
    pub drain_inbox-delivered :
        (epoch : ℕ) (s s' : Session)
        → IsDistinct (ids s.inbox.messages)
        → drain_inbox f self write p epoch s ≡ (ok tt, s')
        → all (λ m. m.claimed && ltb m.delivery_count self.max_inbox_deliveries) s'.inbox.messages
          ≡ true
    unfolding drain_inbox
    drain_inbox-delivered epoch s s' d h =
        let (xs, t, a, b) = >>=-eq-ok (on_inbox (Inbox.reclaim p)) _ s h in
        let (ys, u, a', b') = >>=-eq-ok (on_inbox (Inbox.consume p none)) _ t b in
        let (_, v, a'', b'') =
          >>=-eq-ok (quarantine_each f self write (poisoned (xs ++ ys)) epoch) _ u b' in
        let (_, k) =
          apply_valid_step (valid (xs ++ ys)) epoch v s' (valid-AreValid (xs ++ ys)) b'' (
            quarantine_each_step (xs ++ ys) (valid (xs ++ ys)) epoch u v a'' (
              presented xs ys s.inbox t.inbox u.inbox (on_inbox-eq-ok (Inbox.reclaim p) s a).0
                (on_inbox-eq-ok (Inbox.consume p none) t a').0 d)) in
        all_weaken (is_pending self.max_inbox_deliveries []) _ s'.inbox.messages
          (nothing_pending self.max_inbox_deliveries) k
