-- ===== src/Inbox/Delivery.antt =====
-- What `consume` and `reclaim` present, and what they leave in the inbox.
use mathlib.Core.Path.{ap₂}
use orcastork.Base.{
  false, if_false, if_true, true, ◌∙◌, Bool-cases, Result, ap, inl, inr, raise, List, Option,
  String, [], arith, filter, map, none, not, ok, refl, some, suc, zero, ℕ, ◌+◌, ◌∷◌, ◌≡◌,
}
use orcastork.Inbox.{
  Message, Delivered, Parsers, delivered_id, delivered_count, to_entry, deliver, again, claim,
  no_room, less_room, consume_from, reclaim_from,
}

abbrev pub ids : List Message → List String
ids ms = map (λ m. m.entry_id) ms

abbrev pub payloads : List Message → List (String × String)
payloads ms = map (λ m. (m.entry_id, m.payload)) ms

-- At most as many as there is room for.
abbrev pub take_room : {A : Type 0} → Option ℕ → List A → List A
take_room none xs = xs
take_room (some zero) xs = []
take_room (some (suc n)) [] = []
take_room (some (suc n)) (x ∷ xs) = x ∷ take_room (some n) xs

abbrev pub unclaimed : List Message → List Message
unclaimed ms = filter (λ m. not m.claimed) ms

abbrev pub claimed_of : List Message → List Message
claimed_of ms = filter (λ m. m.claimed) ms

module _ (p : Parsers) where
  pub to_entry_parts :
      (m : Message) (x : Delivered)
      → to_entry p m ≡ ok x
      → (delivered_id x ≡ m.entry_id) × (delivered_count x ≡ m.delivery_count)
  unfolding to_entry
  to_entry_parts m x h = ground arith

  deliver-payloads :
      (r : Result Delivered) (m : Message) (rest : List Message)
      (later : Result (List Delivered) × List Message)
      → payloads later.1 ≡ payloads rest
      → payloads (deliver p r m rest later).1 ≡ (m.entry_id, m.payload) ∷ payloads rest
  deliver-payloads (raise e) m rest later h = refl
  deliver-payloads (ok x) m rest (ok xs, rest') h = ap (◌∷◌ (m.entry_id, m.payload)) h
  deliver-payloads (ok x) m rest (raise e, rest') h = ap (◌∷◌ (m.entry_id, m.payload)) h

  -- One round of each loop.
  consume_full :
      (room : Option ℕ) (m : Message) (ms : List Message)
      → no_room room ≡ true
      → consume_from p room (m ∷ ms) ≡ (ok [], m ∷ ms)
  unfolding consume_from
  consume_full room m ms h = if_true (no_room room) _ _ h

  pub consume_old :
      (room : Option ℕ) (m : Message) (ms : List Message)
      → no_room room ≡ false
      → m.claimed ≡ true
      → consume_from p room (m ∷ ms) ≡ ((consume_from p room ms).0, m ∷ (consume_from p room ms).1)
  unfolding consume_from
  consume_old room m ms h old = if_false (no_room room) _ _ h ∙ if_true m.claimed _ _ old

  pub consume_new :
      (room : Option ℕ) (m : Message) (ms : List Message)
      → no_room room ≡ false
      → m.claimed ≡ false
      → consume_from p room (m ∷ ms)
        ≡ deliver p (to_entry p (claim m)) (claim m) ms (consume_from p (less_room room) ms)
  unfolding consume_from
  consume_new room m ms h new = if_false (no_room room) _ _ h ∙ if_false m.claimed _ _ new

  pub reclaim_old :
      (m : Message) (ms : List Message)
      → m.claimed ≡ true
      → reclaim_from p (m ∷ ms) ≡ deliver p (to_entry p (again m)) (again m) ms (reclaim_from p ms)
  unfolding reclaim_from
  reclaim_old m ms old = if_true m.claimed _ _ old

  pub reclaim_new :
      (m : Message) (ms : List Message)
      → m.claimed ≡ false
      → reclaim_from p (m ∷ ms) ≡ ((reclaim_from p ms).0, m ∷ (reclaim_from p ms).1)
  unfolding reclaim_from
  reclaim_new m ms new = if_false m.claimed _ _ new

  claimed_old :
      (m : Message) (ms : List Message) → m.claimed ≡ true → claimed_of (m ∷ ms) ≡ m ∷ claimed_of ms
  unfolding filter
  claimed_old m ms h = if_true m.claimed _ _ h

  claimed_new :
      (m : Message) (ms : List Message) → m.claimed ≡ false → claimed_of (m ∷ ms) ≡ claimed_of ms
  unfolding filter
  claimed_new m ms h = if_false m.claimed _ _ h

  unclaimed_old :
      (m : Message) (ms : List Message) → m.claimed ≡ true → unclaimed (m ∷ ms) ≡ unclaimed ms
  unfolding filter
  unclaimed_old m ms h = if_false (not m.claimed) _ _ (ap not h)

  unclaimed_new :
      (m : Message) (ms : List Message) → m.claimed ≡ false → unclaimed (m ∷ ms) ≡ m ∷ unclaimed ms
  unfolding filter
  unclaimed_new m ms h = if_true (not m.claimed) _ _ (ap not h)

  pub consume_from-payloads :
      (room : Option ℕ) (ms : List Message) → payloads (consume_from p room ms).1 ≡ payloads ms
  consume_from-payloads room [] = unfold consume_from in refl
  consume_from-payloads room (m ∷ ms) = elim (Bool-cases (no_room room)) [
    | inl full ↦ rw (consume_full room m ms full) refl
    | inr free ↦ elim (Bool-cases m.claimed) [
      | inl old ↦
          rw (consume_old room m ms free old)
            (ap (◌∷◌ (m.entry_id, m.payload)) (consume_from-payloads room ms))
      | inr new ↦ rw (consume_new room m ms free new) (
          deliver-payloads (to_entry p (claim m)) (claim m) ms (consume_from p (less_room room) ms)
            (consume_from-payloads (less_room room) ms))
    ]
  ]

  pub reclaim_from-payloads : (ms : List Message) → payloads (reclaim_from p ms).1 ≡ payloads ms
  reclaim_from-payloads [] = unfold reclaim_from in refl
  reclaim_from-payloads (m ∷ ms) = elim (Bool-cases m.claimed) [
    | inl old ↦ rw (reclaim_old m ms old) (
        deliver-payloads (to_entry p (again m)) (again m) ms (reclaim_from p ms)
          (reclaim_from-payloads ms))
    | inr new ↦
        rw (reclaim_new m ms new) (ap (◌∷◌ (m.entry_id, m.payload)) (reclaim_from-payloads ms))
  ]

  -- A delivery that succeeded: the message was parsed, and so was all that follows.
  pub deliver_ok :
      (r : Result Delivered) (m : Message) (rest : List Message)
      (later : Result (List Delivered) × List Message) (xs : List Delivered)
      → (deliver p r m rest later).0 ≡ ok xs
      → (x : Delivered) × (ys : List Delivered) × (r ≡ ok x)
        × (later.0 ≡ ok ys)
        × (xs ≡ x ∷ ys)
        × ((deliver p r m rest later).1 ≡ m ∷ later.1)
  deliver_ok (raise e) m rest later xs h = absurd (ground arith)
  deliver_ok (ok x) m rest (ok ys, rest') xs h = (x, ys, refl, refl, ground arith, refl)
  deliver_ok (ok x) m rest (raise e, rest') xs h = absurd (ground arith)

  pub no_delivery :
      (xs : List Delivered) → ◌≡◌ {A = Result (List Delivered)} (ok []) (ok xs) → xs ≡ []
  no_delivery xs h = ground arith

  pub reclaim_from-claimed :
      (ms : List Message) (xs : List Delivered)
      → (reclaim_from p ms).0 ≡ ok xs
      → (map delivered_id xs ≡ ids (claimed_of ms))
        × (map delivered_count xs ≡ map (λ m. m.delivery_count + 1) (claimed_of ms))
  reclaim_from-claimed [] xs h = unfold reclaim_from filter in rw (no_delivery xs h) (refl, refl)
  reclaim_from-claimed (m ∷ ms) xs h = elim (Bool-cases m.claimed) [
    | inl old ↦
        let (x, ys, px, py, e, _) =
          deliver_ok (to_entry p (again m)) (again m) ms (reclaim_from p ms) xs
            (rw (reclaim_old m ms old) at h) in
        let (i, c) = reclaim_from-claimed ms ys py in
        let (i', c') = to_entry_parts (again m) x px in
        rw (claimed_old m ms old, e) (ap₂ ◌∷◌ i' i, ap₂ ◌∷◌ c' c)
    | inr new ↦
        rw (claimed_new m ms new) (reclaim_from-claimed ms xs (rw (reclaim_new m ms new) at h))
  ]

  -- Consuming presents the first unclaimed messages, in order, as many as there is room for.
  pub consume_from-unclaimed :
      (room : Option ℕ) (ms : List Message) (xs : List Delivered)
      → (consume_from p room ms).0 ≡ ok xs
      → map delivered_id xs ≡ ids (take_room room (unclaimed ms))
  consume_from-unclaimed none [] xs h = unfold consume_from filter in rw (no_delivery xs h) refl
  consume_from-unclaimed (some zero) [] xs h =
      unfold consume_from filter in rw (no_delivery xs h) refl
  consume_from-unclaimed (some (suc n)) [] xs h =
      unfold consume_from filter in rw (no_delivery xs h) refl
  consume_from-unclaimed (some zero) (m ∷ ms) xs h =
      rw (no_delivery xs (rw (consume_full (some zero) m ms refl) at h)) refl
  consume_from-unclaimed none (m ∷ ms) xs h = elim (Bool-cases m.claimed) [
    | inl old ↦
        rw (unclaimed_old m ms old)
          (consume_from-unclaimed none ms xs (rw (consume_old none m ms refl old) at h))
    | inr new ↦
        let (x, ys, px, py, e, _) =
          deliver_ok (to_entry p (claim m)) (claim m) ms (consume_from p none ms) xs
            (rw (consume_new none m ms refl new) at h) in
        rw (unclaimed_new m ms new, e)
          (ap₂ ◌∷◌ (to_entry_parts (claim m) x px).0 (consume_from-unclaimed none ms ys py))
  ]
  consume_from-unclaimed (some (suc n)) (m ∷ ms) xs h = elim (Bool-cases m.claimed) [
    | inl old ↦ rw (unclaimed_old m ms old) (
        consume_from-unclaimed (some (suc n)) ms xs
          (rw (consume_old (some (suc n)) m ms refl old) at h))
    | inr new ↦
        let (x, ys, px, py, e, _) =
          deliver_ok (to_entry p (claim m)) (claim m) ms (consume_from p (some n) ms) xs
            (rw (consume_new (some (suc n)) m ms refl new) at h) in
        rw (unclaimed_new m ms new, e)
          (ap₂ ◌∷◌ (to_entry_parts (claim m) x px).0 (consume_from-unclaimed (some n) ms ys py))
  ]

  -- After a consumption without a limit that succeeded, every message is claimed.
  pub consume_from-claims :
      (ms : List Message) (xs : List Delivered)
      → (consume_from p none ms).0 ≡ ok xs
      → claimed_of (consume_from p none ms).1 ≡ (consume_from p none ms).1
  consume_from-claims [] xs h = unfold consume_from filter in refl
  consume_from-claims (m ∷ ms) xs h = elim (Bool-cases m.claimed) [
    | inl old ↦ rw (consume_old none m ms refl old) (
        claimed_old m (consume_from p none ms).1 old
        ∙ ap (◌∷◌ m) (consume_from-claims ms xs (rw (consume_old none m ms refl old) at h)))
    | inr new ↦
        let (x, ys, px, py, e, after) =
          deliver_ok (to_entry p (claim m)) (claim m) ms (consume_from p none ms) xs
            (rw (consume_new none m ms refl new) at h) in
        rw (consume_new none m ms refl new, after)
          (claimed_old (claim m) (consume_from p none ms).1 refl
            ∙ ap (◌∷◌ (claim m)) (consume_from-claims ms ys py))
  ]
