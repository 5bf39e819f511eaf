-- ===== src/Inbox/Pending.antt =====
-- The messages that a drain has still to dispose of, as it goes through what it was presented.
use orcastork.Base.{
  Bool, Bool-cases, List, String, [], all, all_weaken, and-intro, and-true, any, arith, contains,
  eq_iff, false, inl, inr, ltb, true, ℕ, ◌&&◌, ◌==◌, ◌||◌, ◌∷◌, ◌≡◌, refl, string_eq,
}
use orcastork.Inbox.{Message, Delivered, delivered_id, delivered_count, take_claimed}
use orcastork.Inbox.Delivery.{ids}
use orcastork.Inbox.Disposal.{take_match, take_pass}
use orcastork.Inbox.Covering.{covered}

abbrev pub IsDistinct : List String → Type 0
IsDistinct [] = Unit
IsDistinct (i ∷ is) = (contains i is ≡ false) × IsDistinct is

take_subset :
    (i j : String) (ms : List Message)
    → contains j (ids ms) ≡ false
    → contains j (ids (take_claimed i ms).1) ≡ false
unfolding contains
take_subset i j [] h = unfold take_claimed in refl
take_subset i j (m ∷ ms) h = elim (Bool-cases (m.entry_id == i)) [
  | inl same ↦ rw (take_match i m ms same) (ground arith)
  | inr other ↦ rw (take_pass i m ms other) (ground (arith, take_subset i j ms))
]

pub take-IsDistinct :
    (i : String) (ms : List Message) → IsDistinct (ids ms) → IsDistinct (ids (take_claimed i ms).1)
take-IsDistinct i [] h = unfold take_claimed in tt
take-IsDistinct i (m ∷ ms) (h, k) = elim (Bool-cases (m.entry_id == i)) [
  | inl same ↦ elim (Bool-cases m.claimed) [
    | inl old ↦ rw (take_match i m ms same, old) k
    | inr new ↦ rw (take_match i m ms same, new) (h, k)
  ]
  | inr other ↦ rw (take_pass i m ms other) (take_subset i m.entry_id ms h, take-IsDistinct i ms k)
]

module _ (cap : ℕ) where
  -- Below the cap, or still to be disposed of.
  abbrev pub is_pending : List Delivered → Message → Bool
  is_pending es m = m.claimed && (ltb m.delivery_count cap || covered es m)

  not_presented :
      (e : Delivered) (es : List Delivered) (m : Message)
      → (m.entry_id == delivered_id e) ≡ false
      → is_pending (e ∷ es) m ≡ true
      → is_pending es m ≡ true
  unfolding any
  not_presented e es m h k =
      ground (arith, eq_iff m.entry_id (delivered_id e), eq_iff (delivered_id e) m.entry_id)

  others_pending :
      (e : Delivered) (es : List Delivered) (ms : List Message)
      → contains (delivered_id e) (ids ms) ≡ false
      → all (is_pending (e ∷ es)) ms ≡ true
      → all (is_pending es) ms ≡ true
  unfolding all contains
  others_pending e es [] h k = refl
  others_pending e es (m ∷ ms) h k =
      let (a, b) = and-true (is_pending (e ∷ es) m) _ k in
      and-intro _ _ (not_presented e es m (ground arith) a)
        (others_pending e es ms (ground arith) b)

  same_id :
      (i j : String) (is : List String)
      → (i == j) ≡ true
      → contains i is ≡ false
      → contains j is ≡ false
  same_id i j is h k = ground (arith, eq_iff i j)

  -- An entry that is acknowledged or quarantined is pending no more.
  pub taken-pending :
      (e : Delivered) (es : List Delivered) (ms : List Message)
      → IsDistinct (ids ms)
      → all (is_pending (e ∷ es)) ms ≡ true
      → all (is_pending es) (take_claimed (delivered_id e) ms).1 ≡ true
  unfolding all
  taken-pending e es [] d h = unfold take_claimed in refl
  taken-pending e es (m ∷ ms) (d, d') h =
      let (a, b) = and-true (is_pending (e ∷ es) m) _ h in
      let (c, _) = and-true m.claimed _ a in
      elim (Bool-cases (m.entry_id == delivered_id e)) [
        | inl same ↦
            rw (take_match (delivered_id e) m ms same, c)
              (others_pending e es ms (same_id m.entry_id (delivered_id e) (ids ms) same d) b)
        | inr other ↦
            rw (take_pass (delivered_id e) m ms other)
              (and-intro _ _ (not_presented e es m other a) (taken-pending e es ms d' b))
      ]

  below_cap :
      (e : Delivered) (es : List Delivered) (m : Message)
      → ltb (delivered_count e) cap ≡ true
      → is_pending (e ∷ es) m ≡ true
      → is_pending es m ≡ true
  unfolding any
  below_cap e es m h k = ground arith

  -- An entry below the cap may be left.
  pub left-pending :
      (e : Delivered) (es : List Delivered) (ms : List Message)
      → ltb (delivered_count e) cap ≡ true
      → all (is_pending (e ∷ es)) ms ≡ true
      → all (is_pending es) ms ≡ true
  left-pending e es ms h k =
      all_weaken (is_pending (e ∷ es)) (is_pending es) ms (λ m. below_cap e es m h) k
