-- ===== src/Inbox/Covering.antt =====
-- Every message that a drain has claimed is among what it was presented, until it is disposed of.
use orcastork.Base.{
  and-true, string_eq, Bool, Bool-cases, List, [], all, all_weaken, and-intro, any, any-append, ap,
  arith, beq_refl, inl, inr, nat_beq, none, not, ok, sym, true, ◌&&◌, ◌++◌, ◌==◌, ◌||◌, ◌∙◌, ◌∷◌,
  ◌≡◌, refl,
}
use orcastork.Inbox.{
  InboxState, reclaim, consume, claim, Message, Delivered, Parsers, delivered_id, delivered_count,
  to_entry, again, consume_from, reclaim_from,
}
use orcastork.Inbox.Delivery.{
  consume_old, consume_new, reclaim_old, reclaim_new, deliver_ok, to_entry_parts,
}

abbrev pub presents : Delivered → Message → Bool
presents e m = delivered_id e == m.entry_id && nat_beq (delivered_count e) m.delivery_count

abbrev pub covered : List Delivered → Message → Bool
covered es m = any (λ e. presents e m) es

pub covered-append :
    (xs ys : List Delivered) (m : Message) → covered (xs ++ ys) m ≡ (covered xs m || covered ys m)
covered-append xs ys m = any-append (λ e. presents e m) xs ys

module _ (p : Parsers) where
  presented : (m : Message) (x : Delivered) → to_entry p m ≡ ok x → presents x m ≡ true
  presented m x h = let (i, c) = to_entry_parts p m x h in ground (arith, i, c, beq_refl m.entry_id)

  abbrev pub is_covered : List Delivered → Message → Bool
  is_covered es m = not m.claimed || covered es m

  more_covered :
      (x : Delivered) (ys xs : List Delivered) (m : Message) (later rest : List Message)
      → xs ≡ x ∷ ys
      → rest ≡ m ∷ later
      → presents x m ≡ true
      → all (is_covered ys) later ≡ true
      → all (is_covered xs) rest ≡ true
  unfolding all any
  more_covered x ys xs m later rest split e h k =
      rw (split, e)
        (and-intro _ _ (ground arith)
          (all_weaken (is_covered ys) (is_covered (x ∷ ys)) later (λ n c. ground arith) k))

  reclaim_covers :
      (ms : List Message) (xs : List Delivered)
      → (reclaim_from p ms).0 ≡ ok xs
      → all (is_covered xs) (reclaim_from p ms).1 ≡ true
  unfolding all any
  reclaim_covers [] xs h = unfold reclaim_from in refl
  reclaim_covers (m ∷ ms) xs h = elim (Bool-cases m.claimed) [
    | inl old ↦
        let (x, ys, e, k, split, rest) =
          deliver_ok p (to_entry p (again m)) (again m) ms (reclaim_from p ms) xs
            (ap (λ r. r.0) (sym (reclaim_old p m ms old)) ∙ h) in
        more_covered x ys xs (again m) (reclaim_from p ms).1 (reclaim_from p (m ∷ ms)).1 split
          (ap (λ r. r.1) (reclaim_old p m ms old) ∙ rest) (presented (again m) x e)
          (reclaim_covers ms ys k)
    | inr new ↦ rw (reclaim_new p m ms new) (
        and-intro _ _ (ground arith)
          (reclaim_covers ms xs (ap (λ r. r.0) (sym (reclaim_new p m ms new)) ∙ h)))
  ]

  abbrev pub is_held : List Delivered → Message → Bool
  is_held es m = m.claimed && covered es m

  held_weaken :
      (xs ys : List Delivered) (y : Delivered) (m : Message)
      → is_held (xs ++ ys) m ≡ true
      → is_held (xs ++ y ∷ ys) m ≡ true
  unfolding any
  held_weaken xs ys y m h = ground (arith, covered-append xs ys m, covered-append xs (y ∷ ys) m)

  held_old :
      (xs ys : List Delivered) (m : Message)
      → m.claimed ≡ true
      → is_covered xs m ≡ true
      → is_held (xs ++ ys) m ≡ true
  held_old xs ys m c h = ground (arith, covered-append xs ys m)

  held_new :
      (xs ys : List Delivered) (y : Delivered) (m : Message)
      → m.claimed ≡ true
      → presents y m ≡ true
      → is_held (xs ++ y ∷ ys) m ≡ true
  unfolding any
  held_new xs ys y m c h = ground (arith, covered-append xs (y ∷ ys) m)

  more_held :
      (xs : List Delivered) (x : Delivered) (ys zs : List Delivered) (m : Message)
      (later rest : List Message)
      → zs ≡ x ∷ ys
      → rest ≡ m ∷ later
      → m.claimed ≡ true
      → presents x m ≡ true
      → all (is_held (xs ++ ys)) later ≡ true
      → all (is_held (xs ++ zs)) rest ≡ true
  unfolding all
  more_held xs x ys zs m later rest split e c h k =
      rw (split, e)
        (and-intro _ _ (held_new xs ys x m c h)
          (all_weaken (is_held (xs ++ ys)) (is_held (xs ++ x ∷ ys)) later (held_weaken xs ys x) k))

  consume_covers :
      (xs : List Delivered) (ms : List Message) (ys : List Delivered)
      → (consume_from p none ms).0 ≡ ok ys
      → all (is_covered xs) ms ≡ true
      → all (is_held (xs ++ ys)) (consume_from p none ms).1 ≡ true
  unfolding all
  consume_covers xs [] ys h k = unfold consume_from in refl
  consume_covers xs (m ∷ ms) ys h k =
      let (a, b) = and-true (is_covered xs m) _ k in
      elim (Bool-cases m.claimed) [
        | inl old ↦ rw (consume_old p none m ms refl old) (
            and-intro _ _ (held_old xs ys m old a) (
              consume_covers xs ms ys (ap (λ r. r.0) (sym (consume_old p none m ms refl old)) ∙ h)
                b))
        | inr new ↦
            let (x, zs, e, g, split, rest) =
              deliver_ok p (to_entry p (claim m)) (claim m) ms (consume_from p none ms) ys
                (ap (λ r. r.0) (sym (consume_new p none m ms refl new)) ∙ h) in
            more_held xs x zs ys (claim m) (consume_from p none ms).1
              (consume_from p none (m ∷ ms)).1 split
              (ap (λ r. r.1) (consume_new p none m ms refl new) ∙ rest) refl
              (presented (claim m) x e) (consume_covers xs ms zs g b)
      ]

  -- After a reclaim and a consume without a limit that both succeed, every message is claimed, and is
  -- among what the two have presented, under its id and its count of deliveries.
  pub drained-held :
      (s : InboxState) (xs ys : List Delivered)
      → (reclaim p s).0 ≡ ok xs
      → (consume p none (reclaim p s).1).0 ≡ ok ys
      → all (is_held (xs ++ ys)) (consume p none (reclaim p s).1).1.messages ≡ true
  unfolding reclaim consume
  drained-held s xs ys h k =
      consume_covers xs (reclaim_from p s.messages).1 ys k (reclaim_covers s.messages xs h)
