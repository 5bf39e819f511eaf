-- ===== src/Audit/Batches.antt =====
-- A batch of one writer's entries lands whole or not at all.
use orcastork.Base.{
  >>=-eq-ok, ◌>>◌, and-true, ap, arith, if_false, inl, inr, le→ltb_false, ltb, lt→ltb, refl, sym,
  ◌∙◌, Bool, List, [], all, nat_beq, ok, raise, stale_epoch, true, ℕ, ◌++◌, ◌<◌, ◌∷◌, ◌≡◌, ◌≤◌, ◌⊎◌,
}
use native.Mathlib.Decide.{dec_lt}
use mathlib.Core.List.{append_assoc, append-nil}
use orcastork.Audit.Models.{AuditLogEntry}
use orcastork.Audit.{AuditState, append, append_many}

nat_same : (a b : ℕ) → nat_beq a b ≡ true → a ≡ b
nat_same a b h = ground arith

module _ (epoch : ℕ) where
  abbrev pub of_epoch : AuditLogEntry → Bool
  of_epoch entry = nat_beq entry.epoch epoch

  append_live :
      (entry : AuditLogEntry) (s : AuditState)
      → of_epoch entry ≡ true
      → s.max_epoch ≤ epoch
      → append entry s
        ≡ (ok tt, record { committed = s.committed ++ entry ∷ []; max_epoch = epoch })
  unfolding append
  append_live entry s e h =
      let same = nat_same entry.epoch epoch e in
      rw (same) (if_false (ltb epoch s.max_epoch) _ _ (le→ltb_false epoch s.max_epoch h))

  append_many_live :
      (entries : List AuditLogEntry) (s : AuditState)
      → all of_epoch entries ≡ true
      → s.max_epoch ≡ epoch
      → append_many entries s
        ≡ (ok tt, record { committed = s.committed ++ entries; max_epoch = epoch })
  unfolding all append_many
  append_many_live [] s h e = rw (append-nil s.committed, sym e) refl
  append_many_live (entry ∷ entries) s h e =
      let (x, y) = and-true (of_epoch entry) _ h in
      rw (append_live entry s x (omega (arith, e))) (
        append_many_live entries
          (record { committed = s.committed ++ entry ∷ []; max_epoch = epoch }) y refl
        ∙ ap (λ l. (ok tt, record { committed = l; max_epoch = epoch }))
            (append_assoc s.committed (entry ∷ []) entries))

  whole :
      (entry : AuditLogEntry) (entries : List AuditLogEntry) (s : AuditState)
      → of_epoch entry ≡ true
      → all of_epoch entries ≡ true
      → s.max_epoch ≤ epoch
      → append_many (entry ∷ entries) s
        ≡ (ok tt, record { committed = s.committed ++ entry ∷ entries; max_epoch = epoch })
  unfolding append_many
  whole entry entries s x y h = rw (append_live entry s x h) (
      append_many_live entries (record { committed = s.committed ++ entry ∷ []; max_epoch = epoch })
        y refl
      ∙ ap (λ l. (ok tt, record { committed = l; max_epoch = epoch }))
          (append_assoc s.committed (entry ∷ []) entries))

  -- A batch under one epoch: if the epoch is not stale, the batch lands whole, after what was there
  -- and in its order; if it is stale, and the batch is not empty, the call raises and nothing lands.
  pub append_many-atomic :
      (entry : AuditLogEntry) (entries : List AuditLogEntry) (s : AuditState)
      → all of_epoch (entry ∷ entries) ≡ true
      → ((s.max_epoch ≤ epoch)
          × (append_many (entry ∷ entries) s
              ≡ (ok tt, record { committed = s.committed ++ entry ∷ entries; max_epoch = epoch })))
        ⊎ ((epoch < s.max_epoch) × (append_many (entry ∷ entries) s ≡ (raise stale_epoch, s)))
  unfolding all append_many append
  append_many-atomic entry entries s h =
      let (x, y) = and-true (of_epoch entry) _ h in
      elim (dec_lt epoch s.max_epoch) [
        | yes p ↦ inr (p, rw (nat_same entry.epoch epoch x, lt→ltb epoch s.max_epoch p) refl)
        | no p ↦ inl (omega arith, whole entry entries s x y (omega arith))
      ]

-- What a call that returns has appended, under whatever epochs.
pub append-committed :
    (entry : AuditLogEntry) (s : AuditState) {s' : AuditState}
    → append entry s ≡ (ok tt, s')
    → s'.committed ≡ s.committed ++ entry ∷ []
unfolding append
append-committed entry s h = ground arith

nothing_appended : (s : AuditState) {s' : AuditState} → append_many [] s ≡ (ok tt, s') → s ≡ s'
unfolding append_many
nothing_appended s h = ground arith

append_many_cons :
    (entry : AuditLogEntry) (entries : List AuditLogEntry) (s : AuditState)
    → append_many (entry ∷ entries) s ≡ (append entry >> append_many entries) s
unfolding append_many
append_many_cons entry entries s = refl

pub append_many-committed :
    (entries : List AuditLogEntry) (s : AuditState) {s' : AuditState}
    → append_many entries s ≡ (ok tt, s')
    → s'.committed ≡ s.committed ++ entries
append_many-committed [] s h = rw (← (nothing_appended s h)) (sym (append-nil s.committed))
append_many-committed (entry ∷ entries) s h =
    let (_, t, p, q) = >>=-eq-ok (append entry) _ s (sym (append_many_cons entry entries s) ∙ h) in
    append_many-committed entries t q
    ∙ (ap (λ l. l ++ entries) (append-committed entry s p)
        ∙ append_assoc s.committed (entry ∷ []) entries)
