-- ===== src/EffectGuard/Marks.antt =====
-- What the guard's store calls do to a mark, one case for each way that a call can go.
use orcastork.Base.Dict.{delete, get, get-put, put}
use orcastork.Base.{
  ◌==◌, Bool, Bool-cases, Option, String, arith, false, if_false, if_true, inl, inr, le→ltb_false,
  lt→ltb, nat_beq, none, ok, raise, refl, some, stale_epoch, string_eq, true, ℕ, ◌<◌, ◌≡◌, ◌≤◌,
  ◌||◌, ◌∙◌,
}
use native.Mathlib.Decide.{dec_lt}
use orcastork.Store.{SessionState, EffectState, pending, committed, corrupt, guard_epoch}
use orcastork.Store.Effects.{
  EffectClaim, acquired, already_committed, pending_same_epoch, pending_stale_epoch, is_committed,
  claim_effect, claim_on, commit_effect, revert_effect, owned_by,
}
use orcastork.EffectGuard.{is_acquired}

abbrev pub under : ℕ → SessionState → SessionState
under epoch s = record s { max_epoch = epoch }

pub claim_live :
    (key : String) (epoch : ℕ) (reclaim_stale : Bool) (s : SessionState)
    → s.max_epoch ≤ epoch
    → claim_effect key epoch reclaim_stale s
      ≡ claim_on (get key s.effects) key epoch reclaim_stale (under epoch s)
unfolding claim_effect guard_epoch
claim_live key epoch reclaim_stale s h = rw (le→ltb_false epoch s.max_epoch h) refl

pub claim_stale :
    (key : String) (epoch : ℕ) (reclaim_stale : Bool) (s : SessionState)
    → epoch < s.max_epoch
    → claim_effect key epoch reclaim_stale s ≡ (raise stale_epoch, s)
unfolding claim_effect guard_epoch
claim_stale key epoch reclaim_stale s h = rw (lt→ltb epoch s.max_epoch h) refl

-- A claim on one key leaves the mark of another.
pub claim_on-mark :
    (k key : String) (epoch : ℕ) (reclaim_stale : Bool) (s : SessionState)
    → (k == key) ≡ false
    → (mark : Option EffectState)
    → get key (claim_on mark k epoch reclaim_stale s).1.effects ≡ get key s.effects
claim_on-mark k key epoch reclaim_stale s h none =
    ground (arith, get-put k key (pending epoch) s.effects)
claim_on-mark k key epoch reclaim_stale s h (some committed) = refl
claim_on-mark k key epoch reclaim_stale s h (some (pending owner)) =
    ground (arith, get-put k key (pending epoch) s.effects)
claim_on-mark k key epoch reclaim_stale s h (some (corrupt text)) =
    ground (arith, get-put k key (pending epoch) s.effects)

-- The mark of the epoch itself, or a commit: neither can be claimed under the epoch.
abbrev pub is_sealed : ℕ → Option EffectState → Bool
is_sealed epoch mark = owned_by epoch mark || is_committed mark

module _ (key : String) (epoch : ℕ) (s : SessionState) where
  abbrev pub pending_at : SessionState
  pending_at = record s { max_epoch = epoch; effects = put key (pending epoch) s.effects }

  -- The three ways that a claim can go.
  pub data Claimed (reclaim_stale : Bool) : Type 0 where
    refused :
        claim_effect key epoch reclaim_stale s ≡ (raise stale_epoch, s) → Claimed reclaim_stale
    kept :
        (answer : EffectClaim)
        → is_acquired answer ≡ false
        → s.max_epoch ≤ epoch
        → claim_effect key epoch reclaim_stale s ≡ (ok answer, under epoch s)
        → Claimed reclaim_stale
    granted :
        claim_effect key epoch reclaim_stale s ≡ (ok acquired, pending_at)
        → s.max_epoch ≤ epoch
        → is_sealed epoch (get key s.effects) ≡ false
        → (reclaim_stale ≡ false → get key s.effects ≡ none)
        → Claimed reclaim_stale

  not_both : {A : Type 0} {b : Bool} → b ≡ true → b ≡ false → A
  not_both p q = absurd (ground arith)

  classify :
      (reclaim_stale : Bool)
      → s.max_epoch ≤ epoch
      → (mark : Option EffectState) → get key s.effects ≡ mark
      → claim_effect key epoch reclaim_stale s
        ≡ claim_on mark key epoch reclaim_stale (under epoch s)
      → Claimed reclaim_stale
  classify reclaim_stale a none h e = granted e a (rw h refl) (λ _. h)
  classify reclaim_stale a (some committed) h e = kept already_committed refl a e
  classify true a (some (corrupt text)) h e = granted e a (rw h refl) (λ p. not_both refl p)
  classify false a (some (corrupt text)) h e = kept pending_stale_epoch refl a e
  classify true a (some (pending owner)) h e = elim (Bool-cases (nat_beq owner epoch)) [
    | inl same ↦ kept pending_same_epoch refl a (e ∙ if_true (nat_beq owner epoch) _ _ same)
    | inr other ↦
        granted (e ∙ if_false (nat_beq owner epoch) _ _ other) a (rw (h, other) refl)
          (λ p. not_both refl p)
  ]
  classify false a (some (pending owner)) h e = elim (Bool-cases (nat_beq owner epoch)) [
    | inl same ↦ kept pending_same_epoch refl a (e ∙ if_true (nat_beq owner epoch) _ _ same)
    | inr other ↦ kept pending_stale_epoch refl a (e ∙ if_false (nat_beq owner epoch) _ _ other)
  ]

  pub Claimed-cases : (reclaim_stale : Bool) → Claimed reclaim_stale
  Claimed-cases reclaim_stale = elim (dec_lt epoch s.max_epoch) [
    | yes p ↦ refused (claim_stale key epoch reclaim_stale s p)
    | no p ↦
        classify reclaim_stale (omega arith) (get key s.effects) refl
          (claim_live key epoch reclaim_stale s (omega arith))
  ]

  -- The three ways that a commit can go, whether it raises or not.
  pub data Committed : Type 0 where
    refused : epoch < s.max_epoch → (commit_effect key epoch s).1 ≡ s → Committed
    kept :
        s.max_epoch ≤ epoch
        → is_sealed epoch (get key s.effects) ≡ false
        → (commit_effect key epoch s).1 ≡ under epoch s
        → Committed
    landed :
        s.max_epoch ≤ epoch
        → is_sealed epoch (get key s.effects) ≡ true
        → (commit_effect key epoch s).1
          ≡ record s { max_epoch = epoch; effects = put key committed s.effects }
        → Committed

  pub Committed-cases : Committed
  unfolding commit_effect guard_epoch
  Committed-cases = elim (dec_lt epoch s.max_epoch) [
    | yes p ↦ refused p (rw (lt→ltb epoch s.max_epoch p) refl)
    | no p ↦ elim (Bool-cases (is_sealed epoch (get key s.effects))) [
      | inl own ↦
          landed (omega arith) own (rw (le→ltb_false epoch s.max_epoch (omega arith), own) refl)
      | inr other ↦
          kept (omega arith) other (rw (le→ltb_false epoch s.max_epoch (omega arith), other) refl)
    ]
  ]

  -- The three ways that a revert can go, whether it raises or not.
  pub data Reverted : Type 0 where
    refused : (revert_effect key epoch s).1 ≡ s → Reverted
    kept : s.max_epoch ≤ epoch → (revert_effect key epoch s).1 ≡ under epoch s → Reverted
    freed :
        s.max_epoch ≤ epoch
        → owned_by epoch (get key s.effects) ≡ true
        → (revert_effect key epoch s).1
          ≡ record s { max_epoch = epoch; effects = delete key s.effects }
        → Reverted

  pub Reverted-cases : Reverted
  unfolding revert_effect guard_epoch
  Reverted-cases = elim (dec_lt epoch s.max_epoch) [
    | yes p ↦ refused (rw (lt→ltb epoch s.max_epoch p) refl)
    | no p ↦ elim (Bool-cases (owned_by epoch (get key s.effects))) [
      | inl own ↦
          freed (omega arith) own (rw (le→ltb_false epoch s.max_epoch (omega arith), own) refl)
      | inr other ↦
          kept (omega arith) (rw (le→ltb_false epoch s.max_epoch (omega arith), other) refl)
    ]
  ]
