-- ===== src/Orchestrator/Keeping.antt =====
-- What a merge leaves alone, whatever its outcome: the inbox.
use orcastork.Base.{
  Result, continue, refl, ◌∙◌, ok, ℕ, List, Option, [], arith, raise, ◌∷◌, ◌≡◌, String,
}
use orcastork.Audit.Models.{AuditLogEntry}
use orcastork.Archive.{ArchivedDataPoint}
use orcastork.Inbox.{InboxState}
use orcastork.DataPoint.{DataPoint}
use orcastork.DataPoint.Collection.{MergeResult}
use orcastork.Orchestrator.State.{Flow, Settings, Session, Method, on_mirror}
use orcastork.Mirror.{Act}
use orcastork.Orchestrator.Accounting.{account_cons}
use orcastork.Orchestrator.Draining.{absorb, apply_inbox_data_points}
use orcastork.Orchestrator.Merging.{
  Emitted, account, audit_rows, check_emission_declared, append_audit_entries, archive_entries,
  merge_bookkeeping,
}

module _ {A B : Type 0} where
  -- A bind leaves the inbox alone where both of its parts do.
  pub then_keeps :
      (r : Result A × Session) (next : A → Method B) (i : InboxState)
      → r.1.inbox ≡ i
      → ((a : A) (t : Session) → (next a t).1.inbox ≡ t.inbox)
      → (continue r.0 next r.1).1.inbox ≡ i
  then_keeps (ok a, t) next i h k = k a t ∙ h
  then_keeps (raise e, t) next i h k = h

module _ (f : Flow) (self : Settings) where
  check_keeps :
      (operator_id : Option String) (d : DataPoint) (s : Session)
      → (check_emission_declared f self operator_id d s).1.inbox ≡ s.inbox
  unfolding check_emission_declared
  check_keeps operator_id d s = ground arith

  rows_keep :
      (e : Emitted) (o : MergeResult) (epoch : ℕ) (s : Session)
      → (audit_rows f self e o epoch s).1.inbox ≡ s.inbox
  unfolding audit_rows
  rows_keep e o epoch s = ground arith

  account_keeps :
      (es : List Emitted) (os : List MergeResult) (epoch : ℕ) (s : Session)
      → (account f self es os epoch s).1.inbox ≡ s.inbox
  account_keeps [] [] epoch s = unfold account in refl
  account_keeps [] (o ∷ os) epoch s = unfold account in refl
  account_keeps (e ∷ es) [] epoch s = unfold account in refl
  account_keeps (e ∷ es) (o ∷ os) epoch s = rw (account_cons f self e es o os epoch s) (
      then_keeps (check_emission_declared f self e.operator_id e.data_point s) _ s.inbox
        (check_keeps e.operator_id e.data_point s)
        (λ _ t.
          then_keeps (audit_rows f self e o epoch t) _ t.inbox (rows_keep e o epoch t) (λ xs u.
            then_keeps (account f self es os epoch u) _ u.inbox (account_keeps es os epoch u)
              (λ rest v. refl))))

  append_keeps :
      (rows : List AuditLogEntry) (s : Session)
      → (append_audit_entries f self rows s).1.inbox ≡ s.inbox
  unfolding append_audit_entries
  append_keeps [] s = refl
  append_keeps (row ∷ []) s = refl
  append_keeps (row ∷ more ∷ rows) s = refl

  archive_keeps :
      (rows : List ArchivedDataPoint) (s : Session)
      → (archive_entries f self rows s).1.inbox ≡ s.inbox
  unfolding archive_entries
  archive_keeps [] s = refl
  archive_keeps (row ∷ []) s = refl
  archive_keeps (row ∷ more ∷ rows) s = refl

  pub bookkeeping_keeps :
      (es : List Emitted) (os : List MergeResult) (epoch : ℕ) (s : Session)
      → (merge_bookkeeping f self es os epoch s).1.inbox ≡ s.inbox
  unfolding merge_bookkeeping
  bookkeeping_keeps es os epoch s =
      then_keeps (account f self es os epoch s) _ s.inbox (account_keeps es os epoch s) (λ rows t.
        then_keeps (append_audit_entries f self rows.0 t) _ t.inbox (append_keeps rows.0 t)
          (λ _ u. archive_keeps rows.1 u))

  module _ (write : List DataPoint → ℕ → Act (ℕ × List MergeResult)) where
    absorb_keeps : (r : Result (Unit {0}) × Session) → (absorb f self write r).1.inbox ≡ r.1.inbox
    absorb_keeps (ok _, s) = refl
    absorb_keeps (raise e, s) = ground arith

    pub apply_keeps :
        (ds : List DataPoint) (epoch : ℕ) (s : Session)
        → (apply_inbox_data_points f self write ds epoch s).1.inbox ≡ s.inbox
    unfolding apply_inbox_data_points
    apply_keeps ds epoch s =
        then_keeps (on_mirror (write ds epoch) s) _ s.inbox refl
          (λ result t. absorb_keeps _ ∙ bookkeeping_keeps _ result.1 epoch t)
