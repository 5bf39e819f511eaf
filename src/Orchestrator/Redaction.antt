-- ===== src/Orchestrator/Redaction.antt =====
-- What the audit log can tell of a value that is personal data.
use orcastork.Audit.{AuditState}
use orcastork.Orchestrator.Merging.{append_audit_entries, archive_entries, merge_bookkeeping}
use orcastork.DataPoint.Collection.{MergeResult}
use orcastork.Archive.{ArchivedDataPoint}
use orcastork.Orchestrator.State.{Method}
use orcastork.Orchestrator.Merging.{account, archive_rows}
use orcastork.Orchestrator.Accounting.{account_cons}
use orcastork.Audit.Models.{AuditLogEntry, data_point, data_point_added}
use orcastork.Orchestrator.Merging.{
  check_emission_declared, data_point_audit_entry, audit_rows, is_updated, count_one,
}
use orcastork.Base.{
  sym, ◌>>◌, Result, ap, continue, pure, raise, refl, ◌++◌, ◌>>=◌, ◌∙◌, if◌then◌else◌, ok, ℕ, Bool,
  Bool-cases, List, Option, [], arith, false, inl, inr, none, not, some, ◌∷◌, ◌≡◌,
}
use orcastork.Orchestrator.State.{Session, Flow, Settings, ValueCipher}
use orcastork.Orchestrator.Merging.{Emitted, summary_of}

-- Whether `_data_point_audit_entry` encrypts with this cipher.
abbrev pub seals : Option ValueCipher → Bool
seals none = false
seals (some cipher) = not cipher.is_null

module _ (f : Flow) (self : Settings) where
  -- The data points may differ, but for what may be seen: the value only if it is personal data and their
  -- own `audit_summary` does not show it, and the times and the provenance.
  pub record IsAlike (e e' : Emitted) : Type 0 where
    pub operator_id : e.operator_id ≡ e'.operator_id
    pub cls : e.data_point.cls ≡ e'.data_point.cls
    pub type : e.data_point.type ≡ e'.data_point.type
    pub summary : f.audit_summary e.data_point ≡ f.audit_summary e'.data_point
    pub value : (f.config e.data_point.cls).pii ≡ false → e.data_point.value ≡ e'.data_point.value

  abbrev pub AreAlike : List Emitted → List Emitted → Type 0
  AreAlike [] [] = Unit
  AreAlike [] (e ∷ es) = ⊥
  AreAlike (e ∷ es) [] = ⊥
  AreAlike (e ∷ es) (e' ∷ es') = IsAlike e e' × AreAlike es es'

  same_summary :
      (cipher : Option ValueCipher) (e e' : Emitted)
      → seals cipher ≡ false
      → IsAlike e e'
      → summary_of f self cipher e.data_point ≡ summary_of f self cipher e'.data_point
  unfolding summary_of
  same_summary none e e' n a = elim (Bool-cases (f.config e.data_point.cls).pii) [
    | inl secret ↦ ground (arith, a.summary, a.cls)
    | inr plain ↦ ground (arith, a.summary, a.cls, a.value plain)
  ]
  same_summary (some cipher) e e' n a = elim (Bool-cases (f.config e.data_point.cls).pii) [
    | inl secret ↦ ground (arith, a.summary, a.cls)
    | inr plain ↦ ground (arith, a.summary, a.cls, a.value plain)
  ]

  same_row :
      (e e' : Emitted) (epoch : ℕ) (s : Session)
      → seals s.audit_cipher ≡ false
      → IsAlike e e'
      → data_point_audit_entry f self e.data_point e.operator_id epoch s
        ≡ data_point_audit_entry f self e'.data_point e'.operator_id epoch s
  unfolding data_point_audit_entry
  same_row e e' epoch s n a =
      let same = same_summary s.audit_cipher e e' n a in
      λ i. record {
        session_id = self.session_id;
        namespace_id = some self.namespace_id;
        epoch = epoch;
        timestamp = s.now;
        operator_id = a.operator_id i;
        kind = data_point_added;
        info = data_point (record { data_point_type = a.type i; summary = same i });
      }

  same_rows :
      (e e' : Emitted) (o : MergeResult) (epoch : ℕ) (s : Session)
      → seals s.audit_cipher ≡ false
      → IsAlike e e'
      → audit_rows f self e o epoch s ≡ audit_rows f self e' o epoch s
  unfolding audit_rows
  same_rows e e' o epoch s n a =
      let row = same_row e e' epoch s n a in
      λ i.
        if not (f.config (a.cls i)).audit_every_emission
        then (ok [], record s { coalesced_audits = count_one (a.type i) s.coalesced_audits })
        else if is_updated o.kind
        then (ok [], record s { reobserved_audits = count_one (a.type i) s.reobserved_audits })
        else (ok (row i ∷ []), s)

  same_check :
      (e e' : Emitted) (s : Session)
      → IsAlike e e'
      → check_emission_declared f self e.operator_id e.data_point s
        ≡ check_emission_declared f self e'.operator_id e'.data_point s
  unfolding check_emission_declared
  same_check e e' s a = ground (arith, a.operator_id, a.cls, a.type)

  keeps_cipher :
      (e : Emitted) (o : MergeResult) (epoch : ℕ) (s : Session)
      → ((check_emission_declared f self e.operator_id e.data_point s).1.audit_cipher
          ≡ s.audit_cipher)
        × ((audit_rows f self e o epoch s).1.audit_cipher ≡ s.audit_cipher)
  unfolding check_emission_declared audit_rows
  keeps_cipher e o epoch s = (ground arith, ground arith)

  abbrev Rows : Type 0
  Rows = List AuditLogEntry × List ArchivedDataPoint

  -- An outcome of `account`, without the archive's documents.
  abbrev seen : Result Rows × Session → Result (List AuditLogEntry) × Session
  seen (ok rows, s) = (ok rows.0, s)
  seen (raise e, s) = (raise e, s)

  after_rest :
      (r r' : Result Rows × Session) (xs : List AuditLogEntry) (ds ds' : List ArchivedDataPoint)
      → seen r ≡ seen r'
      → seen (continue r.0 (λ rest. pure (xs ++ rest.0, ds ++ rest.1)) r.1)
        ≡ seen (continue r'.0 (λ rest. pure (xs ++ rest.0, ds' ++ rest.1)) r'.1)
  after_rest (ok rows, s) (ok rows', s') xs ds ds' h = ground arith
  after_rest (ok rows, s) (raise e, s') xs ds ds' h = absurd (ground arith)
  after_rest (raise e, s) (ok rows', s') xs ds ds' h = absurd (ground arith)
  after_rest (raise e, s) (raise e', s') xs ds ds' h = h

  module _ (epoch : ℕ) (es es' : List Emitted) (os : List MergeResult)
      (same_rest : (s : Session)
        → seals s.audit_cipher ≡ false
        → seen (account f self es os epoch s) ≡ seen (account f self es' os epoch s))
      (e e' : Emitted) (o : MergeResult) (a : IsAlike e e') where
    abbrev rest_of : Emitted → List Emitted → List AuditLogEntry → Method Rows
    rest_of e es rows = do
      rest ← account f self es os epoch
      pure (rows ++ rest.0, archive_rows f self e epoch ++ rest.1)

    after_rows :
        (r : Result (List AuditLogEntry) × Session)
        → seals r.1.audit_cipher ≡ false
        → seen (continue r.0 (rest_of e es) r.1) ≡ seen (continue r.0 (rest_of e' es') r.1)
    after_rows (ok xs, s) n =
        after_rest (account f self es os epoch s) (account f self es' os epoch s) xs
          (archive_rows f self e epoch) (archive_rows f self e' epoch) (same_rest s n)
    after_rows (raise x, s) n = refl

    abbrev rows_then : Emitted → List Emitted → Method Rows
    rows_then e es = audit_rows f self e o epoch >>= rest_of e es

    after_check :
        (r : Result (Unit {0}) × Session)
        → seals r.1.audit_cipher ≡ false
        → seen (continue r.0 (λ _. rows_then e es) r.1)
          ≡ seen (continue r.0 (λ _. rows_then e' es') r.1)
    after_check (ok _, s) n =
        rw (same_rows e e' o epoch s n a)
          (after_rows (audit_rows f self e' o epoch s) (ap seals (keeps_cipher e' o epoch s).1 ∙ n))
    after_check (raise x, s) n = refl

    same_step :
        (s : Session)
        → seals s.audit_cipher ≡ false
        → seen (account f self (e ∷ es) (o ∷ os) epoch s)
          ≡ seen (account f self (e' ∷ es') (o ∷ os) epoch s)
    same_step s n =
        rw
          (
            account_cons f self e es o os epoch s,
            account_cons f self e' es' o os epoch s,
            same_check e e' s a,
          )
          (after_check (check_emission_declared f self e'.operator_id e'.data_point s)
            (ap seals (keeps_cipher e' o epoch s).0 ∙ n))

  account-seen :
      (es es' : List Emitted) (os : List MergeResult) (epoch : ℕ) (s : Session)
      → AreAlike es es'
      → seals s.audit_cipher ≡ false
      → seen (account f self es os epoch s) ≡ seen (account f self es' os epoch s)
  account-seen [] [] os epoch s a n = refl
  account-seen [] (e' ∷ es') os epoch s a n = absurd a
  account-seen (e ∷ es) [] os epoch s a n = absurd a
  account-seen (e ∷ es) (e' ∷ es') [] epoch s a n = unfold account in refl
  account-seen (e ∷ es) (e' ∷ es') (o ∷ os) epoch s a n =
      same_step epoch es es' os (λ t k. account-seen es es' os epoch t a.1 k) e e' o a.0 s n

  abbrev logged : Result (List AuditLogEntry) × Session → AuditState
  logged (ok rows, s) = (append_audit_entries f self rows s).1.audit
  logged (raise e, s) = s.audit

  archive_keeps :
      (ds : List ArchivedDataPoint) (s : Session) → (archive_entries f self ds s).1.audit ≡ s.audit
  unfolding archive_entries
  archive_keeps [] s = refl
  archive_keeps (d ∷ []) s = refl
  archive_keeps (d ∷ d' ∷ ds) s = refl

  after_append :
      (r : Result (Unit {0}) × Session) (ds : List ArchivedDataPoint)
      → (continue r.0 (λ _. archive_entries f self ds) r.1).1.audit ≡ r.1.audit
  after_append (ok _, s) ds = archive_keeps ds s
  after_append (raise e, s) ds = refl

  after_account :
      (r : Result Rows × Session)
      → (continue r.0
          (λ rows. append_audit_entries f self rows.0 >> archive_entries f self rows.1)
          r.1).1.audit
        ≡ logged (seen r)
  after_account (ok rows, s) = after_append (append_audit_entries f self rows.0 s) rows.1
  after_account (raise e, s) = refl

  -- While no cipher seals, and with the same outcomes of the merge: two batches whose data points agree
  -- in class, type and operator, in what their own audit_summary says, and in the value unless it is
  -- personal data, leave the same audit log, also when they raise.
  pub merge_bookkeeping-redacted :
      (es es' : List Emitted) (os : List MergeResult) (epoch : ℕ) (s : Session)
      → AreAlike es es'
      → seals s.audit_cipher ≡ false
      → (merge_bookkeeping f self es os epoch s).1.audit
        ≡ (merge_bookkeeping f self es' os epoch s).1.audit
  unfolding merge_bookkeeping
  merge_bookkeeping-redacted es es' os epoch s a n =
      after_account (account f self es os epoch s)
      ∙ (ap logged (account-seen es es' os epoch s a n)
          ∙ sym (after_account (account f self es' os epoch s)))
