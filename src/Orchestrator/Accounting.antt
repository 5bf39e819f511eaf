-- ===== src/Orchestrator/Accounting.antt =====
-- What the merge point records of a batch: every data point is audited or counted, and archived.
use orcastork.Archive
use orcastork.Audit
use mathlib.Core.List.{append-nil}
use orcastork.Archive.Buffering.{sealed_row, archive-buffer, archive_many-buffer}
use orcastork.Audit.Batches.{append-committed, append_many-committed}
use orcastork.Orchestrator.Ports.{on_audit-eq-ok, on_archive-eq-ok, on_mirror-eq-ok}
use orcastork.Orchestrator.Merging.{
  append_audit_entries, archive_entries, merge_bookkeeping, merge_emissions, points_of,
}
use orcastork.Mirror
use orcastork.Base.Dict.{Dict, get, get-put}
use orcastork.Base.{
  map, pure, sym, ◌>>=◌, ◌>>◌, >>=-eq-ok, ok-inj, refl, ap, ◌∙◌, string_eq, Bool, List, Option,
  String, [], arith, eq_iff, false, none, ok, some, true, ℕ, ◌++◌, ◌+◌, ◌==◌, ◌∷◌, ◌≡◌,
}
use orcastork.Audit.Models.{AuditInfo, AuditKind, data_point, data_point_added, AuditLogEntry}
use orcastork.DataPoint.{DataPoint}
use orcastork.DataPoint.Collection.{MergeResult}
use orcastork.Archive.{ArchivedDataPoint}
use orcastork.Orchestrator.State.{on_mirror, Flow, Settings, Session}
use orcastork.Orchestrator.Merging.{
  archive_entries, append_audit_entries, archive_rows, account, data_point_audit_entry, Emitted,
  count_one, or_zero, audit_rows, check_emission_declared,
}

-- The rows that audit a data point of the type.
abbrev info_type : AuditKind → AuditInfo → Option String
info_type data_point_added (data_point i) = some i.data_point_type
info_type _ _ = none

abbrev one_if : Bool → ℕ
one_if true = 1
one_if false = 0

abbrev is_type : String → Option String → ℕ
is_type t none = 0
is_type t (some u) = one_if (u == t)

abbrev pub rows_of : String → List AuditLogEntry → ℕ
rows_of t [] = 0
rows_of t (row ∷ rows) = is_type t (info_type row.kind row.info) + rows_of t rows

abbrev pub held : String → Session → ℕ
held t s = or_zero (get t s.coalesced_audits) + or_zero (get t s.reobserved_audits)

abbrev pub emitted_of : String → List Emitted → ℕ
emitted_of t [] = 0
emitted_of t (e ∷ es) = one_if (e.data_point.type == t) + emitted_of t es

pub rows_of-append :
    (t : String) (xs ys : List AuditLogEntry) → rows_of t (xs ++ ys) ≡ rows_of t xs + rows_of t ys
rows_of-append t [] ys = omega arith
rows_of-append t (x ∷ xs) ys = omega (arith, rows_of-append t xs ys)

count_one-get :
    (t u : String) (counter : Dict String ℕ)
    → or_zero (get t (count_one u counter)) ≡ or_zero (get t counter) + one_if (u == t)
unfolding count_one
count_one-get t u counter =
    ground (arith, get-put u t (or_zero (get u counter) + 1) counter, eq_iff u t)

-- What neither the checks nor the counters touch.
record Recorded (s s' : Session) : Type 0 where
  audit : s'.audit ≡ s.audit
  archive : s'.archive ≡ s.archive
  now : s'.now ≡ s.now
  cipher : s'.audit_cipher ≡ s.audit_cipher

module _ (f : Flow) (self : Settings) where
  check-held :
      (o : Option String) (d : DataPoint) (t : String) (s : Session) {s' : Session}
      → check_emission_declared f self o d s ≡ (ok tt, s')
      → (held t s' ≡ held t s) × Recorded s s'
  unfolding check_emission_declared
  check-held none d t s h = ground arith
  check-held (some o) d t s h = ground arith

  audit_rows-held :
      (e : Emitted) (o : MergeResult) (epoch : ℕ) (t : String) (s : Session)
      {rows : List AuditLogEntry} {s' : Session}
      → audit_rows f self e o epoch s ≡ (ok rows, s')
      → (rows_of t rows + held t s' ≡ held t s + one_if (e.data_point.type == t)) × Recorded s s'
  unfolding audit_rows data_point_audit_entry
  audit_rows-held e o epoch t s h = ground (
    arith,
    count_one-get t e.data_point.type s.coalesced_audits,
    count_one-get t e.data_point.type s.reobserved_audits,
  )

  -- The archive's documents of a batch, in its order.
  abbrev pub documents : ℕ → List Emitted → List ArchivedDataPoint
  documents epoch [] = []
  documents epoch (e ∷ es) = archive_rows f self e epoch ++ documents epoch es

  record Accounted (t : String) (epoch : ℕ) (es : List Emitted) (s s' : Session)
      (rows : List AuditLogEntry × List ArchivedDataPoint) : Type 0 where
    counted : rows_of t rows.0 + held t s' ≡ held t s + emitted_of t es
    archived : rows.1 ≡ documents epoch es
    recorded : Recorded s s'

  account_step :
      (e : Emitted) (es : List Emitted) (epoch : ℕ) (t : String) (s s₁ s₂ s' : Session)
      (xs : List AuditLogEntry) (rest : List AuditLogEntry × List ArchivedDataPoint)
      → (held t s₁ ≡ held t s) × Recorded s s₁
      → (rows_of t xs + held t s₂ ≡ held t s₁ + one_if (e.data_point.type == t)) × Recorded s₁ s₂
      → Accounted t epoch es s₂ s' rest
      → Accounted t epoch (e ∷ es) s s' (xs ++ rest.0, archive_rows f self e epoch ++ rest.1)
  account_step e es epoch t s s₁ s₂ s' xs rest (x, p) (y, q) a = record {
    counted = omega (arith, rows_of-append t xs rest.0);
    archived = ap (λ ds. archive_rows f self e epoch ++ ds) a.archived;
    recorded = record {
      audit = a.recorded.audit ∙ (q.audit ∙ p.audit);
      archive = a.recorded.archive ∙ (q.archive ∙ p.archive);
      now = a.recorded.now ∙ (q.now ∙ p.now);
      cipher = a.recorded.cipher ∙ (q.cipher ∙ p.cipher);
    };
  }

  pub account_nil : (epoch : ℕ) (s : Session) → account f self [] [] epoch s ≡ (ok ([], []), s)
  unfolding account
  account_nil epoch s = refl

  pub account_cons :
      (e : Emitted) (es : List Emitted) (o : MergeResult) (os : List MergeResult) (epoch : ℕ)
      (s : Session)
      → account f self (e ∷ es) (o ∷ os) epoch s
        ≡ (do
          check_emission_declared f self e.operator_id e.data_point
          rows ← audit_rows f self e o epoch
          rest ← account f self es os epoch
          pure (rows ++ rest.0, archive_rows f self e epoch ++ rest.1))
            s
  unfolding account
  account_cons e es o os epoch s = refl

  ended :
      (es : List Emitted) (epoch : ℕ) (t : String) (s s₁ s₂ : Session)
      (xs ys : List AuditLogEntry × List ArchivedDataPoint)
      → xs ≡ ys
      → s₁ ≡ s₂
      → Accounted t epoch es s s₁ xs
      → Accounted t epoch es s s₂ ys
  ended es epoch t s s₁ s₂ xs ys x y a = rw (← x) (rw (← y) a)

  account-Accounted :
      (es : List Emitted) (os : List MergeResult) (epoch : ℕ) (t : String) (s : Session)
      {rows : List AuditLogEntry × List ArchivedDataPoint} {s' : Session}
      → account f self es os epoch s ≡ (ok rows, s')
      → Accounted t epoch es s s' rows
  account-Accounted [] [] epoch t s {rows} h =
      let (x, y) = ok-inj (sym (account_nil epoch s) ∙ h) in
      rw (← x) (
        rw (← y) (record {
          counted = omega arith;
          archived = refl;
          recorded = record { audit = refl; archive = refl; now = refl; cipher = refl };
        }))
  account-Accounted [] (o ∷ os) epoch t s h = unfold account in absurd (ground arith)
  account-Accounted (e ∷ es) [] epoch t s h = unfold account in absurd (ground arith)
  account-Accounted (e ∷ es) (o ∷ os) epoch t s {rows} {s'} h =
      let (_, s₁, p, h₁) =
        >>=-eq-ok (check_emission_declared f self e.operator_id e.data_point) _ s
          (sym (account_cons e es o os epoch s) ∙ h) in
      let (xs, s₂, q, h₂) = >>=-eq-ok (audit_rows f self e o epoch) _ s₁ h₁ in
      let (rest, s₃, r, h₃) = >>=-eq-ok (account f self es os epoch) _ s₂ h₂ in
      let (x, y) = ok-inj h₃ in
      ended (e ∷ es) epoch t s s₃ s' _ rows x y (
        account_step e es epoch t s s₁ s₂ s₃ xs rest (check-held e.operator_id e.data_point t s p)
          (audit_rows-held e o epoch t s₁ q) (account-Accounted es os epoch t s₂ r))

  -- What the two sinks do with a batch's rows.
  append_audit-committed :
      (rows : List AuditLogEntry) (s : Session) {s' : Session}
      → append_audit_entries f self rows s ≡ (ok tt, s')
      → (s'.audit.committed ≡ s.audit.committed ++ rows) × (s' ≡ record s { audit = s'.audit })
  unfolding append_audit_entries
  append_audit-committed [] s h =
      let (_, e) = ok-inj h in (rw (← e) (sym (append-nil s.audit.committed)), rw (← e))
  append_audit-committed (row ∷ []) s h =
      let (p, q) = on_audit-eq-ok (Audit.append row) s h in (append-committed row s.audit p, q)
  append_audit-committed (row ∷ more ∷ rows) s h =
      let (p, q) = on_audit-eq-ok (Audit.append_many (row ∷ more ∷ rows)) s h in
      (append_many-committed (row ∷ more ∷ rows) s.audit p, q)

  archive_entries-buffer :
      (rows : List ArchivedDataPoint) (s : Session) {s' : Session}
      → archive_entries f self rows s ≡ (ok tt, s')
      → (s'.archive.buffer ≡ s.archive.buffer ++ map (sealed_row self.codec) rows)
        × (s' ≡ record s { archive = s'.archive })
  unfolding archive_entries
  archive_entries-buffer [] s h =
      let (_, e) = ok-inj h in (rw (← e) (sym (append-nil s.archive.buffer)), rw (← e))
  archive_entries-buffer (row ∷ []) s h =
      let (p, q) = on_archive-eq-ok (Archive.archive self.codec row) s h in
      (archive-buffer self.codec row s.archive p, q)
  archive_entries-buffer (row ∷ more ∷ rows) s h =
      let (p, q) = on_archive-eq-ok (Archive.archive_many self.codec (row ∷ more ∷ rows)) s h in
      (archive_many-buffer self.codec (row ∷ more ∷ rows) s.archive p, q)

  -- The data points of a type that the audit log or a counter accounts for.
  abbrev pub tracked : String → Session → ℕ
  tracked t s = rows_of t s.audit.committed + held t s

  record Booked (t : String) (epoch : ℕ) (es : List Emitted) (s s' : Session) : Type 0 where
    counted : tracked t s' ≡ tracked t s + emitted_of t es
    archived :
        s'.archive.buffer ≡ s.archive.buffer ++ map (sealed_row self.codec) (documents epoch es)

  booked :
      (es : List Emitted) (epoch : ℕ) (t : String) (s s₁ s₂ s' : Session)
      (rows : List AuditLogEntry × List ArchivedDataPoint)
      → Accounted t epoch es s s₁ rows
      → (s₂.audit.committed ≡ s₁.audit.committed ++ rows.0) × (s₂ ≡ record s₁ { audit = s₂.audit })
      → (s'.archive.buffer ≡ s₂.archive.buffer ++ map (sealed_row self.codec) rows.1)
        × (s' ≡ record s₂ { archive = s'.archive })
      → Booked t epoch es s s'
  booked es epoch t s s₁ s₂ s' rows a (p, p') (q, q') = record {
    counted = omega (
      arith,
      ap (tracked t) q',
      ap (held t) p',
      ap (rows_of t) p,
      rows_of-append t s₁.audit.committed rows.0,
      ap (λ a. rows_of t a.committed) a.recorded.audit,
      a.counted,
    );
    archived =
        q
        ∙ (ap (λ x. x.archive.buffer ++ map (sealed_row self.codec) rows.1) p'
            ∙ (ap (λ x. x.buffer ++ map (sealed_row self.codec) rows.1) a.recorded.archive
                ∙ ap (λ l. s.archive.buffer ++ map (sealed_row self.codec) l) a.archived));
  }

  bookkeeping-Booked :
      (es : List Emitted) (os : List MergeResult) (epoch : ℕ) (t : String) (s : Session)
      {s' : Session}
      → merge_bookkeeping f self es os epoch s ≡ (ok tt, s')
      → Booked t epoch es s s'
  unfolding merge_bookkeeping
  bookkeeping-Booked es os epoch t s {s'} h =
      let (rows, s₁, p, h₁) = >>=-eq-ok (account f self es os epoch) _ s h in
      let (_, s₂, q, r) = >>=-eq-ok (append_audit_entries f self rows.0) _ s₁ h₁ in
      booked es epoch t s s₁ s₂ s' rows (account-Accounted es os epoch t s p)
        (append_audit-committed rows.0 s₁ q) (archive_entries-buffer rows.1 s₂ r)

  -- A batch whose merge returns is accounted for: the rows of each type, with the two counts of the
  -- type, have grown by the batch's data points of that type; and the archive has buffered exactly
  -- the sealed documents of the data points that are not ephemeral, in the batch's order.
  pub merge_emissions-tracked :
      (es : List Emitted) (epoch : ℕ) (t : String) (s : Session) {s' : Session}
      → merge_emissions f self es epoch s ≡ (ok tt, s')
      → (tracked t s' ≡ tracked t s + emitted_of t es)
        × (s'.archive.buffer ≡ s.archive.buffer ++ map (sealed_row self.codec) (documents epoch es))
  unfolding merge_emissions
  merge_emissions-tracked [] epoch t s h =
      let (_, e) = ok-inj h in
      (rw (← e) (omega arith), rw (← e) (sym (append-nil s.archive.buffer)))
  merge_emissions-tracked (e ∷ es) epoch t s {s'} h =
      let (result, s₁, p, h₁) =
        >>=-eq-ok (on_mirror (Mirror.write (points_of f self (e ∷ es)) epoch)) _ s h in
      let (_, same) = on_mirror-eq-ok (Mirror.write (points_of f self (e ∷ es)) epoch) s p in
      let b = bookkeeping-Booked (e ∷ es) result.1 epoch t s₁ h₁ in
      (
        omega (arith, b.counted, ap (tracked t) same),
        b.archived
            ∙ ap (λ x. x.archive.buffer ++ map (sealed_row self.codec) (documents epoch (e ∷ es)))
                same,
      )
