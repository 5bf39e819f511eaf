-- ===== src/Orchestrator/Ports.antt =====
-- A call of a port that returns: what the port has become, and that nothing else has changed.
use orcastork.Audit.{AuditState}
use orcastork.Archive.{ArchiveState}
use orcastork.Inbox.{InboxState}
use orcastork.Mirror.{World}
use orcastork.Orchestrator.State.{Session, on_audit, on_archive, on_inbox, on_mirror}
use orcastork.Base.{arith, Exec, ok, ◌≡◌}

module _ {A : Type 0} where
  pub on_audit-eq-ok :
      (op : Exec AuditState A) (s : Session) {a : A} {s' : Session}
      → on_audit op s ≡ (ok a, s')
      → (op s.audit ≡ (ok a, s'.audit)) × (s' ≡ record s { audit = s'.audit })
  on_audit-eq-ok op s h = (ground arith, ground arith)

  pub on_archive-eq-ok :
      (op : Exec ArchiveState A) (s : Session) {a : A} {s' : Session}
      → on_archive op s ≡ (ok a, s')
      → (op s.archive ≡ (ok a, s'.archive)) × (s' ≡ record s { archive = s'.archive })
  on_archive-eq-ok op s h = (ground arith, ground arith)

  pub on_inbox-eq-ok :
      (op : Exec InboxState A) (s : Session) {a : A} {s' : Session}
      → on_inbox op s ≡ (ok a, s')
      → (op s.inbox ≡ (ok a, s'.inbox)) × (s' ≡ record s { inbox = s'.inbox })
  on_inbox-eq-ok op s h = (ground arith, ground arith)

  pub on_mirror-eq-ok :
      (op : Exec World A) (s : Session) {a : A} {s' : Session}
      → on_mirror op s ≡ (ok a, s')
      → (op s.world ≡ (ok a, s'.world)) × (s' ≡ record s { world = s'.world })
  on_mirror-eq-ok op s h = (ground arith, ground arith)
