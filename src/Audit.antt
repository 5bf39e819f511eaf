-- ===== src/Audit.antt =====
-- orcastork/adapters/memory/audit_sink.py: one session's audit log.
pub mod Models
pub mod Batches
use orcastork.Audit.Models.{AuditLogEntry}
use orcastork.Base.{
  Exec, List, String, [], gets, if◌then◌else◌, ltb, ok, raise, stale_epoch, ℕ, ◌++◌, ◌>>◌, ◌∷◌,
}

pub record AuditState : Type 0 where
  pub committed : List AuditLogEntry
  pub max_epoch : ℕ

abbrev pub fresh : AuditState
fresh = record { committed = []; max_epoch = 0 }

unfoldable pub append : AuditLogEntry → Exec AuditState Unit
append entry s =
    if ltb entry.epoch s.max_epoch
    then (raise stale_epoch, s)
    else (ok tt, record { committed = s.committed ++ entry ∷ []; max_epoch = entry.epoch })

unfoldable pub append_many : List AuditLogEntry → Exec AuditState Unit
unfolding append
append_many [] s = (ok tt, s)
append_many (entry ∷ entries) s = (append entry >> append_many entries) s

unfoldable pub replay : Exec AuditState (List AuditLogEntry)
replay = gets (λ s. s.committed)
