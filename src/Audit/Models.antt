-- ===== src/Audit/Models.antt =====
-- orcastork/audit/models.py: the rows of the audit log, but for their random `entry_id`.
use orcastork.Base.Dict.{Dict}
use orcastork.Base.{String, ℕ, Option}

pub data AuditKind : Type 0 where
  data_point_added operator_invoked capability_activated capability_invoked : AuditKind
  capability_activation_failed inbox_entry_quarantined session_parked : AuditKind
  flow_drift_detected data_points_coalesced : AuditKind

pub data OperatorOutcome : Type 0 where
  succeeded failed dead_lettered skipped : OperatorOutcome

pub record DataPointAuditInfo : Type 0 where
  pub data_point_type : String
  pub summary : String

pub record OperatorAuditInfo : Type 0 where
  pub outcome : OperatorOutcome
  pub run_count : ℕ
  pub attempt : ℕ
  pub run_seconds : Option ℕ
  pub error : Option String

pub record CapabilityAuditInfo : Type 0 where
  pub capability_id : String
  pub action : Option String
  pub parameters : Dict String String
  pub error : Option String

pub record InboxAuditInfo : Type 0 where
  pub entry_id : String
  pub reason : String
  pub delivery_count : ℕ

pub record FlowAuditInfo : Type 0 where
  pub flow_name : String
  pub stored_fingerprint : String
  pub current_fingerprint : String

-- What an entry is about: the one of its five optional fields that is filled, or none of them.
pub data AuditInfo : Type 0 where
  no_info : AuditInfo
  data_point : DataPointAuditInfo → AuditInfo
  operator : OperatorAuditInfo → AuditInfo
  capability : CapabilityAuditInfo → AuditInfo
  inbox : InboxAuditInfo → AuditInfo
  flow : FlowAuditInfo → AuditInfo

pub record AuditLogEntry : Type 0 where
  pub session_id : String
  pub namespace_id : Option String
  pub epoch : ℕ
  pub timestamp : ℕ
  pub operator_id : Option String
  pub kind : AuditKind
  pub info : AuditInfo
