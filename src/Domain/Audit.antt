-- ===== src/Domain/Audit.antt =====
-- The audit events that the modelled services record.
use forgeos_web.Base.{ℕ}

pub data AuditAction : Type 0 where
  session_abandoned_on_new_transaction session_moved_offline : AuditAction
  session_recovery_rejected session_recovered : AuditAction
  station_connectivity_connected station_connectivity_reconnected : AuditAction
  station_connectivity_stale station_connectivity_disconnected : AuditAction
  remote_command_requested remote_command_sent remote_command_accepted : AuditAction
  remote_command_rejected remote_command_timed_out : AuditAction
  remote_command_confirmed remote_command_unconfirmed : AuditAction
  membership_created membership_updated : AuditAction

pub record AuditEvent : Type 0 where
  pub action : AuditAction
  pub subject_id : ℕ
