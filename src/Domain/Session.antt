-- ===== src/Domain/Session.antt =====
-- ChargingSession and BillingAccount of schema.prisma.
use forgeos_web.Base.{ℕ, ◌≡◌, ◌↔◌, Bool, true, Option, ◌==◌, arith}
use forgeos_web.Base.Int.{ℤ}

pub data SessionStatus : Type 0 where
  pending authorized starting active suspended offline stopping completed failed cancelled :
      SessionStatus

pub data TerminationReason : Type 0 where
  normal_completion cable_disconnected vehicle_full remote_stop emergency_stop fault :
      TerminationReason
  timeout power_loss station_reboot user_cancelled network_failure unknown : TerminationReason

pub data ProtocolVersion : Type 0 where
  ocpp1_6j ocpp2_0_1 : ProtocolVersion

pub record ChargingSession : Type 0 where
  pub id : ℕ
  pub organization_id : ℕ
  pub site_id : ℕ
  pub charging_station_id : ℕ
  pub evse_id : ℕ
  pub connector_id : ℕ
  pub authorization_credential_id : ℕ
  pub billing_account_id : ℕ
  pub protocol_version : ProtocolVersion
  -- the decimal text of the counter that minted it
  pub protocol_transaction_id : ℕ
  pub status : SessionStatus
  pub termination_reason : Option TerminationReason
  pub meter_start : ℤ
  pub meter_stop : Option ℤ
  pub energy_wh : ℤ
  pub started_at : ℕ
  pub ended_at : Option ℕ
  pub updated_at : ℕ

pub record BillingAccount : Type 0 where
  pub id : ℕ
  pub organization_id : ℕ
  -- `type = 'SYSTEM_DEFAULT'`
  pub system_default : Bool

-- Equality of statuses, by their place in the enumeration.
abbrev ordinal : SessionStatus → ℕ
ordinal pending = 0
ordinal authorized = 1
ordinal starting = 2
ordinal active = 3
ordinal suspended = 4
ordinal offline = 5
ordinal stopping = 6
ordinal completed = 7
ordinal failed = 8
ordinal cancelled = 9

abbrev pub status_eq : SessionStatus → SessionStatus → Bool
status_eq a b = ordinal a == ordinal b

pub status_eq_iff : (a b : SessionStatus) → (status_eq a b ≡ true) ↔ (a ≡ b)
status_eq_iff a b = ground arith
