-- ===== src/Domain/Telemetry.antt =====
-- AuthorizationAttempt, MeterValue and OcppProtocolEvent of schema.prisma, which are only appended.
use Prim.Native.String.{String}
use forgeos_web.Base.{ℕ, Option}
use forgeos_web.Base.Decimal.{Decimal}
use forgeos_web.Base.Int.{ℤ}
use forgeos_web.Domain.Session.{ProtocolVersion}
use forgeos_web.Ocpp.Frame.{Value}

pub data AuthAttemptResult : Type 0 where
  accepted rejected expired revoked unknown offline_accepted : AuthAttemptResult

pub record AuthorizationAttempt : Type 0 where
  pub organization_id : ℕ
  pub charging_station_id : ℕ
  pub evse_id : Option ℕ
  pub connector_id : Option ℕ
  pub authorization_credential_id : Option ℕ
  pub presented_identifier : String
  pub result : AuthAttemptResult

pub record MeterValue : Type 0 where
  pub session_id : ℕ
  pub timestamp : ℕ
  pub energy_wh : ℤ
  pub power_w : Option ℤ
  pub voltage : Option Decimal
  pub current : Option Decimal
  pub frequency : Option Decimal
  pub temperature : Option Decimal

pub data OcppMessageDirection : Type 0 where
  inbound outbound : OcppMessageDirection

pub data OcppMessageType : Type 0 where
  call call_result call_error : OcppMessageType

pub data OcppProcessingStatus : Type 0 where
  received processed unsupported rejected failed : OcppProcessingStatus

pub record OcppProtocolEvent : Type 0 where
  pub charging_station_id : Option ℕ
  pub protocol_version : ProtocolVersion
  pub direction : OcppMessageDirection
  pub message_type : OcppMessageType
  pub action : Option String
  pub protocol_message_id : Option String
  pub payload : Value
  pub processing_status : OcppProcessingStatus
  pub processing_error : Option String
  pub correlation_id : Option String
