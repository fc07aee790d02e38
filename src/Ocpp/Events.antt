-- ===== src/Ocpp/Events.antt =====
-- apps/movos-api/src/ocpp/protocol/common/normalized-events.ts: what the adapters hand to the
-- handlers, and what the handlers answer. The text of a JSON number is kept as the number, and a
-- timestamp as its instant.
use Prim.Native.String.{String}
use forgeos_web.Base.{ℕ, Bool, false, Option, none, some, List}
use forgeos_web.Base.Int.{ℤ}
use forgeos_web.Base.Decimal.{Decimal}
use forgeos_web.Base.JsMap.{nat_eq, string_eq}
use forgeos_web.Domain.Session.{ProtocolVersion}

pub data NormalizedDeviceStatus : Type 0 where
  available preparing charging suspended_ev suspended_evse finishing : NormalizedDeviceStatus
  reserved unavailable faulted offline : NormalizedDeviceStatus

pub record MeterSample : Type 0 where
  pub measurand : String
  pub value : Decimal
  pub unit : Option String

pub record DeviceBoot : Type 0 where
  pub vendor : String
  pub model : String
  pub firmware_version : Option String

pub record ConnectorStatusEvent : Type 0 where
  pub connector_external_id : Option Decimal
  pub status : NormalizedDeviceStatus
  pub error_code : Option String
  pub timestamp : ℕ

pub record TransactionStart : Type 0 where
  pub connector_external_id : Decimal
  pub id_tag : String
  pub meter_start : ℤ
  pub timestamp : ℕ
  pub protocol_version : ProtocolVersion

pub record TransactionUpdate : Type 0 where
  pub transaction_ref : Decimal
  pub values : List MeterSample
  pub timestamp : ℕ

pub record TransactionEnd : Type 0 where
  pub transaction_ref : Decimal
  pub meter_stop : ℤ
  pub reason : Option String
  pub timestamp : ℕ

-- The shapes that no adapter makes yet (MeterReading, FirmwareStatus, DiagnosticsStatus) are left out.
pub data NormalizedInboundEvent : Type 0 where
  device_boot : DeviceBoot → NormalizedInboundEvent
  heartbeat : NormalizedInboundEvent
  connector_status : ConnectorStatusEvent → NormalizedInboundEvent
  authorization : (id_tag : String) → NormalizedInboundEvent
  transaction_start : TransactionStart → NormalizedInboundEvent
  transaction_update : TransactionUpdate → NormalizedInboundEvent
  transaction_end : TransactionEnd → NormalizedInboundEvent

pub data IdTagStatus : Type 0 where
  accepted blocked expired invalid : IdTagStatus

-- `accepted` is `status = 'Accepted'`; the other fields are those of the payload.
pub record DomainResult : Type 0 where
  pub accepted : Bool
  pub id_tag_status : Option IdTagStatus
  pub protocol_transaction_id : Option ℕ
  pub session_id : Option ℕ

abbrev pub plain : Bool → DomainResult
plain is_accepted = record {
  accepted = is_accepted;
  id_tag_status = none;
  protocol_transaction_id = none;
  session_id = none;
}

abbrev pub refused_tag : IdTagStatus → DomainResult
refused_tag status = record (plain false) { id_tag_status = some status }
