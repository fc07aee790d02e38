-- ===== src/Domain/Connection.antt =====
-- The state of apps/movos-api/src/ocpp/connection-registry: the open connections by charge point
-- identity, and what the registry has done to sockets and told the connectivity coordinator.
use forgeos_web.Base.{ℕ, List}
use forgeos_web.Base.JsMap.{JsMap}
use forgeos_web.Domain.Session.{ProtocolVersion}

pub record ConnectionRecord : Type 0 where
  pub ocpp_identity : ℕ
  pub charging_station_id : ℕ
  pub protocol_version : ProtocolVersion
  -- the identity of the WebSocket object
  pub socket : ℕ
  pub connected_at : ℕ
  pub last_message_at : ℕ

pub data CloseReason : Type 0 where
  clean stale : CloseReason

-- The calls of the coordinator, which the registry makes and does not wait for.
pub data Notification : Type 0 where
  established : (charging_station_id ocpp_identity : ℕ) → ProtocolVersion → Notification
  closed : (charging_station_id ocpp_identity : ℕ) → CloseReason → Notification

pub record Registry : Type 0 where
  pub connections : JsMap ℕ ConnectionRecord
  -- the sockets that the registry closed, newest first
  pub closed_sockets : List ℕ
  -- the calls of the coordinator, newest first
  pub notified : List Notification
