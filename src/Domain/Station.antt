-- ===== src/Domain/Station.antt =====
-- ChargingStation, Connector and AuthorizationCredential of schema.prisma.
use Prim.Native.String.{String}
use forgeos_web.Base.{ℕ, Bool, false, Option, some}
use forgeos_web.Base.Decimal.{Decimal, whole, is_whole}
use forgeos_web.Domain.Session.{ProtocolVersion}

pub data ConnectivityStatus : Type 0 where
  online offline unknown : ConnectivityStatus

pub data ConnectorStatus : Type 0 where
  available charging occupied reserved unavailable faulted offline : ConnectorStatus

pub data CredentialStatus : Type 0 where
  active revoked expired blocked : CredentialStatus

pub record ChargingStation : Type 0 where
  pub id : ℕ
  pub site_id : ℕ
  -- the organization of the station's site
  pub organization_id : ℕ
  -- `status = 'ACTIVE'`
  pub is_in_service : Bool
  pub ocpp_identity : Option ℕ
  pub connectivity_status : ConnectivityStatus
  pub last_connected_at : Option ℕ
  pub last_disconnected_at : Option ℕ
  pub last_seen_at : Option ℕ
  pub last_protocol_version : Option ProtocolVersion

-- `externalId` of a connector: null, the digits of a number, or another text, with the number that
-- `Number(text)` reads from it, none for NaN.
pub data ExternalId : Type 0 where
  missing : ExternalId
  digits : (n : ℕ) → ExternalId
  other : (number : Option Decimal) → ExternalId

-- Whether it is the text of the digits of `d`.
abbrev pub is_numbered : ExternalId → Decimal → Bool
is_numbered missing d = false
is_numbered (digits n) d = is_whole d n
is_numbered (other number) d = false

-- `Number(externalId ?? '')`, where `Number('')` is 0.
abbrev pub number_of : ExternalId → Option Decimal
number_of missing = some (whole 0)
number_of (digits n) = some (whole n)
number_of (other number) = number

pub record Connector : Type 0 where
  pub id : ℕ
  pub evse_id : ℕ
  -- the station of the connector's EVSE, and the organization of that station's site
  pub charging_station_id : ℕ
  pub organization_id : ℕ
  pub external_id : ExternalId
  pub status : ConnectorStatus

pub record Credential : Type 0 where
  pub id : ℕ
  pub organization_id : ℕ
  pub external_identifier : String
  pub status : CredentialStatus
  pub expires_at : Option ℕ
