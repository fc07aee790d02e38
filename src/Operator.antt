-- ===== src/Operator.antt =====
-- apps/movos-api/src/operator/station-health.service.ts: the health of a station and the summaries
-- over the stations and connectors that the queries return.
pub mod Summaries
use forgeos_web.Base.{
  ℕ, suc, ◌+◌, Bool, true, false, Option, none, some, List, [], ◌∷◌, if◌then◌else◌, length, ltb,
  map, ◌==◌,
}
use forgeos_web.Domain.Station.{ConnectivityStatus, ConnectorStatus}
use forgeos_web.Domain.Station
use forgeos_web.Evses.{ConnectorEvidence, compute_evse_operational_status}

pub data HealthStatus : Type 0 where
  healthy degraded offline unknown : HealthStatus

-- The text of the health's reason, by the message it is made from.
pub data HealthReason : Type 0 where
  no_verified_connection no_recent_evidence operating_normally some_require_attention : HealthReason
  chargers_require_attention : (requiring total : ℕ) → HealthReason

-- A row of TOPOLOGY_INCLUDE: at most one of a connector's sessions in progress is selected.
pub record ConnectorRow : Type 0 where
  pub status : ConnectorStatus
  pub charging_sessions : List ℕ

pub record StationRow : Type 0 where
  pub id : ℕ
  pub connectivity_status : ConnectivityStatus
  pub evses : List (List ConnectorRow)

pub record StationWithTopology : Type 0 where
  pub id : ℕ
  pub connectivity_status : ConnectivityStatus
  pub evses : List (List ConnectorEvidence)

pub record StationHealth : Type 0 where
  pub station_id : ℕ
  pub status : HealthStatus
  pub reason : HealthReason

abbrev to_evidence : ConnectorRow → ConnectorEvidence
to_evidence c = record {
  status = c.status;
  has_active_session = ltb 0 (length c.charging_sessions);
}

abbrev pub to_station_with_topology : StationRow → StationWithTopology
to_station_with_topology s = record {
  id = s.id;
  connectivity_status = s.connectivity_status;
  evses = map (map to_evidence) s.evses;
}

-- The length of the filtered list of chargers.
unfoldable pub evses_requiring_attention : ConnectivityStatus → List (List ConnectorEvidence) → ℕ
evses_requiring_attention status [] = 0
evses_requiring_attention status (evse ∷ rest) =
    let n = evses_requiring_attention status rest in
    if (compute_evse_operational_status status evse).requires_attention then suc n else n

abbrev attention_reason : ℕ → ℕ → HealthReason
attention_reason requiring total =
    if ltb 0 total then chargers_require_attention requiring total else some_require_attention

unfoldable pub compute_health : StationWithTopology → StationHealth
compute_health station = elim station.connectivity_status [
  | ConnectivityStatus.offline ↦ record {
    station_id = station.id;
    status = offline;
    reason = no_verified_connection;
  }
  | ConnectivityStatus.unknown ↦ record {
    station_id = station.id;
    status = unknown;
    reason = no_recent_evidence;
  }
  | ConnectivityStatus.online ↦
      let requiring = evses_requiring_attention ConnectivityStatus.online station.evses in
      if ltb 0 requiring
      then record {
        station_id = station.id;
        status = degraded;
        reason = attention_reason requiring (length station.evses);
      }
      else record { station_id = station.id; status = healthy; reason = operating_normally }
]

pub record HealthCounts : Type 0 where
  pub healthy : ℕ
  pub degraded : ℕ
  pub offline : ℕ
  pub unknown : ℕ

-- `counts[status] += 1`
abbrev pub add_health : HealthCounts → HealthStatus → HealthCounts
add_health c healthy = record c { healthy = suc c.healthy }
add_health c degraded = record c { degraded = suc c.degraded }
add_health c offline = record c { offline = suc c.offline }
add_health c unknown = record c { unknown = suc c.unknown }

unfoldable pub count_health : HealthCounts → List StationRow → HealthCounts
count_health c [] = c
count_health c (s ∷ rest) =
    count_health (add_health c (compute_health (to_station_with_topology s)).status) rest

abbrev pub zero_health : HealthCounts
zero_health = record { healthy = 0; degraded = 0; offline = 0; unknown = 0 }

pub record FleetSummary : Type 0 where
  pub total_stations : ℕ
  pub counts : HealthCounts

-- On the rows of `findMany`.
abbrev pub summarize_fleet : List StationRow → FleetSummary
summarize_fleet stations = record {
  total_stations = length stations;
  counts = count_health zero_health stations;
}

pub record ConnectivitySummary : Type 0 where
  pub total_stations : ℕ
  pub online : ℕ
  pub offline : ℕ
  pub unknown : ℕ

abbrev pub add_connectivity : ConnectivitySummary → ConnectivityStatus → ConnectivitySummary
add_connectivity s ConnectivityStatus.online = record s { online = suc s.online }
add_connectivity s ConnectivityStatus.offline = record s { offline = suc s.offline }
add_connectivity s ConnectivityStatus.unknown = record s { unknown = suc s.unknown }

unfoldable pub count_connectivity :
    ConnectivitySummary → List ConnectivityStatus → ConnectivitySummary
count_connectivity s [] = s
count_connectivity s (c ∷ rest) = count_connectivity (add_connectivity s c) rest

abbrev pub summarize_connectivity : List ConnectivityStatus → ConnectivitySummary
summarize_connectivity stations =
    count_connectivity
      (record { total_stations = length stations; online = 0; offline = 0; unknown = 0 }) stations

abbrev worst_of : HealthCounts → HealthStatus
worst_of c =
    if ltb 0 c.offline
    then offline
    else if ltb 0 c.unknown
    then unknown
    else if ltb 0 c.degraded
    then degraded
    else healthy

-- `worstStatus` of one site, of its ACTIVE stations.
unfoldable pub worst_status : List StationRow → HealthStatus
worst_status stations =
    if length stations == 0 then unknown else worst_of (count_health zero_health stations)

pub record ConnectorCounts : Type 0 where
  pub available : ℕ
  pub charging : ℕ
  pub occupied : ℕ
  pub reserved : ℕ
  pub unavailable : ℕ
  pub faulted : ℕ
  pub offline : ℕ

abbrev pub add_connector : ConnectorCounts → ConnectorStatus → ConnectorCounts
add_connector c ConnectorStatus.available = record c { available = suc c.available }
add_connector c ConnectorStatus.charging = record c { charging = suc c.charging }
add_connector c ConnectorStatus.occupied = record c { occupied = suc c.occupied }
add_connector c ConnectorStatus.reserved = record c { reserved = suc c.reserved }
add_connector c ConnectorStatus.unavailable = record c { unavailable = suc c.unavailable }
add_connector c ConnectorStatus.faulted = record c { faulted = suc c.faulted }
add_connector c ConnectorStatus.offline = record c { offline = suc c.offline }

unfoldable pub count_connectors : ConnectorCounts → List ConnectorStatus → ConnectorCounts
count_connectors c [] = c
count_connectors c (s ∷ rest) = count_connectors (add_connector c s) rest

abbrev pub empty_connector_counts : ConnectorCounts
empty_connector_counts = record {
  available = 0;
  charging = 0;
  occupied = 0;
  reserved = 0;
  unavailable = 0;
  faulted = 0;
  offline = 0;
}

pub record Occupancy : Type 0 where
  pub total_connectors : ℕ
  pub connector_status_counts : ConnectorCounts
  pub occupied_count : ℕ
  pub eligible_count : ℕ
  -- numerator and denominator; null when nothing is eligible
  pub occupancy_rate : Option (ℕ × ℕ)

pub get_occupancy : List ConnectorStatus → Occupancy
get_occupancy connectors =
    let c = count_connectors empty_connector_counts connectors in
    let occupied = c.charging + c.occupied in
    let eligible = c.available + c.charging + c.occupied + c.reserved in
    record {
      total_connectors = length connectors;
      connector_status_counts = c;
      occupied_count = occupied;
      eligible_count = eligible;
      occupancy_rate = if ltb 0 eligible then some (occupied, eligible) else none;
    }
