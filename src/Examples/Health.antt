-- ===== src/Examples/Health.antt =====
-- The properties of the status of chargers and stations at concrete states.
use forgeos_web.Base.{◌≡◌, true, false, List, [], ◌∷◌}
use forgeos_web.Domain.Station.{ConnectivityStatus, ConnectorStatus}
use forgeos_web.Evses.{ConnectorEvidence, compute_evse_operational_status, OperationalStatus}
use forgeos_web.Evses.Derivation.{compute_evse_operational_status_rule}
use forgeos_web.Operator.{StationRow, StationWithTopology, compute_health}
use forgeos_web.Operator.Summaries.{compute_health_rule, expected_health}

abbrev evidence : List ConnectorEvidence
evidence =
    record { status = ConnectorStatus.available; has_active_session = false }
    ∷ record { status = ConnectorStatus.faulted; has_active_session = true }
    ∷ []

compute_evse_operational_status_rule_example :
    (compute_evse_operational_status ConnectivityStatus.online evidence).operational_status
    ≡ OperationalStatus.partially_available
compute_evse_operational_status_rule_example =
    compute_evse_operational_status_rule ConnectivityStatus.online evidence

abbrev row_of : ConnectivityStatus → StationRow
row_of status = record {
  id = 5;
  connectivity_status = status;
  evses = (record { status = ConnectorStatus.faulted; charging_sessions = 1 ∷ [] } ∷ []) ∷ [];
}

abbrev fleet : List StationRow
fleet = row_of ConnectivityStatus.online ∷ row_of ConnectivityStatus.unknown ∷ []

abbrev a_station : StationWithTopology
a_station = record {
  id = 5;
  connectivity_status = ConnectivityStatus.online;
  evses = evidence ∷ [];
}

compute_health_rule_example : (compute_health a_station).status ≡ expected_health a_station
compute_health_rule_example = compute_health_rule a_station

abbrev plugs : List ConnectorStatus
plugs = ConnectorStatus.charging ∷ ConnectorStatus.available ∷ ConnectorStatus.offline ∷ []
