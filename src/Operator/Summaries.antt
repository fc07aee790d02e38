-- ===== src/Operator/Summaries.antt =====
-- The summaries count every station and connector once, and a site's worst status is the worst of
-- its stations.
use forgeos_web.Base.{
  ℕ, ◌+◌, ◌≤◌, ◌≡◌, refl, ap, ◌∙◌, Bool, false, ◌||◌, none, some, List, [], ◌∷◌, arith, length, ltb,
  ◌==◌, if◌then◌else◌,
}
use forgeos_web.Domain.Station.{ConnectivityStatus, ConnectorStatus}
use forgeos_web.Evses.{ConnectorEvidence, compute_evse_operational_status}
use forgeos_web.Operator.{
  HealthStatus, healthy, degraded, offline, unknown, StationRow, StationWithTopology,
  compute_health, to_station_with_topology, evses_requiring_attention, HealthCounts, add_health,
  count_health, zero_health, summarize_fleet, ConnectivitySummary, count_connectivity,
  summarize_connectivity, add_connectivity, worst_status, ConnectorCounts, add_connector,
  count_connectors, empty_connector_counts, get_occupancy,
}

abbrev pub health_of : StationRow → HealthStatus
health_of s = (compute_health (to_station_with_topology s)).status

abbrev total_of : HealthCounts → ℕ
total_of c = c.healthy + c.degraded + c.offline + c.unknown

add_health-total :
    (c : HealthCounts) (h : HealthStatus) → total_of (add_health c h) ≡ 1 + total_of c
add_health-total c h = ground arith

count_health-total :
    (c : HealthCounts) (ss : List StationRow)
    → total_of (count_health c ss) ≡ length ss + total_of c
unfolding count_health
count_health-total c [] = omega arith
count_health-total c (s ∷ ss) =
    omega
      (arith, count_health-total (add_health c (health_of s)) ss, add_health-total c (health_of s))

-- A fleet's summary counts every station under exactly one health status.
pub summarize_fleet_total :
    (ss : List StationRow)
    → let f = summarize_fleet ss in
      f.total_stations ≡ f.counts.healthy + f.counts.degraded + f.counts.offline + f.counts.unknown
summarize_fleet_total ss = omega (arith, count_health-total zero_health ss)

abbrev pub severity : HealthStatus → ℕ
severity healthy = 0
severity degraded = 1
severity unknown = 2
severity offline = 3

abbrev worst_code : HealthCounts → ℕ
worst_code c =
    if ltb 0 c.offline then 3 else if ltb 0 c.unknown then 2 else if ltb 0 c.degraded then 1 else 0

abbrev worse : ℕ → ℕ → ℕ
worse a b = if ltb a b then b else a

abbrev pub worst_severity : List StationRow → ℕ
worst_severity [] = 0
worst_severity (s ∷ ss) = worse (severity (health_of s)) (worst_severity ss)

add_health-worst :
    (c : HealthCounts) (h : HealthStatus)
    → worst_code (add_health c h) ≡ worse (worst_code c) (severity h)
add_health-worst c h = ground arith

worse_assoc : (a b c : ℕ) → worse (worse a b) c ≡ worse a (worse b c)
worse_assoc a b c = ground arith

count_health-worst :
    (c : HealthCounts) (ss : List StationRow)
    → worst_code (count_health c ss) ≡ worse (worst_code c) (worst_severity ss)
unfolding count_health
count_health-worst c [] = ground arith
count_health-worst c (s ∷ ss) =
    count_health-worst (add_health c (health_of s)) ss
    ∙ ap (λ n. worse n (worst_severity ss)) (add_health-worst c (health_of s))
    ∙ worse_assoc (worst_code c) (severity (health_of s)) (worst_severity ss)

-- The worst status of a site that has stations is as severe as its most severe station, OFFLINE
-- before UNKNOWN before degraded before healthy.
pub severity-worst_status :
    (s : StationRow) (ss : List StationRow)
    → severity (worst_status (s ∷ ss)) ≡ worst_severity (s ∷ ss)
unfolding worst_status
severity-worst_status s ss = ground (arith, count_health-worst zero_health (s ∷ ss))

abbrev any_attention : List (List ConnectorEvidence) → Bool
any_attention [] = false
any_attention (e ∷ es) =
    (compute_evse_operational_status ConnectivityStatus.online e).requires_attention
    || any_attention es

requiring_some :
    (es : List (List ConnectorEvidence))
    → ltb 0 (evses_requiring_attention ConnectivityStatus.online es) ≡ any_attention es
unfolding evses_requiring_attention
requiring_some [] = ground arith
requiring_some (e ∷ es) = ground (arith, requiring_some es)

abbrev pub expected_health : StationWithTopology → HealthStatus
expected_health s = elim s.connectivity_status [
  | ConnectivityStatus.offline ↦ offline
  | ConnectivityStatus.unknown ↦ unknown
  | ConnectivityStatus.online ↦ if any_attention s.evses then degraded else healthy
]

-- A station's health follows its connectivity when it is not online; an online station is degraded
-- exactly when one of its chargers requires attention.
pub compute_health_rule : (s : StationWithTopology) → (compute_health s).status ≡ expected_health s
unfolding compute_health
compute_health_rule s = ground (arith, requiring_some s.evses)

abbrev connectivity_total : ConnectivitySummary → ℕ
connectivity_total s = s.online + s.offline + s.unknown

add_connectivity-total :
    (s : ConnectivitySummary) (c : ConnectivityStatus)
    → (connectivity_total (add_connectivity s c) ≡ 1 + connectivity_total s)
      × ((add_connectivity s c).total_stations ≡ s.total_stations)
add_connectivity-total s c = ground arith

count_connectivity-total :
    (s : ConnectivitySummary) (cs : List ConnectivityStatus)
    → (connectivity_total (count_connectivity s cs) ≡ length cs + connectivity_total s)
      × ((count_connectivity s cs).total_stations ≡ s.total_stations)
unfolding count_connectivity
count_connectivity-total s [] = (omega arith, refl)
count_connectivity-total s (c ∷ cs) =
    let rest = count_connectivity-total (add_connectivity s c) cs in
    let one = add_connectivity-total s c in (omega (arith, rest.0, one.0), rest.1 ∙ one.1)

-- The connectivity summary counts every station as online, offline or unknown, once.
pub summarize_connectivity_total :
    (cs : List ConnectivityStatus)
    → let s = summarize_connectivity cs in
      (s.total_stations ≡ length cs) × (s.total_stations ≡ s.online + s.offline + s.unknown)
summarize_connectivity_total cs =
    let counts =
      count_connectivity-total
        (record { total_stations = length cs; online = 0; offline = 0; unknown = 0 }) cs in
    (counts.1, omega (arith, counts.0, counts.1))

abbrev connector_total : ConnectorCounts → ℕ
connector_total c =
    c.available + c.charging + c.occupied + c.reserved + c.unavailable + c.faulted + c.offline

add_connector-total :
    (c : ConnectorCounts) (s : ConnectorStatus)
    → connector_total (add_connector c s) ≡ 1 + connector_total c
add_connector-total c s = ground arith

count_connectors-total :
    (c : ConnectorCounts) (ss : List ConnectorStatus)
    → connector_total (count_connectors c ss) ≡ length ss + connector_total c
unfolding count_connectors
count_connectors-total c [] = omega arith
count_connectors-total c (s ∷ ss) =
    omega (arith, count_connectors-total (add_connector c s) ss, add_connector-total c s)

-- The occupied connectors are among the eligible ones and those among all connectors, so a rate
-- lies between 0 and 1; the rate is there exactly when some connector is eligible, and its
-- denominator is then not 0.
pub get_occupancy_bounds :
    (ss : List ConnectorStatus)
    → let o = get_occupancy ss in
      (o.occupied_count ≤ o.eligible_count)
      × (o.eligible_count ≤ o.total_connectors)
      × (o.occupancy_rate
          ≡ (if o.eligible_count == 0 then none else some (o.occupied_count, o.eligible_count)))
unfolding get_occupancy
get_occupancy_bounds ss =
    (omega arith, omega (arith, count_connectors-total empty_connector_counts ss), ground arith)
