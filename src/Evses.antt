-- ===== src/Evses.antt =====
-- apps/movos-api/src/evses/evse-operational-status.ts: the operational status of a charger, computed
-- from the station's connectivity and the evidence of its connectors.
pub mod Derivation
use forgeos_web.Base.{
  ℕ, suc, Bool, true, false, ◌&&◌, ◌||◌, not, List, [], ◌∷◌, ◌++◌, if◌then◌else◌, length,
}
use forgeos_web.Domain.Station.{ConnectivityStatus, ConnectorStatus}
use forgeos_web.Domain.Station

pub data OperationalStatus : Type 0 where
  available in_use partially_available unavailable offline unknown : OperationalStatus

pub data AttentionReason : Type 0 where
  connector_faulted active_session_connector_not_in_use : AttentionReason

pub record ConnectorEvidence : Type 0 where
  pub status : ConnectorStatus
  pub has_active_session : Bool

pub record ConnectorSummary : Type 0 where
  pub total : ℕ
  pub available : ℕ
  pub in_use : ℕ
  pub unavailable : ℕ
  pub faulted : ℕ

pub record OperationalResult : Type 0 where
  pub operational_status : OperationalStatus
  pub requires_attention : Bool
  pub attention_reasons : List AttentionReason
  pub connector_summary : ConnectorSummary

-- `IN_USE_STATUSES.has(status)`
abbrev pub is_in_use : ConnectorStatus → Bool
is_in_use ConnectorStatus.charging = true
is_in_use ConnectorStatus.occupied = true
is_in_use _ = false

abbrev pub is_available : ConnectorStatus → Bool
is_available ConnectorStatus.available = true
is_available _ = false

abbrev pub is_faulted : ConnectorStatus → Bool
is_faulted ConnectorStatus.faulted = true
is_faulted _ = false

abbrev pub count_one : ConnectorSummary → ConnectorStatus → ConnectorSummary
count_one s c =
    if is_available c
    then record s { available = suc s.available }
    else if is_in_use c
    then record s { in_use = suc s.in_use }
    else if is_faulted c
    then record s { faulted = suc s.faulted }
    else record s { unavailable = suc s.unavailable }

unfoldable pub count_all : ConnectorSummary → List ConnectorEvidence → ConnectorSummary
count_all s [] = s
count_all s (c ∷ rest) = count_all (count_one s c.status) rest

abbrev pub zero_of : ℕ → ConnectorSummary
zero_of n = record { total = n; available = 0; in_use = 0; unavailable = 0; faulted = 0 }

pub summarize : List ConnectorEvidence → ConnectorSummary
summarize connectors = count_all (zero_of (length connectors)) connectors

-- The variables of the loop of `deriveOnlineStatus`.
pub record Evidence : Type 0 where
  pub attention_reasons : List AttentionReason
  pub has_available : Bool
  pub has_in_use : Bool
  pub has_faulted : Bool

abbrev pub mismatches : ConnectorEvidence → Bool
mismatches c = c.has_active_session && not (is_in_use c.status)

-- What one connector pushes, in order.
abbrev pub reasons_of : ConnectorEvidence → List AttentionReason
reasons_of c =
    (if mismatches c then active_session_connector_not_in_use ∷ [] else [])
    ++ (if is_faulted c.status then connector_faulted ∷ [] else [])

abbrev pub effective_in_use : ConnectorEvidence → Bool
effective_in_use c = is_in_use c.status || c.has_active_session

abbrev pub effective_available : ConnectorEvidence → Bool
effective_available c = is_available c.status && not c.has_active_session

abbrev pub observe : Evidence → ConnectorEvidence → Evidence
observe e c = record {
  attention_reasons = e.attention_reasons ++ reasons_of c;
  has_available = e.has_available || effective_available c;
  has_in_use = e.has_in_use || effective_in_use c;
  has_faulted = e.has_faulted || is_faulted c.status;
}

unfoldable pub observe_all : Evidence → List ConnectorEvidence → Evidence
observe_all e [] = e
observe_all e (c ∷ rest) = observe_all (observe e c) rest

abbrev pub no_evidence : Evidence
no_evidence = record {
  attention_reasons = [];
  has_available = false;
  has_in_use = false;
  has_faulted = false;
}

abbrev pub status_from : Evidence → OperationalStatus
status_from e =
    if e.has_available && (e.has_in_use || e.has_faulted)
    then partially_available
    else if not e.has_available && e.has_in_use
    then in_use
    else if e.has_available
    then available
    else unavailable

abbrev pub is_empty {ℓ} : {A : Type ℓ} → List A → Bool
is_empty [] = true
is_empty (x ∷ xs) = false

unfoldable pub derive_online_status : List ConnectorEvidence → ConnectorSummary → OperationalResult
derive_online_status connectors summary =
    let e = observe_all no_evidence connectors in
    record {
      operational_status = status_from e;
      requires_attention = not (is_empty e.attention_reasons);
      attention_reasons = e.attention_reasons;
      connector_summary = summary;
    }

abbrev pub without_reasons : OperationalStatus → ConnectorSummary → OperationalResult
without_reasons status summary = record {
  operational_status = status;
  requires_attention = false;
  attention_reasons = [];
  connector_summary = summary;
}

unfoldable pub compute_evse_operational_status :
    ConnectivityStatus → List ConnectorEvidence → OperationalResult
compute_evse_operational_status ConnectivityStatus.offline connectors =
    without_reasons offline (summarize connectors)
compute_evse_operational_status ConnectivityStatus.unknown connectors =
    without_reasons unknown (summarize connectors)
compute_evse_operational_status ConnectivityStatus.online [] =
    without_reasons unknown (summarize [])
compute_evse_operational_status ConnectivityStatus.online (c ∷ rest) =
    derive_online_status (c ∷ rest) (summarize (c ∷ rest))
