-- ===== src/Examples.antt =====
-- Sample states on tables kept as lists; the children apply the properties to them.
mod Charging
mod Connecting
mod Commanding
mod Health
mod Orders
mod Calling
mod Engine
mod Acting
mod Managing
mod Handling
use forgeos_web.Base.{
  ℕ, ◌≡◌, ◌⊎◌, refl, true, false, none, some, List, [], ◌∷◌, arith, if◌then◌else◌,
}
use mathlib.Core.Option
use Prim.Native.String.{String}
use forgeos_web.Base.Int.{pos, ◌≤ℤ◌}
use forgeos_web.Base.JsMap
use forgeos_web.Base.Result.{ok, err, Error, invalid_transition}
use forgeos_web.Prisma.Memory.{memory}
use forgeos_web.Domain.{Database, World}
use forgeos_web.Domain.Session.{
  SessionStatus, ChargingSession, BillingAccount, ProtocolVersion, TerminationReason,
}
use forgeos_web.Domain.Station.{
  ChargingStation, Connector, Credential, ConnectivityStatus, ConnectorStatus,
}
use forgeos_web.Domain.Recommendation.{Action}
use forgeos_web.Domain.Command.{RemoteCommand}
use forgeos_web.Domain.Connection.{Registry, ConnectionRecord, clean}
use forgeos_web.Domain.Work.{
  WorkOrder, WorkOrderEventType, WorkOrderStatus, WorkOrderPriority, WorkOrderSource, Membership,
}
use forgeos_web.Sessions.{
  CreateSessionInput, StopSessionInput, SessionOp, run_op, stop_session, session_at,
}
use forgeos_web.Sessions.Outcome.{stored, stopped, with_row}
use forgeos_web.Sessions.Evolution.{Evolves}
use forgeos_web.Sessions.Stopping.{stop_session_outcome}
use forgeos_web.Sessions.Occupancy.{SingleOccupancy}
use forgeos_web.Sessions.Creation.{Interleaving, create_session}
use forgeos_web.Sessions.Creation.Exclusive.{IsTame, create_session-SingleOccupancy}
use forgeos_web.PendingCalls.Delivery.{empty as no_calls}
use forgeos_web.Connections.{get, register, unregister, force_disconnect, is_connected}
use forgeos_web.Connections.Liveness.{
  RegistryEvent, run, empty, believed, IsSynced, empty-IsSynced, run-IsSynced,
  force_disconnect_unnoticed, late_close_ignored,
}
use forgeos_web.Connectivity.{
  ConnectionClosedInput, ConnectionEstablishedInput, handle_connection_closed,
  handle_connection_established,
}
use forgeos_web.Connectivity.Closing.{taken_offline, handle_connection_closed_outcome}
use forgeos_web.Connectivity.Recovery.{Untouched, Resumes, handle_connection_established_outcome}
use forgeos_web.Evses.{
  ConnectorEvidence, summarize, compute_evse_operational_status, OperationalStatus,
}
use forgeos_web.Evses.Derivation.{
  summarize_total, compute_evse_operational_status_rule, compute_evse_operational_status_attention,
}
use forgeos_web.Operator.{
  StationRow, StationWithTopology, summarize_fleet, worst_status, compute_health, get_occupancy,
}
use forgeos_web.Operator.Summaries.{
  summarize_fleet_total, severity-worst_status, compute_health_rule, get_occupancy_bounds, severity,
  worst_severity, expected_health,
}
use forgeos_web.WorkOrders.{TransitionInput, WorkOrderTransition, transition}
use forgeos_web.WorkOrders.Lifecycle.{Advances, order_at, transition_outcome}
use forgeos_web.WorkOrders.Lifecycle.History.{
  WorkOrderOp, run_work_op, run_work_ops, run_work_ops-IsRecorded, closed_is_final,
}
use forgeos_web.WorkOrders.Automation.{
  create_if_not_duplicate, resolve_recovered_connectivity_work_orders,
}
use forgeos_web.WorkOrders.Automation.Resolution.{after_sweep, resolve_recovered_outcome}
use forgeos_web.WorkOrders.Automation.Episodes.{create_if_not_duplicate_once}
use forgeos_web.WorkOrders.{matches_attention_filter, compute_attention_reasons}
use forgeos_web.Evses.{is_empty}
use forgeos_web.Base.{not, ◌+◌, ◌≤◌, ◌==◌, length}

abbrev pub sample_db : Database
sample_db = record {
  sessions = memory ChargingSession (λ s. s.id);
  accounts = memory BillingAccount (λ a. a.id);
  stations = memory ChargingStation (λ s. s.id);
  connectors = memory Connector (λ c. c.id);
  credentials = memory Credential (λ c. c.id);
  commands = memory RemoteCommand (λ c. c.id);
  work_orders = memory WorkOrder (λ o. o.id);
  memberships = memory Membership (λ m. m.id);
  actions = memory Action (λ a. a.id);
}

abbrev pub session_of : (id connector : ℕ) → SessionStatus → ChargingSession
session_of id connector status = record {
  id = id;
  organization_id = 1;
  site_id = 1;
  charging_station_id = 5;
  evse_id = connector;
  connector_id = connector;
  authorization_credential_id = 1;
  billing_account_id = 1;
  protocol_version = ProtocolVersion.ocpp1_6j;
  protocol_transaction_id = 100 + id;
  status = status;
  termination_reason = none;
  meter_start = pos 1000;
  meter_stop = none;
  energy_wh = pos 0;
  started_at = 10;
  ended_at = none;
  updated_at = 20;
}

abbrev pub station_of : ConnectivityStatus → ChargingStation
station_of status = record {
  id = 5;
  site_id = 1;
  organization_id = 1;
  is_in_service = true;
  ocpp_identity = some 7;
  connectivity_status = status;
  last_connected_at = some 60;
  last_disconnected_at = some 30;
  last_seen_at = none;
  last_protocol_version = none;
}

abbrev pub order_of : (id : ℕ) → WorkOrderStatus → WorkOrder
order_of id status = record {
  id = id;
  organization_id = 1;
  station_id = 5;
  title = "Estación sin conexión";
  description = "";
  priority = WorkOrderPriority.high;
  source = WorkOrderSource.connectivity_loss;
  status = status;
  assigned_member_id = none;
  notes = none;
  scheduled_at = none;
  assigned_at = none;
  started_at = none;
  resolved_at = none;
  created_at = 40;
}

-- Two sessions of station 5, an active and an offline one, and an outage order.
abbrev pub sample : World sample_db
sample = record {
  sessions = session_of 1 1 SessionStatus.active ∷ session_of 2 2 SessionStatus.offline ∷ [];
  accounts = [];
  stations = station_of ConnectivityStatus.online ∷ [];
  connectors = [];
  credentials = [];
  commands = [];
  work_orders = order_of 1 WorkOrderStatus.opened ∷ order_of 2 WorkOrderStatus.resolved ∷ [];
  memberships = [];
  actions = [];
  work_order_events =
      record { work_order_id = 2; type = WorkOrderEventType.resolved; actor_id = none } ∷ [];
  attempts = [];
  meter_values = [];
  protocol_events = [];
  audit = [];
  registry = empty;
  pending_calls = no_calls;
  confirmations = record { timers = []; running = []; next_timer = 0 };
  counter = 41;
  now = 1000;
}

abbrev pub one_connection : Registry
one_connection = run (RegistryEvent.registers 10 7 5 ProtocolVersion.ocpp1_6j 100 ∷ []) empty
