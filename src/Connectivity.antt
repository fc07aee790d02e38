-- ===== src/Connectivity.antt =====
-- apps/movos-api/src/ocpp/connectivity/connectivity-coordinator.service.ts
pub mod Closing
pub mod Recovery
use forgeos_web.Base.{
  ℕ, Bool, true, false, ◌&&◌, ◌||◌, not, Option, none, some, List, [], ◌∷◌, ◌==◌, includes, is_none,
  if◌then◌else◌,
}
use forgeos_web.Base.Result.{Result, ok, err, not_found, Exec, ◌>>=◌, ◌>>◌, pure, gets}
use forgeos_web.Domain.{Database, World, record_audit}
use forgeos_web.Domain.Audit.{
  AuditAction, AuditEvent, session_moved_offline, session_recovery_rejected, session_recovered,
  station_connectivity_connected, station_connectivity_reconnected, station_connectivity_stale,
  station_connectivity_disconnected,
}
use forgeos_web.Domain.Connection.{CloseReason, clean, stale}
use forgeos_web.Domain.Session.{
  SessionStatus, pending, authorized, starting, active, suspended, offline, stopping, status_eq,
  ProtocolVersion, ChargingSession,
}
use forgeos_web.Domain.Station.{ConnectivityStatus, ChargingStation}
use forgeos_web.Domain.Station
use forgeos_web.Sessions.{suspend_session, resume_session, is_offline_session_recoverable}

pub record ConnectionEstablishedInput : Type 0 where
  pub charging_station_id : ℕ
  pub ocpp_identity : ℕ
  pub protocol_version : ProtocolVersion

pub record ConnectionClosedInput : Type 0 where
  pub charging_station_id : ℕ
  pub ocpp_identity : ℕ
  pub reason : CloseReason

-- `chargingStation.update`, which throws on a missing row.
unfoldable pub update_station :
    {db : Database} → ℕ → (ChargingStation → ChargingStation) → Exec (World db) (Unit {0})
update_station {db} id change w = elim (db.stations.find_unique w.stations id) [
  | none ↦ (err not_found, w)
  | some row ↦ (ok tt, record w { stations = db.stations.put w.stations (change row) })
]

abbrev audited : {db : Database} → AuditAction → ℕ → Exec (World db) (Unit {0})
audited action id = record_audit (record { action = action; subject_id = id })

-- The sessions of the station that a lost connection moves to OFFLINE.
abbrev pub is_affected : ℕ → ChargingSession → Bool
is_affected station_id s =
    s.charging_station_id == station_id && includes status_eq (active ∷ suspended ∷ []) s.status

unfoldable pub move_offline : {db : Database} → List ChargingSession → Exec (World db) (Unit {0})
move_offline [] = pure tt
move_offline (session ∷ rest) = do
  _ ← suspend_session session.id true
  audited session_moved_offline session.id
  move_offline rest

unfoldable pub reconcile_sessions_offline : {db : Database} → ℕ → Exec (World db) (Unit {0})
reconcile_sessions_offline {db} station_id = do
  affected ← gets (λ w. db.sessions.find_many w.sessions (is_affected station_id))
  move_offline affected

abbrev closed_action : CloseReason → AuditAction
closed_action stale = station_connectivity_stale
closed_action clean = station_connectivity_disconnected

pub handle_connection_closed : {db : Database} → ConnectionClosedInput → Exec (World db) (Unit {0})
handle_connection_closed input = do
  now ← gets (λ w. w.now)
  update_station input.charging_station_id (λ s. record s {
    connectivity_status = ConnectivityStatus.offline;
    last_disconnected_at = some now;
  })
  audited (closed_action input.reason) input.charging_station_id
  reconcile_sessions_offline input.charging_station_id

abbrev pub is_offline_at : ℕ → ChargingSession → Bool
is_offline_at station_id s = s.charging_station_id == station_id && status_eq s.status offline

abbrev pub conflicting_statuses : List SessionStatus
conflicting_statuses = pending ∷ authorized ∷ starting ∷ active ∷ suspended ∷ stopping ∷ []

abbrev pub conflicts_with : ChargingSession → ChargingSession → Bool
conflicts_with session s =
    s.connector_id == session.connector_id
    && (includes status_eq conflicting_statuses s.status && not (s.id == session.id))

unfoldable pub attempt_recovery : {db : Database} → ChargingSession → Exec (World db) (Unit {0})
attempt_recovery {db} session = do
  conflicting ← gets (λ w. db.sessions.find_first w.sessions (conflicts_with session))
  now ← gets (λ w. w.now)
  let rejected = not (is_none conflicting) || not (is_offline_session_recoverable now session)
  if rejected
      then audited session_recovery_rejected session.id
      else do _ ← resume_session session.id; audited session_recovered session.id

abbrev pub established_action : Option ChargingSession → AuditAction
established_action none = station_connectivity_connected
established_action (some s) = station_connectivity_reconnected

unfoldable pub recover_if_any :
    {db : Database} → Option ChargingSession → Exec (World db) (Unit {0})
recover_if_any none = pure tt
recover_if_any (some session) = attempt_recovery session

abbrev pub brought_online : ConnectionEstablishedInput → ℕ → ChargingStation → ChargingStation
brought_online input now s = record s {
  connectivity_status = ConnectivityStatus.online;
  last_connected_at = some now;
  last_seen_at = some now;
  last_protocol_version = some input.protocol_version;
}

pub handle_connection_established :
    {db : Database} → ConnectionEstablishedInput → Exec (World db) (Unit {0})
handle_connection_established {db} input = do
  offline_session ←
      gets (λ w. db.sessions.find_first w.sessions (is_offline_at input.charging_station_id))
  now ← gets (λ w. w.now)
  update_station input.charging_station_id (brought_online input now)
  audited (established_action offline_session) input.charging_station_id
  recover_if_any offline_session

abbrev is_believed_online : ChargingStation → Bool
is_believed_online s = elim s.connectivity_status [ ConnectivityStatus.online ↦ true | _ ↦ false ]

reset_to_unknown : {db : Database} → List ChargingStation → World db → World db
reset_to_unknown [] w = w
reset_to_unknown {db} (s ∷ rest) w = reset_to_unknown rest (record w {
  stations =
      db.stations.put w.stations (record s { connectivity_status = ConnectivityStatus.unknown });
})

-- `onModuleInit`
pub reconcile_at_startup : {db : Database} → World db → World db
unfolding reset_to_unknown
reconcile_at_startup {db} w =
    reset_to_unknown (db.stations.find_many w.stations is_believed_online) w
