-- ===== src/Ocpp/Handlers.antt =====
-- apps/movos-api/src/ocpp/handlers: what each normalized event does. The site of a station is a row
-- that the station's foreign key keeps there, so it is read off the station.
pub mod Starting
pub mod Ending
pub mod Occupancy
use Prim.Native.String.{String}
use forgeos_web.Base.{
  ℕ, suc, ◌+◌, ◌-◌, ◌*◌, ◌≤◌, ◌<◌, ◌∙◌, ◌≡◌, ◌≢◌, refl, sym, ap, ◌⊎◌, inl, inr, ◌↔◌, Bool, true,
  false, ◌&&◌, ◌||◌, not, Option, none, some, List, [], ◌∷◌, ◌++◌, ◌==◌, ltb, leb, includes, length,
  is_none, is_some_of, if◌then◌else◌, arith, Bool-cases, Option-cases, ==_iff, ==_self, All,
}
use forgeos_web.Base.Int.{ℤ, pos, negsuc, ◌-ℤ◌, ◌≤ℤ◌, ltb_ℤ}
use forgeos_web.Base.Decimal.{round, scale, is_whole, Decimal}
use forgeos_web.Domain.Station.{is_numbered}
use forgeos_web.Base.JsMap
use forgeos_web.Base.JsMap.{JsMap, nat_eq, string_eq, get-put, get-remove}
use forgeos_web.Base.Result.{
  Result, ok, err, Error, not_found, conflict, bad_request, invalid_transition, Exec, ◌>>=◌, ◌>>◌,
  pure, throw, gets, modify, Result-cases, ok_inj, ok_ne_err, bind_result,
}
use forgeos_web.Domain.{Database, World, record_audit}
use forgeos_web.Ocpp.Events.{
  TransactionEnd, TransactionUpdate, MeterSample, refused_tag, plain, TransactionStart,
  ConnectorStatusEvent, DeviceBoot, DomainResult, IdTagStatus,
}
use forgeos_web.Domain.Station.{Connector, ChargingStation}
use forgeos_web.Domain.Session.{status_eq, SessionStatus, ChargingSession}
use forgeos_web.Sessions.Creation.{create_session, Interleaving}
use forgeos_web.Authorization.{is_accepted, record_attempt, RecordAttemptInput}
use forgeos_web.Sessions.{stop_session, StopSessionInput, CreateSessionInput}
use forgeos_web.Ocpp.Normalization.{map_stop_reason, id_tag_status_for, map_to_connector_status}
use forgeos_web.Domain.Telemetry.{AuthAttemptResult}
use forgeos_web.Commands.Confirmation.{on_stop_transaction_observed, on_start_transaction_observed}
use forgeos_web.Sessions.Meters.{record_meter_value, RecordMeterValueInput}

abbrev pub has_external_id : ChargingStation → Decimal → Connector → Bool
has_external_id station external_id c =
    is_numbered c.external_id external_id && c.charging_station_id == station.id

abbrev pub attempt_at :
    ChargingStation → (evse_id connector_id : Option ℕ) → String → RecordAttemptInput
attempt_at station evse_id connector_id id_tag = record {
  organization_id = station.organization_id;
  charging_station_id = station.id;
  evse_id = evse_id;
  connector_id = connector_id;
  presented_identifier = id_tag;
  offline = false;
}

abbrev pub session_input : TransactionStart → ChargingStation → Connector → ℕ → CreateSessionInput
session_input event station c credential_id = record {
  organization_id = station.organization_id;
  site_id = station.site_id;
  charging_station_id = station.id;
  evse_id = c.evse_id;
  connector_id = c.id;
  authorization_credential_id = credential_id;
  protocol_version = event.protocol_version;
  meter_start = event.meter_start;
  started_at = event.timestamp;
}

abbrev pub started : ChargingSession → DomainResult
started session = record {
  accepted = true;
  id_tag_status = some IdTagStatus.accepted;
  protocol_transaction_id = some session.protocol_transaction_id;
  session_id = some session.id;
}

abbrev pub has_transaction : ChargingStation → Decimal → ChargingSession → Bool
has_transaction station ref s =
    s.charging_station_id == station.id && is_whole ref s.protocol_transaction_id

abbrev pub has_ended : SessionStatus → Bool
has_ended status = status_eq status SessionStatus.completed || status_eq status SessionStatus.failed

abbrev has_unit : String → MeterSample → Bool
has_unit unit sample = elim sample.unit [ none ↦ false | some u ↦ string_eq.beq u unit ]

unfoldable pub normalize_to_wh : MeterSample → Decimal
normalize_to_wh sample = if has_unit "kWh" sample then scale 1000 sample.value else sample.value

unfoldable pub normalize_to_w : MeterSample → Decimal
normalize_to_w sample = if has_unit "kW" sample then scale 1000 sample.value else sample.value

-- `values.find((v) => v.measurand === measurand)`
abbrev find_sample : String → List MeterSample → Option MeterSample
find_sample measurand [] = none
find_sample measurand (v ∷ vs) =
    if string_eq.beq v.measurand measurand then some v else find_sample measurand vs

abbrev value_of : Option MeterSample → Option Decimal
value_of none = none
value_of (some sample) = some sample.value

abbrev power_of : Option MeterSample → Option ℤ
power_of none = none
power_of (some sample) = some (round (normalize_to_w sample))

abbrev pub reading_of : TransactionUpdate → ℕ → MeterSample → RecordMeterValueInput
reading_of event session_id energy = record {
  session_id = session_id;
  timestamp = event.timestamp;
  energy_wh = round (normalize_to_wh energy);
  power_w = power_of (find_sample "Power.Active.Import" event.values);
  voltage = value_of (find_sample "Voltage" event.values);
  current = value_of (find_sample "Current.Import" event.values);
  frequency = value_of (find_sample "Frequency" event.values);
  temperature = value_of (find_sample "Temperature" event.values);
}

module _ {db : Database} where
  unfoldable pub boot_handler : DeviceBoot → ChargingStation → Exec (World db) DomainResult
  boot_handler event station = pure (plain true)

  unfoldable pub heartbeat_handler : ChargingStation → Exec (World db) DomainResult
  heartbeat_handler station = pure (plain true)

  unfoldable pub find_connector : ChargingStation → Decimal → World db → Option Connector
  find_connector station external_id w =
      db.connectors.find_first w.connectors (has_external_id station external_id)

  unfoldable pub set_connector_status :
      ConnectorStatusEvent → Option Connector → Exec (World db) DomainResult
  set_connector_status event none = pure (plain false)
  set_connector_status event (some c) = do
    modify (λ w. record w {
      connectors =
          db.connectors.put w.connectors
            (record c { status = map_to_connector_status event.status });
    })
    pure (plain true)

  unfoldable pub status_for :
      ConnectorStatusEvent → ChargingStation → Option Decimal → Exec (World db) DomainResult
  status_for event station none = pure (plain true)
  status_for event station (some external_id) =
      if is_whole external_id 0
      then pure (plain true)
      else (do found ← gets (find_connector station external_id); set_connector_status event found)

  unfoldable pub status_handler :
      ConnectorStatusEvent → ChargingStation → Exec (World db) DomainResult
  status_handler event station = status_for event station event.connector_external_id

  unfoldable pub authorization_handler : String → ChargingStation → Exec (World db) DomainResult
  authorization_handler id_tag station = do
    attempt ← record_attempt (attempt_at station none none id_tag)
    pure (record (plain (is_accepted attempt.result)) {
      id_tag_status = some (id_tag_status_for attempt.result);
    })

  unfoldable pub start_session : Interleaving db → CreateSessionInput → Exec (World db) DomainResult
  start_session env input = do
    session ← create_session env input
    modify (on_start_transaction_observed input.charging_station_id input.connector_id session.id)
    pure (started session)

  unfoldable pub start_authorized :
      Interleaving db
      → TransactionStart
      → ChargingStation
      → Connector
      → AuthAttemptResult
      → Option ℕ
      → Exec (World db) DomainResult
  start_authorized env event station c result none = pure (refused_tag (id_tag_status_for result))
  start_authorized env event station c result (some credential_id) =
      if is_accepted result
      then start_session env (session_input event station c credential_id)
      else pure (refused_tag (id_tag_status_for result))

  unfoldable pub start_at :
      Interleaving db
      → TransactionStart
      → ChargingStation
      → Option Connector
      → Exec (World db) DomainResult
  start_at env event station none = do
    _ ← record_attempt (attempt_at station none none event.id_tag)
    pure (refused_tag IdTagStatus.invalid)
  start_at env event station (some c) = do
    attempt ← record_attempt (attempt_at station (some c.evse_id) (some c.id) event.id_tag)
    start_authorized env event station c attempt.result attempt.authorization_credential_id

  unfoldable pub transaction_start_handler :
      Interleaving db → TransactionStart → ChargingStation → Exec (World db) DomainResult
  transaction_start_handler env event station = do
    connector ← gets (find_connector station event.connector_external_id)
    start_at env event station connector

  unfoldable pub find_session : ChargingStation → Decimal → World db → Option ChargingSession
  find_session station ref w = db.sessions.find_first w.sessions (has_transaction station ref)

  unfoldable pub update_with :
      TransactionUpdate → ℕ → Option MeterSample → Exec (World db) DomainResult
  update_with event session_id none = pure (plain true)
  update_with event session_id (some energy) = do
    _ ← record_meter_value (reading_of event session_id energy)
    pure (plain true)

  unfoldable pub update_for :
      TransactionUpdate → Option ChargingSession → Exec (World db) DomainResult
  update_for event none = pure (plain false)
  update_for event (some session) =
      update_with event session.id (find_sample "Energy.Active.Import.Register" event.values)

  unfoldable pub transaction_update_handler :
      TransactionUpdate → ChargingStation → Exec (World db) DomainResult
  transaction_update_handler event station = do
    session ← gets (find_session station event.transaction_ref)
    update_for event session

  unfoldable pub stop_observed : ℕ → StopSessionInput → Exec (World db) DomainResult
  stop_observed session_id input = do
    _ ← stop_session session_id input
    modify (on_stop_transaction_observed session_id)
    pure (plain true)

  unfoldable pub end_for : TransactionEnd → Option ChargingSession → Exec (World db) DomainResult
  end_for event none = pure (plain false)
  end_for event (some session) =
      if has_ended session.status
      then pure (plain true)
      else stop_observed session.id (record {
        meter_stop = event.meter_stop;
        reason = map_stop_reason event.reason;
        ended_at = some event.timestamp;
      })

  unfoldable pub transaction_end_handler :
      TransactionEnd → ChargingStation → Exec (World db) DomainResult
  transaction_end_handler event station = do
    session ← gets (find_session station event.transaction_ref)
    end_for event session
