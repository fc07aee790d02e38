-- ===== src/Ocpp/Handlers/Occupancy.antt =====
-- The handlers and the sessions of a connector.
use Prim.Native.String.{String}
use forgeos_web.Base.{ℕ, ◌≡◌, sym, inl, inr, Option, none, some, Bool-cases}
use forgeos_web.Base.Int.{ℤ, ltb_ℤ}
use forgeos_web.Base.Decimal.{is_whole, Decimal}
use forgeos_web.Base.JsMap.{nat_eq, string_eq}
use forgeos_web.Base.Result.{pure}
use forgeos_web.Domain.{Database, World}
use forgeos_web.Ocpp.Events.{
  MeterSample, TransactionStart, TransactionEnd, TransactionUpdate, ConnectorStatusEvent,
}
use forgeos_web.Ocpp.Handlers.{
  has_ended, reading_of, status_for, set_connector_status, authorization_handler, start_at,
  start_authorized, start_session, update_for, update_with, end_for, stop_observed,
}
use forgeos_web.Sessions.Occupancy.{Evolves-SingleOccupancy, SingleOccupancy}
use forgeos_web.Authorization.{is_accepted, RecordAttemptInput, record_attempt}
use forgeos_web.Domain.Station.{Connector, ChargingStation}
use forgeos_web.Sessions.Creation.{create_session, Interleaving}
use forgeos_web.Sessions.Meters.{
  row_of, with_meter_value, RecordMeterValueInput, append_reading, record_meter_value,
  record_reading, raise_energy,
}
use forgeos_web.Sessions.{stop_session, update_energy, CreateSessionInput, StopSessionInput}
use forgeos_web.Sessions.Creation.Exclusive.{
  create_session-SingleOccupancy, IsTame, bind-SingleOccupancy,
}
use forgeos_web.Domain.Session.{ChargingSession}
use forgeos_web.Sessions.Evolution.{stop_session-Evolves, update_energy-Evolves, Evolves-same}
use forgeos_web.Domain.Telemetry.{AuthAttemptResult}
use forgeos_web.Commands.Confirmation.Apart.{stop_observed_sessions, start_observed_sessions}
use forgeos_web.Commands.Confirmation.{on_stop_transaction_observed, on_start_transaction_observed}

module _ {db : Database} where
  same-SingleOccupancy :
      (w w' : World db) → w'.sessions ≡ w.sessions → SingleOccupancy w → SingleOccupancy w'
  same-SingleOccupancy w w' e single =
      Evolves-SingleOccupancy w w' (Evolves-same w w' (sym e)) single

  set_connector_status-SingleOccupancy :
      (e : ConnectorStatusEvent) (found : Option Connector) (w : World db)
      → SingleOccupancy w
      → SingleOccupancy (set_connector_status e found w).1
  unfolding set_connector_status
  set_connector_status-SingleOccupancy e none w single = single
  set_connector_status-SingleOccupancy e (some c) w single = single

  pub status_for-SingleOccupancy :
      (e : ConnectorStatusEvent) (station : ChargingStation) (id : Option Decimal) (w : World db)
      → SingleOccupancy w
      → SingleOccupancy (status_for e station id w).1
  unfolding status_for
  status_for-SingleOccupancy e station none w single = single
  status_for-SingleOccupancy e station (some id) w single = elim (Bool-cases (is_whole id 0)) [
    | inl whole_station ↦ rw whole_station single
    | inr one ↦ rw one (set_connector_status-SingleOccupancy e _ w single)
  ]

  record_attempt-SingleOccupancy :
      (input : RecordAttemptInput) (w : World db)
      → SingleOccupancy w
      → SingleOccupancy (record_attempt input w).1
  unfolding record_attempt
  record_attempt-SingleOccupancy input w single = single

  pub authorization_handler-SingleOccupancy :
      (id_tag : String) (station : ChargingStation) (w : World db)
      → SingleOccupancy w
      → SingleOccupancy (authorization_handler id_tag station w).1
  unfolding authorization_handler
  authorization_handler-SingleOccupancy id_tag station w single =
      bind-SingleOccupancy (record_attempt _ w) _ (record_attempt-SingleOccupancy _ w single)
        (λ a v h. h)

  start_session-SingleOccupancy :
      (env : Interleaving db) (input : CreateSessionInput) (w : World db)
      → IsTame env
      → SingleOccupancy w
      → SingleOccupancy (start_session env input w).1
  unfolding start_session
  start_session-SingleOccupancy env input w tame single =
      bind-SingleOccupancy (create_session env input w) _
        (create_session-SingleOccupancy env input w tame single)
        (λ s v h.
          let v' =
            on_start_transaction_observed input.charging_station_id input.connector_id s.id v in
          same-SingleOccupancy v v' (start_observed_sessions _ _ s.id v) h)

  start_authorized-SingleOccupancy :
      (env : Interleaving db) (e : TransactionStart) (station : ChargingStation) (c : Connector)
      (result : AuthAttemptResult) (credential : Option ℕ) (w : World db)
      → IsTame env
      → SingleOccupancy w
      → SingleOccupancy (start_authorized env e station c result credential w).1
  unfolding start_authorized
  start_authorized-SingleOccupancy env e station c result none w tame single = single
  start_authorized-SingleOccupancy env e station c result (some id) w tame single =
      elim (Bool-cases (is_accepted result)) [
        | inl good ↦ rw good (start_session-SingleOccupancy env _ w tame single)
        | inr bad ↦ rw bad single
      ]

  pub start_at-SingleOccupancy :
      (env : Interleaving db) (e : TransactionStart) (station : ChargingStation)
      (found : Option Connector) (w : World db)
      → IsTame env
      → SingleOccupancy w
      → SingleOccupancy (start_at env e station found w).1
  unfolding start_at
  start_at-SingleOccupancy env e station none w tame single =
      bind-SingleOccupancy (record_attempt _ w) _ (record_attempt-SingleOccupancy _ w single)
        (λ a v h. h)
  start_at-SingleOccupancy env e station (some c) w tame single =
      bind-SingleOccupancy (record_attempt _ w) _ (record_attempt-SingleOccupancy _ w single)
        (λ a v h. start_authorized-SingleOccupancy env e station c _ _ v tame h)

  raise_energy-SingleOccupancy :
      (id : ℕ) (old new : ℤ) (w : World db)
      → SingleOccupancy w
      → SingleOccupancy (raise_energy id old new w).1
  unfolding raise_energy
  raise_energy-SingleOccupancy id old new w single = elim (Bool-cases (ltb_ℤ old new)) [
    | inr same ↦ rw same single
    | inl more ↦ rw more (
        bind-SingleOccupancy (update_energy id new w) _
          (Evolves-SingleOccupancy w (update_energy id new w).1 (update_energy-Evolves id new w)
            single)
          (λ a v h. h))
  ]

  append_reading-SingleOccupancy :
      (s : ChargingSession) (input : RecordMeterValueInput) (w : World db)
      → SingleOccupancy w
      → SingleOccupancy (append_reading s input w).1
  unfolding append_reading
  append_reading-SingleOccupancy s input w single =
      let v = with_meter_value (row_of input) w in
      bind-SingleOccupancy (raise_energy s.id s.energy_wh input.energy_wh v)
        (λ _. pure (some (row_of input)))
        (raise_energy-SingleOccupancy s.id s.energy_wh input.energy_wh v single) (λ a u h. h)

  record_reading-SingleOccupancy :
      (found : Option ChargingSession) (input : RecordMeterValueInput) (w : World db)
      → SingleOccupancy w
      → SingleOccupancy (record_reading found input w).1
  unfolding record_reading
  record_reading-SingleOccupancy none input w single = single
  record_reading-SingleOccupancy (some s) input w single =
      elim (Bool-cases (ltb_ℤ input.energy_wh s.energy_wh)) [
        | inl less ↦ rw less single
        | inr rest ↦ rw rest (append_reading-SingleOccupancy s input w single)
      ]

  update_with-SingleOccupancy :
      (e : TransactionUpdate) (id : ℕ) (energy : Option MeterSample) (w : World db)
      → SingleOccupancy w
      → SingleOccupancy (update_with e id energy w).1
  unfolding update_with record_meter_value
  update_with-SingleOccupancy e id none w single = single
  update_with-SingleOccupancy e id (some energy) w single =
      bind-SingleOccupancy (record_reading _ (reading_of e id energy) w) _
        (record_reading-SingleOccupancy _ (reading_of e id energy) w single) (λ a v h. h)

  pub update_for-SingleOccupancy :
      (e : TransactionUpdate) (found : Option ChargingSession) (w : World db)
      → SingleOccupancy w
      → SingleOccupancy (update_for e found w).1
  unfolding update_for
  update_for-SingleOccupancy e none w single = single
  update_for-SingleOccupancy e (some s) w single = update_with-SingleOccupancy e s.id _ w single

  stop_observed-SingleOccupancy :
      (id : ℕ) (input : StopSessionInput) (w : World db)
      → SingleOccupancy w
      → SingleOccupancy (stop_observed id input w).1
  unfolding stop_observed
  stop_observed-SingleOccupancy id input w single =
      bind-SingleOccupancy (stop_session id input w) _
        (Evolves-SingleOccupancy w (stop_session id input w).1 (stop_session-Evolves id input w)
          single)
        (λ s v h.
          same-SingleOccupancy v (on_stop_transaction_observed id v) (stop_observed_sessions id v)
            h)

  pub end_for-SingleOccupancy :
      (e : TransactionEnd) (found : Option ChargingSession) (w : World db)
      → SingleOccupancy w
      → SingleOccupancy (end_for e found w).1
  unfolding end_for
  end_for-SingleOccupancy e none w single = single
  end_for-SingleOccupancy e (some s) w single = elim (Bool-cases (has_ended s.status)) [
    | inl over ↦ rw over single
    | inr going ↦ rw going (stop_observed-SingleOccupancy s.id _ w single)
  ]
