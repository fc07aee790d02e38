-- ===== src/Examples/Handling.antt =====
-- The properties of the handlers, of readings and of confirmations at concrete states.
use forgeos_web.Domain.Station.{digits}
use forgeos_web.Base.{
  ℕ, zero, suc, ◌+◌, ◌-◌, ◌*◌, ◌≤◌, ◌<◌, ◌∙◌, ◌≡◌, ◌≢◌, refl, sym, ap, ◌⊎◌, inl, inr, ◌↔◌, Bool,
  true, false, ◌&&◌, ◌||◌, not, Option, none, some, List, [], ◌∷◌, ◌++◌, ◌==◌, ltb, leb, includes,
  length, is_none, is_some_of, if◌then◌else◌, arith, Bool-cases, Option-cases, ==_iff, ==_self, All,
}
use forgeos_web.Base.Int.{ltb_ℤ, pos}
use forgeos_web.Base.Decimal.{Decimal}
use forgeos_web.Base.JsMap
use forgeos_web.Base.JsMap.{JsMap, nat_eq, string_eq, get-put, get-remove}
use forgeos_web.Base.Result.{ok, err, invalid_transition}
use forgeos_web.Domain.{World}
use forgeos_web.Ocpp.Events.{DomainResult, IdTagStatus, TransactionStart, TransactionEnd}
use forgeos_web.Base.Decimal.{whole}
use forgeos_web.Commands.Settlement.{settled, expires}
use forgeos_web.Examples.Charging.{calm}
use forgeos_web.Examples.Commanding.{command_of}
use forgeos_web.Commands.Confirmation.Windows.{
  run, fires, stop_observed, registered_resolves, resolved_stays,
}
use forgeos_web.Examples.{
  session_at, ConnectivityStatus, ChargingSession, SessionStatus, ProtocolVersion, ConnectorStatus,
  ChargingStation, sample_db, sample, station_of, session_of,
}
use forgeos_web.Ocpp.Handlers.{find_session, transaction_end_handler, transaction_start_handler}
use forgeos_web.Ocpp.Handlers.Starting.{transaction_start_handler-IsEarned, IsEarned}
use forgeos_web.Commands.Confirmation.Timers.{IsSound}
use forgeos_web.Commands.Confirmation.{expire_window, register_accepted}
use forgeos_web.Commands.{command_at}
use forgeos_web.Domain.Command.{CommandState, state_eq}
use forgeos_web.Authorization.{is_accepted, with_attempt, record_attempt, RecordAttemptInput}
use forgeos_web.Domain.Telemetry.{AuthAttemptResult, AuthorizationAttempt}
use forgeos_web.Sessions.Meters.{record_meter_value, RecordMeterValueInput}
use forgeos_web.Ocpp.Handlers.Ending.{transaction_end_handler_outcome}
use forgeos_web.Sessions.Meters.Outcome.{record_meter_value_outcome, IsStored}
use forgeos_web.Domain.Station.{Credential, CredentialStatus}
use forgeos_web.Sessions.Meters.Sequence.{record_all-Rises, Rises, record_all}
use forgeos_web.Authorization.Attempts.{record_attempt_sound, IsUsable}

abbrev the_station : ChargingStation
the_station = station_of ConnectivityStatus.online

abbrev ready : World sample_db
ready = record sample {
  connectors =
      record {
        id = 9;
        evse_id = 3;
        charging_station_id = 5;
        organization_id = 1;
        external_id = digits 1;
        status = ConnectorStatus.available;
      }
      ∷ [];
  credentials =
      record {
        id = 4;
        organization_id = 1;
        external_identifier = "AB";
        status = CredentialStatus.active;
        expires_at = some 5000;
      }
      ∷ [];
}

abbrev start_event : TransactionStart
start_event = record {
  connector_external_id = whole 1;
  id_tag = "AB";
  meter_start = pos 500;
  timestamp = 900;
  protocol_version = ProtocolVersion.ocpp1_6j;
}

abbrev start_answer : DomainResult
start_answer = record {
  accepted = true;
  id_tag_status = some IdTagStatus.accepted;
  protocol_transaction_id = some 42;
  session_id = some 3;
}

start_handled :
    transaction_start_handler calm start_event the_station ready
    ≡ (ok start_answer, (transaction_start_handler calm start_event the_station ready).1)
unfolding transaction_start_handler forgeos_web.Ocpp.Handlers.start_at
    forgeos_web.Ocpp.Handlers.find_connector forgeos_web.Base.Decimal.is_whole record_attempt
    forgeos_web.Ocpp.Handlers.start_authorized forgeos_web.Authorization.attempt_of
    forgeos_web.Authorization.find_credential forgeos_web.Authorization.resolve
    forgeos_web.Ocpp.Handlers.start_session forgeos_web.Authorization.resolve_active
    forgeos_web.Commands.Confirmation.on_start_transaction_observed
    forgeos_web.Ocpp.Normalization.id_tag_status_for forgeos_web.Sessions.Creation.create_session
    forgeos_web.Sessions.Creation.create_fresh forgeos_web.Sessions.Creation.reusable
    forgeos_web.Sessions.Creation.find_non_terminal_session_for_connector
    forgeos_web.Sessions.Creation.resolve_system_default_billing_account_id
    forgeos_web.Sessions.Creation.in_transaction forgeos_web.Sessions.Creation.create_in_transaction
    forgeos_web.Sessions.Creation.create_or_reuse forgeos_web.Sessions.Creation.create_or_winner
    forgeos_web.Sessions.Creation.find_account forgeos_web.Sessions.Creation.insert_account
    forgeos_web.Sessions.Creation.insert_session forgeos_web.Sessions.Creation.new_session
    forgeos_web.Sessions.Creation.next_transaction_id forgeos_web.Sessions.Creation.resolve_account
    forgeos_web.Sessions.Creation.settle forgeos_web.Sessions.Creation.supersede
    forgeos_web.Sessions.is_offline_session_recoverable
start_handled = refl

transaction_start_handler-IsEarned_example :
    IsEarned start_event the_station ready
      (transaction_start_handler calm start_event the_station ready).1
      start_answer
transaction_start_handler-IsEarned_example =
    transaction_start_handler-IsEarned calm start_event the_station ready
      (transaction_start_handler calm start_event the_station ready).1 start_answer start_handled
      refl

-- Session 3 is CANCELLED.
abbrev cancelled_one : World sample_db
cancelled_one = record sample {
  sessions = session_of 3 3 SessionStatus.cancelled ∷ sample.sessions;
}

abbrev end_event : TransactionEnd
end_event = record {
  transaction_ref = whole 103;
  meter_stop = pos 4000;
  reason = some "Local";
  timestamp = 950;
}

cancelled_found :
    find_session the_station (whole 103) cancelled_one
    ≡ some (session_of 3 3 SessionStatus.cancelled)
unfolding find_session forgeos_web.Base.Decimal.is_whole
cancelled_found = refl

transaction_end_handler_outcome_example :
    transaction_end_handler end_event the_station cancelled_one
    ≡ (err invalid_transition, cancelled_one)
transaction_end_handler_outcome_example =
    transaction_end_handler_outcome end_event the_station cancelled_one
      (session_of 3 3 SessionStatus.cancelled) cancelled_found

abbrev waiting : World sample_db
waiting = record sample { commands = command_of 1 CommandState.accepted ∷ [] }

empty-IsSound : IsSound (record { timers = []; running = []; next_timer = 0 })
unfolding JsMap.get
empty-IsSound = record {
  linked = λ i t j e f. ground arith;
  filed_below = λ i t e. ground arith;
  running_below = λ t i e. ground arith;
}

abbrev registered : World sample_db
registered =
    run (stop_observed 77 ∷ []) (register_accepted (command_of 1 CommandState.accepted) waiting)

still_waiting : command_at registered 1 ≡ some (command_of 1 CommandState.accepted)
unfolding forgeos_web.Commands.Confirmation.on_stop_transaction_observed register_accepted
    forgeos_web.Commands.Confirmation.check_immediately
    forgeos_web.Commands.Confirmation.schedule_expiry
still_waiting = refl

registered_resolves_example :
    (state_eq CommandState.accepted CommandState.accepted ≡ false)
    ⊎ ((t : ℕ) × (JsMap.get registered.confirmations.running t ≡ some 1)
        × (command_at (expire_window t registered) 1
            ≡ some (settled expires registered.now (command_of 1 CommandState.accepted))))
registered_resolves_example =
    registered_resolves (stop_observed 77 ∷ []) waiting (command_of 1 CommandState.accepted)
      (command_of 1 CommandState.accepted) empty-IsSound refl still_waiting

abbrev done_world : World sample_db
done_world = record sample { commands = command_of 1 CommandState.confirmed ∷ [] }

resolved_stays_example :
    command_at (run (fires 0 ∷ stop_observed 77 ∷ []) done_world) 1
    ≡ some (command_of 1 CommandState.confirmed)
resolved_stays_example =
    resolved_stays (fires 0 ∷ stop_observed 77 ∷ []) done_world 1
      (command_of 1 CommandState.confirmed) refl refl

abbrev tag_input : RecordAttemptInput
tag_input = record {
  organization_id = 1;
  charging_station_id = 5;
  evse_id = none;
  connector_id = none;
  presented_identifier = "AB";
  offline = false;
}

abbrev the_attempt : AuthorizationAttempt
the_attempt = record {
  organization_id = 1;
  charging_station_id = 5;
  evse_id = none;
  connector_id = none;
  authorization_credential_id = some 4;
  presented_identifier = "AB";
  result = AuthAttemptResult.accepted;
}

attempted : record_attempt tag_input ready ≡ (ok the_attempt, with_attempt the_attempt ready)
unfolding record_attempt forgeos_web.Authorization.attempt_of
    forgeos_web.Authorization.find_credential forgeos_web.Authorization.resolve
attempted = refl

record_attempt_sound_example :
    (with_attempt the_attempt ready ≡ with_attempt the_attempt ready)
    × (is_accepted AuthAttemptResult.accepted ≡ true
        → (c : Credential) × (sample_db.credentials.find_unique ready.credentials c.id ≡ some c)
          × (c.organization_id ≡ 1)
          × (c.external_identifier ≡ "AB")
          × IsUsable 1000 c
          × (some 4 ≡ some c.id))
record_attempt_sound_example =
    record_attempt_sound tag_input ready (with_attempt the_attempt ready) the_attempt attempted

abbrev reading : RecordMeterValueInput
reading = record {
  session_id = 1;
  timestamp = 900;
  energy_wh = pos 300;
  power_w = none;
  voltage = none;
  current = none;
  frequency = none;
  temperature = none;
}

record_meter_value_outcome_example :
    ((ltb_ℤ reading.energy_wh (session_of 1 1 SessionStatus.active).energy_wh ≡ true)
      × (record_meter_value reading sample ≡ (ok none, sample)))
    ⊎ IsStored reading
        (session_of 1 1 SessionStatus.active)
        sample
        (record_meter_value reading sample)
record_meter_value_outcome_example =
    record_meter_value_outcome reading sample (session_of 1 1 SessionStatus.active) refl

record_all-Rises_example :
    (b : ChargingSession) × (session_at (record_all (reading ∷ reading ∷ []) sample) 1 ≡ some b)
    × Rises (session_of 1 1 SessionStatus.active) b
record_all-Rises_example =
    record_all-Rises (reading ∷ reading ∷ []) sample 1 (session_of 1 1 SessionStatus.active) refl
