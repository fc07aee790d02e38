-- ===== src/Ocpp/Router.antt =====
-- apps/movos-api/src/ocpp/routing/ocpp-message-router.service.ts, with the 1.6J adapter: one inbound
-- frame of a station, and the frame that goes back.
pub mod Replies
pub mod Occupancy
use Prim.Native.String.{String}
use forgeos_web.Base.{
  ℕ, zero, suc, ◌+◌, ◌-◌, ◌*◌, ◌≤◌, ◌<◌, ◌∙◌, ◌≡◌, ◌≢◌, refl, sym, ap, ◌⊎◌, inl, inr, ◌↔◌, Bool,
  true, false, ◌&&◌, ◌||◌, not, Option, none, some, List, [], ◌∷◌, ◌++◌, ◌==◌, ltb, leb, includes,
  length, is_none, is_some_of, if◌then◌else◌, arith, Bool-cases, Option-cases, ==_iff, ==_self, All,
}
use forgeos_web.Base.Int.{ℤ, pos, negsuc, ◌-ℤ◌, ◌≤ℤ◌, ltb_ℤ}
use forgeos_web.Base.Decimal.{Decimal}
use forgeos_web.Base.JsMap
use forgeos_web.Base.JsMap.{JsMap, nat_eq, string_eq, get-put, get-remove}
use forgeos_web.Base.Result.{
  Result, ok, err, Error, not_found, conflict, bad_request, invalid_transition, Exec, ◌>>=◌, ◌>>◌,
  pure, throw, gets, modify, Result-cases, ok_inj, ok_ne_err, bind_result,
}
use forgeos_web.Domain.{Database, World, record_audit}
use forgeos_web.Ocpp.Frame.{Value, OcppJMessage, Envelope, message, malformed, parse_ocpp_frame}
use forgeos_web.Ocpp.Events.{NormalizedInboundEvent, DomainResult}
use forgeos_web.Ocpp.Ocpp16.{
  parse_inbound, Wire, Description, Inbound, event, unsupported_message, malformed_message,
  bad_envelope,
}
use forgeos_web.Domain.Telemetry.{
  OcppMessageType, OcppMessageDirection, OcppProcessingStatus, OcppProtocolEvent,
}
use forgeos_web.Ocpp.Ocpp16.Formatting.{
  format_error_response, format_response, ProtocolErrorCategory,
}
use forgeos_web.PendingCalls
use forgeos_web.Connections
use forgeos_web.PendingCalls.{PendingCalls}
use forgeos_web.Domain.Station.{ChargingStation}
use forgeos_web.Domain.Connection.{Registry}
use forgeos_web.Sessions.Creation.{Interleaving}
use forgeos_web.Ocpp.Handlers.{
  transaction_end_handler, transaction_update_handler, transaction_start_handler,
  authorization_handler, status_handler, heartbeat_handler, boot_handler,
}
use forgeos_web.Domain.Session.{ProtocolVersion}
use forgeos_web.Ocpp.EventLog.{record_protocol_event}

-- A row of the log of this station.
abbrev logged :
    ChargingStation
    → Value
    → OcppMessageType
    → (action message_id : Option String) → OcppProcessingStatus
    → (error : Option String) → OcppProtocolEvent
logged station raw type action message_id status error = record {
  charging_station_id = some station.id;
  protocol_version = ProtocolVersion.ocpp1_6j;
  direction = OcppMessageDirection.inbound;
  message_type = type;
  action = action;
  protocol_message_id = message_id;
  payload = raw;
  processing_status = status;
  processing_error = error;
  correlation_id = message_id;
}

abbrev touched : ℕ → Option ℕ → Registry → Registry
touched now none r = r
touched now (some identity) r = Connections.touch now identity r

abbrev matched : Bool → OcppProcessingStatus
matched known = if known then OcppProcessingStatus.processed else OcppProcessingStatus.unsupported

abbrev outcome_status : DomainResult → OcppProcessingStatus
outcome_status r =
    if r.accepted then OcppProcessingStatus.processed else OcppProcessingStatus.rejected

module _ {db : Database} where
  unfoldable pub touch_station : ChargingStation → World db → World db
  touch_station station w = record w { registry = touched w.now station.ocpp_identity w.registry }

  unfoldable pub route_by_type :
      Interleaving db → NormalizedInboundEvent → ChargingStation → Exec (World db) DomainResult
  route_by_type env (NormalizedInboundEvent.device_boot e) station = boot_handler e station
  route_by_type env NormalizedInboundEvent.heartbeat station = heartbeat_handler station
  route_by_type env (NormalizedInboundEvent.connector_status e) station = status_handler e station
  route_by_type env (NormalizedInboundEvent.authorization id_tag) station =
      authorization_handler id_tag station
  route_by_type env (NormalizedInboundEvent.transaction_start e) station =
      transaction_start_handler env e station
  route_by_type env (NormalizedInboundEvent.transaction_update e) station =
      transaction_update_handler e station
  route_by_type env (NormalizedInboundEvent.transaction_end e) station =
      transaction_end_handler e station

  abbrev on_calls : (PendingCalls → PendingCalls) → World db → World db
  on_calls f w = record w { pending_calls = f w.pending_calls }

  -- A reply to a call of ours. `resolve` does nothing where the message is not pending.
  unfoldable pub handle_reply :
      ChargingStation
      → Value
      → OcppMessageType
      → (message_id : String) → PendingCalls.Resolution
      → World db
      → World db
  handle_reply station raw type id resolution w =
      let known = PendingCalls.has w.pending_calls id in
      record_protocol_event (logged station raw type none (some id) (matched known) none)
        (if known then on_calls (PendingCalls.resolve id resolution) w else w)

  module _ (wire : Wire) (env : Interleaving db) where
    unfoldable pub handle_event :
        ChargingStation
        → Value
        → (message_id action : String) → NormalizedInboundEvent
        → Exec (World db) (Option Value)
    handle_event station raw id action e = do
      result ← route_by_type env e station
      modify (
          record_protocol_event (
            logged station raw OcppMessageType.call (some action) (some id) (outcome_status result)
              none))
      now ← gets (λ w. w.now)
      pure (some (format_response (wire.iso_text now) e result id))

    unfoldable pub handle_call :
        ChargingStation
        → Value
        → (message_id action : String) → Inbound
        → Exec (World db) (Option Value)
    handle_call station raw id action (event e) = handle_event station raw id action e
    handle_call station raw id action (malformed_message why) = do
      modify (
          record_protocol_event (
            logged station raw OcppMessageType.call (some action) (some id)
              OcppProcessingStatus.failed (some (wire.describe why))))
      pure (some (format_error_response id ProtocolErrorCategory.malformed (wire.describe why)))
    handle_call station raw id action (unsupported_message what reason) = do
      modify (
          record_protocol_event (
            logged station raw OcppMessageType.call (some action) (some id)
              OcppProcessingStatus.unsupported none))
      pure (
          some (
            format_error_response id ProtocolErrorCategory.unsupported
              (wire.describe (Description.not_implemented what))))

    unfoldable pub handle_envelope :
        ChargingStation → Value → Envelope → Exec (World db) (Option Value)
    handle_envelope station raw (malformed fault) = do
      modify (
          record_protocol_event (
            logged station raw OcppMessageType.call none none OcppProcessingStatus.failed
              (some (wire.describe (bad_envelope fault)))))
      pure none
    handle_envelope station raw (message (OcppJMessage.call_result id payload)) = do
      modify (
          handle_reply station raw OcppMessageType.call_result id
            PendingCalls.Resolution.call_result)
      pure none
    handle_envelope station raw (message (OcppJMessage.call_error id code description details)) = do
      modify (
          handle_reply station raw OcppMessageType.call_error id PendingCalls.Resolution.call_error)
      pure none
    handle_envelope station raw (message (OcppJMessage.call id action payload)) = do
      now ← gets (λ w. w.now)
      handle_call station raw id action (parse_inbound wire now raw)

    unfoldable pub handle_inbound_frame : ChargingStation → Value → Exec (World db) (Option Value)
    handle_inbound_frame station raw = do
      modify (touch_station station)
      handle_envelope station raw (parse_ocpp_frame raw)
