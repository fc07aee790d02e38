-- ===== src/Ocpp/Router/Occupancy.antt =====
-- The frames of chargers and the sessions of a connector.
use Prim.Native.String.{String}
use forgeos_web.Base.{inl, inr, List, [], ◌∷◌, Bool-cases}
use forgeos_web.Base.JsMap.{nat_eq, string_eq}
use forgeos_web.Domain.{Database, World}
use forgeos_web.Ocpp.Frame.{Value, OcppJMessage, Envelope, message, malformed, parse_ocpp_frame}
use forgeos_web.Ocpp.Events.{NormalizedInboundEvent}
use forgeos_web.Ocpp.Ocpp16.{
  parse_inbound, Wire, Inbound, event, unsupported_message, malformed_message,
}
use forgeos_web.Ocpp.EventLog.{record_protocol_event}
use forgeos_web.Ocpp.Handlers.{
  status_handler, transaction_start_handler, transaction_update_handler, transaction_end_handler,
  boot_handler, heartbeat_handler,
}
use forgeos_web.Sessions.Occupancy.{SingleOccupancy}
use forgeos_web.Domain.Station.{ChargingStation}
use forgeos_web.Sessions.Creation.{Interleaving}
use forgeos_web.Ocpp.Router.{
  touch_station, handle_inbound_frame, handle_envelope, handle_call, handle_event, handle_reply,
  route_by_type,
}
use forgeos_web.Sessions.Creation.Exclusive.{IsTame, bind-SingleOccupancy}
use forgeos_web.Domain.Telemetry.{OcppMessageType}
use forgeos_web.PendingCalls.{PendingCalls}
use forgeos_web.PendingCalls
use forgeos_web.Ocpp.Handlers.Occupancy.{
  status_for-SingleOccupancy, authorization_handler-SingleOccupancy, start_at-SingleOccupancy,
  update_for-SingleOccupancy, end_for-SingleOccupancy,
}

module _ {db : Database} where
  route_by_type-SingleOccupancy :
      (env : Interleaving db) (e : NormalizedInboundEvent) (station : ChargingStation)
      (w : World db)
      → IsTame env
      → SingleOccupancy w
      → SingleOccupancy (route_by_type env e station w).1
  unfolding route_by_type boot_handler heartbeat_handler status_handler transaction_start_handler
      transaction_update_handler transaction_end_handler
  route_by_type-SingleOccupancy env (NormalizedInboundEvent.device_boot e) station w tame single =
      single
  route_by_type-SingleOccupancy env NormalizedInboundEvent.heartbeat station w tame single = single
  route_by_type-SingleOccupancy env (NormalizedInboundEvent.connector_status e) station w tame
        single =
      status_for-SingleOccupancy e station e.connector_external_id w single
  route_by_type-SingleOccupancy env (NormalizedInboundEvent.authorization t) station w tame single =
      authorization_handler-SingleOccupancy t station w single
  route_by_type-SingleOccupancy env (NormalizedInboundEvent.transaction_start e) station w tame
        single =
      start_at-SingleOccupancy env e station _ w tame single
  route_by_type-SingleOccupancy env (NormalizedInboundEvent.transaction_update e) station w tame
        single =
      update_for-SingleOccupancy e _ w single
  route_by_type-SingleOccupancy env (NormalizedInboundEvent.transaction_end e) station w tame
        single =
      end_for-SingleOccupancy e _ w single

  handle_reply-SingleOccupancy :
      (station : ChargingStation) (raw : Value) (type : OcppMessageType) (id : String)
      (r : PendingCalls.Resolution) (w : World db)
      → SingleOccupancy w
      → SingleOccupancy (handle_reply station raw type id r w)
  unfolding handle_reply record_protocol_event
  handle_reply-SingleOccupancy station raw type id r w single =
      elim (Bool-cases (PendingCalls.has w.pending_calls id)) [
        | inl known ↦ rw known single
        | inr unknown ↦ rw unknown single
      ]

  module _ (wire : Wire) (env : Interleaving db) (tame : IsTame env) where
    handle_event-SingleOccupancy :
        (station : ChargingStation) (raw : Value) (id action : String) (e : NormalizedInboundEvent)
        (w : World db)
        → SingleOccupancy w
        → SingleOccupancy (handle_event wire env station raw id action e w).1
    unfolding handle_event record_protocol_event
    handle_event-SingleOccupancy station raw id action e w single =
        bind-SingleOccupancy (route_by_type env e station w) _
          (route_by_type-SingleOccupancy env e station w tame single) (λ r v h. h)

    handle_call-SingleOccupancy :
        (station : ChargingStation) (raw : Value) (id action : String) (inbound : Inbound)
        (w : World db)
        → SingleOccupancy w
        → SingleOccupancy (handle_call wire env station raw id action inbound w).1
    unfolding handle_call record_protocol_event
    handle_call-SingleOccupancy station raw id action (event e) w single =
        handle_event-SingleOccupancy station raw id action e w single
    handle_call-SingleOccupancy station raw id action (malformed_message why) w single = single
    handle_call-SingleOccupancy station raw id action (unsupported_message what reason) w single =
        single

    handle_envelope-SingleOccupancy :
        (station : ChargingStation) (raw : Value) (envelope : Envelope) (w : World db)
        → SingleOccupancy w
        → SingleOccupancy (handle_envelope wire env station raw envelope w).1
    unfolding handle_envelope record_protocol_event
    handle_envelope-SingleOccupancy station raw (malformed fault) w single = single
    handle_envelope-SingleOccupancy station raw (message (OcppJMessage.call_result id payload)) w
          single =
        handle_reply-SingleOccupancy station raw _ id _ w single
    handle_envelope-SingleOccupancy station raw
          (message (OcppJMessage.call_error id code description details)) w single =
        handle_reply-SingleOccupancy station raw _ id _ w single
    handle_envelope-SingleOccupancy station raw (message (OcppJMessage.call id action payload)) w
          single =
        handle_call-SingleOccupancy station raw id action (parse_inbound wire w.now raw) w single

    -- The world after frames that come in one after another, from whatever stations.
    abbrev pub receive_all : List (ChargingStation × Value) → World db → World db
    receive_all [] w = w
    receive_all ((station, raw) ∷ rest) w =
        receive_all rest (handle_inbound_frame wire env station raw w).1

    -- Whatever frames the stations send and in whatever order, well-formed or not, handled or thrown on,
    -- a connector that has at most one session that is not ended keeps at most one. What other
    -- requests commit while a session is created is arbitrary, as long as it keeps the same invariant.
    pub receive_all-SingleOccupancy :
        (frames : List (ChargingStation × Value)) (w : World db)
        → SingleOccupancy w
        → SingleOccupancy (receive_all frames w)
    unfolding handle_inbound_frame touch_station
    receive_all-SingleOccupancy [] w single = single
    receive_all-SingleOccupancy ((station, raw) ∷ rest) w single =
        receive_all-SingleOccupancy rest (handle_inbound_frame wire env station raw w).1 (
          handle_envelope-SingleOccupancy station raw (parse_ocpp_frame raw)
            (touch_station station w) single)
