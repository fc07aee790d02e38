-- ===== src/Examples/Engine.antt =====
-- The properties of the protocol engine at concrete frames.
use forgeos_web.Base.{
  ℕ, zero, suc, ◌+◌, ◌-◌, ◌*◌, ◌≤◌, ◌<◌, ◌∙◌, ◌≡◌, ◌≢◌, refl, sym, ap, ◌⊎◌, inl, inr, ◌↔◌, Bool,
  true, false, ◌&&◌, ◌||◌, not, Option, none, some, List, [], ◌∷◌, ◌++◌, ◌==◌, ltb, leb, includes,
  is_none, is_some_of, if◌then◌else◌, arith, Bool-cases, Option-cases, ==_iff, ==_self, All,
}
use forgeos_web.Base.Decimal.{Decimal}
use forgeos_web.Base.JsMap.{nat_eq, string_eq}
use forgeos_web.Base.Result.{ok}
use forgeos_web.Domain.{World}
use forgeos_web.Ocpp.Frame.{
  Value, Fields, null, number, text, array, object, last, item, OcppJMessage, message,
  parse_ocpp_frame,
}
use forgeos_web.Ocpp.Ocpp16.{Wire}
use forgeos_web.Base.Decimal.{whole}
use forgeos_web.PendingCalls
use forgeos_web.Examples.{
  ProtocolVersion, SingleOccupancy, no_calls, ConnectivityStatus, ChargingStation, sample_db,
  sample, station_of,
}
use forgeos_web.Ocpp.Frame.RoundTrip.{parse_ocpp_frame-print, print}
use forgeos_web.Ocpp.Router.{handle_inbound_frame}
use forgeos_web.Ocpp.Ocpp16.Formatting.{format_response}
use forgeos_web.Examples.Charging.{sample-SingleOccupancy, calm-IsTame, calm}
use forgeos_web.Ocpp.Router.Replies.{handle_inbound_frame_answers, IsReplyTo}
use forgeos_web.Ocpp.EventLog.Scrubbing.{
  record_events, AreStoredClean, stripped, on_top, record_events-AreStoredClean,
}
use forgeos_web.Ocpp.Router.Occupancy.{receive_all-SingleOccupancy, receive_all}
use forgeos_web.Ocpp.Events.{plain, NormalizedInboundEvent}
use forgeos_web.Domain.Telemetry.{
  OcppProcessingStatus, OcppMessageType, OcppMessageDirection, OcppProtocolEvent,
}

abbrev heartbeat_frame : Value
heartbeat_frame = array (
    item (number (whole 2))
      (item (text "m1") (item (text "Heartbeat") (item (object Fields.end) last))))

abbrev heartbeat_message : OcppJMessage
heartbeat_message = OcppJMessage.call "m1" "Heartbeat" (object Fields.end)

-- A CALLRESULT with two places too many.
abbrev long_result : Value
long_result = array (
    item (number (whole 3))
      (item (text "a1") (item (object Fields.end) (item null (item null last)))))

long_parsed :
    parse_ocpp_frame long_result ≡ message (OcppJMessage.call_result "a1" (object Fields.end))
unfolding parse_ocpp_frame forgeos_web.Base.Decimal.is_whole
long_parsed = refl

parse_ocpp_frame-print_example :
    parse_ocpp_frame (print (OcppJMessage.call_result "a1" (object Fields.end)))
    ≡ message (OcppJMessage.call_result "a1" (object Fields.end))
parse_ocpp_frame-print_example =
    parse_ocpp_frame-print long_result (OcppJMessage.call_result "a1" (object Fields.end))
      long_parsed

abbrev wire : Wire
wire = record {
  instant_of = λ t. 500;
  iso_text = λ t. "2026-01-01T00:00:00.000Z";
  number_of = λ t. some (whole 0);
  integer_of = λ d. d.mantissa;
  describe = λ d. "refused";
}

abbrev the_station : ChargingStation
the_station = station_of ConnectivityStatus.online

heartbeat_parsed : parse_ocpp_frame heartbeat_frame ≡ message heartbeat_message
unfolding parse_ocpp_frame forgeos_web.Base.Decimal.is_whole
heartbeat_parsed = refl

abbrev the_reply : Value
the_reply = format_response (wire.iso_text 1000) NormalizedInboundEvent.heartbeat (plain true) "m1"

heartbeat_handled :
    handle_inbound_frame wire calm the_station heartbeat_frame sample
    ≡ (ok (some the_reply), (handle_inbound_frame wire calm the_station heartbeat_frame sample).1)
unfolding handle_inbound_frame forgeos_web.Ocpp.Router.handle_envelope parse_ocpp_frame
    forgeos_web.Base.Decimal.is_whole forgeos_web.Ocpp.Router.handle_call
    forgeos_web.Ocpp.Ocpp16.parse_inbound forgeos_web.Ocpp.Router.handle_event
    forgeos_web.Ocpp.Router.route_by_type forgeos_web.Ocpp.Handlers.heartbeat_handler
heartbeat_handled = refl

handle_inbound_frame_answers_example :
    (frame : Value) × (some the_reply ≡ some frame) × IsReplyTo "m1" frame
handle_inbound_frame_answers_example =
    handle_inbound_frame_answers wire calm the_station heartbeat_frame (object Fields.end) "m1"
      "Heartbeat" sample (handle_inbound_frame wire calm the_station heartbeat_frame sample).1
      (some the_reply) heartbeat_parsed heartbeat_handled

-- The call `a1` waits, and then it is answered.
abbrev expecting : World sample_db
expecting = record sample { pending_calls = PendingCalls.register "a1" 7 no_calls }

receive_all-SingleOccupancy_example : SingleOccupancy (
    receive_all wire calm calm-IsTame
      ((the_station, heartbeat_frame) ∷ (the_station, long_result) ∷ [])
      sample)
receive_all-SingleOccupancy_example =
    receive_all-SingleOccupancy wire calm calm-IsTame
      ((the_station, heartbeat_frame) ∷ (the_station, long_result) ∷ []) sample
      sample-SingleOccupancy

abbrev secretive : Value
secretive = object (Fields.field "authToken" (object Fields.end) Fields.end)

abbrev secret_event : OcppProtocolEvent
secret_event = record {
  charging_station_id = some 5;
  protocol_version = ProtocolVersion.ocpp1_6j;
  direction = OcppMessageDirection.inbound;
  message_type = OcppMessageType.call;
  action = some "Authorize";
  protocol_message_id = some "m1";
  payload = secretive;
  processing_status = OcppProcessingStatus.received;
  processing_error = none;
  correlation_id = none;
}

record_events-AreStoredClean_example :
    let w' = record_events (secret_event ∷ secret_event ∷ []) sample in
    AreStoredClean w'.protocol_events
    × (stripped w'.protocol_events
        ≡ on_top (stripped (secret_event ∷ secret_event ∷ [])) (stripped sample.protocol_events))
record_events-AreStoredClean_example =
    record_events-AreStoredClean (secret_event ∷ secret_event ∷ []) sample tt
