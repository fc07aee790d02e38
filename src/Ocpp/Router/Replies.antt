-- ===== src/Ocpp/Router/Replies.antt =====
-- Which frames get an answer, and which.
use Prim.Native.String.{String}
use forgeos_web.Base.{
  suc, ◌≡◌, refl, sym, ◌⊎◌, inl, inr, Bool, true, false, Option, none, some, length,
}
use forgeos_web.Base.Decimal.{is_whole}
use forgeos_web.Base.JsMap
use forgeos_web.Base.JsMap.{JsMap, nat_eq, string_eq, get-put, get-remove}
use forgeos_web.Base.Result.{ok, err, Result-cases, ok_inj, ok_ne_err}
use forgeos_web.Domain.{Database, World}
use forgeos_web.Ocpp.Frame.{
  parse_error, parse_result, parse_typed, parse_identified, Value, OcppJMessage, message,
  parse_ocpp_frame, format_call_result, format_call_error, object, Fields,
}
use forgeos_web.Ocpp.Events.{NormalizedInboundEvent, DomainResult}
use forgeos_web.Ocpp.Ocpp16.{Wire, Inbound, event, unsupported_message, malformed_message}
use forgeos_web.Ocpp.Ocpp16.Formatting.{
  format_error_response, format_response, ProtocolErrorCategory, or_rejected,
}
use forgeos_web.Sessions.Creation.{Interleaving}
use forgeos_web.Domain.Station.{ChargingStation}
use forgeos_web.Ocpp.Router.{
  handle_envelope, handle_inbound_frame, handle_call, route_by_type, handle_event,
}
use forgeos_web.PendingCalls.{PendingCalls}
use forgeos_web.PendingCalls

-- A frame that a charger reads as the reply to its call `id`.
abbrev pub IsReplyTo : String → Value → Type 0
IsReplyTo id frame =
    ((payload : Value) × (parse_ocpp_frame frame ≡ message (OcppJMessage.call_result id payload)))
    ⊎ ((code : String) × (description : String) × (details : Value) × (parse_ocpp_frame frame
          ≡ message (OcppJMessage.call_error id code description details)))

result-IsReplyTo :
    (id : String) (fields : Fields) → IsReplyTo id (format_call_result id (object fields))
unfolding format_call_result parse_ocpp_frame parse_identified parse_typed parse_result is_whole
result-IsReplyTo id fields = inl (object fields, refl)

error-IsReplyTo :
    (id code description : String)
    → IsReplyTo id (format_call_error id code description (object Fields.end))
unfolding format_call_error parse_ocpp_frame parse_identified parse_typed parse_error is_whole
error-IsReplyTo id code description = inr (code, description, object Fields.end, refl)

or_rejected-IsReplyTo :
    (id : String) (b : Bool) (fields : Fields)
    → IsReplyTo id (or_rejected id b (format_call_result id (object fields)))
or_rejected-IsReplyTo id true fields = result-IsReplyTo id fields
or_rejected-IsReplyTo id false fields = error-IsReplyTo id _ _

format_response-IsReplyTo :
    (now : String) (e : NormalizedInboundEvent) (r : DomainResult) (id : String)
    → IsReplyTo id (format_response now e r id)
unfolding format_response
format_response-IsReplyTo now (NormalizedInboundEvent.device_boot e) r id =
    or_rejected-IsReplyTo id _ _
format_response-IsReplyTo now NormalizedInboundEvent.heartbeat r id = or_rejected-IsReplyTo id _ _
format_response-IsReplyTo now (NormalizedInboundEvent.connector_status e) r id =
    or_rejected-IsReplyTo id _ _
format_response-IsReplyTo now (NormalizedInboundEvent.authorization id_tag) r id =
    result-IsReplyTo id _
format_response-IsReplyTo now (NormalizedInboundEvent.transaction_start e) r id =
    result-IsReplyTo id _
format_response-IsReplyTo now (NormalizedInboundEvent.transaction_update e) r id =
    result-IsReplyTo id _
format_response-IsReplyTo now (NormalizedInboundEvent.transaction_end e) r id =
    result-IsReplyTo id _

format_error_response-IsReplyTo :
    (id : String) (category : ProtocolErrorCategory) (description : String)
    → IsReplyTo id (format_error_response id category description)
unfolding format_error_response
format_error_response-IsReplyTo id category description = error-IsReplyTo id _ description

-- The call that a message replies to, and how.
abbrev pub resolution_of : OcppJMessage → Option (String × PendingCalls.Resolution)
resolution_of (OcppJMessage.call id action payload) = none
resolution_of (OcppJMessage.call_result id payload) = some (id, PendingCalls.Resolution.call_result)
resolution_of (OcppJMessage.call_error id code description details) =
    some (id, PendingCalls.Resolution.call_error)

module _ {db : Database} (wire : Wire) (env : Interleaving db) (station : ChargingStation) where
  abbrev pub Answers : String → Option Value → Type 0
  Answers id reply = (frame : Value) × (reply ≡ some frame) × IsReplyTo id frame

  handle_event-Answers :
      (raw : Value) (id action : String) (e : NormalizedInboundEvent) (w w' : World db)
      (reply : Option Value)
      → handle_event wire env station raw id action e w ≡ (ok reply, w')
      → Answers id reply
  unfolding handle_event
  handle_event-Answers raw id action e w w' reply h =
      elim (Result-cases (route_by_type env e station w)) [
        | inl (r, v, routed) ↦
            let (same, after) = ok_inj _ _ _ _ _ (rw routed at h) refl in
            (_, sym same, format_response-IsReplyTo _ e r id)
        | inr (x, v, failed) ↦
            let run : handle_event wire env station raw id action e w ≡ (err x, v) =
              rw failed refl in
            absurd (ok_ne_err _ reply x w' v h run)
      ]

  handle_call-Answers :
      (raw : Value) (id action : String) (inbound : Inbound) (w w' : World db)
      (reply : Option Value)
      → handle_call wire env station raw id action inbound w ≡ (ok reply, w')
      → Answers id reply
  unfolding handle_call
  handle_call-Answers raw id action (event e) w w' reply h =
      handle_event-Answers raw id action e w w' reply h
  handle_call-Answers raw id action (malformed_message why) w w' reply h =
      let (same, after) = ok_inj _ _ _ _ _ h refl in
      (_, sym same, format_error_response-IsReplyTo id _ _)
  handle_call-Answers raw id action (unsupported_message what reason) w w' reply h =
      let (same, after) = ok_inj _ _ _ _ _ h refl in
      (_, sym same, format_error_response-IsReplyTo id _ _)

  -- Every CALL whose handling does not throw is answered: whether the message is handled, malformed or
  -- not implemented, and whether the domain accepts it, the frame that goes back is a CALLRESULT or a
  -- CALLERROR with the message id of the call.
  pub handle_inbound_frame_answers :
      (raw payload : Value) (id action : String) (w w' : World db) (reply : Option Value)
      → parse_ocpp_frame raw ≡ message (OcppJMessage.call id action payload)
      → handle_inbound_frame wire env station raw w ≡ (ok reply, w')
      → (frame : Value) × (reply ≡ some frame) × IsReplyTo id frame
  unfolding handle_inbound_frame handle_envelope
  handle_inbound_frame_answers raw payload id action w w' reply parsed h =
      handle_call-Answers raw id action _ _ w' reply (rw parsed at h)

  abbrev Resolves : Value → String → PendingCalls.Resolution → World db → Type 0
  Resolves raw id r w =
      (w' : World db) × (handle_inbound_frame wire env station raw w ≡ (ok none, w'))
      × (w'.pending_calls ≡ PendingCalls.resolve id r w.pending_calls)
      × (length w'.protocol_events ≡ suc (length w.protocol_events))
