-- ===== src/Ocpp/Ocpp16/Formatting.antt =====
-- The answers of the adapter, and its remote commands.
use Prim.Native.String.{String}
use forgeos_web.Base.{ℕ, Bool, Option, none, some, if◌then◌else◌}
use forgeos_web.Base.Decimal.{whole}
use forgeos_web.Base.JsMap.{nat_eq, string_eq}
use forgeos_web.Ocpp.Frame.{
  Value, Fields, number, text, object, format_call_error, format_call_result,
}
use forgeos_web.Ocpp.Events.{NormalizedInboundEvent, DomainResult, IdTagStatus}

pub data ProtocolErrorCategory : Type 0 where
  malformed unsupported protocol_violation internal : ProtocolErrorCategory

abbrev protocol_error_code : ProtocolErrorCategory → String
protocol_error_code ProtocolErrorCategory.malformed = "FormationViolation"
protocol_error_code ProtocolErrorCategory.unsupported = "NotImplemented"
protocol_error_code ProtocolErrorCategory.protocol_violation = "ProtocolError"
protocol_error_code ProtocolErrorCategory.internal = "InternalError"

abbrev no_fields : Value
no_fields = object Fields.end

abbrev one_field : String → Value → Fields → Value
one_field key v rest = object (Fields.field key v rest)

unfoldable pub format_error_response :
    (message_id : String) → ProtocolErrorCategory → (description : String) → Value
format_error_response id category description =
    format_call_error id (protocol_error_code category) description no_fields

abbrev id_tag_text : IdTagStatus → String
id_tag_text IdTagStatus.accepted = "Accepted"
id_tag_text IdTagStatus.blocked = "Blocked"
id_tag_text IdTagStatus.expired = "Expired"
id_tag_text IdTagStatus.invalid = "Invalid"

abbrev id_tag_status_or : Option IdTagStatus → Bool → String
id_tag_status_or (some status) ok_ = id_tag_text status
id_tag_status_or none ok_ = if ok_ then "Accepted" else "Invalid"

unfoldable pub id_tag_status_of : DomainResult → String
id_tag_status_of result = id_tag_status_or result.id_tag_status result.accepted

abbrev number_or_zero : Option ℕ → ℕ
number_or_zero none = 0
number_or_zero (some n) = n

unfoldable pub protocol_transaction_id_of : DomainResult → ℕ
protocol_transaction_id_of result = number_or_zero result.protocol_transaction_id

-- `idTagInfo: { status }`, with the fields after it.
abbrev id_tag_info : String → Fields
id_tag_info status =
    Fields.field "idTagInfo" (one_field "status" (text status) Fields.end) Fields.end

-- DeviceBoot, Heartbeat and ConnectorStatus answer a domain rejection with an error.
abbrev pub or_rejected : String → Bool → Value → Value
or_rejected id accepted answer =
    if accepted then answer else format_call_error id "InternalError" "Rejected by MOVOS" no_fields

unfoldable pub format_response :
    (now_text : String) → NormalizedInboundEvent → DomainResult → (message_id : String) → Value
format_response now_text (NormalizedInboundEvent.device_boot e) r id = or_rejected id r.accepted (
    format_call_result id (
      one_field "status" (text "Accepted") (
        Fields.field "currentTime" (text now_text)
          (Fields.field "interval" (number (whole 300)) Fields.end))))
format_response now_text NormalizedInboundEvent.heartbeat r id =
    or_rejected id r.accepted
      (format_call_result id (one_field "currentTime" (text now_text) Fields.end))
format_response now_text (NormalizedInboundEvent.connector_status e) r id =
    or_rejected id r.accepted (format_call_result id no_fields)
format_response now_text (NormalizedInboundEvent.authorization id_tag) r id =
    format_call_result id (object (id_tag_info (id_tag_status_of r)))
format_response now_text (NormalizedInboundEvent.transaction_start e) r id = format_call_result id (
    one_field "transactionId" (number (whole (protocol_transaction_id_of r)))
      (id_tag_info (id_tag_status_of r)))
format_response now_text (NormalizedInboundEvent.transaction_update e) r id =
    format_call_result id no_fields
format_response now_text (NormalizedInboundEvent.transaction_end e) r id =
    format_call_result id no_fields
