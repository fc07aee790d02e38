-- ===== src/Ocpp/Ocpp16.antt =====
-- apps/movos-api/src/ocpp/protocol/ocpp16/ocpp16-adapter.ts: OCPP 1.6J as normalized events and back.
-- What the language does with texts and dates is a `Wire`.
pub mod Formatting
use Prim.Native.String.{String}
use forgeos_web.Base.{
  ℕ, zero, suc, ◌+◌, ◌-◌, ◌*◌, ◌≤◌, ◌<◌, ◌∙◌, ◌≡◌, ◌≢◌, refl, sym, ap, ◌⊎◌, inl, inr, ◌↔◌, Bool,
  true, false, ◌&&◌, ◌||◌, not, Option, none, some, List, [], ◌∷◌, ◌++◌, ◌==◌, ltb, leb, includes,
  length, is_none, is_some_of, if◌then◌else◌, arith, Bool-cases, Option-cases, ==_iff, ==_self, All,
}
use forgeos_web.Base.Int.{ℤ, pos, negsuc, ◌-ℤ◌, ◌≤ℤ◌, ltb_ℤ}
use forgeos_web.Base.Decimal.{Decimal}
use forgeos_web.Base.JsMap
use forgeos_web.Base.JsMap.{JsMap, nat_eq, string_eq, get-put, get-remove}
use forgeos_web.Base.Result.{
  Result, ok, err, Error, not_found, conflict, bad_request, invalid_transition, Exec, ◌>>=◌, ◌>>◌,
  pure, throw, gets, modify, Result-cases, ok_inj, ok_ne_err, bind_result,
}
use forgeos_web.Domain.{Database, World, record_audit}
use forgeos_web.Ocpp.Frame.{
  Value, Items, Fields, null, boolean, number, text, array, object, last, item, OcppJMessage,
  FrameFault, Envelope, message, malformed, parse_ocpp_frame,
}
use forgeos_web.Ocpp.Events.{
  NormalizedInboundEvent, NormalizedDeviceStatus, MeterSample, DomainResult, IdTagStatus,
}
use forgeos_web.Domain.Session.{ProtocolVersion}

-- The descriptions of malformed and unsupported messages, by kind.
pub data Description : Type 0 where
  bad_envelope : FrameFault → Description
  incomplete_boot missing_id_tag incomplete_start incomplete_meter no_samples : Description
  incomplete_stop : Description
  bad_status : Option Value → Description
  not_implemented : (action : String) → Description

pub record Wire : Type 0 where
  -- the instant of a timestamp, and the text of an instant (`new Date(t)`, `toISOString`)
  pub instant_of : String → ℕ
  pub iso_text : ℕ → String
  -- `Number(t)` where that is finite
  pub number_of : String → Option Decimal
  -- a reading as the integer that the column keeps
  pub integer_of : Decimal → ℤ
  pub describe : Description → String

pub data UnsupportedReason : Type 0 where
  unimplemented unrecognized : UnsupportedReason

pub data Inbound : Type 0 where
  event : NormalizedInboundEvent → Inbound
  unsupported_message : (action : String) → UnsupportedReason → Inbound
  malformed_message : Description → Inbound

abbrev get_field : Fields → String → Option Value
get_field Fields.end key = none
get_field (Fields.field k v rest) key = if string_eq.beq k key then some v else get_field rest key

-- `payload[key]`; an array has none of the keys that are read.
abbrev property : Value → String → Option Value
property (object fields) key = get_field fields key
property v key = none

abbrev as_text : Option Value → Option String
as_text (some (text t)) = some t
as_text v = none

abbrev as_number : Option Value → Option Decimal
as_number (some (number d)) = some d
as_number v = none

abbrev as_array : Option Value → Option Items
as_array (some (array items)) = some items
as_array v = none

abbrev non_empty : Option String → Option String
non_empty none = none
non_empty (some t) = if string_eq.beq t "" then none else some t

abbrev ocpp16_statuses : List (String × NormalizedDeviceStatus)
ocpp16_statuses =
    ("Available", NormalizedDeviceStatus.available)
    ∷ ("Preparing", NormalizedDeviceStatus.preparing)
    ∷ ("Charging", NormalizedDeviceStatus.charging)
    ∷ ("SuspendedEVSE", NormalizedDeviceStatus.suspended_evse)
    ∷ ("SuspendedEV", NormalizedDeviceStatus.suspended_ev)
    ∷ ("Finishing", NormalizedDeviceStatus.finishing)
    ∷ ("Reserved", NormalizedDeviceStatus.reserved)
    ∷ ("Unavailable", NormalizedDeviceStatus.unavailable)
    ∷ ("Faulted", NormalizedDeviceStatus.faulted)
    ∷ []

abbrev find_status : List (String × NormalizedDeviceStatus) → String → Option NormalizedDeviceStatus
find_status [] word = none
find_status ((w, status) ∷ rest) word =
    if string_eq.beq w word then some status else find_status rest word

abbrev map_ocpp16_status : Option String → Option NormalizedDeviceStatus
map_ocpp16_status none = none
map_ocpp16_status (some word) = find_status ocpp16_statuses word

abbrev boot_of : Option String → Option String → Option String → Inbound
boot_of (some vendor) (some model) firmware_version = event (
    NormalizedInboundEvent.device_boot
      (record { vendor = vendor; model = model; firmware_version = firmware_version }))
boot_of vendor model firmware_version = malformed_message incomplete_boot

unfoldable pub parse_boot_notification : Value → Inbound
parse_boot_notification payload =
    boot_of (as_text (property payload "chargePointVendor"))
      (as_text (property payload "chargePointModel")) (as_text (property payload "firmwareVersion"))

module _ (wire : Wire) where
  abbrev instant_or : ℕ → Option String → ℕ
  instant_or now none = now
  instant_or now (some t) = wire.instant_of t

  abbrev status_of : ℕ → Value → Option NormalizedDeviceStatus → Inbound
  status_of now payload none = malformed_message (bad_status (property payload "status"))
  status_of now payload (some status) = event (
      NormalizedInboundEvent.connector_status (record {
        connector_external_id = as_number (property payload "connectorId");
        status = status;
        error_code = as_text (property payload "errorCode");
        timestamp = instant_or now (as_text (property payload "timestamp"));
      }))

  unfoldable pub parse_status_notification : (now : ℕ) → Value → Inbound
  parse_status_notification now payload =
      status_of now payload (map_ocpp16_status (as_text (property payload "status")))

  abbrev start_of : Option Decimal → Option String → Option Decimal → Option String → Inbound
  start_of (some connector_id) (some id_tag) (some meter_start) (some timestamp) = event (
      NormalizedInboundEvent.transaction_start (record {
        connector_external_id = connector_id;
        id_tag = id_tag;
        meter_start = wire.integer_of meter_start;
        timestamp = wire.instant_of timestamp;
        protocol_version = ProtocolVersion.ocpp1_6j;
      }))
  start_of connector_id id_tag meter_start timestamp = malformed_message incomplete_start

  unfoldable pub parse_start_transaction : Value → Inbound
  parse_start_transaction payload =
      start_of (as_number (property payload "connectorId"))
        (non_empty (as_text (property payload "idTag"))) (as_number (property payload "meterStart"))
        (as_text (property payload "timestamp"))

  abbrev or_register : Option String → String
  or_register none = "Energy.Active.Import.Register"
  or_register (some measurand) = measurand

  abbrev sample_of : Value → Option Decimal → List MeterSample → List MeterSample
  sample_of raw none rest = rest
  sample_of raw (some value) rest =
      record {
        measurand = or_register (as_text (property raw "measurand"));
        value = value;
        unit = as_text (property raw "unit");
      }
      ∷ rest

  abbrev number_text : Option String → Option Decimal
  number_text none = none
  number_text (some t) = wire.number_of t

  -- The loop over `sampledValue`, in front of the samples of the entries that follow.
  samples_of : Items → List MeterSample → List MeterSample
  samples_of last rest = rest
  samples_of (item raw more) rest =
      sample_of raw (number_text (as_text (property raw "value"))) (samples_of more rest)

  abbrev entry_samples : Option Items → List MeterSample → List MeterSample
  entry_samples none rest = rest
  entry_samples (some sampled) rest = samples_of sampled rest

  unfoldable pub extract_meter_samples : Items → List MeterSample
  unfolding samples_of
  extract_meter_samples last = []
  extract_meter_samples (item entry more) =
      entry_samples (as_array (property entry "sampledValue")) (extract_meter_samples more)

  abbrev first_timestamp : Items → Option String
  first_timestamp last = none
  first_timestamp (item entry more) = as_text (property entry "timestamp")

  abbrev update_of : ℕ → Decimal → Items → List MeterSample → Inbound
  update_of now transaction_id meter_value [] = malformed_message no_samples
  update_of now transaction_id meter_value (v ∷ vs) = event (
      NormalizedInboundEvent.transaction_update (record {
        transaction_ref = transaction_id;
        values = v ∷ vs;
        timestamp = instant_or now (first_timestamp meter_value);
      }))

  abbrev meter_of : ℕ → Option Decimal → Option Items → Option Decimal → Inbound
  meter_of now (some connector_id) (some meter_value) (some transaction_id) =
      update_of now transaction_id meter_value (extract_meter_samples meter_value)
  meter_of now (some connector_id) (some meter_value) none =
      unsupported_message "MeterValues" unimplemented
  meter_of now connector_id meter_value transaction_id = malformed_message incomplete_meter

  unfoldable pub parse_meter_values : (now : ℕ) → Value → Inbound
  unfolding extract_meter_samples
  parse_meter_values now payload =
      meter_of now (as_number (property payload "connectorId"))
        (as_array (property payload "meterValue")) (as_number (property payload "transactionId"))

  abbrev stop_of : Option Decimal → Option Decimal → Option String → Option String → Inbound
  stop_of (some transaction_id) (some meter_stop) (some timestamp) reason = event (
      NormalizedInboundEvent.transaction_end (record {
        transaction_ref = transaction_id;
        meter_stop = wire.integer_of meter_stop;
        reason = reason;
        timestamp = wire.instant_of timestamp;
      }))
  stop_of transaction_id meter_stop timestamp reason = malformed_message incomplete_stop

  unfoldable pub parse_stop_transaction : Value → Inbound
  parse_stop_transaction payload =
      stop_of (as_number (property payload "transactionId"))
        (as_number (property payload "meterStop")) (as_text (property payload "timestamp"))
        (as_text (property payload "reason"))

  abbrev authorize_of : Option String → Inbound
  authorize_of none = malformed_message missing_id_tag
  authorize_of (some id_tag) = event (NormalizedInboundEvent.authorization id_tag)

  unfoldable pub parse_authorize : Value → Inbound
  parse_authorize payload = authorize_of (non_empty (as_text (property payload "idTag")))

  unfoldable pub parse_action : (now : ℕ) → (action : String) → Value → Inbound
  parse_action now action payload =
      if string_eq.beq action "BootNotification"
      then parse_boot_notification payload
      else if string_eq.beq action "Heartbeat"
      then event NormalizedInboundEvent.heartbeat
      else if string_eq.beq action "StatusNotification"
      then parse_status_notification now payload
      else if string_eq.beq action "Authorize"
      then parse_authorize payload
      else if string_eq.beq action "StartTransaction"
      then parse_start_transaction payload
      else if string_eq.beq action "MeterValues"
      then parse_meter_values now payload
      else if string_eq.beq action "StopTransaction"
      then parse_stop_transaction payload
      else unsupported_message action unimplemented

  abbrev inbound_of : ℕ → Envelope → Inbound
  inbound_of now (malformed fault) = malformed_message (bad_envelope fault)
  inbound_of now (message (OcppJMessage.call id action payload)) = parse_action now action payload
  inbound_of now (message (OcppJMessage.call_result id payload)) =
      unsupported_message "CALLRESULT" unrecognized
  inbound_of now (message (OcppJMessage.call_error id code description details)) =
      unsupported_message "CALLERROR" unrecognized

  unfoldable pub parse_inbound : (now : ℕ) → Value → Inbound
  unfolding parse_action
  parse_inbound now raw = inbound_of now (parse_ocpp_frame raw)
