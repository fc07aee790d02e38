-- ===== src/Ocpp/Normalization.antt =====
-- apps/movos-api/src/ocpp/normalization: protocol words as domain words.
use Prim.Native.String.{String}
use forgeos_web.Base.{Option, none, some, List, [], ◌∷◌, if◌then◌else◌}
use forgeos_web.Base.JsMap.{nat_eq, string_eq}
use forgeos_web.Ocpp.Events.{NormalizedDeviceStatus, IdTagStatus}
use forgeos_web.Domain.Station.{ConnectorStatus}
use forgeos_web.Domain.Session.{TerminationReason}
use forgeos_web.Domain.Telemetry.{AuthAttemptResult}

unfoldable pub map_to_connector_status : NormalizedDeviceStatus → ConnectorStatus
map_to_connector_status NormalizedDeviceStatus.available = ConnectorStatus.available
map_to_connector_status NormalizedDeviceStatus.preparing = ConnectorStatus.occupied
map_to_connector_status NormalizedDeviceStatus.charging = ConnectorStatus.charging
map_to_connector_status NormalizedDeviceStatus.suspended_ev = ConnectorStatus.occupied
map_to_connector_status NormalizedDeviceStatus.suspended_evse = ConnectorStatus.occupied
map_to_connector_status NormalizedDeviceStatus.finishing = ConnectorStatus.occupied
map_to_connector_status NormalizedDeviceStatus.reserved = ConnectorStatus.reserved
map_to_connector_status NormalizedDeviceStatus.unavailable = ConnectorStatus.unavailable
map_to_connector_status NormalizedDeviceStatus.faulted = ConnectorStatus.faulted
map_to_connector_status NormalizedDeviceStatus.offline = ConnectorStatus.offline

-- The words of StopTransaction.reason; every other one is UNKNOWN.
abbrev pub stop_reasons : List (String × TerminationReason)
stop_reasons =
    ("Local", TerminationReason.user_cancelled)
    ∷ ("EmergencyStop", TerminationReason.emergency_stop)
    ∷ ("EVDisconnected", TerminationReason.cable_disconnected)
    ∷ ("HardReset", TerminationReason.station_reboot)
    ∷ ("Reboot", TerminationReason.station_reboot)
    ∷ ("SoftReset", TerminationReason.station_reboot)
    ∷ ("PowerLoss", TerminationReason.power_loss)
    ∷ ("Remote", TerminationReason.remote_stop)
    ∷ ("UnlockCommand", TerminationReason.user_cancelled)
    ∷ []

abbrev find_reason : List (String × TerminationReason) → String → TerminationReason
find_reason [] word = TerminationReason.unknown
find_reason ((w, reason) ∷ rest) word =
    if string_eq.beq w word then reason else find_reason rest word

unfoldable pub map_stop_reason : Option String → TerminationReason
map_stop_reason none = TerminationReason.normal_completion
map_stop_reason (some word) =
    if string_eq.beq word ""
    then TerminationReason.normal_completion
    else find_reason stop_reasons word

unfoldable pub id_tag_status_for : AuthAttemptResult → IdTagStatus
id_tag_status_for AuthAttemptResult.accepted = IdTagStatus.accepted
id_tag_status_for AuthAttemptResult.offline_accepted = IdTagStatus.accepted
id_tag_status_for AuthAttemptResult.revoked = IdTagStatus.blocked
id_tag_status_for AuthAttemptResult.rejected = IdTagStatus.blocked
id_tag_status_for AuthAttemptResult.expired = IdTagStatus.expired
id_tag_status_for AuthAttemptResult.unknown = IdTagStatus.invalid
