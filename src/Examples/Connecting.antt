-- ===== src/Examples/Connecting.antt =====
-- The properties of connections and connectivity at concrete states.
use forgeos_web.Base.{ℕ, ◌≡◌, ◌⊎◌, refl, true, false, none, some, List, [], ◌∷◌}
use mathlib.Core.Option
use forgeos_web.Base.JsMap
use forgeos_web.Base.Result.{ok}
use forgeos_web.Domain.{World}
use forgeos_web.Domain.Session.{SessionStatus, ChargingSession, ProtocolVersion}
use forgeos_web.Domain.Station.{ConnectivityStatus}
use forgeos_web.Domain.Connection.{ConnectionRecord, clean}
use forgeos_web.Sessions.{session_at}
use forgeos_web.Connections.{get, register, unregister, force_disconnect, is_connected}
use forgeos_web.Connections.Liveness.{
  RegistryEvent, run, empty, believed, IsSynced, empty-IsSynced, run-IsSynced,
  force_disconnect_unnoticed,
}
use forgeos_web.Connections.Refinement.{
  RegistryOp, event, forces, apply_all, view_all, apply_all-view_all,
}
use forgeos_web.Connectivity.{
  ConnectionClosedInput, ConnectionEstablishedInput, handle_connection_closed,
  handle_connection_established,
}
use forgeos_web.Connectivity.Closing.{taken_offline, handle_connection_closed_outcome}
use forgeos_web.Connectivity.Recovery.{Untouched, Resumes, handle_connection_established_outcome}
use forgeos_web.Examples.{sample_db, session_of, station_of, sample, one_connection}

abbrev some_events : List RegistryEvent
some_events =
    RegistryEvent.registers 10 7 5 ProtocolVersion.ocpp1_6j 100
    ∷ RegistryEvent.touches 20 7
    ∷ RegistryEvent.sweeps 400000
    ∷ RegistryEvent.unregisters 7 100
    ∷ []

run-IsSynced_example : IsSynced (run some_events empty)
run-IsSynced_example = run-IsSynced some_events empty empty-IsSynced

abbrev registry_ops : List RegistryOp
registry_ops =
    event (RegistryEvent.registers 10 7 5 ProtocolVersion.ocpp1_6j 100)
    ∷ event (RegistryEvent.registers 15 8 6 ProtocolVersion.ocpp1_6j 101)
    ∷ event (RegistryEvent.touches 400000 8)
    ∷ event (RegistryEvent.sweeps 400001)
    ∷ event (RegistryEvent.unregisters 8 100)
    ∷ forces 7
    ∷ []

apply_all-view_all_example : get (apply_all registry_ops empty) ≡ view_all registry_ops (λ j. none)
apply_all-view_all_example = apply_all-view_all registry_ops

one_connection-IsSynced : IsSynced one_connection
one_connection-IsSynced =
    run-IsSynced (RegistryEvent.registers 10 7 5 ProtocolVersion.ocpp1_6j 100 ∷ []) empty
      empty-IsSynced

one_connection-is_connected : is_connected one_connection 7 ≡ true
unfolding is_connected register JsMap.get JsMap.put
one_connection-is_connected = refl

force_disconnect_unnoticed_example :
    let r' = unregister 7 100 (force_disconnect 7 one_connection) in
    (is_connected r' 7 ≡ false) × (believed r'.notified 7 ≡ true)
force_disconnect_unnoticed_example =
    force_disconnect_unnoticed 7 100 one_connection one_connection-IsSynced
      one_connection-is_connected

abbrev first_record : ConnectionRecord
first_record = record {
  ocpp_identity = 7;
  charging_station_id = 5;
  protocol_version = ProtocolVersion.ocpp1_6j;
  socket = 100;
  connected_at = 10;
  last_message_at = 10;
}

one_connection-get : get one_connection 7 ≡ some first_record
unfolding get register JsMap.get JsMap.put
one_connection-get = refl

abbrev closing : ConnectionClosedInput
closing = record { charging_station_id = 5; ocpp_identity = 7; reason = clean }

handle_connection_closed_outcome_example :
    (w' : World sample_db) × (handle_connection_closed closing sample ≡ (ok tt, w'))
    × ((j : ℕ) → session_at w' j ≡ Option.map (taken_offline sample 5) (session_at sample j))
handle_connection_closed_outcome_example =
    handle_connection_closed_outcome closing sample (station_of ConnectivityStatus.online) refl

abbrev connecting : ConnectionEstablishedInput
connecting = record {
  charging_station_id = 5;
  ocpp_identity = 7;
  protocol_version = ProtocolVersion.ocpp1_6j;
}

handle_connection_established_outcome_example :
    (w' : World sample_db) × (handle_connection_established connecting sample ≡ (ok tt, w'))
    × (Untouched sample w' ⊎ ((s : ChargingSession) × Resumes sample w' 5 s))
handle_connection_established_outcome_example =
    handle_connection_established_outcome connecting sample (station_of ConnectivityStatus.online)
      refl

abbrev two_offline : World sample_db
two_offline = record sample {
  sessions = session_of 1 1 SessionStatus.offline ∷ session_of 2 2 SessionStatus.offline ∷ [];
}
