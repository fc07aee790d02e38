-- ===== src/Examples/Commanding.antt =====
-- The properties of remote commands at concrete states.
use forgeos_web.Base.Decimal.{whole}
use forgeos_web.Domain.Station.{digits}
use forgeos_web.Base.{ℕ, ◌≡◌, refl, true, false, ◌&&◌, Option, none, some, [], ◌∷◌, is_none}
use forgeos_web.Base.Result.{ok, err, invalid_transition}
use forgeos_web.Base.JsMap
use forgeos_web.Domain.{World}
use forgeos_web.Domain.Audit.{
  remote_command_unconfirmed, remote_command_accepted, remote_command_sent,
  remote_command_requested,
}
use forgeos_web.Domain.Command.{
  CommandState, RemoteCommand, accepted, unconfirmed, sent, requested, remote_start, remote_stop,
  remote_stop_transaction, OutboundFrame, remote_start_transaction,
}
use forgeos_web.Connections
use forgeos_web.Base.{◌≤◌}
use forgeos_web.Domain.Station.{Connector, ConnectorStatus, Credential, CredentialStatus}
use forgeos_web.Sessions.Creation
use forgeos_web.Sessions.Occupancy.{IsFree}
use forgeos_web.Commands.Request.{check_remote_start, is_usable, is_free_status}
use forgeos_web.Commands.Request.Checks.{check_remote_start_sound}
use forgeos_web.Examples.{sample_db, sample, one_connection}
use forgeos_web.Commands
use forgeos_web.Commands.{command_at}
use forgeos_web.Commands.Request
use forgeos_web.Commands.Request.{Exchange, Reply, RequestRemoteCommandInput, request_command}
use forgeos_web.Commands.Request.Answers.{is_answered, is_ended, request_command_answered}
use forgeos_web.Commands.Settlement.{
  confirms, expires, settle, settle_outcome, settle_once, written,
}
use forgeos_web.Base.Text.{utf16_length}

abbrev pub command_of : (id : ℕ) → CommandState → RemoteCommand
command_of id state = record {
  id = id;
  organization_id = 1;
  charging_station_id = 5;
  connector_id = some 9;
  charging_session_id = none;
  command_type = remote_start;
  state = state;
  requested_by_user_id = 4;
  protocol_message_id = some 77;
  requested_at = 1000;
  sent_at = some 1000;
  accepted_at = some 1000;
  resolved_at = none;
  request_payload = some (remote_start_transaction (some (whole 1)) "A");
}

abbrev waiting : World sample_db
waiting = record sample { commands = command_of 1 accepted ∷ [] }

abbrev given_up : RemoteCommand
given_up = record (command_of 1 accepted) { state = unconfirmed; resolved_at = some 1000 }

abbrev after_giving_up : World sample_db
after_giving_up = written remote_command_unconfirmed waiting given_up

settle_outcome_example : settle expires 1 waiting ≡ (ok given_up, after_giving_up)
settle_outcome_example = settle_outcome expires 1 waiting (command_of 1 accepted) refl

gave_up : settle expires 1 waiting ≡ (ok given_up, after_giving_up)
gave_up = settle_outcome expires 1 waiting (command_of 1 accepted) refl

settle_once_example :
    settle (confirms (some 8)) 1 after_giving_up ≡ (err invalid_transition, after_giving_up)
settle_once_example =
    settle_once expires (confirms (some 8)) 1 waiting after_giving_up given_up gave_up

abbrev exchanged : Exchange sample_db
exchanged = record {
  before_insert = λ w. w;
  meanwhile = λ w. w;
  message_id = 77;
  reply = Reply.call_result true;
}

-- Station 5 is connected, and its session 1 is active.
abbrev ready : World sample_db
ready = record sample { registry = one_connection }

abbrev stop_input : RequestRemoteCommandInput
stop_input = record {
  organization_id = 1;
  actor_user_id = 4;
  charging_station_id = 5;
  command_type = remote_stop;
  connector_id = none;
  charging_session_id = some 1;
  authorization_credential_id = none;
}

abbrev stop_command : CommandState → Option ℕ → Option ℕ → Option OutboundFrame → RemoteCommand
stop_command state sent_time accepted_time frame = record {
  id = 0;
  organization_id = 1;
  charging_station_id = 5;
  connector_id = none;
  charging_session_id = some 1;
  command_type = remote_stop;
  state = state;
  requested_by_user_id = 4;
  protocol_message_id = elim sent_time [ none ↦ none | some t ↦ some 77 ];
  requested_at = 1000;
  sent_at = sent_time;
  accepted_at = accepted_time;
  resolved_at = none;
  request_payload = frame;
}

abbrev frame_sent : Option OutboundFrame
frame_sent = some (remote_stop_transaction 101)

abbrev stop_accepted : RemoteCommand
stop_accepted = stop_command accepted (some 1000) (some 1000) frame_sent

abbrev after_stop : World sample_db
after_stop = record ready {
  commands =
      stop_accepted
      ∷ stop_command sent (some 1000) none frame_sent
      ∷ stop_command requested none none none
      ∷ [];
  audit =
      record { action = remote_command_accepted; subject_id = 0 }
      ∷ record { action = remote_command_sent; subject_id = 0 }
      ∷ record { action = remote_command_requested; subject_id = 0 }
      ∷ [];
}

stop_requested : request_command exchanged stop_input ready ≡ (ok stop_accepted, after_stop)
unfolding Request.request_command Request.request_targets Request.resolve_targets
    Request.found_or_404 Request.find_connector Request.find_session Request.check_type
    Commands.assert_no_conflicting_command Commands.targets_same Request.insert_command
    Request.exchange Request.outbound_call Connections.get JsMap.get Connections.register JsMap.put
    Request.format_outbound Commands.transition_and_persist Commands.update_command
    Request.reject_before_send Request.settle_reply Commands.finalize
stop_requested = refl

request_command_answered_example :
    (is_answered stop_accepted.state ≡ true)
    × (command_at after_stop 0 ≡ some stop_accepted)
    × ((is_ended stop_accepted.state && is_none stop_accepted.resolved_at) ≡ false)
request_command_answered_example =
    request_command_answered exchanged stop_input ready after_stop stop_accepted stop_requested

abbrev free_connector : Connector
free_connector = record {
  id = 9;
  evse_id = 3;
  charging_station_id = 5;
  organization_id = 1;
  external_id = digits 1;
  status = ConnectorStatus.available;
}

abbrev good_credential : Credential
good_credential = record {
  id = 2;
  organization_id = 1;
  external_identifier = "AB";
  status = CredentialStatus.active;
  expires_at = some 5000;
}

abbrev startable : World sample_db
startable = record ready { connectors = free_connector ∷ []; credentials = good_credential ∷ [] }

abbrev start_input : RequestRemoteCommandInput
start_input = record {
  organization_id = 1;
  actor_user_id = 4;
  charging_station_id = 5;
  command_type = remote_start;
  connector_id = some 9;
  charging_session_id = none;
  authorization_credential_id = some 2;
}

start_checked :
    check_remote_start start_input (some free_connector) (some 2) startable
    ≡ (ok (some good_credential), startable)
unfolding Request.check_remote_start Request.get_owned_active_credential Request.found_or_404
    Creation.find_non_terminal_session_for_connector
start_checked = refl

check_remote_start_sound_example :
    (q : Credential) × (some good_credential ≡ some q)
    × (startable ≡ startable)
    × (is_usable 1000 q ≡ true)
    × (q.organization_id ≡ 1)
    × (is_free_status ConnectorStatus.available ≡ true)
    × IsFree 9 startable
    × (utf16_length q.external_identifier ≤ 20)
check_remote_start_sound_example =
    check_remote_start_sound start_input free_connector 2 startable startable (some good_credential)
      start_checked
