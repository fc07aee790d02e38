-- ===== src/Commands/Request.antt =====
-- `requestCommand` of apps/movos-api/src/ocpp/remote-commands/remote-command.service.ts.
pub mod Answers
pub mod Checks
use forgeos_web.Base.{
  ℕ, Bool, true, false, ◌&&◌, ◌||◌, not, Option, none, some, List, [], ◌∷◌, ◌==◌, ltb, includes,
  length, is_none, is_some_of, if◌then◌else◌,
}
use forgeos_web.Base.Result.{
  Result, ok, err, not_found, conflict, bad_request, Exec, ◌>>=◌, ◌>>◌, pure, throw, gets, modify,
}
use forgeos_web.Domain.{Database, World, record_audit}
use forgeos_web.Domain.Audit.{
  AuditAction, AuditEvent, remote_command_requested, remote_command_sent, remote_command_accepted,
  remote_command_rejected, remote_command_timed_out,
}
use forgeos_web.Domain.Command.{
  CommandType, remote_start, remote_stop, reset, unlock_connector, change_availability,
  CommandState, requested, sent, accepted, rejected, timed_out, state_eq, OutboundFrame,
  remote_start_transaction, remote_stop_transaction, RemoteCommand,
}
use forgeos_web.Base.Decimal.{Decimal, whole}
use forgeos_web.Domain.Station.{number_of}
use forgeos_web.Domain.Connection.{ConnectionRecord}
use forgeos_web.Domain.Session.{
  active, offline, suspended, status_eq, ProtocolVersion, ocpp1_6j, ocpp2_0_1, ChargingSession,
}
use forgeos_web.Domain.Station.{
  ChargingStation, Connector, Credential, ConnectorStatus, CredentialStatus,
}
use forgeos_web.Connections
use forgeos_web.Sessions.{is_non_terminal}
use forgeos_web.Sessions.Creation.{find_non_terminal_session_for_connector}
use forgeos_web.Commands.{
  finalize, transition_and_persist, assert_no_conflicting_command, non_terminal_command_states,
}
use Prim.Native.String.{String}
use forgeos_web.Base.Text.{utf16_length}

pub record RequestRemoteCommandInput : Type 0 where
  pub organization_id : ℕ
  pub actor_user_id : ℕ
  pub charging_station_id : ℕ
  pub command_type : CommandType
  pub connector_id : Option ℕ
  pub charging_session_id : Option ℕ
  pub authorization_credential_id : Option ℕ

-- What comes back for the call: nothing in time, an error, or a result that says `Accepted` or not.
pub data Reply : Type 0 where
  timeout call_error : Reply
  call_result : (says_accepted : Bool) → Reply

-- What happens outside while the request waits: the writes of other requests before the row is
-- made and before the reply is known, the id of the message, and the reply.
pub record Exchange (db : Database) : Type 0 where
  pub before_insert : World db → World db
  pub meanwhile : World db → World db
  pub message_id : ℕ
  pub reply : Reply

-- The rows of a request's targets.
pub record Targets : Type 0 where
  pub station : ChargingStation
  pub connector : Option Connector
  pub session : Option ChargingSession
  pub credential : Option Credential

-- A row that was looked for, or a 404; a row that is not the caller's is not found.
unfoldable pub found_or_404 : {db : Database} {A : Type 0} → Option A → Exec (World db) A
found_or_404 none = throw not_found
found_or_404 (some a) = pure a

abbrev owned_station :
    {db : Database} → World db → (organization_id id : ℕ) → Option ChargingStation
owned_station {db} w organization_id id =
    db.stations.find_first w.stations (λ s. s.id == id && s.organization_id == organization_id)

abbrev owned_connector :
    {db : Database} → World db → (organization_id station_id id : ℕ) → Option Connector
owned_connector {db} w organization_id station_id id = db.connectors.find_first w.connectors (λ c.
    c.id == id && (c.charging_station_id == station_id && c.organization_id == organization_id))

abbrev owned_session :
    {db : Database} → World db → (organization_id station_id id : ℕ) → Option ChargingSession
owned_session {db} w organization_id station_id id = db.sessions.find_first w.sessions (λ s.
    s.id == id && (s.organization_id == organization_id && s.charging_station_id == station_id))

abbrev pub owned_credential :
    {db : Database} → World db → (organization_id id : ℕ) → Option Credential
owned_credential {db} w organization_id id =
    db.credentials.find_first w.credentials
      (λ c. c.id == id && c.organization_id == organization_id)

abbrev is_active_credential : CredentialStatus → Bool
is_active_credential CredentialStatus.active = true
is_active_credential _ = false

abbrev is_expired : (now : ℕ) → Option ℕ → Bool
is_expired now none = false
is_expired now (some t) = ltb t now

-- ACTIVE and not expired
abbrev pub is_usable : (now : ℕ) → Credential → Bool
is_usable now c = is_active_credential c.status && not (is_expired now c.expires_at)

unfoldable pub get_owned_active_credential :
    {db : Database} → (organization_id id : ℕ) → Exec (World db) Credential
get_owned_active_credential organization_id id = do
  row ← gets (λ w. owned_credential w organization_id id)
  credential ← found_or_404 row
  now ← gets (λ w. w.now)
  if not (is_usable now credential) then throw bad_request else pure credential

unfoldable pub find_connector :
    {db : Database} → RequestRemoteCommandInput → Option ℕ → Exec (World db) (Option Connector)
find_connector input none = pure none
find_connector input (some id) = do
  row ← gets (λ w. owned_connector w input.organization_id input.charging_station_id id)
  connector ← found_or_404 row
  pure (some connector)

unfoldable pub find_session :
    {db : Database}
    → RequestRemoteCommandInput
    → Option ℕ
    → Exec (World db) (Option ChargingSession)
find_session input none = pure none
find_session input (some id) = do
  row ← gets (λ w. owned_session w input.organization_id input.charging_station_id id)
  session ← found_or_404 row
  pure (some session)

-- `connector ??= findUnique(session.connectorId)`
abbrev connector_of :
    {db : Database} → World db → Option Connector → Option ChargingSession → Option Connector
connector_of w (some c) session = some c
connector_of w none none = none
connector_of {db} w none (some s) = db.connectors.find_unique w.connectors s.connector_id

abbrev pub is_free_status : ConnectorStatus → Bool
is_free_status ConnectorStatus.available = true
is_free_status _ = false

-- The checks of a RemoteStart, in their order.
unfoldable pub check_remote_start :
    {db : Database}
    → RequestRemoteCommandInput
    → Option Connector
    → Option ℕ
    → Exec (World db) (Option Credential)
check_remote_start input none credential_id = throw bad_request
check_remote_start input (some connector) none = throw bad_request
check_remote_start input (some connector) (some credential_id) = do
  credential ← get_owned_active_credential input.organization_id credential_id
  conflicting ← gets (find_non_terminal_session_for_connector connector.id)
  let too_long = ltb 20 (utf16_length credential.external_identifier)
  if not (is_free_status connector.status)
      then throw bad_request
      else if not (is_none conflicting)
      then throw conflict
      else if too_long
      then throw bad_request
      else pure (some credential)

abbrev pub is_stoppable : Option ChargingSession → Bool
is_stoppable none = false
is_stoppable (some s) = includes status_eq (active ∷ offline ∷ suspended ∷ []) s.status

unfoldable pub check_type :
    {db : Database}
    → RequestRemoteCommandInput
    → CommandType
    → Option Connector
    → Option ChargingSession
    → Exec (World db) (Option Credential)
check_type input remote_start connector session =
    check_remote_start input connector input.authorization_credential_id
check_type input remote_stop connector session =
    if not (is_stoppable session) then throw bad_request else pure none
check_type input _ connector session = pure none

unfoldable pub resolve_targets :
    {db : Database} → RequestRemoteCommandInput → Exec (World db) Targets
resolve_targets input = do
  row ← gets (λ w. owned_station w input.organization_id input.charging_station_id)
  station ← found_or_404 row
  named ← find_connector input input.connector_id
  session ← find_session input input.charging_session_id
  connector ← gets (λ w. connector_of w named session)
  credential ← check_type input input.command_type connector session
  pure (record {
    station = station;
    connector = connector;
    session = session;
    credential = credential;
  })

abbrev pub id_of_connector : Option Connector → Option ℕ
id_of_connector none = none
id_of_connector (some c) = some c.id

abbrev id_of_session : Option ChargingSession → Option ℕ
id_of_session none = none
id_of_session (some s) = some s.id

-- The unique index of the migrations: one active command for a station and connector.
abbrev pub clashes : (station_id : ℕ) → Option ℕ → RemoteCommand → Bool
clashes station_id none c = false
clashes station_id (some connector) c =
    c.charging_station_id == station_id
    && (is_some_of c.connector_id connector
        && includes state_eq non_terminal_command_states c.state)

abbrev pub new_command : (id now : ℕ) → RequestRemoteCommandInput → Targets → RemoteCommand
new_command id now input targets = record {
  id = id;
  organization_id = input.organization_id;
  charging_station_id = input.charging_station_id;
  connector_id = id_of_connector targets.connector;
  charging_session_id = id_of_session targets.session;
  command_type = input.command_type;
  state = requested;
  requested_by_user_id = input.actor_user_id;
  protocol_message_id = none;
  requested_at = now;
  sent_at = none;
  accepted_at = none;
  resolved_at = none;
  request_payload = none;
}

unfoldable pub insert_command :
    {db : Database} → RequestRemoteCommandInput → Targets → Exec (World db) RemoteCommand
insert_command {db} input targets w =
    let row = new_command (db.commands.fresh w.commands) w.now input targets in
    elim (db.commands.find_first w.commands
      (clashes input.charging_station_id (id_of_connector targets.connector))) [
        | some other ↦ (err conflict, w)
        | none ↦ (ok row, record w { commands = db.commands.put w.commands row })
      ]

-- `Number(connectorExternalId)`; none is NaN, which JSON writes as null.
abbrev external_of : Option Connector → Option Decimal
external_of none = some (whole 0)
external_of (some c) = number_of c.external_id

abbrev id_tag_of : Option Credential → String
id_tag_of none = ""
id_tag_of (some c) = c.external_identifier

abbrev transaction_of : Option ChargingSession → ℕ
transaction_of none = 0
transaction_of (some s) = s.protocol_transaction_id

-- `adapterFor(version).formatOutbound(buildNormalizedCommand(...))`; none where the adapter throws
-- that the command is not supported. `Number('')` is 0.
unfoldable pub format_outbound : ProtocolVersion → CommandType → Targets → Option OutboundFrame
format_outbound ocpp1_6j remote_start t =
    some (remote_start_transaction (external_of t.connector) (id_tag_of t.credential))
format_outbound ocpp1_6j remote_stop t = some (remote_stop_transaction (transaction_of t.session))
format_outbound _ _ t = none

abbrev connection_of : {db : Database} → World db → Option ℕ → Option ConnectionRecord
connection_of w none = none
connection_of w (some identity) = Connections.get w.registry identity

-- The call that can be made, if the station is connected and its protocol has the command.
unfoldable pub outbound_call :
    {db : Database} → World db → CommandType → Targets → Option OutboundFrame
outbound_call w type targets = elim (connection_of w targets.station.ocpp_identity) [
  | none ↦ none
  | some connection ↦ format_outbound connection.protocol_version type targets
]

unfoldable pub reject_before_send : {db : Database} → RemoteCommand → Exec (World db) RemoteCommand
reject_before_send command = finalize command rejected remote_command_rejected (λ r. r) true

unfoldable pub settle_reply :
    {db : Database} → RemoteCommand → Reply → Exec (World db) RemoteCommand
settle_reply command timeout = finalize command timed_out remote_command_timed_out (λ r. r) true
settle_reply command call_error = finalize command rejected remote_command_rejected (λ r. r) true
settle_reply command (call_result true) = do
  now ← gets (λ w. w.now)
  finalize command accepted remote_command_accepted (λ r. record r { accepted_at = some now }) false
settle_reply command (call_result false) =
    finalize command rejected remote_command_rejected (λ r. r) true

abbrev pub on_the_wire : (message_id now : ℕ) → OutboundFrame → RemoteCommand → RemoteCommand
on_the_wire message_id now frame r = record r {
  sent_at = some now;
  protocol_message_id = some message_id;
  request_payload = some frame;
}

-- The row becomes SENT only after the reply, or its absence, is known.
unfoldable pub exchange :
    {db : Database}
    → Exchange db
    → RemoteCommand
    → Option OutboundFrame
    → Exec (World db) RemoteCommand
exchange env command none = reject_before_send command
exchange env command (some frame) = do
  modify env.meanwhile
  now ← gets (λ w. w.now)
  on_wire ← transition_and_persist command sent (on_the_wire env.message_id now frame)
  record_audit (record { action = remote_command_sent; subject_id = on_wire.id })
  settle_reply on_wire env.reply

-- The rest of the request, once its targets are known to be the caller's and fit for it.
unfoldable pub request_targets :
    {db : Database}
    → Exchange db
    → RequestRemoteCommandInput
    → Targets
    → Exec (World db) RemoteCommand
request_targets env input targets = do
  assert_no_conflicting_command input.charging_station_id (id_of_connector targets.connector)
  modify env.before_insert
  command ← insert_command input targets
  record_audit (record { action = remote_command_requested; subject_id = command.id })
  call ← gets (λ w. outbound_call w input.command_type targets)
  exchange env command call

unfoldable pub request_command :
    {db : Database} → Exchange db → RequestRemoteCommandInput → Exec (World db) RemoteCommand
request_command env input = do targets ← resolve_targets input; request_targets env input targets

pub request_remote_start :
    {db : Database}
    → Exchange db
    → (organization_id actor_user_id connector_id credential_id : ℕ) → Exec (World db) RemoteCommand
request_remote_start {db} env organization_id actor_user_id connector_id credential_id = do
  row ← gets (λ w.
      db.connectors.find_first w.connectors
        (λ c. c.id == connector_id && c.organization_id == organization_id))
  connector ← found_or_404 row
  request_command env (record {
    organization_id = organization_id;
    actor_user_id = actor_user_id;
    charging_station_id = connector.charging_station_id;
    command_type = remote_start;
    connector_id = some connector.id;
    charging_session_id = none;
    authorization_credential_id = some credential_id;
  })

pub request_remote_stop :
    {db : Database}
    → Exchange db
    → (organization_id actor_user_id session_id : ℕ) → Exec (World db) RemoteCommand
request_remote_stop {db} env organization_id actor_user_id session_id = do
  row ← gets (λ w.
      db.sessions.find_first w.sessions
        (λ s. s.id == session_id && s.organization_id == organization_id))
  session ← found_or_404 row
  request_command env (record {
    organization_id = organization_id;
    actor_user_id = actor_user_id;
    charging_station_id = session.charging_station_id;
    command_type = remote_stop;
    connector_id = none;
    charging_session_id = some session.id;
    authorization_credential_id = none;
  })
