-- ===== src/Commands.antt =====
-- apps/movos-api/src/ocpp/remote-commands: the state machine of remote commands and the writes of
-- remote-command.service.ts that follow it. The request itself is in Commands/Request.
pub mod Settlement
pub mod Request
pub mod Confirmation
use forgeos_web.Base.{
  ℕ, Bool, true, false, ◌&&◌, ◌||◌, not, Option, none, some, List, [], ◌∷◌, ◌==◌, includes, is_none,
  is_some_of, if◌then◌else◌,
}
use forgeos_web.Base.Result.{
  Result, ok, err, not_found, conflict, invalid_transition, Exec, ◌>>=◌, ◌>>◌, pure, throw, gets,
}
use forgeos_web.Domain.{Database, World, record_audit}
use forgeos_web.Domain.Audit.{
  AuditAction, AuditEvent, remote_command_confirmed, remote_command_unconfirmed,
}
use forgeos_web.Domain.Command.{
  CommandState, requested, sent, accepted, confirmed, rejected, timed_out, unconfirmed, state_eq,
  RemoteCommand,
}

abbrev pub allowed_command_transitions : CommandState → List CommandState
allowed_command_transitions requested = sent ∷ rejected ∷ []
allowed_command_transitions sent = accepted ∷ rejected ∷ timed_out ∷ []
allowed_command_transitions accepted = confirmed ∷ unconfirmed ∷ []
allowed_command_transitions rejected = []
allowed_command_transitions timed_out = []
allowed_command_transitions confirmed = []
allowed_command_transitions unconfirmed = []

abbrev pub terminal_command_states : List CommandState
terminal_command_states = rejected ∷ timed_out ∷ confirmed ∷ unconfirmed ∷ []

abbrev pub non_terminal_command_states : List CommandState
non_terminal_command_states = requested ∷ sent ∷ accepted ∷ []

abbrev pub can_transition_remote_command : CommandState → CommandState → Bool
can_transition_remote_command from to = includes state_eq (allowed_command_transitions from) to

abbrev pub command_at : {db : Database} → World db → ℕ → Option RemoteCommand
command_at {db} w id = db.commands.find_unique w.commands id

unfoldable pub require_command : {db : Database} → ℕ → Exec (World db) RemoteCommand
require_command id w = elim (command_at w id) [
  | none ↦ (err not_found, w)
  | some command ↦ (ok command, w)
]

unfoldable pub update_command :
    {db : Database} → ℕ → (RemoteCommand → RemoteCommand) → Exec (World db) RemoteCommand
update_command {db} id change w = elim (command_at w id) [
  | none ↦ (err not_found, w)
  | some row ↦ (ok (change row), record w { commands = db.commands.put w.commands (change row) })
]

-- The state that is checked is that of the command in memory.
unfoldable pub transition_and_persist :
    {db : Database}
    → RemoteCommand
    → CommandState
    → (RemoteCommand → RemoteCommand)
    → Exec (World db) RemoteCommand
transition_and_persist command target change =
    if can_transition_remote_command command.state target
    then update_command command.id (λ r. record (change r) { state = target })
    else throw invalid_transition

abbrev pub resolved_when : Bool → ℕ → RemoteCommand → RemoteCommand
resolved_when true now r = record r { resolved_at = some now }
resolved_when false now r = r

unfoldable pub finalize :
    {db : Database}
    → RemoteCommand
    → CommandState
    → AuditAction
    → (RemoteCommand → RemoteCommand)
    → (terminal : Bool) → Exec (World db) RemoteCommand
finalize command target action change terminal = do
  now ← gets (λ w. w.now)
  updated ← transition_and_persist command target (λ r. resolved_when terminal now (change r))
  record_audit (record { action = action; subject_id = updated.id })
  pure updated

-- The data of `confirmCommand`: a session is linked where the command has none.
abbrev pub link_session : Option ℕ → RemoteCommand → RemoteCommand → RemoteCommand
link_session none loaded r = r
link_session (some session) loaded r =
    if is_none loaded.charging_session_id
    then record r { charging_session_id = some session }
    else r

unfoldable pub confirm_command : {db : Database} → ℕ → Option ℕ → Exec (World db) RemoteCommand
confirm_command id session = do
  command ← require_command id
  finalize command confirmed remote_command_confirmed (link_session session command) true

unfoldable pub mark_unconfirmed : {db : Database} → ℕ → Exec (World db) RemoteCommand
mark_unconfirmed id = do
  command ← require_command id
  finalize command unconfirmed remote_command_unconfirmed (λ r. r) true

unfoldable pub targets_same : (station_id : ℕ) → Option ℕ → RemoteCommand → Bool
targets_same station_id none c =
    c.charging_station_id == station_id && includes state_eq non_terminal_command_states c.state
targets_same station_id (some connector) c =
    c.charging_station_id == station_id
    && (includes state_eq non_terminal_command_states c.state
        && (is_none c.connector_id || is_some_of c.connector_id connector))

unfoldable pub assert_no_conflicting_command :
    {db : Database} → ℕ → Option ℕ → Exec (World db) (Unit {0})
assert_no_conflicting_command {db} station_id connector_id w =
    elim (db.commands.find_first w.commands (targets_same station_id connector_id)) [
      | none ↦ (ok tt, w)
      | some c ↦ (err conflict, w)
    ]
